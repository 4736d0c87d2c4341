-- ===== src/Web/Access/Grants.antt =====
-- What an authorization rests on.
use real_time_surveillance_a.Base.{
  ℕ, ◌<◌, String, ◌≡◌, ap, ◌⊎◌, inl, inr, true, false, ◌||◌, Option, some, List, [], ◌∷◌, arith,
  if◌then◌else◌, Bool-cases, Option-cases, ◌==◌, comparable_nat, comparable_text, comparable_pair,
  ok, is_ok,
}
use real_time_surveillance_a.Web.Access.{
  Permission, CurrentUser, grants, matching_permission, owner_denied, id_denied, role_allows,
  is_privileged, authorize, assert_can_manage_target,
}

-- The permission is one of the list and grants the action on the resource.
abbrev pub IsGranted : List Permission → String → String → Permission → Type 0
IsGranted [] resource action p = ⊥
IsGranted (q ∷ qs) resource action p =
    ((p ≡ q) × (grants q resource action ≡ true)) ⊎ IsGranted qs resource action p

matching_permission-IsGranted :
    (ps : List Permission) (resource action : String) (p : Permission)
    → matching_permission ps resource action ≡ some p
    → IsGranted ps resource action p
unfolding matching_permission
matching_permission-IsGranted [] resource action p h = ground arith
matching_permission-IsGranted (q ∷ qs) resource action p h =
    elim (Bool-cases (grants q resource action)) [
      | inl e ↦ inl (ground arith, e)
      | inr e ↦ inr (matching_permission-IsGranted qs resource action p (ground arith))
    ]

-- An authorization always needs the role to allow the resource; a role other than the two
-- privileged ones needs one of the user's own permissions that grants the action, whose owner and
-- resource constraints hold.
pub authorize-IsGranted :
    (user : CurrentUser) (resource action : String) (owner_id resource_id : Option String)
    (granted : Option Permission)
    → authorize user resource action owner_id resource_id ≡ ok granted
    → (role_allows user.role resource ≡ true)
      × ((is_privileged user.role ≡ true)
          ⊎ ((p : Permission) × (granted ≡ some p)
              × IsGranted user.permissions resource action p
              × (owner_denied p owner_id user ≡ false)
              × (id_denied p resource_id ≡ false)))
unfolding authorize
authorize-IsGranted user resource action owner_id resource_id granted h =
    elim (Bool-cases (role_allows user.role resource)) [
      | inr e ↦ ground arith
      | inl e ↦ elim (Bool-cases (is_privileged user.role)) [
        | inl e' ↦ (e, inl e')
        | inr e' ↦ elim (Option-cases (matching_permission user.permissions resource action)) [
          | inl m ↦ ground arith
          | inr (p, m) ↦
              let found = matching_permission-IsGranted user.permissions resource action p m in
              (e, inr (p, ground arith, found, ground arith, ground arith))
        ]
      ]
    ]

abbrev pub rank : String → ℕ
rank role = if role == "super_admin" then 3 else if role == "admin" then 2 else 1

managed-rank : (role : String) → (role == "staff" || role == "va_user") ≡ true → rank role ≡ 1
managed-rank role h = elim (Bool-cases (role == "staff")) [
  | inl e ↦ ap rank ((comparable_text.same_iff role "staff").0 e)
  | inr e ↦ elim (Bool-cases (role == "va_user")) [
    | inl e' ↦ ap rank ((comparable_text.same_iff role "va_user").0 e')
    | inr e' ↦ ground arith
  ]
]

admin-rank : (role : String) → (role == "admin") ≡ true → rank role ≡ 2
admin-rank role h = ap rank ((comparable_text.same_iff role "admin").0 h)

-- Whoever may manage an account is a super-admin, or ranks strictly above it.
pub assert_can_manage_target-rank :
    (actor : CurrentUser) (target_role : String)
    → is_ok (assert_can_manage_target actor target_role) ≡ true
    → (actor.role ≡ "super_admin") ⊎ (rank target_role < rank actor.role)
unfolding assert_can_manage_target
assert_can_manage_target-rank actor target_role h =
    elim (Bool-cases (actor.role == "super_admin")) [
      | inl e ↦ inl ((comparable_text.same_iff actor.role "super_admin").0 e)
      | inr e ↦ elim (Bool-cases (actor.role == "admin")) [
        | inr e' ↦ ground arith
        | inl e' ↦ elim (Bool-cases (target_role == "staff" || target_role == "va_user")) [
          | inr e'' ↦ ground arith
          | inl e'' ↦ inr (omega (arith, managed-rank target_role e'', admin-rank actor.role e'))
        ]
      ]
    ]
