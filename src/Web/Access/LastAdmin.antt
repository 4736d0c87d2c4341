-- ===== src/Web/Access/LastAdmin.antt =====
-- `protect_last_super_admin`, on the tables `auth.users` and `rbac.licenses`; the queries of one
-- transaction read one state of them and one time.
use real_time_surveillance_a.Base.{
  ℕ, String, ◌≡◌, refl, ◌⊎◌, inl, inr, Bool, true, false, not, ◌&&◌, Option, none, some, List, [],
  ◌∷◌, arith, ltb, leb, if◌then◌else◌, Bool-cases, ◌==◌, comparable_nat, comparable_text,
  comparable_pair, any_of, count_if, Result, ok, err, is_ok,
}

pub record User : Type 0 where
  pub id : String
  pub role : String
  pub is_active : Bool
  pub is_deleted : Bool

pub record License : Type 0 where
  pub id : String
  pub user_id : String
  pub is_active : Bool
  pub valid_from : ℕ
  pub valid_until : ℕ

pub data Conflict : Type 0 where
  last_super_admin : Conflict

unfoldable pub is_valid : ℕ → License → Bool
is_valid now l = l.is_active && leb l.valid_from now && ltb now l.valid_until

unfoldable pub is_operational : ℕ → List License → User → Bool
unfolding is_valid
is_operational now licenses u =
    u.role == "super_admin"
    && u.is_active
    && not u.is_deleted
    && any_of (λ l. l.user_id == u.id && is_valid now l) licenses

unfoldable pub currently_operational : ℕ → List User → List License → String → Bool
unfolding is_operational
currently_operational now users licenses target =
    any_of (λ u. u.id == target && is_operational now licenses u) users

-- A licence other than the excluded one keeps the target operational.
unfoldable pub remains_operational : ℕ → List License → String → Option String → Bool
unfolding is_valid
remains_operational now licenses target none = false
remains_operational now licenses target (some excluded) =
    any_of (λ l. l.user_id == target && not (l.id == excluded) && is_valid now l) licenses

abbrev pub is_other : ℕ → List License → String → User → Bool
is_other now licenses target u = not (u.id == target) && is_operational now licenses u

unfoldable pub remaining : ℕ → List User → List License → String → ℕ
remaining now users licenses target = count_if (is_other now licenses target) users

unfoldable pub protect_last_super_admin :
    ℕ → List User → List License → String → String → Option String → Result Conflict (Unit {0})
unfolding currently_operational remains_operational remaining
protect_last_super_admin now users licenses target target_role excluded =
    if not (target_role == "super_admin")
    then ok tt
    else if not (currently_operational now users licenses target)
    then ok tt
    else if remains_operational now licenses target excluded
    then ok tt
    else if remaining now users licenses target == 0
    then err last_super_admin
    else ok tt

any_of-split :
    {A : Type 0} (p q : A → Bool) (xs : List A)
    → any_of p xs ≡ true
    → any_of (λ x. q x && p x) xs ≡ false
    → any_of (λ x. not (q x) && p x) xs ≡ true
unfolding any_of
any_of-split p q [] h k = h
any_of-split p q (x ∷ xs) h k = ground (arith, any_of-split p q xs)

count_if-any_of :
    {A : Type 0} (p : A → Bool) (xs : List A) → any_of p xs ≡ false → count_if p xs ≡ 0
unfolding any_of count_if
count_if-any_of p [] h = refl
count_if-any_of p (x ∷ xs) h = ground (arith, count_if-any_of p xs)

-- When the check of a super-admin's account passes and some super-admin is operational, then
-- after the mutation one still is: another account, or the target itself by another licence.
pub protect_last_super_admin-keeps :
    (now : ℕ) (users : List User) (licenses : List License) (target : String)
    (excluded : Option String)
    → any_of (is_operational now licenses) users ≡ true
    → is_ok (protect_last_super_admin now users licenses target "super_admin" excluded) ≡ true
    → (any_of (is_other now licenses target) users ≡ true)
      ⊎ (remains_operational now licenses target excluded ≡ true)
unfolding protect_last_super_admin currently_operational remaining
protect_last_super_admin-keeps now users licenses target excluded some_admin h =
    elim (Bool-cases (any_of (is_other now licenses target) users)) [
      | inl e ↦ inl e
      | inr e ↦ elim (Bool-cases (remains_operational now licenses target excluded)) [
        | inl e' ↦ inr e'
        | inr e' ↦
            let none_left = count_if-any_of (is_other now licenses target) users e in
            elim (Bool-cases (currently_operational now users licenses target)) [
              | inl c ↦ ground (arith, none_left)
              | inr c ↦ inl (
                  any_of-split (is_operational now licenses) (λ u. u.id == target) users some_admin
                    c)
            ]
      ]
    ]
