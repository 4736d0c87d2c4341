-- ===== src/Web/Access.antt =====
-- apps/webapp-backend/app/services/rbac_service.py: who may do what. Identifiers are their texts;
-- a permission of the database holds its constraints, where a missing one is false or absent.
use real_time_surveillance_a.Base.{
  ℕ, zero, suc, ◌+◌, ◌-◌, ◌*◌, ◌/◌, ◌%◌, ◌≤◌, ◌<◌, min, max, String, ◌≡◌, refl, sym, ap, ◌∙◌, subst,
  ◌≢◌, ◌↔◌, ◌⊎◌, inl, inr, Bool, true, false, not, ◌&&◌, ◌||◌, Option, none, some, List, [], ◌∷◌,
  ◌++◌, map, arith, ltb, leb, if◌then◌else◌, Bool-cases, if_elim, Option-cases, is_some, Comparable,
  ◌==◌, ==_refl, comparable_nat, comparable_text, comparable_pair, length, length-append, last?,
  last?-snoc, keep_last, length-keep_last, keep_last-short, keep_last-snoc, keep_last-append, All,
  All-append, All-keep_last, All-map, keep_if, any_of, count_if, contains, Result, ok, err, ◌>>=◌,
  ◌>>◌, raise_if, is_ok, Result-cases, Ensures, Ensures-bind, ℤ, pos, negsuc, is_negative,
}
use real_time_surveillance_a.Dict.{Dict, lookup}
pub mod Grants
pub mod LastAdmin
mod Tests

pub record Permission : Type 0 where
  pub resource : Option String
  pub actions : List String
  pub owner_only : Bool
  pub allowed_resource_ids : Option (List String)

pub record CurrentUser : Type 0 where
  pub id : String
  pub role : String
  pub permissions : List Permission

-- The errors, all of status 403.
pub data Forbidden : Type 0 where
  role_denied permission_required ownership_denied resource_denied higher_privileged : Forbidden

abbrev pub role_resources : Dict String (List String)
role_resources =
    ("super_admin", "*" ∷ [])
    ∷ ("admin", "users" ∷ "licenses" ∷ "persons" ∷ "cameras" ∷ "analytics" ∷ [])
    ∷ ("staff", "persons" ∷ [])
    ∷ ("va_user", "cameras" ∷ "analytics" ∷ "sync" ∷ [])
    ∷ []

unfoldable pub resources_of : String → List String
resources_of role = elim (lookup role role_resources) [ none ↦ [] | some resources ↦ resources ]

unfoldable pub grants : Permission → String → String → Bool
grants p resource action = elim p.resource [
  | none ↦ false
  | some name ↦
      (name == resource || name == "*") && (contains action p.actions || contains "*" p.actions)
]

unfoldable pub matching_permission : List Permission → String → String → Option Permission
matching_permission [] resource action = none
matching_permission (p ∷ ps) resource action =
    let rest = matching_permission ps resource action in
    if grants p resource action then some p else rest

unfoldable pub owner_denied : Permission → Option String → CurrentUser → Bool
owner_denied p owner_id user =
    p.owner_only && elim owner_id [ none ↦ true | some owner ↦ not (owner == user.id) ]

unfoldable pub id_denied : Permission → Option String → Bool
id_denied p resource_id = elim p.allowed_resource_ids [
  | none ↦ false
  | some ids ↦ elim resource_id [ none ↦ true | some id ↦ not (contains id ids) ]
]

unfoldable pub role_allows : String → String → Bool
unfolding resources_of
role_allows role resource =
    contains "*" (resources_of role) || contains resource (resources_of role)

abbrev pub is_privileged : String → Bool
is_privileged role = role == "super_admin" || role == "admin"

unfoldable pub authorize :
    CurrentUser
    → String
    → String
    → Option String
    → Option String
    → Result Forbidden (Option Permission)
unfolding role_allows matching_permission owner_denied id_denied
authorize user resource action owner_id resource_id =
    if not (role_allows user.role resource)
    then err role_denied
    else if is_privileged user.role
    then ok none
    else elim (matching_permission user.permissions resource action) [
      | none ↦ err permission_required
      | some p ↦
          if owner_denied p owner_id user
          then err ownership_denied
          else if id_denied p resource_id
          then err resource_denied
          else ok (some p)
    ]

unfoldable pub assert_can_manage_target : CurrentUser → String → Result Forbidden (Unit {0})
assert_can_manage_target actor target_role =
    if actor.role == "super_admin"
    then ok tt
    else if not (actor.role == "admin") || not (target_role == "staff" || target_role == "va_user")
    then err higher_privileged
    else ok tt
