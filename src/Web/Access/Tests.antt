-- ===== src/Web/Access/Tests.antt =====
-- A staff member who may update one person.
use real_time_surveillance_a.Base.{
  ◌<◌, String, ◌≡◌, refl, ◌⊎◌, true, false, none, some, List, [], ◌∷◌, comparable_nat,
  comparable_text, comparable_pair, any_of, count_if, contains, ok, is_ok,
}
use real_time_surveillance_a.Dict.{lookup}
use real_time_surveillance_a.Web.Access.{
  Permission, CurrentUser, grants, matching_permission, owner_denied, id_denied, resources_of,
  role_allows, is_privileged, authorize, assert_can_manage_target,
}
use real_time_surveillance_a.Web.Access.LastAdmin.{
  User, License, is_valid, is_operational, currently_operational, remains_operational, remaining,
  is_other, protect_last_super_admin, protect_last_super_admin-keeps,
}
use real_time_surveillance_a.Web.Access.Grants.{
  IsGranted, authorize-IsGranted, rank, assert_can_manage_target-rank,
}

abbrev update_one : Permission
update_one = record {
  resource = some "persons";
  actions = "update" ∷ [];
  owner_only = false;
  allowed_resource_ids = some ("p1" ∷ []);
}

abbrev member : CurrentUser
member = record { id = "u1"; role = "staff"; permissions = update_one ∷ [] }

abbrev boss : CurrentUser
boss = record { id = "u2"; role = "admin"; permissions = [] }

allows_one : authorize member "persons" "update" none (some "p1") ≡ ok (some update_one)
unfolding authorize grants matching_permission owner_denied id_denied role_allows resources_of
    lookup contains
allows_one = refl

refuses_another : is_ok (authorize member "persons" "update" none (some "p2")) ≡ false
unfolding authorize grants matching_permission owner_denied id_denied role_allows resources_of
    lookup contains
refuses_another = refl

authorize-IsGranted_example :
    (role_allows "staff" "persons" ≡ true)
    × ((is_privileged "staff" ≡ true)
        ⊎ ((p : Permission) × (some update_one ≡ some p)
            × IsGranted (update_one ∷ []) "persons" "update" p
            × (owner_denied p none member ≡ false)
            × (id_denied p (some "p1") ≡ false)))
authorize-IsGranted_example =
    authorize-IsGranted member "persons" "update" none (some "p1") (some update_one) allows_one

manages_staff : is_ok (assert_can_manage_target boss "staff") ≡ true
unfolding assert_can_manage_target
manages_staff = refl

assert_can_manage_target-rank_example : (boss.role ≡ "super_admin") ⊎ (rank "staff" < rank "admin")
assert_can_manage_target-rank_example = assert_can_manage_target-rank boss "staff" manages_staff

abbrev root : User
root = record { id = "r"; role = "super_admin"; is_active = true; is_deleted = false }

abbrev deputy : User
deputy = record { id = "d"; role = "super_admin"; is_active = true; is_deleted = false }

abbrev license_of : String → License
license_of user_id = record {
  id = user_id;
  user_id = user_id;
  is_active = true;
  valid_from = 1;
  valid_until = 9;
}

abbrev both_licenses : List License
both_licenses = license_of "r" ∷ license_of "d" ∷ []

some_operational : any_of (is_operational 5 both_licenses) (root ∷ deputy ∷ []) ≡ true
unfolding is_operational is_valid any_of
some_operational = refl

may_remove :
    is_ok (protect_last_super_admin 5 (root ∷ deputy ∷ []) both_licenses "r" "super_admin" none)
    ≡ true
unfolding protect_last_super_admin currently_operational remains_operational remaining
    is_operational is_valid any_of count_if
may_remove = refl

may_remove_expired :
    is_ok (protect_last_super_admin 9 (root ∷ []) both_licenses "r" "super_admin" none) ≡ true
unfolding protect_last_super_admin currently_operational remains_operational remaining
    is_operational is_valid any_of count_if
may_remove_expired = refl

protect_last_super_admin-keeps_example :
    (any_of (is_other 5 both_licenses "r") (root ∷ deputy ∷ []) ≡ true)
    ⊎ (remains_operational 5 both_licenses "r" none ≡ true)
protect_last_super_admin-keeps_example =
    protect_last_super_admin-keeps 5 (root ∷ deputy ∷ []) both_licenses "r" none some_operational
      may_remove
