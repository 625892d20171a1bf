-- ===== src/Structure/Access.antt =====
-- waldur_core/structure/permissions.py, and `can_manage_role` and `can_user_update_quotas` of
-- `Customer` and `Project` in structure/models.py.
pub mod Laws
use text.Mathlib.Text.{◌==◌ as str_eq}
use waldur_core.Prelude.{
  ℕ, Bool, true, false, not, ◌&&◌, ◌||◌, Option, none, some, String, if◌then◌else◌,
}
use waldur_core.Structure.Permissions.{Structure, Timestamp, now, has_user}

-- The fields of a user that the code reads.
pub record User : Type 0 where
  pub id : ℕ
  pub is_staff : Bool
  pub is_support : Bool
  pub email : String
  pub civil_number : String

-- `CustomerRole` and `ProjectRole`
abbrev pub owner : String
owner = "owner"

abbrev pub manager : String
manager = "manager"

abbrev pub administrator : String
administrator = "admin"

-- A project with its customer.
pub record Project : Type 0 where
  pub structure : Structure
  pub customer : Structure

-- `_has_owner_access`
unfoldable pub has_owner_access : User → Structure → Bool
has_owner_access user customer = user.is_staff || has_user user.id (some owner) now customer

-- `_has_manager_access`
unfoldable pub has_manager_access : User → Project → Bool
unfolding has_owner_access
has_manager_access user project =
    has_owner_access user project.customer || has_user user.id (some manager) now project.structure

-- `_has_admin_access`
unfoldable pub has_admin_access : User → Project → Bool
unfolding has_manager_access
has_admin_access user project =
    has_manager_access user project || has_user user.id (some administrator) now project.structure

-- `is_owner`, `is_manager` and `is_administrator` raise `PermissionDenied` unless this is true; a
-- view that has no object yet is not checked.
unfoldable pub is_owner : User → Option Project → Bool
unfolding has_owner_access
is_owner user none = true
is_owner user (some project) = has_owner_access user project.customer

unfoldable pub is_manager : User → Option Project → Bool
unfolding has_manager_access
is_manager user none = true
is_manager user (some project) = has_manager_access user project

unfoldable pub is_administrator : User → Option Project → Bool
unfolding has_admin_access
is_administrator user none = true
is_administrator user (some project) = has_admin_access user project

-- `Customer.can_manage_role`, with the setting `OWNERS_CAN_MANAGE_OWNERS`.
unfoldable pub customer_can_manage_role : Bool → User → Timestamp → Structure → Bool
customer_can_manage_role owners_can_manage_owners user timestamp customer =
    user.is_staff || (has_user user.id (some owner) timestamp customer && owners_can_manage_owners)

-- `Project.can_manage_role`
unfoldable pub project_can_manage_role : User → String → Timestamp → Project → Bool
project_can_manage_role user role timestamp project =
    if user.is_staff
    then true
    else if has_user user.id (some owner) timestamp project.customer
    then true
    else str_eq role administrator && has_user user.id (some manager) timestamp project.structure

-- `Project.can_user_update_quotas`
unfoldable pub can_user_update_quotas : User → Project → Bool
can_user_update_quotas user project =
    user.is_staff || has_user user.id (some owner) now project.customer
