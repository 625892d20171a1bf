-- ===== src/Structure/Grants/Errors.antt =====
-- Requests on permissions that are refused, also after a row was written.
use waldur_core.Prelude.{◌≡◌, Bool, Outcome, raised}
use waldur_core.Structure.Permissions.{Structure}
use waldur_core.Structure.Grants.{
  Scopes, GrantError, create_permission, update_permission, destroy_permission,
}
use waldur_core.Structure.Grants.Requests.{Event, create, update, destroy}

-- A result that leaves the state as it was, if it is an exception.
unfoldable pub Unchanged : Scopes → Outcome GrantError (Unit {0}) × Scopes → Type 0
Unchanged before r = (e : GrantError) → r.0 ≡ raised e → r.1 ≡ before

-- What a request returns or raises, with the state after it.
unfoldable pub answer : Bool → Event → Scopes → Outcome GrantError (Unit {0}) × Scopes
unfolding create_permission update_permission destroy_permission
answer owners (create by moment scope user role e) w =
    create_permission owners by moment scope user role e w
answer owners (update by moment scope user role e) w =
    update_permission owners by moment scope user role e w
answer owners (destroy by moment scope user role) w =
    destroy_permission owners by moment scope user role w
