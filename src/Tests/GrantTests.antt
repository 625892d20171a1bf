-- ===== src/Tests/GrantTests.antt =====
-- Requests on permissions at a concrete customer.
use waldur_core.Prelude.{
  ◌≡◌, refl, true, false, none, some, List, [], ◌∷◌, any, all, filter, find, mem, raised,
}
use waldur_core.Prelude.Int.{pos}
use waldur_core.Quotas.Table.{get, is_at, validate_quota_change, set_quota_usage}
use waldur_core.Prelude.Int.{◌+ℤ◌}
use waldur_core.Structure.Permissions.{has_user, is_true, add_user}
use waldur_core.Structure.Access.{User, project_can_manage_role}
use waldur_core.Structure.Grants.{
  Scopes, in_project, create_permission, update_permission, permission_denied, get_users,
  active_users, distinct,
}
use waldur_core.Structure.Grants.Lasting.{all_end_by, ends_by, row_ends_by}
use waldur_core.Structure.Grants.Requests.{create, update, destroy, Event, steps, all_end_by-steps}
use waldur_core.Structure.Grants.Errors.{answer}
use waldur_core.Structure.Grants.Counted.{IsCounted, is_allowed}
use waldur_core.Structure.Grants.Bounded.{steps-IsCounted}

abbrev alice : User
alice = record { id = 1; is_staff = false; is_support = false; email = ""; civil_number = "" }

-- Alice owns the customer until 100, and one more user may be connected.
abbrev scopes : Scopes
scopes = record {
  number = 7;
  customer = record {
    permissions =
        record {
          user = 1;
          role = "owner";
          is_active = some true;
          created_by = none;
          expiration_time = some 100;
        }
        ∷ [];
    signals = [];
  };
  project = record { permissions = []; signals = [] };
  quotas =
      record { scope = 7; name = "nc_user_count"; limit = pos 2; usage = pos 1; threshold = pos 0 }
      ∷ [];
  updated = [];
}

abbrev requests : List Event
requests =
    create alice 10 in_project 2 "admin" (some 90)
    ∷ create alice 20 in_project 3 "admin" (some 90)
    ∷ update alice 30 in_project 2 "admin" none
    ∷ update alice 35 in_project 2 "admin" (some (some 80))
    ∷ destroy alice 40 in_project 2 "admin"
    ∷ []

all_end_by-steps_example : all_end_by 100 (steps true requests scopes) ≡ true
unfolding all all_end_by ends_by row_ends_by is_true
all_end_by-steps_example = all_end_by-steps 100 true requests scopes refl refl

steps-IsCounted_example : IsCounted (steps true requests scopes)
unfolding get get_users active_users distinct is_true filter mem is_allowed is_at
steps-IsCounted_example = steps-IsCounted true requests scopes (record {
  row = record {
    scope = 7;
    name = "nc_user_count";
    limit = pos 2;
    usage = pos 1;
    threshold = pos 0;
  };
  found = refl;
  usage = refl;
  allowed = refl;
})

-- With the limit reached a third user is refused.
abbrev full : Scopes
full = record scopes {
  quotas =
      record { scope = 7; name = "nc_user_count"; limit = pos 1; usage = pos 1; threshold = pos 0 }
      ∷ [];
}

-- Alice may not leave out the expiration time: it is read as a change to a permanent role.
update_without_time :
    (answer true
      (update alice 30 in_project 2 "admin" none)
      (steps true (create alice 10 in_project 2 "admin" (some 90) ∷ []) scopes)).0
    ≡ raised permission_denied
unfolding answer steps create_permission update_permission has_user any project_can_manage_role mem
    filter validate_quota_change ◌+ℤ◌ get_users active_users distinct is_true get is_at find
    add_user set_quota_usage
update_without_time = refl
