-- ===== src/Tests/RoleTests.antt =====
-- Roles, access and invitations at concrete inputs.
use waldur_core.Prelude.{
  ◌≡◌, refl, true, false, none, some, List, [], ◌∷◌, inl, arith, returned, count, any,
}
use waldur_core.Structure.Permissions.{
  Structure, now, at, has_user, add_user, check_expired_permissions, role_granted,
}
use waldur_core.Structure.Permissions.Signals.{IsBalanced}
use waldur_core.Structure.Permissions.Expiry.{
  has_user-check_expired_permissions, Call, add, remove, check, apply_all, apply_all-IsBalanced,
}
use waldur_core.Structure.Access.{User, Project}
use waldur_core.Users.Invitations.{World, Settings, accept, accepted, pending, grant}
use waldur_core.Users.Invitations.Laws.{
  cancels, accepts, expires, steps, steps-final, accept-Granted, Granted, structures,
}

abbrev nobody : Structure
nobody = record { permissions = []; signals = [] }

nobody-IsBalanced : IsBalanced nobody
unfolding count
nobody-IsBalanced = record { at_role = λ v q. (omega arith, refl) }

-- User 7 is an owner until moment 10.
abbrev owned : Structure
owned = record {
  permissions =
      record {
        user = 7;
        role = "owner";
        is_active = some true;
        created_by = none;
        expiration_time = some 10;
      }
      ∷ [];
  signals = role_granted 7 "owner" none ∷ [];
}

abbrev calls : List Call
calls =
    add 7 "owner" none (some 10)
    ∷ add 7 "owner" none none
    ∷ check 11
    ∷ add 7 "owner" none none
    ∷ remove 12 7 none none
    ∷ []

has_user-check_expired_permissions_example :
    has_user 7
      (some "owner")
      now
      (check_expired_permissions 11 (apply_all (add 7 "owner" none (some 10) ∷ []) nobody))
    ≡ has_user 7 (some "owner") (at 11) (apply_all (add 7 "owner" none (some 10) ∷ []) nobody)
has_user-check_expired_permissions_example =
    has_user-check_expired_permissions 11 7 "owner"
      (apply_all (add 7 "owner" none (some 10) ∷ []) nobody)
      (apply_all-IsBalanced (add 7 "owner" none (some 10) ∷ []) nobody nobody-IsBalanced)

abbrev ann : User
ann = record {
  id = 7;
  is_staff = false;
  is_support = false;
  email = "ann@a.ee";
  civil_number = "38";
}

abbrev shop : Project
shop = record { structure = nobody; customer = owned }

abbrev settings : Settings
settings = record {
  owners_can_manage_owners = true;
  validate_invitation_email = false;
  invitation_lifetime = 100;
}

abbrev invited : World
invited = record {
  invitation = record {
    state = pending;
    created = 3;
    created_by = some 1;
    customer_role = some "owner";
    project_role = none;
    email = "ann@b.ee";
    civil_number = "38";
  };
  customer = nobody;
  project = none;
  letters = 1;
}

abbrev joined : World
joined = record invited {
  invitation = record invited.invitation { state = accepted };
  customer = (add_user 7 "owner" (some 1) none nobody).1;
}

accepts_run :
    accept settings ann true invited ≡ (returned (record ann { email = "ann@b.ee" }), joined)
unfolding accept grant has_user any
accepts_run = refl

accept-Granted_example :
    (invited.invitation.state ≡ pending)
    × (joined.invitation.state ≡ accepted)
    × (joined.letters ≡ invited.letters)
    × Granted settings ann none
        (some "owner")
        (structures settings invited)
        (structures settings joined)
accept-Granted_example =
    accept-Granted settings ann (record ann { email = "ann@b.ee" }) true invited joined accepts_run

steps-final_example :
    steps settings (cancels ann ∷ accepts ann false ∷ expires 500 ∷ []) joined ≡ joined
steps-final_example =
    steps-final settings (cancels ann ∷ accepts ann false ∷ expires 500 ∷ []) joined (inl refl)
