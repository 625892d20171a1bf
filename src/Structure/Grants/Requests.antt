-- ===== src/Structure/Grants/Requests.antt =====
-- Requests on permissions by users who are not staff, and how long the roles last.
use waldur_core.Structure.Grants.Ends.{
  all_end_by-put_structure, ends_by-structure_of, all_end_by-grant_role, all_end_by-revoke_role,
}
use waldur_core.Prelude.{
  ℕ, ◌≡◌, refl, Bool, true, false, not, Option, none, some, List, [], ◌∷◌, String, arith, Outcome,
  returned, raised, Bool-cases, inl, inr, ap, mem, all, continue, ◌∙◌,
}
use waldur_core.Structure.Permissions.{Structure, Permission, has_user, now}
use waldur_core.Structure.Access.{User}
use waldur_core.Quotas.Table
use waldur_core.Quotas.Table.{Table, set_quota_usage, validate_quota_change}
use waldur_core.Structure.Grants.{
  Scope, Scopes, GrantError, structure_of, can_manage_role, timestamp_of, grant_role, is_past,
  raise_quota, check_user_quota, create_permission, get_permission, same_time, Requested,
  requested_time, save_expiration, update_permission_row, update_found, update_permission,
  destroy_found, destroy_permission, get_users,
}
use waldur_core.Structure.Grants.Lasting.{
  within, ends_by, all_end_by, can_manage_role-within, ends_by-set_expiration,
}

pub data Event : Type 0 where
  create : User → ℕ → Scope → ℕ → String → Option ℕ → Event
  update : User → ℕ → Scope → ℕ → String → Requested → Event
  destroy : User → ℕ → Scope → ℕ → String → Event

unfoldable pub step : Bool → Event → Scopes → Scopes
unfolding create_permission update_permission destroy_permission
step owners (create by moment scope user role e) w =
    (create_permission owners by moment scope user role e w).1
step owners (update by moment scope user role e) w =
    (update_permission owners by moment scope user role e w).1
step owners (destroy by moment scope user role) w =
    (destroy_permission owners by moment scope user role w).1

unfoldable pub steps : Bool → List Event → Scopes → Scopes
unfolding step
steps owners [] w = w
steps owners (e ∷ es) w = steps owners es (step owners e w)

-- The request is not made by staff.
abbrev pub is_plain : Event → Bool
is_plain (create by moment scope user role e) = not by.is_staff
is_plain (update by moment scope user role e) = not by.is_staff
is_plain (destroy by moment scope user role) = not by.is_staff

raise_quota_unchanged :
    (r : Outcome Table.Error (List String)) (w : Scopes) → (raise_quota r w).1 ≡ w
unfolding raise_quota
raise_quota_unchanged (returned errors) w = refl
raise_quota_unchanged (raised e) w = refl

pub check_user_quota_unchanged : (user : ℕ) (w : Scopes) → (check_user_quota user w).1 ≡ w
unfolding check_user_quota
check_user_quota_unchanged user w = elim (Bool-cases (mem user (get_users w))) [
  | inl e ↦ rw e refl
  | inr e ↦ rw e (raise_quota_unchanged _ w)
]

all_end_by-checked :
    (last : ℕ) (scope : Scope) (user : ℕ) (role : String) (by : ℕ) (e : Option ℕ) (before : Scopes)
    (r : Outcome GrantError (Unit {0}) × Scopes)
    → r.1 ≡ before
    → all_end_by last before ≡ true
    → within last e ≡ true
    → all_end_by last (continue r.0 (λ a. grant_role scope user role by e) r.1).1 ≡ true
all_end_by-checked last scope user role by e before (returned a, w) same h k =
    all_end_by-grant_role last scope user role by e w (ap (all_end_by last) same ∙ h) k
all_end_by-checked last scope user role by e before (raised error, w) same h k =
    ap (all_end_by last) same ∙ h

all_end_by-create_permission :
    (last : ℕ) (owners : Bool) (by : User) (moment : ℕ) (scope : Scope) (user : ℕ) (role : String)
    (e : Option ℕ) (w : Scopes)
    → by.is_staff ≡ false
    → all_end_by last w ≡ true
    → all_end_by last (create_permission owners by moment scope user role e w).1 ≡ true
unfolding create_permission
all_end_by-create_permission last owners by moment scope user role e w plain h =
    elim (Bool-cases (is_past moment e)) [
      | inl past ↦ rw past h
      | inr future ↦ elim (Bool-cases (has_user user none now (structure_of scope w))) [
        | inl old ↦ rw (future, old) h
        | inr new ↦ elim (Bool-cases (can_manage_role owners by scope role (timestamp_of e) w)) [
          | inl can ↦
              rw (future, new, can)
                (all_end_by-checked last scope user role by.id e w (check_user_quota user w)
                  (check_user_quota_unchanged user w) h
                  (can_manage_role-within last owners by scope role e w plain can h))
          | inr cannot ↦ rw (future, new, cannot) h
        ]
      ]
    ]

ends_by-save_expiration :
    (last user : ℕ) (role : String) (e : Requested) (s : Structure)
    → ends_by last s ≡ true
    → within last (requested_time e) ≡ true
    → ends_by last (save_expiration user role e s) ≡ true
unfolding requested_time save_expiration
ends_by-save_expiration last user role none s h k = h
ends_by-save_expiration last user role (some e) s h k =
    ends_by-set_expiration last user role e s h k

all_end_by-update_permission_row :
    (last : ℕ) (owners : Bool) (by : User) (scope : Scope) (user : ℕ) (role : String)
    (e : Requested) (p : Permission) (w : Scopes)
    → by.is_staff ≡ false
    → all_end_by last w ≡ true
    → all_end_by last (update_permission_row owners by scope user role e p w).1 ≡ true
unfolding update_permission_row all_end_by
all_end_by-update_permission_row last owners by scope user role e p w plain h =
    elim (Bool-cases (same_time (requested_time e) p.expiration_time)) [
      | inl same ↦ rw same h
      | inr other ↦
          elim (Bool-cases
            (can_manage_role owners by scope p.role (timestamp_of (requested_time e)) w)) [
              | inl can ↦
                  rw (other, can)
                    (all_end_by-put_structure last scope
                      (save_expiration user role e (structure_of scope w)) w
                      (ends_by-save_expiration last user role e (structure_of scope w)
                        (ends_by-structure_of last scope w h)
                        (can_manage_role-within last owners by scope p.role (requested_time e) w
                          plain can h))
                      h)
              | inr cannot ↦ rw (other, cannot) h
            ]
    ]

all_end_by-update_found :
    (last : ℕ) (owners : Bool) (by : User) (moment : ℕ) (scope : Scope) (user : ℕ) (role : String)
    (e : Requested) (found : Option Permission) (w : Scopes)
    → by.is_staff ≡ false
    → all_end_by last w ≡ true
    → all_end_by last (update_found owners by moment scope user role e found w).1 ≡ true
unfolding update_found
all_end_by-update_found last owners by moment scope user role e none w plain h = h
all_end_by-update_found last owners by moment scope user role e (some p) w plain h =
    elim (Bool-cases (is_past moment (requested_time e))) [
      | inl past ↦ rw past h
      | inr future ↦
          rw future (all_end_by-update_permission_row last owners by scope user role e p w plain h)
    ]

all_end_by-destroy_found :
    (last : ℕ) (owners : Bool) (by : User) (moment : ℕ) (scope : Scope) (user : ℕ) (role : String)
    (found : Option Permission) (w : Scopes)
    → all_end_by last w ≡ true
    → all_end_by last (destroy_found owners by moment scope user role found w).1 ≡ true
unfolding destroy_found
all_end_by-destroy_found last owners by moment scope user role none w h = h
all_end_by-destroy_found last owners by moment scope user role (some p) w h =
    elim (Bool-cases (can_manage_role owners by scope p.role (timestamp_of p.expiration_time) w)) [
      | inl can ↦ rw can (all_end_by-revoke_role last moment scope user role by.id w h)
      | inr cannot ↦ rw cannot h
    ]

all_end_by-step :
    (last : ℕ) (owners : Bool) (e : Event) (w : Scopes)
    → is_plain e ≡ true
    → all_end_by last w ≡ true
    → all_end_by last (step owners e w) ≡ true
unfolding step update_permission destroy_permission
all_end_by-step last owners (create by moment scope user role e) w p h =
    all_end_by-create_permission last owners by moment scope user role e w (ground arith) h
all_end_by-step last owners (update by moment scope user role e) w p h =
    all_end_by-update_found last owners by moment scope user role e
      (get_permission scope user role w) w (ground arith) h
all_end_by-step last owners (destroy by moment scope user role) w p h =
    all_end_by-destroy_found last owners by moment scope user role
      (get_permission scope user role w) w h

-- If all roles in force in a customer and its project expire by a moment, this is so after any
-- requests to create, update and delete permissions by users who are not staff, so that no one
-- gives a role that outlasts those of the owners and managers.
pub all_end_by-steps :
    (last : ℕ) (owners : Bool) (es : List Event) (w : Scopes)
    → all is_plain es ≡ true
    → all_end_by last w ≡ true
    → all_end_by last (steps owners es w) ≡ true
unfolding steps all
all_end_by-steps last owners [] w p h = h
all_end_by-steps last owners (e ∷ es) w p h =
    all_end_by-steps last owners es (step owners e w) (ground arith)
      (all_end_by-step last owners e w (ground arith) h)
