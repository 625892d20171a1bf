-- ===== src/Structure/Grants/Bounded.antt =====
-- The quota of users over any requests on permissions.
use waldur_core.Prelude.{
  ℕ, ◌≡◌, refl, Bool, ◌&&◌, Option, none, some, List, [], ◌∷◌, ◌++◌, String, arith, filter, map,
  if◌then◌else◌, Bool-cases, inl, inr, ap,
}
use waldur_core.Structure.Permissions.{
  Permission, Structure, is_true, is_active_of, has_role, has_user, now,
}
use waldur_core.Structure.Access.{User}
use waldur_core.Structure.Grants.{
  Scope, in_customer, in_project, Scopes, structure_of, put_structure, active_users,
  can_manage_role, timestamp_of, get_users, distinct, is_past, create_permission, get_permission,
  same_time, set_expiration, Requested, requested_time, save_expiration, update_permission_row,
  update_found, update_permission, destroy_found, destroy_permission,
}
use waldur_core.Structure.Grants.Requests.{Event, create, update, destroy, step, steps}
use waldur_core.Structure.Grants.Users.{number-put_structure, quotas-put_structure}
use waldur_core.Structure.Grants.Counted.{IsCounted}
use waldur_core.Structure.Grants.Limited.{checked-IsCounted, revoke_role-IsCounted}

create_permission-IsCounted :
    (owners : Bool) (by : User) (moment : ℕ) (scope : Scope) (user : ℕ) (role : String)
    (e : Option ℕ) (w : Scopes)
    → IsCounted w
    → IsCounted (create_permission owners by moment scope user role e w).1
unfolding create_permission
create_permission-IsCounted owners by moment scope user role e w c =
    elim (Bool-cases (is_past moment e)) [
      | inl past ↦ rw past c
      | inr future ↦ elim (Bool-cases (has_user user none now (structure_of scope w))) [
        | inl old ↦ rw (future, old) c
        | inr new ↦ elim (Bool-cases (can_manage_role owners by scope role (timestamp_of e) w)) [
          | inl can ↦ rw (future, new, can) (checked-IsCounted scope user role by.id e w c)
          | inr cannot ↦ rw (future, new, cannot) c
        ]
      ]
    ]

active_rows-map :
    (user : ℕ) (role : String) (e : Option ℕ) (ps : List Permission)
    → map
        (λ p. p.user)
        (filter
          (λ p. is_true p.is_active)
          (map
            (λ p.
              if is_active_of user p && has_role (some role) p
              then record p { expiration_time = e }
              else p)
            ps))
      ≡ map (λ p. p.user) (filter (λ p. is_true p.is_active) ps)
unfolding filter
active_rows-map user role e [] = refl
active_rows-map user role e (p ∷ ps) =
    elim (Bool-cases (is_active_of user p && has_role (some role) p)) [
      | inl h ↦ rw h (ground (arith, active_rows-map user role e ps))
      | inr h ↦ rw h (ground (arith, active_rows-map user role e ps))
    ]

active_users-set_expiration :
    (user : ℕ) (role : String) (e : Option ℕ) (s : Structure)
    → active_users (set_expiration user role e s) ≡ active_users s
unfolding active_users set_expiration
active_users-set_expiration user role e s = active_rows-map user role e s.permissions

get_users-put_structure :
    (scope : Scope) (s : Structure) (w : Scopes)
    → active_users s ≡ active_users (structure_of scope w)
    → get_users (put_structure scope s w) ≡ get_users w
unfolding get_users put_structure structure_of
get_users-put_structure in_customer s w h = ap (λ us. distinct (us ++ active_users w.project)) h
get_users-put_structure in_project s w h = ap (λ us. distinct (active_users w.customer ++ us)) h

updated-IsCounted :
    (scope : Scope) (user : ℕ) (role : String) (e : Option ℕ) (w : Scopes)
    → IsCounted w
    → IsCounted (put_structure scope (set_expiration user role e (structure_of scope w)) w)
updated-IsCounted scope user role e w c =
    let s : Structure = set_expiration user role e (structure_of scope w) in
    let same =
      get_users-put_structure scope s w
        (active_users-set_expiration user role e (structure_of scope w)) in
    record {
      row = c.row;
      found = rw (number-put_structure scope s w, quotas-put_structure scope s w) c.found;
      usage = rw same c.usage;
      allowed = rw same c.allowed;
    }

IsCounted-updated :
    (w : Scopes) (updated : List (ℕ × String))
    → IsCounted w
    → IsCounted (record w { updated = updated })
unfolding get_users
IsCounted-updated w updated c = record {
  row = c.row;
  found = c.found;
  usage = c.usage;
  allowed = c.allowed;
}

put_structure-structure_of :
    (scope : Scope) (w : Scopes) → put_structure scope (structure_of scope w) w ≡ w
unfolding put_structure structure_of
put_structure-structure_of in_customer w = refl
put_structure-structure_of in_project w = refl

saved-IsCounted :
    (scope : Scope) (user : ℕ) (role : String) (e : Requested) (w : Scopes)
    → IsCounted w
    → IsCounted (put_structure scope (save_expiration user role e (structure_of scope w)) w)
unfolding save_expiration
saved-IsCounted scope user role none w c = rw (put_structure-structure_of scope w) c
saved-IsCounted scope user role (some e) w c = updated-IsCounted scope user role e w c

update_permission_row-IsCounted :
    (owners : Bool) (by : User) (scope : Scope) (user : ℕ) (role : String) (e : Requested)
    (p : Permission) (w : Scopes)
    → IsCounted w
    → IsCounted (update_permission_row owners by scope user role e p w).1
unfolding update_permission_row
update_permission_row-IsCounted owners by scope user role e p w c =
    elim (Bool-cases (same_time (requested_time e) p.expiration_time)) [
      | inl same ↦ rw same c
      | inr other ↦
          elim (Bool-cases
            (can_manage_role owners by scope p.role (timestamp_of (requested_time e)) w)) [
              | inl can ↦
                  rw (other, can)
                    (IsCounted-updated
                      (put_structure scope (save_expiration user role e (structure_of scope w)) w) _
                      (saved-IsCounted scope user role e w c))
              | inr cannot ↦ rw (other, cannot) c
            ]
    ]

update_found-IsCounted :
    (owners : Bool) (by : User) (moment : ℕ) (scope : Scope) (user : ℕ) (role : String)
    (e : Requested) (found : Option Permission) (w : Scopes)
    → IsCounted w
    → IsCounted (update_found owners by moment scope user role e found w).1
unfolding update_found
update_found-IsCounted owners by moment scope user role e none w c = c
update_found-IsCounted owners by moment scope user role e (some p) w c =
    elim (Bool-cases (is_past moment (requested_time e))) [
      | inl past ↦ rw past c
      | inr future ↦ rw future (update_permission_row-IsCounted owners by scope user role e p w c)
    ]

destroy_found-IsCounted :
    (owners : Bool) (by : User) (moment : ℕ) (scope : Scope) (user : ℕ) (role : String)
    (found : Option Permission) (w : Scopes)
    → IsCounted w
    → get_permission scope user role w ≡ found
    → IsCounted (destroy_found owners by moment scope user role found w).1
unfolding destroy_found
destroy_found-IsCounted owners by moment scope user role none w c h = c
destroy_found-IsCounted owners by moment scope user role (some p) w c h =
    elim (Bool-cases (can_manage_role owners by scope p.role (timestamp_of p.expiration_time) w)) [
      | inl can ↦ rw can (revoke_role-IsCounted moment scope user role by.id w p c h)
      | inr cannot ↦ rw cannot c
    ]

step-IsCounted :
    (owners : Bool) (e : Event) (w : Scopes) → IsCounted w → IsCounted (step owners e w)
unfolding step update_permission destroy_permission
step-IsCounted owners (create by moment scope user role e) w c =
    create_permission-IsCounted owners by moment scope user role e w c
step-IsCounted owners (update by moment scope user role e) w c =
    update_found-IsCounted owners by moment scope user role e (get_permission scope user role w) w c
step-IsCounted owners (destroy by moment scope user role) w c =
    destroy_found-IsCounted owners by moment scope user role (get_permission scope user role w) w c
      refl

-- If the quota of users of a customer counts the users with a role in force in it or its project,
-- and they are not more than its limit or it has none, this is so after any requests to create,
-- update and delete permissions.
pub steps-IsCounted :
    (owners : Bool) (es : List Event) (w : Scopes) → IsCounted w → IsCounted (steps owners es w)
unfolding steps
steps-IsCounted owners [] w c = c
steps-IsCounted owners (e ∷ es) w c =
    steps-IsCounted owners es (step owners e w) (step-IsCounted owners e w c)
