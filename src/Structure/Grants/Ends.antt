-- ===== src/Structure/Grants/Ends.antt =====
-- The steps of the views that write roles, and how long the roles last.
use waldur_core.Prelude.{
  ℕ, ◌≡◌, refl, Bool, true, false, ◌&&◌, Option, some, List, [], ◌∷◌, String, arith, Outcome,
  returned, raised, continue, ◌∙◌, filter,
}
use waldur_core.Structure.Permissions.{
  Permission, Structure, add_user, remove_user, is_active_of, has_role,
}
use waldur_core.Quotas.Table
use waldur_core.Quotas.Table.{Table, set_quota_usage, validate_quota_change}
use waldur_core.Structure.Grants.{
  Scope, in_customer, in_project, Scopes, GrantError, structure_of, put_structure, with_quotas,
  change_customer_nc_users_quota, atomic_result, signal_granted, grant_role, signal_revoked,
  revoke_role,
}
use waldur_core.Structure.Grants.Lasting.{
  within, ends_by, all_end_by, ends_by-add_user, ends_by-remove_user,
}

pub all_end_by-put_structure :
    (last : ℕ) (scope : Scope) (s : Structure) (w : Scopes)
    → ends_by last s ≡ true
    → all_end_by last w ≡ true
    → all_end_by last (put_structure scope s w) ≡ true
unfolding all_end_by put_structure
all_end_by-put_structure last in_customer s w h k = ground arith
all_end_by-put_structure last in_project s w h k = ground arith

pub ends_by-structure_of :
    (last : ℕ) (scope : Scope) (w : Scopes)
    → all_end_by last w ≡ true
    → ends_by last (structure_of scope w) ≡ true
unfolding all_end_by structure_of
ends_by-structure_of last in_customer w h = ground arith
ends_by-structure_of last in_project w h = ground arith

all_end_by-with_quotas :
    (last : ℕ) (r : Outcome Table.Error (Unit {0}) × Table) (w : Scopes)
    → all_end_by last (with_quotas r w).1 ≡ all_end_by last w
unfolding with_quotas all_end_by
all_end_by-with_quotas last (returned a, quotas) w = refl
all_end_by-with_quotas last (raised e, quotas) w = refl

all_end_by-atomic_result :
    (last : ℕ) (before : Scopes) (r : Outcome GrantError (Unit {0}) × Scopes)
    → all_end_by last before ≡ true
    → all_end_by last r.1 ≡ true
    → all_end_by last (atomic_result before r).1 ≡ true
unfolding atomic_result
all_end_by-atomic_result last before (returned a, w) h k = k
all_end_by-atomic_result last before (raised e, w) h k = h

all_end_by-change_customer_nc_users_quota :
    (last : ℕ) (w : Scopes)
    → all_end_by last (change_customer_nc_users_quota w).1 ≡ all_end_by last w
unfolding change_customer_nc_users_quota
all_end_by-change_customer_nc_users_quota last w = all_end_by-with_quotas last _ w

all_end_by-signal_granted :
    (last : ℕ) (created : Bool) (w : Scopes)
    → all_end_by last (signal_granted created w).1 ≡ all_end_by last w
unfolding signal_granted
all_end_by-signal_granted last true w = all_end_by-change_customer_nc_users_quota last w
all_end_by-signal_granted last false w = refl

all_end_by-continue :
    (last : ℕ) (ps : List Permission) (r : Outcome GrantError (Unit {0}) × Scopes)
    → ((w : Scopes) → all_end_by last (signal_revoked ps w).1 ≡ all_end_by last w)
    → all_end_by last (continue r.0 (λ a. signal_revoked ps) r.1).1 ≡ all_end_by last r.1
all_end_by-continue last ps (returned a, w) h = h w
all_end_by-continue last ps (raised e, w) h = refl

all_end_by-signal_revoked :
    (last : ℕ) (ps : List Permission) (w : Scopes)
    → all_end_by last (signal_revoked ps w).1 ≡ all_end_by last w
unfolding signal_revoked
all_end_by-signal_revoked last [] w = refl
all_end_by-signal_revoked last (p ∷ ps) w =
    all_end_by-continue last ps (change_customer_nc_users_quota w)
      (all_end_by-signal_revoked last ps)
    ∙ all_end_by-change_customer_nc_users_quota last w

pub all_end_by-grant_role :
    (last : ℕ) (scope : Scope) (user : ℕ) (role : String) (by : ℕ) (e : Option ℕ) (w : Scopes)
    → all_end_by last w ≡ true
    → within last e ≡ true
    → all_end_by last (grant_role scope user role by e w).1 ≡ true
unfolding grant_role
all_end_by-grant_role last scope user role by e w h k =
    let s : Structure = structure_of scope w in
    let added : (Permission × Bool) × Structure = add_user user role (some by) e s in
    let v : Scopes = put_structure scope added.1 w in
    all_end_by-atomic_result last w (signal_granted added.0.1 v) h (
      all_end_by-signal_granted last added.0.1 v
      ∙ all_end_by-put_structure last scope added.1 w
          (ends_by-add_user last user role (some by) e s (ends_by-structure_of last scope w h) k) h)

pub all_end_by-revoke_role :
    (last moment : ℕ) (scope : Scope) (user : ℕ) (role : String) (by : ℕ) (w : Scopes)
    → all_end_by last w ≡ true
    → all_end_by last (revoke_role moment scope user role by w).1 ≡ true
unfolding revoke_role
all_end_by-revoke_role last moment scope user role by w h =
    let s : Structure = structure_of scope w in
    let affected : List Permission =
      filter (λ p. is_active_of user p && has_role (some role) p) s.permissions in
    let removed : Structure = remove_user moment user (some role) (some by) s in
    let v : Scopes = put_structure scope removed w in
    all_end_by-atomic_result last w (signal_revoked affected v) h (
      all_end_by-signal_revoked last affected v
      ∙ all_end_by-put_structure last scope removed w
          (ends_by-remove_user last moment user (some role) (some by) s
            (ends_by-structure_of last scope w h))
          h)
