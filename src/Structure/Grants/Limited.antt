-- ===== src/Structure/Grants/Limited.antt =====
-- Requests on permissions never connect more users to a customer than its quota allows.
use waldur_core.Prelude.{
  ℕ, suc, ◌≤◌, ◌≡◌, refl, Bool, true, false, ◌&&◌, Option, none, some, List, [], ◌∷◌, ◌++◌, String,
  arith, mem, length, filter, find, if◌then◌else◌, Bool-cases, Option-cases, inl, inr, ap, ◌∙◌,
  Outcome, returned, raised, continue, ◌>>◌,
}
use waldur_core.Prelude.Int.{ℤ, pos, pos_part, neg_part, +ℤ_parts}
use waldur_core.Quotas.Table.{
  Table, Quota, get, is_exceeded, exceeded_names, raise_errors, validate_quota_change,
  quota_exceeded,
}
use waldur_core.Structure.Permissions.{
  Permission, Structure, is_active_of, has_role, remove_user, role_granted,
}
use waldur_core.Structure.Permissions.Roles.{gives, add_user-old, add_user-new}
use waldur_core.Structure.Grants.{
  Scope, Scopes, GrantError, structure_of, put_structure, get_users, distinct,
  change_customer_nc_users_quota, atomic_result, signal_granted, grant_role, signal_revoked,
  revoke_role, raise_quota, check_user_quota, get_permission,
}
use waldur_core.Structure.Grants.Users.{
  put_structure-same, all_users, users-appended, users-removed,
}
use waldur_core.Structure.Grants.Counted.{
  IsCounted, is_allowed, CountedResult, change-CountedResult, put-CountedResult,
}

is_allowed_mono :
    (limit : ℤ) (n m : ℕ) → is_allowed limit m ≡ true → n ≤ m → is_allowed limit n ≡ true
unfolding is_allowed
is_allowed_mono limit n m h k = ground arith

IsCounted-atomic_result :
    (before : Scopes) (r : Outcome GrantError (Unit {0}) × Scopes)
    → CountedResult r
    → CountedResult (atomic_result before r)
unfolding atomic_result CountedResult
IsCounted-atomic_result before (returned a, w) c = c
IsCounted-atomic_result before (raised e, w) (h, c) = absurd (cc)

CountedResult-continue :
    (ps : List Permission) (r : Outcome GrantError (Unit {0}) × Scopes)
    → CountedResult r
    → ((w : Scopes) → IsCounted w → CountedResult (signal_revoked ps w))
    → CountedResult (continue r.0 (λ a. signal_revoked ps) r.1)
unfolding CountedResult
CountedResult-continue ps (returned a, w) (h, c) k = k w c
CountedResult-continue ps (raised e, w) (h, c) k = absurd (cc)

CountedResult-signal_revoked :
    (ps : List Permission) (w : Scopes) → IsCounted w → CountedResult (signal_revoked ps w)
unfolding signal_revoked CountedResult
CountedResult-signal_revoked [] w c = (refl, c)
CountedResult-signal_revoked (p ∷ ps) w c =
    CountedResult-continue ps (change_customer_nc_users_quota w)
      (change-CountedResult w c.row c.found c.allowed) (CountedResult-signal_revoked ps)

-- With another user in the list the quota allows the users.
grant_role-IsCounted :
    (scope : Scope) (user : ℕ) (role : String) (by : ℕ) (e : Option ℕ) (w : Scopes)
    (c : IsCounted w)
    → is_allowed c.row.limit (length (distinct (user ∷ all_users w))) ≡ true
    → IsCounted (grant_role scope user role by e w).1
unfolding grant_role signal_granted CountedResult
grant_role-IsCounted scope user role by e w c h =
    elim (Option-cases (find (gives user role) (structure_of scope w).permissions)) [
      | inl new ↦
          rw (add_user-new user role (some by) e (structure_of scope w) new)
            (IsCounted-atomic_result w _ (
              put-CountedResult scope _ w c.row c.found (
                is_allowed_mono c.row.limit _ _ h (
                  users-appended scope user role (some by) e
                    ((structure_of scope w).signals ++ role_granted user role (some by) ∷ [])
                    w)))).1
      | inr (p, old) ↦
          rw
            (
              add_user-old user role (some by) e (structure_of scope w) p old,
              put_structure-same scope w,
            )
            c
    ]

abbrev gives_row : ℕ → String → Permission → Bool
gives_row user role p = is_active_of user p && has_role (some role) p

filter-find :
    (f : Permission → Bool) (ps : List Permission) (p : Permission)
    → find f ps ≡ some p
    → ¬ (filter f ps ≡ [])
unfolding filter find
filter-find f [] p h e = cc
filter-find f (q ∷ ps) p h e = ground (arith, filter-find f ps p)

CountedResult-affected :
    (affected : List Permission) (v : Scopes)
    → ¬ (affected ≡ [])
    → CountedResult (change_customer_nc_users_quota v)
    → CountedResult (signal_revoked affected v)
unfolding signal_revoked
CountedResult-affected [] v some_row c = absurd (some_row refl)
CountedResult-affected (p ∷ ps) v some_row c =
    CountedResult-continue ps (change_customer_nc_users_quota v) c (CountedResult-signal_revoked ps)

pub revoke_role-IsCounted :
    (moment : ℕ) (scope : Scope) (user : ℕ) (role : String) (by : ℕ) (w : Scopes) (p : Permission)
    → IsCounted w
    → get_permission scope user role w ≡ some p
    → IsCounted (revoke_role moment scope user role by w).1
unfolding revoke_role get_permission CountedResult
revoke_role-IsCounted moment scope user role by w p c found =
    let s : Structure = structure_of scope w in
    let affected : List Permission = filter (gives_row user role) s.permissions in
    let v : Scopes = put_structure scope (remove_user moment user (some role) (some by) s) w in
    (IsCounted-atomic_result w (signal_revoked affected v) (
      CountedResult-affected affected v (filter-find (gives_row user role) s.permissions p found) (
        put-CountedResult scope (remove_user moment user (some role) (some by) s) w c.row c.found (
          is_allowed_mono c.row.limit _ _ c.allowed
            (users-removed scope moment user (some role) (some by) w))))).1

exceeded-one :
    (scope : ℕ) (name : String) (delta : ℤ) (qs : Table) (q : Quota)
    → get scope name qs ≡ some q
    → exceeded_names scope ((name, delta) ∷ []) qs
      ≡ (returned (if is_exceeded (some delta) none q then name ∷ [] else []), qs)
unfolding exceeded_names
exceeded-one scope name delta qs q found = rw (found, exceeded_names) refl

validate-one :
    (scope : ℕ) (name : String) (delta : ℤ) (qs : Table) (q : Quota)
    → get scope name qs ≡ some q
    → (validate_quota_change scope ((name, delta) ∷ []) true qs).0 ≡ (
        if is_exceeded (some delta) none q
        then raised (quota_exceeded (name ∷ []))
        else returned [])
unfolding validate_quota_change raise_errors
validate-one scope name delta qs q found =
    let e = exceeded-one scope name delta qs q found in
    elim (Bool-cases (is_exceeded (some delta) none q)) [
      | inl over ↦ rw (e, over) refl
      | inr within ↦ rw (e, within) refl
    ]

not_exceeded-is_allowed :
    (q : Quota) (n : ℕ)
    → q.usage ≡ pos n
    → is_exceeded (some (pos 1)) none q ≡ false
    → is_allowed q.limit (suc n) ≡ true
unfolding is_exceeded is_allowed
not_exceeded-is_allowed q n h k =
    ground (arith, +ℤ_parts q.usage (pos 1), ap pos_part h, ap neg_part h)

length-mem :
    (user : ℕ) (xs : List ℕ)
    → mem user (distinct xs) ≡ true
    → length (distinct (user ∷ xs)) ≡ length (distinct xs)
unfolding distinct
length-mem user xs h = rw h refl

length_new :
    (user : ℕ) (xs : List ℕ)
    → mem user (distinct xs) ≡ false
    → length (distinct (user ∷ xs)) ≡ suc (length (distinct xs))
unfolding distinct
length_new user xs h = rw h refl

-- What the check of the quota lets through.
pub checked-IsCounted :
    (scope : Scope) (user : ℕ) (role : String) (by : ℕ) (e : Option ℕ) (w : Scopes)
    → IsCounted w
    → IsCounted ((check_user_quota user >> grant_role scope user role by e) w).1
unfolding check_user_quota get_users raise_quota
checked-IsCounted scope user role by e w c = elim (Bool-cases (mem user (get_users w))) [
  | inl old ↦ rw old (
      grant_role-IsCounted scope user role by e w c
        (ap (is_allowed c.row.limit) (length-mem user (all_users w) old) ∙ c.allowed))
  | inr new ↦ elim (Bool-cases (is_exceeded (some (pos 1)) none c.row)) [
    | inl over ↦
        rw (new, validate-one w.number "nc_user_count" (pos 1) w.quotas c.row c.found, over) c
    | inr within ↦
        rw (new, validate-one w.number "nc_user_count" (pos 1) w.quotas c.row c.found, within)
          (grant_role-IsCounted scope user role by e w c (
            ap (is_allowed c.row.limit) (length_new user (all_users w) new)
            ∙ not_exceeded-is_allowed c.row (length (get_users w)) c.usage within))
  ]
]
