-- ===== src/Structure/Permissions/Expiry.antt =====
-- What the periodic check of expired permissions revokes.
use text.Mathlib.Text.{◌==◌ as str_eq}
use waldur_core.Prelude.{
  ℕ, ◌≤◌, ◌≡◌, refl, ◌∙◌, Bool, false, not, ◌&&◌, ◌||◌, Option, none, some, List, [], ◌∷◌, String,
  any, any_ext, any_of_count, filter, count, arith, eq_iff, ◌==◌,
}
use waldur_core.Structure.Permissions.{
  Permission, Structure, now, at, lasts, has_user, add_user, remove_user, revoke, revoke_each,
  is_expired, check_expired_permissions,
}
use waldur_core.Structure.Permissions.Roles.{gives, has_user-any, has_user-remove_user}
use waldur_core.Structure.Permissions.Signals.{
  IsBalanced, add_user-IsBalanced, remove_user-IsBalanced,
}

module _ (moment v : ℕ) (q : String) where
  abbrev same : Permission → Bool
  same p = v == p.user && str_eq q p.role

  has_user-revoke_each :
      (ps : List Permission) (s : Structure)
      → has_user v (some q) now (revoke_each moment ps s)
        ≡ (has_user v (some q) now s && not (any same ps))
  unfolding revoke_each any
  has_user-revoke_each [] s = ground arith
  has_user-revoke_each (p ∷ ps) s =
      has_user-revoke_each ps (revoke moment p s)
      ∙ ground (arith, has_user-remove_user moment p.user (some p.role) none s v q)

  -- A row that gives the role, and still does at the moment.
  abbrev gives_later : Permission → Bool
  gives_later p = gives v q p && lasts (at moment) p

  has_user-later :
      (s : Structure) → has_user v (some q) (at moment) s ≡ any gives_later s.permissions
  unfolding has_user gives
  has_user-later s = any_ext _ _ (λ p. ground arith) s.permissions

  -- A row is kept, is expired, or does not give the role.
  row_cases :
      (p : Permission)
      → (gives v q p ≡ (gives_later p || (is_expired moment p && same p)))
        × ((gives_later p && (is_expired moment p && same p)) ≡ false)
  unfolding gives is_expired lasts
  row_cases p = ground (arith, eq_iff p.role q, eq_iff q p.role)

  nothing_given :
      (ps : List Permission)
      → any (gives v q) ps ≡ false
      → (any same (filter (is_expired moment) ps) ≡ false) × (any gives_later ps ≡ false)
  unfolding any filter
  nothing_given [] e = (refl, refl)
  nothing_given (p ∷ ps) e = ground (arith, row_cases p, nothing_given ps)

  kept :
      (ps : List Permission)
      → count (gives v q) ps ≤ 1
      → (any (gives v q) ps && not (any same (filter (is_expired moment) ps))) ≡ any gives_later ps
  unfolding any filter count
  kept [] h = refl
  kept (p ∷ ps) h =
      ground (arith, row_cases p, kept ps, nothing_given ps, any_of_count (gives v q) ps)

  -- In a balanced state, after the periodic check at a moment the plain test of a role, which reads
  -- no expiration time, says what the test at that moment said before the check.
  pub has_user-check_expired_permissions :
      (s : Structure)
      → IsBalanced s
      → has_user v (some q) now (check_expired_permissions moment s)
        ≡ has_user v (some q) (at moment) s
  unfolding check_expired_permissions
  has_user-check_expired_permissions s h =
      rw
        (
          has_user-later s,
          has_user-revoke_each (filter (is_expired moment) s.permissions) s,
          has_user-any v q s,
        )
        (kept s.permissions (h.at_role v q).0)

revoke_each-IsBalanced :
    (moment : ℕ) (ps : List Permission) (s : Structure)
    → IsBalanced s
    → IsBalanced (revoke_each moment ps s)
unfolding revoke_each
revoke_each-IsBalanced moment [] s h = h
revoke_each-IsBalanced moment (p ∷ ps) s h =
    revoke_each-IsBalanced moment ps (revoke moment p s)
      (unfold revoke in remove_user-IsBalanced moment p.user (some p.role) none s h)

-- The calls of the API and of the periodic task, on one customer or project.
pub data Call : Type 0 where
  add : ℕ → String → Option ℕ → Option ℕ → Call
  remove : ℕ → ℕ → Option String → Option ℕ → Call
  check : ℕ → Call

pub apply : Call → Structure → Structure
apply (add user role created_by expiration_time) s =
    (add_user user role created_by expiration_time s).1
apply (remove moment user role removed_by) s = remove_user moment user role removed_by s
apply (check moment) s = check_expired_permissions moment s

pub apply_all : List Call → Structure → Structure
apply_all [] s = s
apply_all (c ∷ cs) s = apply_all cs (apply c s)

apply-IsBalanced : (c : Call) (s : Structure) → IsBalanced s → IsBalanced (apply c s)
unfolding apply check_expired_permissions
apply-IsBalanced (add user role by time) s h = add_user-IsBalanced user role by time s h
apply-IsBalanced (remove moment user role by) s h = remove_user-IsBalanced moment user role by s h
apply-IsBalanced (check moment) s h =
    revoke_each-IsBalanced moment (filter (is_expired moment) s.permissions) s h

pub apply_all-IsBalanced :
    (cs : List Call) (s : Structure) → IsBalanced s → IsBalanced (apply_all cs s)
unfolding apply_all
apply_all-IsBalanced [] s h = h
apply_all-IsBalanced (c ∷ cs) s h = apply_all-IsBalanced cs (apply c s) (apply-IsBalanced c s h)
