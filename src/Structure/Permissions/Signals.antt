-- ===== src/Structure/Permissions/Signals.antt =====
-- The rows of a customer or a project and the signals that it has sent.
use text.Mathlib.Text.{◌==◌ as str_eq}
use waldur_core.Prelude.{
  ℕ, ◌+◌, ◌≤◌, ◌≡◌, refl, Bool, true, false, ◌&&◌, Option, none, List, [], ◌∷◌, String, map, filter,
  find, count, count-append, count-none, any-find-none, arith, eq_iff, ◌==◌, Option-cases,
  Bool-cases, inl, inr,
}
use waldur_core.Structure.Permissions.{
  Permission, Structure, Signal, role_granted, role_revoked, is_active_of, has_role, add_user,
  remove_user, deactivate, revoked_signal,
}
use waldur_core.Structure.Permissions.Roles.{
  gives, gives-created, if_affected, created, add_user-old, add_user-new,
}

module _ (v : ℕ) (q : String) where
  unfoldable pub is_granted : Signal → Bool
  is_granted (role_granted user role _) = user == v && str_eq role q
  is_granted (role_revoked _ _ _) = false

  unfoldable pub is_revoked : Signal → Bool
  is_revoked (role_granted _ _ _) = false
  is_revoked (role_revoked user role _) = user == v && str_eq role q

-- For each user and role at most one row is in force, and the signals account for it: as many
-- "granted" as "revoked" and rows in force together.
pub record IsBalanced (s : Structure) : Type 0 where
  pub at_role :
      (v : ℕ) (q : String)
      → (count (gives v q) s.permissions ≤ 1)
        × (count (is_granted v q) s.signals
            ≡ count (is_revoked v q) s.signals + count (gives v q) s.permissions)

module _ (v : ℕ) (q : String) (user : ℕ) (role : String) (c e : Option ℕ) (s : Structure) where
  add_one :
      count (is_granted v q) (role_granted user role c ∷ [])
      ≡ count (gives v q) (created user role c e s ∷ [])
  unfolding count gives is_granted
  add_one = ground arith

  add_none : count (is_revoked v q) (role_granted user role c ∷ []) ≡ 0
  unfolding count is_revoked
  add_none = refl

  add_fits :
      find (gives user role) s.permissions ≡ none
      → count (gives v q) s.permissions ≤ 1
      → count (gives v q) s.permissions + count (gives v q) (created user role c e s ∷ []) ≤ 1
  unfolding count
  add_fits new fits = ground (
    arith,
    count-none (gives user role) s.permissions (any-find-none (gives user role) s.permissions new),
    gives-created user role c e s v q,
    eq_iff q role,
  )

-- From a balanced state `add_user` leads to a balanced state.
pub add_user-IsBalanced :
    (user : ℕ) (role : String) (created_by expiration_time : Option ℕ) (s : Structure)
    → IsBalanced s
    → IsBalanced (add_user user role created_by expiration_time s).1
add_user-IsBalanced user role c e s h = elim (Option-cases (find (gives user role) s.permissions)) [
  | inl new ↦ rw (add_user-new user role c e s new) (record {
    at_role = λ v q.
        rw
          (
            count-append (gives v q) s.permissions,
            count-append (is_granted v q) s.signals,
            count-append (is_revoked v q) s.signals,
          )
          (
            add_fits v q user role c e s new (h.at_role v q).0,
            omega (arith, h.at_role v q, add_one v q user role c e s, add_none v q user role c e s),
          );
  })
  | inr (p, old) ↦ rw (add_user-old user role c e s p old) h
]

module _ (moment user : ℕ) (role : Option String) (by : Option ℕ) (v : ℕ) (q : String) where
  abbrev affected : Permission → Bool
  affected p = is_active_of user p && has_role role p

  row_account :
      (p : Permission)
      → affected p ≡ true
      → (gives v q (deactivate moment p) ≡ false)
        × (is_revoked v q (revoked_signal by p) ≡ gives v q p)
  unfolding gives is_revoked deactivate revoked_signal
  row_account p h = (ground arith, ground arith)

  account :
      (ps : List Permission)
      → count (gives v q) (map (if_affected moment user role) ps)
          + count (is_revoked v q) (map (revoked_signal by) (filter affected ps))
        ≡ count (gives v q) ps
  unfolding count filter
  account [] = refl
  account (p ∷ ps) = elim (Bool-cases (affected p)) [
    | inl hit ↦ rw hit (ground (arith, row_account p hit, account ps))
    | inr miss ↦ rw miss (ground (arith, account ps))
  ]

  no_grants : (ps : List Permission) → count (is_granted v q) (map (revoked_signal by) ps) ≡ 0
  unfolding count is_granted revoked_signal
  no_grants [] = refl
  no_grants (p ∷ ps) = no_grants ps

-- From a balanced state `remove_user` leads to a balanced state.
pub remove_user-IsBalanced :
    (moment user : ℕ) (role : Option String) (removed_by : Option ℕ) (s : Structure)
    → IsBalanced s
    → IsBalanced (remove_user moment user role removed_by s)
unfolding remove_user
remove_user-IsBalanced moment user role by s h = record {
  at_role = λ v q.
      rw
        (
          count-append (is_granted v q) s.signals,
          count-append (is_revoked v q) s.signals,
          no_grants moment user role by v q,
        )
        (
          omega (arith, h.at_role v q, account moment user role by v q s.permissions),
          omega (arith, h.at_role v q, account moment user role by v q s.permissions),
        );
}
