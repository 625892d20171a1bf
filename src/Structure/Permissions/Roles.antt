-- ===== src/Structure/Permissions/Roles.antt =====
-- Who holds a role before and after each method of `PermissionMixin`.
use text.Mathlib.Text.{◌==◌ as str_eq}
use waldur_core.Prelude.{
  ℕ, ◌≡◌, refl, Bool, true, false, not, ◌&&◌, ◌||◌, Option, none, some, List, [], ◌∷◌, ◌++◌, String,
  map, any, find, arith, eq_iff, if◌then◌else◌, ◌==◌, any-append, any_ext, any-find, Option-cases,
  inl, inr,
}
use waldur_core.Structure.Permissions.{
  Permission, Structure, role_granted, now, is_active_of, has_role, has_user, add_user, remove_user,
  deactivate,
}

-- A row that gives a role to a user.
unfoldable pub gives : ℕ → String → Permission → Bool
unfolding is_active_of has_role
gives user role p = is_active_of user p && has_role (some role) p

pub has_user-any :
    (user : ℕ) (role : String) (s : Structure)
    → has_user user (some role) now s ≡ any (gives user role) s.permissions
unfolding has_user gives
has_user-any user role s = any_ext _ _ (λ p. ground arith) s.permissions

-- Is a removal of the role, or of all roles, one of this role?
abbrev pub covers : Option String → String → Bool
covers none q = true
covers (some r) q = str_eq q r

abbrev pub if_affected : ℕ → ℕ → Option String → Permission → Permission
if_affected moment user role p =
    if is_active_of user p && has_role role p then deactivate moment p else p

gives-if_affected :
    (moment user : ℕ) (role : Option String) (v : ℕ) (q : String) (p : Permission)
    → gives v q (if_affected moment user role p) ≡ (gives v q p && not (v == user && covers role q))
unfolding gives deactivate
gives-if_affected moment user none v q p = ground arith
gives-if_affected moment user (some r) v q p =
    ground (arith, eq_iff p.role q, eq_iff p.role r, eq_iff q r)

and_or : (a b n : Bool) → ((a && n) || (b && n)) ≡ ((a || b) && n)
and_or a b n = ground arith

any-map_affected :
    (moment user : ℕ) (role : Option String) (v : ℕ) (q : String) (ps : List Permission)
    → any (gives v q) (map (if_affected moment user role) ps)
      ≡ (any (gives v q) ps && not (v == user && covers role q))
unfolding any
any-map_affected moment user role v q [] = refl
any-map_affected moment user role v q (p ∷ ps) =
    rw (gives-if_affected moment user role v q p, any-map_affected moment user role v q ps)
      (and_or (gives v q p) _ _)

module _ (user : ℕ) (role : String) (created_by expiration_time : Option ℕ) (s : Structure) where
  abbrev pub created : Permission
  created = record {
    user = user;
    role = role;
    is_active = some true;
    created_by = created_by;
    expiration_time = expiration_time;
  }

  -- The role is in force already: nothing is written, and no signal is sent.
  pub add_user-old :
      (p : Permission)
      → find (gives user role) s.permissions ≡ some p
      → add_user user role created_by expiration_time s ≡ ((p, false), s)
  unfolding add_user gives
  add_user-old p old = rw (old, add_user) refl

  pub add_user-new :
      find (gives user role) s.permissions ≡ none
      → add_user user role created_by expiration_time s ≡ (
        (created, true),
        record {
          permissions = s.permissions ++ created ∷ [];
          signals = s.signals ++ role_granted user role created_by ∷ [];
        },
      )
  unfolding add_user gives
  add_user-new new = rw (new, add_user) refl

  pub gives-created : (v : ℕ) (q : String) → gives v q created ≡ (v == user && str_eq q role)
  unfolding gives
  gives-created v q = ground (arith, eq_iff role q, eq_iff q role)

  -- After `add_user` a user has a role exactly if they had it before, or it is the one that was
  -- added.
  pub has_user-add_user :
      (v : ℕ) (q : String)
      → has_user v (some q) now (add_user user role created_by expiration_time s).1
        ≡ (has_user v (some q) now s || (v == user && str_eq q role))
  unfolding any
  has_user-add_user v q = elim (Option-cases (find (gives user role) s.permissions)) [
    | inl new ↦
        rw (add_user-new new, has_user-any, has_user-any v q s, any-append)
          (rw (gives-created v q) (ground arith))
    | inr (p, old) ↦
        rw (add_user-old p old, has_user-any)
          (ground (arith, any-find (gives user role) s.permissions p old, eq_iff q role))
  ]

-- After `remove_user` a user has a role exactly if they had it before, and it is not one that was
-- removed: all roles of the user, if no role is given.
pub has_user-remove_user :
    (moment user : ℕ) (role : Option String) (removed_by : Option ℕ) (s : Structure) (v : ℕ)
    (q : String)
    → has_user v (some q) now (remove_user moment user role removed_by s)
      ≡ (has_user v (some q) now s && not (v == user && covers role q))
unfolding remove_user
has_user-remove_user moment user role removed_by s v q =
    rw (has_user-any, has_user-any v q s) (any-map_affected moment user role v q s.permissions)
