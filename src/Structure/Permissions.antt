-- ===== src/Structure/Permissions.antt =====
-- `BasePermission`, `PermissionMixin`, `CustomerPermission` and `ProjectPermission` of
-- waldur_core/structure/models.py, and `check_expired_permissions` of structure/tasks.py. Users and
-- moments of time are numbers; a role is the text that stands in the database.
pub mod Roles
pub mod Signals
pub mod Expiry
use text.Mathlib.Text.{◌==◌ as str_eq}
use waldur_core.Prelude.{
  ℕ, Bool, true, false, ◌&&◌, Option, none, some, List, [], ◌∷◌, ◌++◌, String, map, any, filter,
  find, if◌then◌else◌, ltb, leb, ◌==◌,
}

-- `is_active` is true for a role in force, and null for one that was revoked.
pub record Permission : Type 0 where
  pub user : ℕ
  pub role : String
  pub is_active : Option Bool
  pub created_by : Option ℕ
  pub expiration_time : Option ℕ

pub data Signal : Type 0 where
  role_granted : ℕ → String → Option ℕ → Signal
  role_revoked : ℕ → String → Option ℕ → Signal

-- A customer or a project: its permissions, and the signals that its methods have sent.
pub record Structure : Type 0 where
  pub permissions : List Permission
  pub signals : List Signal

-- `timestamp=False`, `timestamp=None`, and a moment of time.
pub data Timestamp : Type 0 where
  now permanent : Timestamp
  at : ℕ → Timestamp

unfoldable pub is_true : Option Bool → Bool
is_true none = false
is_true (some b) = b

-- `filter(user=user, is_active=True)`
unfoldable pub is_active_of : ℕ → Permission → Bool
unfolding is_true
is_active_of user p = p.user == user && is_true p.is_active

-- `filter(role=role)`, if a role is given.
unfoldable pub has_role : Option String → Permission → Bool
has_role none p = true
has_role (some role) p = str_eq p.role role

-- The filters on `expiration_time`.
unfoldable pub lasts : Timestamp → Permission → Bool
lasts now p = true
lasts permanent p = elim p.expiration_time [ none ↦ true | some t ↦ false ]
lasts (at moment) p = elim p.expiration_time [ none ↦ true | some t ↦ leb moment t ]

unfoldable pub has_user : ℕ → Option String → Timestamp → Structure → Bool
unfolding is_active_of has_role lasts
has_user user role timestamp s =
    any (λ p. is_active_of user p && (has_role role p && lasts timestamp p)) s.permissions

-- What `add_user` returns: the permission, and whether it was created.
abbrev pub AddedUser : Type 0
AddedUser = Permission × Bool

unfoldable pub add_user : ℕ → String → Option ℕ → Option ℕ → Structure → AddedUser × Structure
unfolding is_active_of has_role
add_user user role created_by expiration_time s =
    let found = find (λ p. is_active_of user p && has_role (some role) p) s.permissions in
    elim found [
      | some permission ↦ ((permission, false), s)
      | none ↦
          let permission : Permission = record {
            user = user;
            role = role;
            is_active = some true;
            created_by = created_by;
            expiration_time = expiration_time;
          } in
          (
            (permission, true),
            record {
              permissions = s.permissions ++ permission ∷ [];
              signals = s.signals ++ role_granted user role created_by ∷ [];
            },
          )
    ]

-- `permissions.update(is_active=None, expiration_time=timezone.now())`
unfoldable pub deactivate : ℕ → Permission → Permission
deactivate moment p = record p { is_active = none; expiration_time = some moment }

-- `log_role_revoked`
unfoldable pub revoked_signal : Option ℕ → Permission → Signal
revoked_signal removed_by p = role_revoked p.user p.role removed_by

-- `remove_user`, called at `moment`.
unfoldable pub remove_user : ℕ → ℕ → Option String → Option ℕ → Structure → Structure
unfolding is_active_of has_role deactivate revoked_signal
remove_user moment user role removed_by s =
    let affected = λ (p : Permission). is_active_of user p && has_role role p in
    record {
      permissions = map (λ p. if affected p then deactivate moment p else p) s.permissions;
      signals = s.signals ++ map (revoked_signal removed_by) (filter affected s.permissions);
    }

-- `remove_all_users`
unfoldable pub remove_all_users : Structure → Structure
unfolding revoked_signal
remove_all_users s = record {
  permissions = [];
  signals = s.signals ++ map (revoked_signal none) s.permissions;
}

-- `get_expired`
unfoldable pub is_expired : ℕ → Permission → Bool
unfolding is_true
is_expired moment p =
    elim p.expiration_time [ none ↦ false | some t ↦ ltb t moment ] && is_true p.is_active

-- `revoke`
unfoldable pub revoke : ℕ → Permission → Structure → Structure
unfolding remove_user
revoke moment p s = remove_user moment p.user (some p.role) none s

-- `check_expired_permissions`, on one customer or project: the expired permissions are selected
-- first, and then each is revoked.
unfoldable pub revoke_each : ℕ → List Permission → Structure → Structure
unfolding revoke
revoke_each moment [] s = s
revoke_each moment (p ∷ ps) s = revoke_each moment ps (revoke moment p s)

unfoldable pub check_expired_permissions : ℕ → Structure → Structure
unfolding revoke_each is_expired
check_expired_permissions moment s = revoke_each moment (filter (is_expired moment) s.permissions) s
