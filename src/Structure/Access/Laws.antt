-- ===== src/Structure/Access/Laws.antt =====
-- How access follows the roles, their terms and their removal.
use waldur_core.Prelude.{
  ℕ, ◌≤◌, ◌≡◌, refl, Bool, true, false, Option, none, some, List, [], ◌∷◌, String, any, arith,
  ==_refl,
}
use waldur_core.Structure.Permissions.{
  Permission, Structure, Timestamp, now, permanent, at, has_user, remove_user, lasts,
}
use waldur_core.Structure.Permissions.Roles.{has_user-remove_user}
use waldur_core.Structure.Access.{
  User, Project, has_owner_access, has_manager_access, has_admin_access, customer_can_manage_role,
  project_can_manage_role, can_user_update_quotas, owner, manager, administrator,
}

-- One timestamp asks for at least as much as another.
abbrev pub IsStricter : Timestamp → Timestamp → Type 0
IsStricter permanent t = Unit
IsStricter (at m) now = Unit
IsStricter (at m) (at n) = n ≤ m
IsStricter (at m) permanent = ⊥
IsStricter now now = Unit
IsStricter now _ = ⊥

lasts_mono :
    (t u : Timestamp) (p : Permission) → IsStricter t u → lasts t p ≡ true → lasts u p ≡ true
unfolding lasts
lasts_mono permanent now p s h = refl
lasts_mono permanent permanent p s h = h
lasts_mono permanent (at n) p s h = ground arith
lasts_mono (at m) now p s h = refl
lasts_mono (at m) (at n) p s h = ground arith
lasts_mono (at m) permanent p s h = absurd s
lasts_mono now now p s h = refl
lasts_mono now permanent p s h = absurd s
lasts_mono now (at n) p s h = absurd s

any_mono :
    (f g : Permission → Bool)
    → ((p : Permission) → f p ≡ true → g p ≡ true)
    → (ps : List Permission) → any f ps ≡ true
    → any g ps ≡ true
unfolding any
any_mono f g h [] e = e
any_mono f g h (p ∷ ps) e = ground (arith, h p, any_mono f g h ps)

-- A role that lasts is held at every moment of time, and a role that is held up to a moment is held
-- at every earlier moment, and by the test without a time.
pub has_user_mono :
    (t u : Timestamp) (user : ℕ) (role : Option String) (s : Structure)
    → IsStricter t u
    → has_user user role t s ≡ true
    → has_user user role u s ≡ true
unfolding has_user
has_user_mono t u user role s st h =
    any_mono _ _ (λ p e. ground (arith, lasts_mono t u p st)) s.permissions h

-- Whoever can manage a role of a project up to a later moment, or for good, can manage it now.
pub project_can_manage_role_mono :
    (t u : Timestamp) (user : User) (role : String) (project : Project)
    → IsStricter t u
    → project_can_manage_role user role t project ≡ true
    → project_can_manage_role user role u project ≡ true
unfolding project_can_manage_role
project_can_manage_role_mono t u user role project st h = ground (
  arith,
  has_user_mono t u user.id (some owner) project.customer st,
  has_user_mono t u user.id (some manager) project.structure st,
)

no_role :
    (moment user : ℕ) (by : Option ℕ) (q : String) (s : Structure)
    → has_user user (some q) now (remove_user moment user none by s) ≡ false
no_role moment user by q s = rw (has_user-remove_user, ==_refl user) (ground arith)

-- Once all roles of a user in a project and in its customer are removed, only staff have access:
-- as owner, manager or administrator, to the quotas, and to the roles of the customer and of the
-- project.
pub removed_access :
    (moment : ℕ) (by : Option ℕ) (user : User) (setting : Bool) (role : String) (project : Project)
    → let p : Project = record {
      structure = remove_user moment user.id none by project.structure;
      customer = remove_user moment user.id none by project.customer;
    } in
      (has_owner_access user p.customer ≡ user.is_staff)
      × (has_manager_access user p ≡ user.is_staff)
      × (has_admin_access user p ≡ user.is_staff)
      × (can_user_update_quotas user p ≡ user.is_staff)
      × (customer_can_manage_role setting user now p.customer ≡ user.is_staff)
      × (project_can_manage_role user role now p ≡ user.is_staff)
unfolding has_admin_access can_user_update_quotas customer_can_manage_role project_can_manage_role
removed_access moment by user setting role project = ground (
  arith,
  no_role moment user.id by owner project.customer,
  no_role moment user.id by manager project.structure,
  no_role moment user.id by administrator project.structure,
)
