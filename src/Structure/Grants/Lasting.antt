-- ===== src/Structure/Grants/Lasting.antt =====
-- How long roles can last that are given by users who are not staff.
use waldur_core.Prelude.{
  ℕ, ◌≡◌, refl, Bool, true, false, not, ◌&&◌, ◌||◌, Option, none, some, List, [], ◌∷◌, ◌++◌, String,
  map, all, any, find, arith, leb, if◌then◌else◌, Bool-cases, Option-cases, inl, inr,
}
use waldur_core.Structure.Permissions.{
  Permission, Structure, is_true, is_active_of, has_role, lasts, has_user, add_user, remove_user,
  deactivate,
}
use waldur_core.Structure.Permissions.Roles.{gives, created, add_user-old, add_user-new}
use waldur_core.Structure.Access.{
  User, customer_can_manage_role, project_can_manage_role, owner, manager,
}
use waldur_core.Structure.Grants.{
  Scope, in_customer, in_project, Scopes, can_manage_role, timestamp_of, set_expiration,
}

-- An expiration time that is not after a moment.
abbrev pub within : ℕ → Option ℕ → Bool
within last none = false
within last (some t) = leb t last

-- Each role in force expires by a moment.
unfoldable pub row_ends_by : ℕ → Permission → Bool
unfolding is_true
row_ends_by last p = not (is_true p.is_active) || within last p.expiration_time

unfoldable pub ends_by : ℕ → Structure → Bool
unfolding row_ends_by
ends_by last s = all (row_ends_by last) s.permissions

unfoldable pub all_end_by : ℕ → Scopes → Bool
unfolding ends_by
all_end_by last w = ends_by last w.customer && ends_by last w.project

any_lasting :
    (last user : ℕ) (role : Option String) (e : Option ℕ) (ps : List Permission)
    → any (λ p. is_active_of user p && (has_role role p && lasts (timestamp_of e) p)) ps ≡ true
    → all (row_ends_by last) ps ≡ true
    → within last e ≡ true
unfolding any all is_active_of lasts row_ends_by is_true
any_lasting last user role e [] h k = absurd (cc)
any_lasting last user role none (p ∷ ps) h k = ground (arith, any_lasting last user role none ps)
any_lasting last user role (some t) (p ∷ ps) h k =
    ground (arith, any_lasting last user role (some t) ps)

has_user-within :
    (last user : ℕ) (role : Option String) (e : Option ℕ) (s : Structure)
    → has_user user role (timestamp_of e) s ≡ true
    → ends_by last s ≡ true
    → within last e ≡ true
unfolding has_user ends_by
has_user-within last user role e s h k = any_lasting last user role e s.permissions h k

pub can_manage_role-within :
    (last : ℕ) (owners : Bool) (by : User) (scope : Scope) (role : String) (e : Option ℕ)
    (w : Scopes)
    → by.is_staff ≡ false
    → can_manage_role owners by scope role (timestamp_of e) w ≡ true
    → all_end_by last w ≡ true
    → within last e ≡ true
unfolding can_manage_role customer_can_manage_role project_can_manage_role all_end_by
can_manage_role-within last owners by in_customer role e w plain h k =
    ground (arith, has_user-within last by.id (some owner) e w.customer)
can_manage_role-within last owners by in_project role e w plain h k = ground (
  arith,
  has_user-within last by.id (some owner) e w.customer,
  has_user-within last by.id (some manager) e w.project,
)

all_rows-append :
    (last : ℕ) (ps : List Permission) (p : Permission)
    → all (row_ends_by last) ps ≡ true
    → row_ends_by last p ≡ true
    → all (row_ends_by last) (ps ++ p ∷ []) ≡ true
unfolding all
all_rows-append last [] p h k = ground arith
all_rows-append last (q ∷ ps) p h k = ground (arith, all_rows-append last ps p)

pub ends_by-add_user :
    (last user : ℕ) (role : String) (by e : Option ℕ) (s : Structure)
    → ends_by last s ≡ true
    → within last e ≡ true
    → ends_by last (add_user user role by e s).1 ≡ true
unfolding ends_by
ends_by-add_user last user role by e s h k =
    elim (Option-cases (find (gives user role) s.permissions)) [
      | inl new ↦
          rw (add_user-new user role by e s new)
            (all_rows-append last s.permissions (created user role by e s) h (ground arith))
      | inr (p, old) ↦ rw (add_user-old user role by e s p old) h
    ]

all_rows-map :
    (last : ℕ) (f : Permission → Permission) (ps : List Permission)
    → ((p : Permission) → row_ends_by last p ≡ true → row_ends_by last (f p) ≡ true)
    → all (row_ends_by last) ps ≡ true
    → all (row_ends_by last) (map f ps) ≡ true
unfolding all
all_rows-map last f [] h k = refl
all_rows-map last f (p ∷ ps) h k = ground (arith, h p, all_rows-map last f ps h)

removed_row :
    (last moment user : ℕ) (role : Option String) (p : Permission)
    → row_ends_by last p ≡ true
    → row_ends_by last (if is_active_of user p && has_role role p then deactivate moment p else p)
      ≡ true
unfolding row_ends_by deactivate is_true
removed_row last moment user role p h = elim (Bool-cases (is_active_of user p && has_role role p)) [
  | inl e ↦ rw e refl
  | inr e ↦ rw e h
]

pub ends_by-remove_user :
    (last moment user : ℕ) (role : Option String) (by : Option ℕ) (s : Structure)
    → ends_by last s ≡ true
    → ends_by last (remove_user moment user role by s) ≡ true
unfolding ends_by remove_user
ends_by-remove_user last moment user role by s h =
    all_rows-map last
      (λ p. if is_active_of user p && has_role role p then deactivate moment p else p) s.permissions
      (removed_row last moment user role) h

extended_row :
    (last user : ℕ) (role : String) (e : Option ℕ)
    → within last e ≡ true
    → (p : Permission) → row_ends_by last p ≡ true
    → row_ends_by last (
        if is_active_of user p && has_role (some role) p
        then record p { expiration_time = e }
        else p)
      ≡ true
unfolding row_ends_by
extended_row last user role e k p h =
    elim (Bool-cases (is_active_of user p && has_role (some role) p)) [
      | inl c ↦ rw c (ground arith)
      | inr c ↦ rw c h
    ]

pub ends_by-set_expiration :
    (last user : ℕ) (role : String) (e : Option ℕ) (s : Structure)
    → ends_by last s ≡ true
    → within last e ≡ true
    → ends_by last (set_expiration user role e s) ≡ true
unfolding ends_by set_expiration
ends_by-set_expiration last user role e s h k =
    all_rows-map last
      (λ p.
        if is_active_of user p && has_role (some role) p
        then record p { expiration_time = e }
        else p)
      s.permissions (extended_row last user role e k) h
