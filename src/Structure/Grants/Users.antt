-- ===== src/Structure/Grants/Users.antt =====
-- The users of a customer after a role is given or taken.
use waldur_core.Prelude.{
  ℕ, ◌≤◌, ◌≡◌, refl, Bool, true, false, ◌&&◌, ◌||◌, Option, List, [], ◌∷◌, ◌++◌, String, arith, mem,
  length, any-append, filter, map, any, if◌then◌else◌, ◌==◌, Bool-cases, inl, inr, ◌∙◌,
}
use waldur_core.Structure.Permissions.{
  Permission, Structure, Signal, is_true, is_active_of, has_role, remove_user, deactivate,
}
use waldur_core.Structure.Permissions.Roles.{created}
use waldur_core.Structure.Grants.{
  Scope, in_customer, in_project, Scopes, structure_of, put_structure, active_users, get_users,
  distinct,
}
use waldur_core.Structure.Grants.Distinct.{mem-append, length-distinct_mono}

-- Some users are connected through one structure or the other.
abbrev pub all_users : Scopes → List ℕ
all_users w = active_users w.customer ++ active_users w.project

-- Any row in force of a user.
unfoldable pub is_user : ℕ → Structure → Bool
is_user n s = any (λ p. n == p.user && is_true p.is_active) s.permissions

mem-active_rows :
    (n : ℕ) (ps : List Permission)
    → mem n (map (λ p. p.user) (filter (λ p. is_true p.is_active) ps))
      ≡ any (λ p. n == p.user && is_true p.is_active) ps
unfolding mem filter any
mem-active_rows n [] = refl
mem-active_rows n (p ∷ ps) = ground (arith, mem-active_rows n ps)

pub mem-all_users :
    (n : ℕ) (w : Scopes) → mem n (all_users w) ≡ (is_user n w.customer || is_user n w.project)
unfolding active_users is_user
mem-all_users n w =
    mem-append n (active_users w.customer) (active_users w.project)
    ∙ rw (mem-active_rows n w.customer.permissions, mem-active_rows n w.project.permissions) refl

pub mem-put_structure :
    (n : ℕ) (scope : Scope) (s : Structure) (w : Scopes) (more : Bool)
    → (is_user n s ≡ true → (is_user n (structure_of scope w) || more) ≡ true)
    → mem n (all_users (put_structure scope s w)) ≡ true
    → (mem n (all_users w) || more) ≡ true
unfolding put_structure structure_of
mem-put_structure n in_customer s w more h k =
    ground (arith, h, mem-all_users n w, mem-all_users n (record w { customer = s }))
mem-put_structure n in_project s w more h k =
    ground (arith, h, mem-all_users n w, mem-all_users n (record w { project = s }))

pub is_user-appended :
    (n user : ℕ) (role : String) (by e : Option ℕ) (s : Structure) (signals : List Signal)
    → is_user n
        (record { permissions = s.permissions ++ created user role by e s ∷ []; signals = signals })
      ≡ true
    → (is_user n s || n == user) ≡ true
unfolding is_user any
is_user-appended n user role by e s signals h = ground (
  arith,
  any-append (λ p. n == p.user && is_true p.is_active) s.permissions
      (created user role by e s ∷ []),
)

any-deactivated :
    (n moment user : ℕ) (role : Option String) (ps : List Permission)
    → any
        (λ p. n == p.user && is_true p.is_active)
        (map (λ p. if is_active_of user p && has_role role p then deactivate moment p else p) ps)
      ≡ true
    → any (λ p. n == p.user && is_true p.is_active) ps ≡ true
unfolding any deactivate is_true
any-deactivated n moment user role [] h = h
any-deactivated n moment user role (p ∷ ps) h =
    elim (Bool-cases (is_active_of user p && has_role role p)) [
      | inl e ↦ ground (arith, any-deactivated n moment user role ps)
      | inr e ↦ ground (arith, any-deactivated n moment user role ps)
    ]

pub is_user-removed :
    (n moment user : ℕ) (role : Option String) (by : Option ℕ) (s : Structure)
    → is_user n (remove_user moment user role by s) ≡ true
    → is_user n s ≡ true
unfolding is_user remove_user
is_user-removed n moment user role by s h = any-deactivated n moment user role s.permissions h

pub number-put_structure :
    (scope : Scope) (s : Structure) (w : Scopes) → (put_structure scope s w).number ≡ w.number
unfolding put_structure
number-put_structure in_customer s w = refl
number-put_structure in_project s w = refl

pub quotas-put_structure :
    (scope : Scope) (s : Structure) (w : Scopes) → (put_structure scope s w).quotas ≡ w.quotas
unfolding put_structure
quotas-put_structure in_customer s w = refl
quotas-put_structure in_project s w = refl

pub put_structure-same :
    (scope : Scope) (w : Scopes) → put_structure scope (structure_of scope w) w ≡ w
unfolding put_structure structure_of
put_structure-same in_customer w = refl
put_structure-same in_project w = refl

mem-cons_of : (n x : ℕ) (xs : List ℕ) → (mem n xs || n == x) ≡ true → mem n (x ∷ xs) ≡ true
unfolding mem
mem-cons_of n x xs h = ground arith

or_false : (b : Bool) → (b || false) ≡ true → b ≡ true
or_false b h = ground arith

or_left : {b : Bool} → b ≡ true → (b || false) ≡ true
or_left {b} h = ground arith

-- After a row for a user there are as many users as before, or one more if the user was not connected.
pub users-appended :
    (scope : Scope) (user : ℕ) (role : String) (by e : Option ℕ) (signals : List Signal)
    (w : Scopes)
    → length (
        get_users (
          put_structure scope
            (record {
              permissions =
                  (structure_of scope w).permissions
                  ++ created user role by e (structure_of scope w) ∷ [];
              signals = signals;
            })
            w))
      ≤ length (distinct (user ∷ all_users w))
unfolding get_users
users-appended scope user role by e signals w =
    length-distinct_mono
      (all_users (
        put_structure scope
          (record {
            permissions =
                (structure_of scope w).permissions
                ++ created user role by e (structure_of scope w) ∷ [];
            signals = signals;
          })
          w))
      (user ∷ all_users w)
      λ n h. mem-cons_of n user (all_users w) (
        mem-put_structure n scope _ w (n == user)
          (is_user-appended n user role by e (structure_of scope w) signals) h)

pub users-removed :
    (scope : Scope) (moment user : ℕ) (role : Option String) (by : Option ℕ) (w : Scopes)
    → length
        (get_users (put_structure scope (remove_user moment user role by (structure_of scope w)) w))
      ≤ length (get_users w)
unfolding get_users
users-removed scope moment user role by w =
    length-distinct_mono
      (all_users (put_structure scope (remove_user moment user role by (structure_of scope w)) w))
      (all_users w)
      λ n h. or_false (mem n (all_users w)) (
        mem-put_structure n scope _ w false
          (λ k. or_left (is_user-removed n moment user role by (structure_of scope w) k)) h)
