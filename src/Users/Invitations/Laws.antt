-- ===== src/Users/Invitations/Laws.antt =====
-- The life of an invitation, over any row of requests and runs of the periodic task.
use text.Mathlib.Text.{◌==◌ as str_eq}
use waldur_core.Prelude.{
  ℕ, ◌≡◌, refl, ◌⊎◌, Bool, Option, none, some, List, [], ◌∷◌, String, arith, returned, raised, ◌==◌,
  ◌||◌, ◌&&◌,
}
use waldur_core.Structure.Permissions.{Structure, now, has_user}
use waldur_core.Structure.Permissions.Roles.{has_user-add_user}
use waldur_core.Structure.Access.{User}
use waldur_core.Users.Invitations.{
  State, accepted, canceled, pending, Settings, World, Error, send, cancel, accept,
  cancel_expired_invitations, grant, grant_in, set_state,
}

-- A request of a user, or a run of the periodic task, with the moment where the code reads it.
pub data Event : Type 0 where
  sends : User → ℕ → Event
  cancels : User → Event
  accepts : User → Bool → Event
  expires : ℕ → Event

module _ (settings : Settings) where
  unfoldable pub step : Event → World → World
  unfolding send cancel accept cancel_expired_invitations
  step (sends user moment) w = (send settings user moment w).1
  step (cancels user) w = (cancel settings user w).1
  step (accepts user replace_email) w = (accept settings user replace_email w).1
  step (expires moment) w = cancel_expired_invitations settings none moment w

  unfoldable pub steps : List Event → World → World
  steps [] w = w
  steps (e ∷ es) w = steps es (step e w)

  abbrev pub IsFinal : State → Type 0
  IsFinal s = (s ≡ accepted) ⊎ (s ≡ canceled)

  step-final : (e : Event) (w : World) → IsFinal w.invitation.state → step e w ≡ w
  unfolding step
  step-final (sends user moment) w f = ground arith
  step-final (cancels user) w f = ground arith
  step-final (accepts user replace_email) w f = ground arith
  step-final (expires moment) w f = ground arith

  -- Once an invitation is accepted or canceled, no row of requests and of runs of the periodic task
  -- changes it, grants a role, or hands a letter over.
  pub steps-final : (es : List Event) (w : World) → IsFinal w.invitation.state → steps es w ≡ w
  unfolding steps
  steps-final [] w f = refl
  steps-final (e ∷ es) w f = rw (step-final e w f) (steps-final es w f)

  grant_in-refused :
      (user : User) (pr : Option String) (o : Option Structure) (cr : Option String) (w : World)
      (e : Error)
      → (grant_in user pr o cr w).0 ≡ raised e
      → (grant_in user pr o cr w).1 ≡ w
  unfolding grant_in
  grant_in-refused user (some role) none cr w e h = refl
  grant_in-refused user (some role) (some p) cr w e h = cc
  grant_in-refused user none o none w e h = refl
  grant_in-refused user none o (some role) w e h = cc

  accept-refused :
      (user : User) (r : Bool) (w : World) (e : Error)
      → (accept settings user r w).0 ≡ raised e
      → (accept settings user r w).1 ≡ w
  unfolding accept grant
  accept-refused user r w e h = ground (
    arith,
    grant_in-refused user w.invitation.project_role w.project w.invitation.customer_role w e,
  )

  -- A request that is refused changes nothing.
  pub refused_unchanged :
      (user : User) (replace_email : Bool) (moment : ℕ) (w : World) (e : Error)
      → ((send settings user moment w).0 ≡ raised e → (send settings user moment w).1 ≡ w)
        × ((cancel settings user w).0 ≡ raised e → (cancel settings user w).1 ≡ w)
        × ((accept settings user replace_email w).0 ≡ raised e
            → (accept settings user replace_email w).1 ≡ w)
  unfolding send cancel
  refused_unchanged user r moment w e =
      (λ h. ground arith, λ h. ground arith, accept-refused user r w e)

  -- What an acceptance has granted: the project role, if the invitation has one, and otherwise the
  -- customer role.
  abbrev pub Granted :
      User
      → Option String
      → Option String
      → Structure × Option Structure
      → Structure × Option Structure
      → Type 0
  Granted user (some role) _ (customer, project) (customer', project') =
      (p p' : Structure) × (project ≡ some p)
      × (project' ≡ some p')
      × (customer' ≡ customer)
      × ((v : ℕ) (q : String)
          → has_user v (some q) now p'
            ≡ (has_user v (some q) now p || (v == user.id && str_eq q role)))
  Granted user none customer_role (customer, project) (customer', project') =
      (role : String) × (customer_role ≡ some role)
      × (project' ≡ project)
      × ((v : ℕ) (q : String)
          → has_user v (some q) now customer'
            ≡ (has_user v (some q) now customer || (v == user.id && str_eq q role)))

  -- The customer and the project.
  abbrev pub structures : World → Structure × Option Structure
  structures w = (w.customer, w.project)

  grant_in-Granted :
      (user : User) (pr : Option String) (o : Option Structure) (cr : Option String) (w : World)
      → w.project ≡ o
      → (grant_in user pr o cr w).0 ≡ returned tt
      → Granted user pr cr (structures w) (structures (grant_in user pr o cr w).1)
        × ((grant_in user pr o cr w).1.invitation ≡ w.invitation)
        × ((grant_in user pr o cr w).1.letters ≡ w.letters)
  unfolding grant_in
  grant_in-Granted user (some role) none cr w p h = cc
  grant_in-Granted user (some role) (some s) cr w p h = (
    (s, _, p, refl, refl, has_user-add_user user.id role w.invitation.created_by none s),
    refl,
    refl,
  )
  grant_in-Granted user none o none w p h = cc
  grant_in-Granted user none o (some role) w p h = (
    (role, refl, refl, has_user-add_user user.id role w.invitation.created_by none w.customer),
    refl,
    refl,
  )

  -- The parts of an acceptance that is not refused.
  accept-parts :
      (user u : User) (r : Bool) (w w' : World)
      → accept settings user r w ≡ (returned u, w')
      → (w.invitation.state ≡ pending)
        × ((grant user w).0 ≡ returned tt)
        × (w' ≡ set_state accepted (grant user w).1)
  unfolding accept
  accept-parts user u r w w' h = ground arith

  -- An acceptance that is not refused was of a pending invitation, and leaves it accepted. In the
  -- project, if the invitation has a project role, and otherwise in the customer, the user gains
  -- that role and keeps the others, nobody else gains or loses one, and no letter is handed over.
  pub accept-Granted :
      (user u : User) (r : Bool) (w w' : World)
      → accept settings user r w ≡ (returned u, w')
      → (w.invitation.state ≡ pending)
        × (w'.invitation.state ≡ accepted)
        × (w'.letters ≡ w.letters)
        × Granted user w.invitation.project_role w.invitation.customer_role
            (structures w)
            (structures w')
  unfolding set_state grant
  accept-Granted user u r w w' h =
      let (was, granted, is) = accept-parts user u r w w' h in
      let (gives, same, letters) =
        grant_in-Granted user w.invitation.project_role w.project w.invitation.customer_role w refl
          (unfold grant in granted) in
      rw is (was, refl, letters, gives)
