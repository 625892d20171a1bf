-- ===== src/Users/Invitations.antt =====
-- `Invitation` of waldur_core/users/models.py, the actions of `InvitationViewSet` in users/views.py,
-- and `cancel_expired_invitations` of users/tasks.py, on one invitation.
pub mod Laws
use text.Mathlib.Text.{◌==◌ as str_eq}
use waldur_core.Prelude.{
  ℕ, ◌+◌, Bool, true, false, not, ◌&&◌, ◌||◌, Option, none, some, String, Method, pure, raise,
  raise_if, modify, gets, ◌>>=◌, ◌>>◌, is_some, if◌then◌else◌, leb,
}
use waldur_core.Structure.Permissions.{Structure, Timestamp, now, has_user, add_user}
use waldur_core.Structure.Access.{User, owner}

-- `Invitation.State`
pub data State : Type 0 where
  accepted canceled pending expired : State

pub State-discrete : Discrete State
State-discrete = hlevel

pub record Invitation : Type 0 where
  pub state : State
  pub created : ℕ
  pub created_by : Option ℕ
  pub customer_role : Option String
  pub project_role : Option String
  pub email : String
  pub civil_number : String

pub record Settings : Type 0 where
  pub owners_can_manage_owners : Bool
  pub validate_invitation_email : Bool
  pub invitation_lifetime : ℕ

-- The invitation, its customer, its project if it has one, and the number of letters that were
-- handed to `send_invitation.delay`.
pub record World : Type 0 where
  pub invitation : Invitation
  pub customer : Structure
  pub project : Option Structure
  pub letters : ℕ

pub data Error : Type 0 where
  permission_denied not_pending not_resendable not_cancelable : Error
  invalid_civil_number already_in_project already_in_customer email_mismatch : Error
  attribute_error integrity_error not_found : Error

abbrev pub View : Type 0 → Type 0
View A = Method World Error A

unfoldable pub is_state : State → State → Bool
is_state accepted accepted = true
is_state canceled canceled = true
is_state pending pending = true
is_state expired expired = true
is_state _ _ = false

-- Python's truth of a text that may be `None`.
unfoldable pub is_given : Option String → Bool
is_given none = false
is_given (some text) = not (str_eq text "")

-- `can_manage_invitation_with`; `None` at the end of the method is false.
unfoldable pub can_manage_invitation_with :
    Settings → User → Structure → Option String → Option String → Bool
unfolding is_given
can_manage_invitation_with settings user customer customer_role project_role =
    let is_owner = has_user user.id (some owner) now customer in
    if user.is_staff
    then true
    else if is_given customer_role
    then is_owner && settings.owners_can_manage_owners
    else if is_given project_role
    then is_owner
    else false

-- The guard of `send` and `cancel`.
unfoldable pub check_management : Settings → User → View (Unit {0})
unfolding can_manage_invitation_with
check_management settings user w =
    raise_if
      (not (
        can_manage_invitation_with settings user w.customer w.invitation.customer_role
          w.invitation.project_role))
      permission_denied w

unfoldable pub set_state : State → World → World
set_state s w = record w { invitation = record w.invitation { state = s } }

-- `InvitationViewSet.send`, at a moment of time.
unfoldable pub send : Settings → User → ℕ → View (Unit {0})
unfolding check_management is_state
send settings user moment = do
  check_management settings user
  i ← gets (λ w. w.invitation)
  raise_if (is_state i.state accepted || is_state i.state canceled) not_resendable
  if is_state i.state expired
      then modify (λ w. record w { invitation = record i { state = pending; created = moment } })
      else pure tt
  modify (λ w. record w { letters = w.letters + 1 })

-- `InvitationViewSet.cancel` and `Invitation.cancel`
unfoldable pub cancel : Settings → User → View (Unit {0})
unfolding check_management is_state set_state
cancel settings user = do
  check_management settings user
  i ← gets (λ w. w.invitation)
  raise_if (not (is_state i.state pending)) not_cancelable
  modify (set_state canceled)

-- The role that `Invitation.accept` grants: in the project, if there is a project role. A project
-- role without a project ends in an `AttributeError`, and no role at all in an `IntegrityError`.
unfoldable pub grant_in : User → Option String → Option Structure → Option String → View (Unit {0})
grant_in user (some role) none _ w = raise attribute_error w
grant_in user (some role) (some p) _ w =
    pure tt (record w { project = some (add_user user.id role w.invitation.created_by none p).1 })
grant_in user none _ none w = raise integrity_error w
grant_in user none _ (some role) w =
    pure tt
      (record w { customer = (add_user user.id role w.invitation.created_by none w.customer).1 })

unfoldable pub grant : User → View (Unit {0})
unfolding grant_in
grant user w = grant_in user w.invitation.project_role w.project w.invitation.customer_role w

-- `Invitation.accept`, which returns the user with their new email.
unfoldable pub accept_invitation : User → Bool → View User
unfolding set_state
accept_invitation user replace_email = do
  grant user
  modify (set_state accepted)
  i ← gets (λ w. w.invitation)
  pure (if replace_email then record user { email = i.email } else user)

-- The tests of `has_user` in `InvitationViewSet.accept`.
unfoldable pub check_membership : User → View (Unit {0})
check_membership user w = elim w.project [
  | some p ↦ raise_if (has_user user.id none now p) already_in_project w
  | none ↦ raise_if (has_user user.id none now w.customer) already_in_customer w
]

-- `InvitationViewSet.accept`
unfoldable pub accept : Settings → User → Bool → View User
unfolding is_state check_membership accept_invitation
accept settings user replace_email = do
  i ← gets (λ w. w.invitation)
  raise_if (not (is_state i.state pending)) not_pending
  raise_if (not (str_eq i.civil_number "") && not (str_eq i.civil_number user.civil_number))
      invalid_civil_number
  check_membership user
  raise_if (settings.validate_invitation_email && not (str_eq i.email user.email)) email_mismatch
  accept_invitation user replace_email

-- `InvitationViewSet.check`: the email, and whether a civil number is required.
unfoldable pub check : View (String × Bool)
unfolding is_state
check = do
  i ← gets (λ w. w.invitation)
  raise_if (not (is_state i.state pending)) not_found
  pure (i.email, not (str_eq i.civil_number ""))

-- Whether the invitation is among `invitations`, the argument of the task: a queryset that is not
-- empty, of which only this is said, or else all that are pending.
unfoldable pub is_listed : Option Bool → Invitation → Bool
unfolding is_state
is_listed none i = is_state i.state pending
is_listed (some given) i = given

-- `cancel_expired_invitations`, at a moment of time: `created <= now - lifetime`.
unfoldable pub cancel_expired_invitations : Settings → Option Bool → ℕ → World → World
unfolding is_listed set_state
cancel_expired_invitations settings invitations moment w =
    if is_listed invitations w.invitation
      && leb (w.invitation.created + settings.invitation_lifetime) moment
    then set_state expired w
    else w
