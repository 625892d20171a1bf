-- ===== src/Core/Tasks.antt =====
-- waldur_core/core/tasks.py, the tasks that executors run: `Task.run` and the classes that
-- override its steps. A task works on the row of one instance. What a backend does is a parameter.
pub mod Laws
use text.Mathlib.Text.{◌==◌}
use waldur_core.Prelude.{
  Bool, not, ◌||◌, Option, none, some, List, [], String, Method, returned, raised, pure, raise,
  raise_if, modify, ◌>>=◌, ◌>>◌, if◌then◌else◌,
}
use waldur_core.Prelude.Text.{Text, codes}
use waldur_core.Core.State.{State, Transition, set_erred, recover, fire}

-- Exceptions. A backend raises with a message.
pub data Error : Type 0 where
  object_does_not_exist : Error
  integrity : Error
  state_change : Error
  transition_not_allowed : Error
  updated_fields_missing : Error
  runtime_state : Error
  retry : Error
  backend : Text → Error

abbrev pub Details : Type 0
Details = List (String × String)

-- The fields of a model with `StateMixin` and `RuntimeStateMixin` that tasks write.
pub record Instance : Type 0 where
  pub state : State
  pub runtime_state : String
  pub error_message : Text
  pub action : String
  pub action_details : Details

-- The row of the instance; `none` after its deletion. `conflict` says that the database refuses to
-- save the whole row (`IntegrityError`).
pub record Db : Type 0 where
  pub row : Option Instance
  pub conflict : Bool

abbrev pub Task : Type 0 → Type 0
Task A = Method Db Error A

-- `utils.deserialize_instance`
unfoldable pub deserialize_instance : Task Instance
deserialize_instance db = elim db.row [ none ↦ raise object_does_not_exist db | some i ↦ pure i db ]

-- `instance.save(update_fields=[...])`: the named fields of the row are written.
unfoldable pub update_row : (Instance → Instance) → Db → Db
update_row f db = record db { row = elim db.row [ none ↦ none | some i ↦ some (f i) ] }

-- `instance.save()`
unfoldable pub save : Instance → Task (Unit {0})
save i db = if db.conflict then raise integrity db else pure tt (record db { row = some i })

-- The arguments that `pre_execute` takes out of `kwargs`.
pub record Kwargs : Type 0 where
  pub state_transition : Option Transition
  pub action : Option String
  pub action_details : Option Details
  pub runtime_state : Option String
  pub success_runtime_state : Option String

abbrev pub no_kwargs : Kwargs
no_kwargs = record {
  state_transition = none;
  action = none;
  action_details = none;
  runtime_state = none;
  success_runtime_state = none;
}

-- `x if value is None else value`
abbrev pub or_old {ℓ} : {A : Type ℓ} → Option A → A → A
or_old none old = old
or_old (some a) old = a

-- `except IntegrityError: raise StateChangeError`
unfoldable pub or_state_change : {A : Type 0} → Task A → Task A
or_state_change m db =
    let (r, db') = m db in
    elim r [
      | returned a ↦ (returned a, db')
      | raised e ↦ (raised (elim e [ integrity ↦ state_change | other ↦ other ]), db')
    ]

-- `StateTransitionTask.state_transition`. Both `IntegrityError` and `TransitionNotAllowed` are
-- raised again as `StateChangeError`.
unfoldable pub state_transition :
    Instance → Transition → Option String → Option Details → Task Instance
unfolding save or_state_change
state_transition i t action details = elim (fire t i.state) [
  | none ↦ raise state_change
  | some s ↦
      let i' = record i {
        state = s;
        action = or_old action i.action;
        action_details = or_old details i.action_details;
      } in
      or_state_change (save i') >> pure i'
]

-- `StateTransitionTask.pre_execute`
unfoldable pub state_pre_execute : Kwargs → Instance → Task Instance
unfolding state_transition
state_pre_execute kw i = elim kw.state_transition [
  | none ↦ pure i
  | some t ↦ state_transition i t kw.action kw.action_details
]

-- `RuntimeStateChangeTask.update_runtime_state`
unfoldable pub update_runtime_state : Option String → Instance → Task Instance
unfolding update_row
update_runtime_state none i = pure i
update_runtime_state (some r) i =
    modify (update_row (λ j. record j { runtime_state = r }))
    >> pure (record i { runtime_state = r })

-- `BackendMethodTask.pre_execute`: by the order of its base classes the runtime state is saved
-- first, and then the state is changed.
unfoldable pub pre_execute : Kwargs → Instance → Task Instance
unfolding update_runtime_state state_pre_execute
pre_execute kw i = do i' ← update_runtime_state kw.runtime_state i; state_pre_execute kw i'

-- `Task.run`: `pre_execute`, `execute` and `post_execute` of a class.
unfoldable pub run :
    {A : Type 0}
    → (Instance → Task Instance)
    → (Instance → Task A)
    → (Instance → Task (Unit {0}))
    → Task A
unfolding deserialize_instance
run pre execute post = do
  i ← deserialize_instance
  i' ← pre i
  result ← execute i'
  post i'
  pure result

-- `StateTransitionTask`, whose `execute` returns the instance.
unfoldable pub StateTransitionTask : Kwargs → Task Instance
unfolding run state_pre_execute
StateTransitionTask kw = run (state_pre_execute kw) pure (λ i. pure tt)

-- `BackendMethodTask`: `execute` is the method of the backend.
unfoldable pub BackendMethodTask : Kwargs → (Instance → Task (Unit {0})) → Task (Unit {0})
unfolding run pre_execute update_runtime_state
BackendMethodTask kw method =
    run (pre_execute kw) method (λ i. update_runtime_state kw.success_runtime_state i >> pure tt)

-- `str(exception)`, which is what `error_message` stores.
unfoldable pub message : Error → Text
message (backend text) = text
message object_does_not_exist = codes "Cannot restore instance from serialized object"
message integrity = codes "duplicate key value violates unique constraint"
message state_change = codes "Could not change state"
message transition_not_allowed = codes "Can't switch from state"
message updated_fields_missing = codes "updated_fields keyword argument should be defined"
message runtime_state = codes "runtime state become erred"
message retry = codes "Retry in 5s"

-- `ErrorMessageTask.save_error_message`, with what `AsyncResult(result_id).result` is: the error of
-- the task that failed, or None if Celery keeps no result for it. The column is not nullable.
unfoldable pub save_error_message : Option Error → Instance → Task Instance
unfolding message update_row
save_error_message none i = raise integrity
save_error_message (some e) i =
    modify (update_row (λ j. record j { error_message = message e }))
    >> pure (record i { error_message = message e })

-- `ErrorStateTransitionTask.execute`
unfoldable pub error_execute : Option Error → Instance → Task Instance
unfolding save_error_message state_transition
error_execute result i = do
  i' ← save_error_message result i
  state_transition i' set_erred (some "") (some [])

unfoldable pub ErrorStateTransitionTask : Option Error → Task Instance
unfolding run error_execute
ErrorStateTransitionTask result = run pure (error_execute result) (λ i. pure tt)

-- `RecoverTask`
unfoldable pub recover_execute : Instance → Task (Unit {0})
unfolding state_transition update_row
recover_execute i = do
  state_transition i recover none none
  modify (update_row (λ j. record j { error_message = [] }))

unfoldable pub RecoverTask : Task (Unit {0})
unfolding run recover_execute
RecoverTask = run pure recover_execute (λ i. pure tt)

-- `DeletionTask`: `instance.delete()`
unfoldable pub delete : Instance → Task (Unit {0})
delete i = modify (λ db. record db { row = none })

unfoldable pub DeletionTask : Task (Unit {0})
unfolding run delete
DeletionTask = run pure delete (λ i. pure tt)

-- One attempt of `PollRuntimeStateTask.execute`: `pull` is the method of the backend, and the
-- instance is read again after it. `retry` asks Celery for another attempt.
unfoldable pub poll_runtime_state :
    (Instance → Task (Unit {0})) → String → String → Instance → Task Instance
unfolding deserialize_instance
poll_runtime_state pull success_state erred_state i = do
  pull i
  i' ← deserialize_instance
  raise_if (not (i'.runtime_state == success_state || i'.runtime_state == erred_state)) retry
  raise_if (i'.runtime_state == erred_state) runtime_state
  pure i'

unfoldable pub PollRuntimeStateTask : (Instance → Task (Unit {0})) → String → String → Task Instance
unfolding run poll_runtime_state
PollRuntimeStateTask pull success_state erred_state =
    run pure (poll_runtime_state pull success_state erred_state) (λ i. pure tt)
