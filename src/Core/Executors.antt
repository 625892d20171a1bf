-- ===== src/Core/Executors.antt =====
-- waldur_core/core/executors.py. A Celery signature is an action on the database that returns or
-- raises; the signatures of the plugins' executors are parameters.
pub mod Lifecycle
pub mod Endings
use waldur_core.Prelude.{
  Bool, true, false, Option, none, some, [], String, returned, raised, pure, raise, modify, ◌>>=◌,
  ◌>>◌, not, raise_if, if◌then◌else◌, Outcome,
}
use waldur_core.Core.State.{Transition, schedule_updating, schedule_deleting, set_ok, fire}
use waldur_core.Core.Tasks.{
  Error, transition_not_allowed, updated_fields_missing, Instance, Db, Task, Details, Kwargs,
  no_kwargs, update_row, save, StateTransitionTask, ErrorStateTransitionTask, DeletionTask,
}

-- The class methods of an executor. `success` and `failure` are `get_success_signature` and
-- `get_failure_signature`; a failure signature is given the number of a result, of which it reads
-- what `AsyncResult(result_id).result` is.
pub record Executor : Type 1 where
  pub pre_apply : Instance → Task Instance
  pub task : Instance → Task (Unit {0})
  pub success : Option (Task (Unit {0}))
  pub failure : Option (Option Error → Task (Unit {0}))

-- A transition in the process that calls the executor, before anything is saved.
unfoldable pub call_transition : Transition → Instance → Task Instance
call_transition t i = elim (fire t i.state) [
  | none ↦ raise transition_not_allowed
  | some s ↦ pure (record i { state = s })
]

-- `instance.save(update_fields=['state'])`
unfoldable pub save_state : Instance → Task Instance
unfolding update_row
save_state i = modify (update_row (λ j. record j { state = i.state })) >> pure i

-- What a callback returns or raises is kept in its own result, which nothing reads.
unfoldable pub apply_callback : Option (Task (Unit {0})) → Db → Db
apply_callback none db = db
apply_callback (some m) db = (m db).1

-- What Celery keeps of the error of a task for `AsyncResult`: a worker stores it where there is a
-- result backend, and nothing is stored for a task that `apply` runs in the same process.
abbrev pub AsyncResult : Type 0
AsyncResult = Error → Option Error

-- `callback = link if not result.failed() else link_error`
unfoldable pub callback :
    AsyncResult → Executor → Outcome Error (Unit {0}) → Option (Task (Unit {0}))
callback result ex (returned a) = ex.success
callback result ex (raised e) = elim ex.failure [ none ↦ none | some f ↦ some (f (result e)) ]

-- `BaseExecutor.apply_signature` with `async=False`: at the end `result.get()` raises what the
-- task raised. With `async=True` a worker of Celery runs the task and the callback, and the outcome
-- is that of the task.
unfoldable pub apply_signature : AsyncResult → Executor → Instance → Task (Unit {0})
unfolding apply_callback callback
apply_signature result ex i db =
    let (r, db') = ex.task i db in (r, apply_callback (callback result ex r) db')

-- `BaseExecutor.execute`; `post_apply` does nothing in this code.
unfoldable pub execute : AsyncResult → Executor → Instance → Task (Unit {0})
unfolding apply_signature
execute result ex i = do i' ← ex.pre_apply i; apply_signature result ex i'

-- `SuccessExecutorMixin`
unfoldable pub success_signature : Task (Unit {0})
unfolding StateTransitionTask
success_signature =
    StateTransitionTask (record no_kwargs {
      state_transition = some set_ok;
      action = some "";
      action_details = some [];
    })
    >> pure tt

-- `ErrorExecutorMixin`
unfoldable pub error_signature : Option Error → Task (Unit {0})
unfolding ErrorStateTransitionTask
error_signature result = ErrorStateTransitionTask result >> pure tt

-- `CreateExecutor`
unfoldable pub CreateExecutor : (Instance → Task (Unit {0})) → Executor
unfolding success_signature error_signature
CreateExecutor task = record {
  pre_apply = pure;
  task = task;
  success = some success_signature;
  failure = some error_signature;
}

-- `UpdateExecutor.pre_apply`
unfoldable pub update_pre_apply : Instance → Task Instance
unfolding call_transition save_state
update_pre_apply i = do i' ← call_transition schedule_updating i; save_state i'

unfoldable pub UpdateExecutor : (Instance → Task (Unit {0})) → Executor
unfolding update_pre_apply success_signature error_signature
UpdateExecutor task = record {
  pre_apply = update_pre_apply;
  task = task;
  success = some success_signature;
  failure = some error_signature;
}

-- `UpdateExecutor.execute`: `has_updated_fields` says that `updated_fields` is among the arguments.
unfoldable pub update_execute :
    AsyncResult → (Instance → Task (Unit {0})) → Bool → Instance → Task (Unit {0})
unfolding UpdateExecutor execute
update_execute result task has_updated_fields i =
    raise_if (not has_updated_fields) updated_fields_missing
    >> execute result (UpdateExecutor task) i

-- `DeleteExecutor` with `DeleteExecutorMixin`: with `force` the row is deleted on failure too.
unfoldable pub delete_pre_apply : Instance → Task Instance
unfolding call_transition save_state
delete_pre_apply i = do i' ← call_transition schedule_deleting i; save_state i'

-- `DeleteExecutorMixin.get_failure_signature`
unfoldable pub delete_failure : Bool → Option Error → Task (Unit {0})
unfolding DeletionTask error_signature
delete_failure true result = DeletionTask
delete_failure false result = error_signature result

unfoldable pub DeleteExecutor : Bool → (Instance → Task (Unit {0})) → Executor
unfolding delete_pre_apply delete_failure DeletionTask
DeleteExecutor force task = record {
  pre_apply = delete_pre_apply;
  task = task;
  success = some DeletionTask;
  failure = some (delete_failure force);
}

-- `ActionExecutor.pre_apply`, with the action of the executor's class and its details.
unfoldable pub action_pre_apply : String → (Instance → Details) → Instance → Task Instance
unfolding call_transition save
action_pre_apply action get_action_details i = do
  i' ← call_transition schedule_updating i
  let j = record i' { action = action; action_details = get_action_details i' }
  save j
  pure j

unfoldable pub ActionExecutor :
    String → (Instance → Details) → (Instance → Task (Unit {0})) → Executor
unfolding action_pre_apply success_signature error_signature
ActionExecutor action get_action_details task = record {
  pre_apply = action_pre_apply action get_action_details;
  task = task;
  success = some success_signature;
  failure = some error_signature;
}
