-- ===== src/Core/Executors/Endings.antt =====
-- How the executors of waldur_core/core/executors.py end when the task is a `BackendMethodTask`
-- that begins its work by a transition.
use waldur_core.Prelude.{
  ◌≡◌, refl, ◌⊎◌, inl, inr, Bool, true, false, Option, none, some, String, arith, Outcome, returned,
  raised,
}
use waldur_core.Core.State.{State, Transition, fire, begin_creating, begin_updating}
use waldur_core.Core.Tasks.{
  Error, message, Instance, Db, Task, Kwargs, Details, BackendMethodTask, transition_not_allowed,
}
use waldur_core.Core.Tasks.Laws.{stored}
use waldur_core.Core.Executors.{
  AsyncResult, execute, CreateExecutor, UpdateExecutor, update_execute, update_pre_apply,
  delete_pre_apply, action_pre_apply, DeleteExecutor, ActionExecutor,
}
use waldur_core.Core.Executors.Lifecycle.{
  KeepsState, Ended, IsWorking, Began-Ended, begin_task, unstored, unstored,
}

-- The states from which an update, an action or a deletion is accepted.
abbrev pub IsIdle : State → Type 0
IsIdle s = (s ≡ State.ok) ⊎ (s ≡ State.erred)

action-scheduled :
    (a : String) (d : Instance → Details) (i : Instance)
    → IsIdle i.state
    → let i' = record i { state = State.update_scheduled } in
      let j = record i' { action = a; action_details = d i' } in
      action_pre_apply a d i (stored i) ≡ (returned j, stored j)
unfolding action_pre_apply fire
action-scheduled a d i s = elim s [
  | inl is_ok ↦ rw (is_ok, fire) refl
  | inr is_erred ↦ rw (is_erred, fire) refl
]

update-refused :
    (i : Instance) (db : Db)
    → ¬ IsIdle i.state
    → update_pre_apply i db ≡ (raised transition_not_allowed, db)
unfolding update_pre_apply fire
update-refused i db h = ground arith

delete-refused :
    (i : Instance) (db : Db)
    → ¬ IsIdle i.state
    → delete_pre_apply i db ≡ (raised transition_not_allowed, db)
unfolding delete_pre_apply fire
delete-refused i db h = ground arith

creating_fires :
    (s : State) → s ≡ State.creation_scheduled → fire begin_creating s ≡ some State.creating
unfolding fire
creating_fires s e = ground arith

-- The task of the executor: a method of the backend, run after a transition.
abbrev pub begin : Kwargs → (Instance → Task (Unit {0})) → Transition → Instance → Task (Unit {0})
begin kw method t i = BackendMethodTask (record kw { state_transition = some t }) method

module _ (result : AsyncResult) (kw : Kwargs) {method : Instance → Task (Unit {0})}
    (k : KeepsState method) where
  -- A creation of an instance that is scheduled for it, by a task that runs a method of the backend
  -- after `begin_creating`, ends in OK with no action left if the method returns. If it raises, the
  -- instance is ERRED with the message of the error and no action left, and stays at work if
  -- `AsyncResult` does not have the error.
  pub create-Ended :
      (i : Instance)
      → i.state ≡ State.creation_scheduled
      → Ended result (execute result (CreateExecutor (begin kw method begin_creating)) i (stored i))
  unfolding execute CreateExecutor
  create-Ended i s =
      Began-Ended result (CreateExecutor (begin kw method begin_creating)) _ refl refl (
        begin_task IsWorking begin_creating i kw State.creating k (creating_fires i.state s)
          (inr refl))

  -- An action of an instance that is OK or ERRED, by a task that runs a method of the backend after
  -- `begin_updating`, ends as an update does; the executor's own action and its details do not
  -- outlive it, unless the method raises and `AsyncResult` does not have the error.
  pub action-Ended :
      (a : String) (d : Instance → Details) (i : Instance)
      → IsIdle i.state
      → Ended result
          (execute result (ActionExecutor a d (begin kw method begin_updating)) i (stored i))
  unfolding execute ActionExecutor
  action-Ended a d i s =
      let i' = record i { state = State.update_scheduled } in
      rw (action-scheduled a d i s) (
        Began-Ended result (ActionExecutor a d (begin kw method begin_updating)) _ refl refl (
          begin_task IsWorking begin_updating (record i' { action = a; action_details = d i' }) kw
            State.updating k (unfold fire in refl) (inl refl)))

-- How a deletion ends: the row is gone if the task returned, or if the deletion is forced;
-- otherwise the instance is ERRED, with the message of the error that `AsyncResult` has, or stays
-- as the task left it, being deleted, if it has none.
abbrev pub Kept : Option Error → Db → Type 0
Kept none db = (j : Instance) × (db ≡ stored j) × (j.state ≡ State.deleting)
Kept (some e) db =
    (j : Instance) × (db ≡ stored j) × (j.state ≡ State.erred) × (j.error_message ≡ message e)

abbrev pub Deleted : AsyncResult → Bool → Outcome Error (Unit {0}) × Db → Type 0
Deleted result force (returned _, db) = db.row ≡ none
Deleted result true (raised e, db) = db.row ≡ none
Deleted result false (raised e, db) = Kept (result e) db

-- The instance is in none of the states from which it can be scheduled: whatever the task is, the
-- update and the deletion raise `TransitionNotAllowed`, and the database is left as it was.
pub busy_refused :
    (result : AsyncResult) (task : Instance → Task (Unit {0})) (force : Bool) (i : Instance)
    (db : Db)
    → ¬ IsIdle i.state
    → (update_execute result task true i db ≡ (raised transition_not_allowed, db))
      × (execute result (DeleteExecutor force task) i db ≡ (raised transition_not_allowed, db))
unfolding update_execute execute DeleteExecutor UpdateExecutor
busy_refused result task force i db busy =
    (rw (update-refused i db busy) refl, rw (delete-refused i db busy) refl)
