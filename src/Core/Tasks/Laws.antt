-- ===== src/Core/Tasks/Laws.antt =====
-- What the tasks of waldur_core/core/tasks.py leave in the row of their instance.
use waldur_core.Prelude.{◌≡◌, refl, false, some, []}
use waldur_core.Core.State.{State, fire}
use waldur_core.Core.Tasks.{Error, Instance, Db, ErrorStateTransitionTask, message}

-- The row is there, and saves of the whole row are not refused.
abbrev pub stored : Instance → Db
stored i = record { row = some i; conflict = false }

-- With the result of the task that failed, the error task always leaves the instance in ERRED, with the message of the error, and with its
-- action and its action details cleared; the runtime state stays.
pub error_task_lem :
    (e : Error) (i : Instance)
    → (ErrorStateTransitionTask (some e) (stored i)).1
      ≡ stored (record i {
        state = State.erred;
        error_message = message e;
        action = "";
        action_details = [];
      })
unfolding ErrorStateTransitionTask fire
error_task_lem e i = refl
