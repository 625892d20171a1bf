-- ===== src/Tests/CoreTests.antt =====
-- States, executors and penalties at concrete inputs.
use text.Mathlib.TextEquality.{eq_iff}
use waldur_core.Prelude.{
  ◌≡◌, ◌≢◌, refl, Bool, true, false, none, some, List, [], ◌∷◌, ◌⊎◌, arith, String, returned,
  raised,
}
use waldur_core.Prelude.Text.{codes}
use waldur_core.Core.State.{
  State, Transition, fire_all, begin_creating, begin_updating, begin_deleting, set_erred, recover,
  schedule_updating,
}
use waldur_core.Core.Tasks.{Instance, Task, backend, no_kwargs, update_row, BackendMethodTask}
use waldur_core.Core.Tasks.Laws.{stored}
use waldur_core.Core.Executors.{AsyncResult, update_execute}
use waldur_core.Core.Executors.Lifecycle.{KeepsState}
use waldur_core.Core.Executors.Endings.{begin}
use waldur_core.Core.Penalty.{Cache, get}
use waldur_core.Core.Penalty.Skips.{calls, failed_rounds, skips-failed_rounds, skipped_then_run}
use waldur_core.Core.Penalty.Invariant.{Event, call, failure, success, expiry, IsBounded}
use waldur_core.Core.State

abbrev at_state : State.State → Instance
at_state s = record {
  state = s;
  runtime_state = "";
  error_message = [];
  action = "resize";
  action_details = [];
}

-- A result backend that keeps each error.
abbrev stored_result : AsyncResult
stored_result e = some e

-- A backend that renames the runtime state and then fails.
abbrev failing : Instance → Task (Unit {0})
failing i db =
    (raised (backend (codes "no quota")), update_row (λ j. record j { runtime_state = "busy" }) db)

-- The failed update leaves an erred instance with the message and the runtime state of the backend.
update_fails :
    (update_execute stored_result
      (begin no_kwargs failing begin_updating)
      true
      (at_state State.ok)
      (stored (at_state State.ok))).1
    ≡ stored (record {
      state = State.erred;
      runtime_state = "busy";
      error_message = codes "no quota";
      action = "";
      action_details = [];
    })
unfolding update_execute update_row State.fire BackendMethodTask
update_fails = refl

busy : ¬ ((State.updating ≡ State.ok) ⊎ (State.updating ≡ State.erred))
busy h = ground arith

-- `EmptyTask`
abbrev empty_task : Instance → Task (Unit {0})
empty_task i db = (returned tt, db)

empty_task-KeepsState : KeepsState empty_task
empty_task-KeepsState = record { row_after = λ i j. j; stays = λ i j. refl; keeps = λ i j. refl }

-- Without a result the error callback fails, and the failed update leaves the instance at work.
update_unstored :
    (update_execute
      (λ e. none)
      (begin no_kwargs failing begin_updating)
      true
      (at_state State.ok)
      (stored (at_state State.ok))).1
    ≡ stored (record {
      state = State.updating;
      runtime_state = "busy";
      error_message = [];
      action = "resize";
      action_details = [];
    })
unfolding update_execute update_row State.fire BackendMethodTask
update_unstored = refl

abbrev failed_deletion : List Transition
failed_deletion = begin_deleting ∷ set_erred ∷ recover ∷ []

abbrev empty_cache : Cache
empty_cache key = none

-- Nothing in the queues is equal to the task.
abbrev unequal : Unit {0} → Bool
unequal r = false

skips-failed_rounds_example :
    (calls unequal "pull" 3 (failed_rounds unequal "pull" 2 empty_cache)).0
    ≡ skipped_then_run unequal "pull" 2
skips-failed_rounds_example = skips-failed_rounds unequal "pull" 2 empty_cache (unfold get in refl)

empty-IsBounded : IsBounded unequal empty_cache
unfolding get
empty-IsBounded = record { at_key = λ key. (omega arith, omega arith) }

abbrev events : List (Event unequal)
events = failure "pull" ∷ call "pull" [] ∷ success "sync" ∷ failure "pull" ∷ expiry "pull" ∷ []

other_key : ◌≢◌ {A = String} "sync" "pull"
other_key e = cc ((eq_iff "sync" "pull").1 e)
