-- ===== src/Core/Executors/Lifecycle.antt =====
-- Steps of a high-level operation that begins work on its instance, whatever the method of the
-- backend does to the other fields.
use waldur_core.Prelude.{
  ◌≡◌, refl, sym, ◌⊎◌, some, [], none, Option, String, arith, Outcome, returned, raised, continue,
  pure, ◌>>=◌, ◌>>◌,
}
use mathlib.Core.Path.{subst}
use waldur_core.Core.State.{State, Transition, fire}
use waldur_core.Core.Tasks.{
  Error, Instance, Db, Task, Kwargs, message, or_old, pre_execute, state_transition,
  update_runtime_state, BackendMethodTask,
}
use waldur_core.Core.Tasks.Laws.{stored}
use waldur_core.Core.Executors.{
  Executor, AsyncResult, apply_callback, callback, success_signature, error_signature,
}

-- A method of a backend may raise, and may write any field of the row but the state; it leaves the
-- row in the database.
pub record KeepsState (method : Instance → Task (Unit {0})) : Type 0 where
  pub row_after : Instance → Instance → Instance
  pub stays : (i j : Instance) → (method i (stored j)).1 ≡ stored (row_after i j)
  pub keeps : (i j : Instance) → (row_after i j).state ≡ j.state

abbrev pub IsWorking : State → Type 0
IsWorking s = (s ≡ State.updating) ⊎ (s ≡ State.creating)

-- What is left of an operation: OK with no action left after a success; after an error ERRED with its
-- message, as `AsyncResult` has it, or still at work if it has no error.
abbrev pub Failed : Option Error → Db → Type 0
Failed none db = (j : Instance) × (db ≡ stored j) × IsWorking j.state
Failed (some e) db =
    (j : Instance) × (db ≡ stored j)
    × (j.state ≡ State.erred)
    × (j.error_message ≡ message e)
    × (j.action ≡ "")
    × (j.action_details ≡ [])

abbrev pub Ended : AsyncResult → Outcome Error (Unit {0}) × Db → Type 0
Ended result (returned _, db) =
    (j : Instance) × (db ≡ stored j)
    × (j.state ≡ State.ok)
    × (j.action ≡ "")
    × (j.action_details ≡ [])
Ended result (raised e, db) = Failed (result e) db

abbrev finished : Instance → Instance
finished j = record j { state = State.ok; action = ""; action_details = [] }

abbrev pub failed : Error → Instance → Instance
failed e j = record j {
  state = State.erred;
  error_message = message e;
  action = "";
  action_details = [];
}

success-finished :
    (j : Instance) → IsWorking j.state → (success_signature (stored j)).1 ≡ stored (finished j)
unfolding success_signature fire
success-finished j w = ground arith

pub error-failed :
    (e : Error) (j : Instance) → (error_signature (some e) (stored j)).1 ≡ stored (failed e j)
unfolding error_signature fire
error-failed e j = refl

pub unstored : (j : Instance) → (error_signature none (stored j)).1 ≡ stored j
unfolding error_signature
unstored j = refl

error-Failed :
    (result : Option Error) (j : Instance)
    → IsWorking j.state
    → Failed result (error_signature result (stored j)).1
error-Failed none j w = (j, unstored j, w)
error-Failed (some e) j w = (failed e j, error-failed e j, refl, refl, refl, refl)

-- The callbacks of `SuccessExecutorMixin` and `ErrorExecutorMixin`, after work that has begun.
callback-Ended :
    (result : AsyncResult) (ex : Executor) (r : Outcome Error (Unit {0})) (j : Instance)
    → ex.success ≡ some success_signature
    → ex.failure ≡ some error_signature
    → IsWorking j.state
    → Ended result (r, apply_callback (callback result ex r) (stored j))
unfolding callback apply_callback
callback-Ended result ex (returned a) j s f w =
    (finished j, rw (s, apply_callback) (success-finished j w), refl, refl, refl)
callback-Ended result ex (raised e) j s f w = rw (f, callback) (error-Failed (result e) j w)

-- What the task of a plugin leaves: work on the instance has begun, and its row is there.
abbrev pub Began : (State → Type 0) → Outcome Error (Unit {0}) × Db → Type 0
Began P (r, db) = (j : Instance) × (db ≡ stored j) × P j.state

pub Began-Ended :
    (result : AsyncResult) (ex : Executor) (p : Outcome Error (Unit {0}) × Db)
    → ex.success ≡ some success_signature
    → ex.failure ≡ some error_signature
    → Began IsWorking p
    → Ended result (p.0, apply_callback (callback result ex p.0) p.1)
Began-Ended result ex (r, db) s f (j, e, w) = rw e (callback-Ended result ex r j s f w)

-- The instance after `pre_execute`.
abbrev pub begun : State → Kwargs → Instance → Instance
begun s kw i = record i {
  state = s;
  runtime_state = or_old kw.runtime_state i.runtime_state;
  action = or_old kw.action i.action;
  action_details = or_old kw.action_details i.action_details;
}

pub pre_execute-begun :
    (t : Transition) (i : Instance) (kw : Kwargs) (s : State)
    → fire t i.state ≡ some s
    → pre_execute (record kw { state_transition = some t }) i (stored i)
      ≡ (returned (begun s kw i), stored (begun s kw i))
unfolding pre_execute
pre_execute-begun t i kw s e = go kw.runtime_state
  where
    go :
        (o : Option String)
        → (update_runtime_state o i >>= λ i'. state_transition i' t kw.action kw.action_details)
            (stored i)
          ≡ (
            returned (begun s (record kw { runtime_state = o }) i),
            stored (begun s (record kw { runtime_state = o }) i),
          )
    go none = rw (e, state_transition)
    go (some r) = rw (e, state_transition)

module _ (P : State → Type 0) where
  post-Began :
      (o : Option String) (b j : Instance) (r : Outcome Error (Unit {0}))
      → P j.state
      → Began P (continue r (λ a. (update_runtime_state o b >> pure tt) >> pure a) (stored j))
  unfolding update_runtime_state
  post-Began none b j (returned a) w = (j, refl, w)
  post-Began (some x) b j (returned a) w = (record j { runtime_state = x }, refl, w)
  post-Began o b j (raised e) w = (j, refl, w)

  pub begin_task :
      (t : Transition) (i : Instance) (kw : Kwargs) {method : Instance → Task (Unit {0})}
      (s : State)
      → KeepsState method
      → fire t i.state ≡ some s
      → P s
      → Began P (BackendMethodTask (record kw { state_transition = some t }) method (stored i))
  unfolding BackendMethodTask
  begin_task t i kw {method} s k e w =
      let b = begun s kw i in
      let o = kw.success_runtime_state in
      let (r, db) = method b (stored b) in
      rw (pre_execute-begun t i kw s e) (
        subst (λ d. Began P (continue r (λ a. (update_runtime_state o b >> pure tt) >> pure a) d))
          (sym (k.stays b b)) (post-Began o b (k.row_after b b) r (subst P (sym (k.keeps b b)) w)))
