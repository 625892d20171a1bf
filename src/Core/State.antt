-- ===== src/Core/State.antt =====
-- `StateMixin` of waldur_core/core/models.py: the states and the transitions of `django_fsm`.
-- A transition that is not allowed (`TransitionNotAllowed`) is `none`.
pub mod Reach
use waldur_core.Prelude.{
  ℕ, Bool, true, false, Option, none, some, List, [], ◌∷◌, String, if◌then◌else◌,
}

-- `StateMixin.States`
pub data State : Type 0 where
  creation_scheduled creating update_scheduled updating deletion_scheduled deleting ok erred : State

-- The integers that stand in the database.
unfoldable pub code : State → ℕ
code State.creation_scheduled = 5
code State.creating = 6
code State.update_scheduled = 1
code State.updating = 2
code State.deletion_scheduled = 7
code State.deleting = 8
code State.ok = 3
code State.erred = 4

-- `CHOICES`, by `human_readable_state`
unfoldable pub human_readable_state : State → String
human_readable_state State.creation_scheduled = "Creation Scheduled"
human_readable_state State.creating = "Creating"
human_readable_state State.update_scheduled = "Update Scheduled"
human_readable_state State.updating = "Updating"
human_readable_state State.deletion_scheduled = "Deletion Scheduled"
human_readable_state State.deleting = "Deleting"
human_readable_state State.ok = "OK"
human_readable_state State.erred = "Erred"

pub data Transition : Type 0 where
  begin_creating begin_updating begin_deleting : Transition
  schedule_updating schedule_deleting : Transition
  set_ok set_erred recover : Transition

-- `source=` of each `@transition`
unfoldable pub is_source : Transition → State → Bool
is_source begin_creating State.creation_scheduled = true
is_source begin_updating State.update_scheduled = true
is_source begin_deleting State.deletion_scheduled = true
is_source schedule_updating State.ok = true
is_source schedule_updating State.erred = true
is_source schedule_deleting State.ok = true
is_source schedule_deleting State.erred = true
is_source set_ok State.updating = true
is_source set_ok State.creating = true
is_source set_erred s = true
is_source recover State.erred = true
is_source _ _ = false

-- `target=` of each `@transition`
unfoldable pub target : Transition → State
target begin_creating = State.creating
target begin_updating = State.updating
target begin_deleting = State.deleting
target schedule_updating = State.update_scheduled
target schedule_deleting = State.deletion_scheduled
target set_ok = State.ok
target set_erred = State.erred
target recover = State.ok

-- A call of a transition method.
unfoldable pub fire : Transition → State → Option State
unfolding is_source target
fire t s = if is_source t s then some (target t) else none

-- Calls in a row, none of which raises.
unfoldable pub fire_all : List Transition → State → Option State
unfolding fire
fire_all [] s = some s
fire_all (t ∷ ts) s = elim (fire t s) [ none ↦ none | some s' ↦ fire_all ts s' ]
