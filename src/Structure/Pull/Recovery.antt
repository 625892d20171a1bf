-- ===== src/Structure/Pull/Recovery.antt =====
-- Resources that a pull does not find, and their recovery.
use mathlib.Core.List.{append_assoc}
use mathlib.Core.Path.{subst}
use waldur_core.Prelude.{
  ◌≡◌, refl, ◌∙◌, ap, true, [], ◌∷◌, ◌++◌, arith, if◌then◌else◌, Bool-cases, inl, inr, returned,
  raised, Outcome,
}
use waldur_core.Prelude.Text.{Text, codes, contains, contains-append, contains_self, starts_with}
use waldur_core.Core.State.{State, fire}
use waldur_core.Core.Executors.{call_transition}
use waldur_core.Core.Tasks.{update_row, Error, backend, Instance, Task}
use waldur_core.Core.Tasks.Laws.{stored}
use waldur_core.Core.Executors.Lifecycle.{KeepsState}
use waldur_core.Structure.Pull.{
  with_not_found, not_found_message, handle_resource_not_found, handle_resource_update_success,
  on_pull_fail, on_pull_success, after_pull, background_pull, is_erred, is_in_progress, is_empty,
}

-- The message is there after the call, whatever it was.
contains-with_not_found : (t : Text) → contains not_found_message (with_not_found t) ≡ true
unfolding with_not_found
contains-with_not_found [] = contains_self not_found_message
contains-with_not_found (c ∷ cs) = elim (Bool-cases (contains not_found_message (c ∷ cs))) [
  | inl found ↦ rw (found) found
  | inr new ↦ rw (new) (
      subst (λ t. contains not_found_message t ≡ true)
        (append_assoc (c ∷ cs) (codes " (") (not_found_message ++ codes ")"))
        (contains-append not_found_message ((c ∷ cs) ++ codes " (") (codes ")")))
]

nonempty-with_not_found : (t : Text) → contains not_found_message t ≡ true → with_not_found t ≡ t
unfolding with_not_found contains starts_with
nonempty-with_not_found [] h = cc
nonempty-with_not_found (c ∷ cs) h = rw (h) refl

-- The row that `handle_resource_not_found` leaves.
abbrev pub lost : Instance → Instance
lost i = record i {
  state = State.erred;
  runtime_state = "";
  error_message = with_not_found i.error_message;
}

handle_resource_not_found-lost :
    (i r : Instance) → handle_resource_not_found i (stored r) ≡ (returned tt, stored (lost i))
unfolding handle_resource_not_found fire
handle_resource_not_found-lost i r = refl

pub handle_resource_not_found_twice :
    (i r : Instance)
    → (handle_resource_not_found i (stored r) ≡ (returned tt, stored (lost i)))
      × (handle_resource_not_found (lost i) (stored (lost i)) ≡ (returned tt, stored (lost i)))
      × (contains not_found_message (lost i).error_message ≡ true)
handle_resource_not_found_twice i r = (
  handle_resource_not_found-lost i r,
  handle_resource_not_found-lost (lost i) (lost i)
      ∙ ap (λ t. (returned tt, stored (record (lost i) { error_message = t })))
          (nonempty-with_not_found (with_not_found i.error_message)
            (contains-with_not_found i.error_message)),
  contains-with_not_found i.error_message,
)

-- The row after a successful update of an instance, read before the update.
abbrev pub recovered : Instance → Instance
recovered i = record i {
  state =
      (if is_erred i.state then State.ok else if is_in_progress i.state then State.ok else i.state);
  error_message = [];
}

-- The row of the instance after a successful update: erred, updating and creating become OK.
pub handle_resource_update_success_lem :
    (i : Instance)
    → handle_resource_update_success i (stored i) ≡ (returned tt, stored (recovered i))
unfolding handle_resource_update_success fire is_erred is_in_progress is_empty call_transition
    update_row
handle_resource_update_success_lem i = ground arith

-- The row after a pull.
abbrev pub pulled_row : Instance → Instance → Outcome Error (Unit {0}) → Instance
pulled_row i j (raised (backend text)) = record j { state = State.erred; error_message = text }
pulled_row i j (raised other) = j
pulled_row i j (returned a) =
    if is_erred i.state then record j { state = State.ok; error_message = [] } else j

abbrev pub pull_outcome : Outcome Error (Unit {0}) → Outcome Error (Unit {0})
pull_outcome (raised (backend text)) = returned tt
pull_outcome other = other

after_pull-row :
    (i j : Instance) (r : Outcome Error (Unit {0}))
    → after_pull i r (stored j) ≡ (pull_outcome r, stored (pulled_row i j r))
unfolding after_pull on_pull_fail on_pull_success is_erred fire call_transition update_row
after_pull-row i j (raised (backend text)) = refl
after_pull-row i j (raised _) = refl
after_pull-row i j (returned a) = ground arith

-- If the backend method leaves the state of the row alone, the task of a pull leaves the row erred
-- with the message of a backend error, OK without a message after a success on an erred object,
-- and as the method left it otherwise; other errors are raised.
pub background_pull_lem :
    (pull : Instance → Task (Unit {0})) (keeps : KeepsState pull) (i : Instance)
    → background_pull pull (stored i) ≡ (
      pull_outcome (pull i (stored i)).0,
      stored (pulled_row i (keeps.row_after i i) (pull i (stored i)).0),
    )
unfolding background_pull fire
background_pull_lem pull keeps i =
    rw (keeps.stays i i) (after_pull-row i (keeps.row_after i i) (pull i (stored i)).0)
