-- ===== src/Tests/PullTests.antt =====
-- The theorems on pulls at concrete objects.
use text.Mathlib.Text.{◌==◌ as str_eq}
use waldur_core.Prelude.{◌≡◌, refl, none, some, List, [], ◌∷◌, String, raised, if◌then◌else◌}
use waldur_core.Prelude.Text.{codes}
use waldur_core.Core.State.{State}
use waldur_core.Core.Tasks.{Instance, Task, backend, update_row}
use waldur_core.Core.Tasks.Laws.{stored}
use waldur_core.Core.Executors.Lifecycle.{KeepsState}
use waldur_core.Structure.Pull.{Pulled, Stored, background_pull}
use waldur_core.Structure.Pull.Recovery.{pulled_row, pull_outcome, background_pull_lem}

abbrev server : Pulled
server = record {
  attributes = λ k. if str_eq k "name" then "web" else "2";
  error_message = some [];
}

abbrev imported_server : Pulled
imported_server = record {
  attributes = λ k. if str_eq k "name" then "www" else "4";
  error_message = none;
}

abbrev stored_server : Stored
stored_server = record { instance = server; row = server; saves = 0 }

abbrev fields : List String
fields = "name" ∷ "cores" ∷ []

abbrev machine : Instance
machine = record {
  state = State.updating;
  runtime_state = "ACTIVE";
  error_message = codes "timeout";
  action = "";
  action_details = [];
}

-- A backend that renames the runtime state and then fails.
abbrev failing : Instance → Task (Unit {0})
failing i db = (
  raised (backend (codes "no connection")),
  update_row (λ j. record j { runtime_state = "busy" }) db,
)

failing_keeps : KeepsState failing
unfolding update_row
failing_keeps = record {
  row_after = λ i j. record j { runtime_state = "busy" };
  stays = λ i j. refl;
  keeps = λ i j. refl;
}

background_pull_lem_example : background_pull failing (stored machine) ≡ (
  pull_outcome (failing machine (stored machine)).0,
  stored (
      pulled_row machine
        (record machine { runtime_state = "busy" })
        (failing machine (stored machine)).0),
)
unfolding update_row failing_keeps
background_pull_lem_example = background_pull_lem failing failing_keeps machine
