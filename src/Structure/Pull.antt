-- ===== src/Structure/Pull.antt =====
-- `update_pulled_fields`, `handle_resource_not_found` and `handle_resource_update_success` of
-- waldur_core/structure/utils.py, and `BackgroundPullTask` and `BackgroundListPullTask` of
-- structure/tasks.py. The method that pulls from a backend is a parameter.
pub mod Fields
pub mod Updates
pub mod Recovery
use text.Mathlib.Text.{◌==◌ as str_eq}
use waldur_core.Prelude.{
  ℕ, suc, Bool, true, false, not, ◌&&◌, ◌||◌, Option, none, some, List, [], ◌∷◌, ◌++◌, String,
  Method, Outcome, returned, raised, pure, raise, modify, ◌>>=◌, ◌>>◌, filter, if◌then◌else◌,
}
use waldur_core.Prelude.Text.{Text, codes, contains, same_text}
use waldur_core.Core.State.{State, set_erred, recover, set_ok, fire}
use waldur_core.Core.Tasks.{
  Error, backend, object_does_not_exist, Instance, Db, Task, deserialize_instance, save, update_row,
}
use waldur_core.Core.Executors.{call_transition}

-- An object with attributes, as a backend gives it, or as Django holds it. An imported object need
-- not have an error message.
pub record Pulled : Type 0 where
  pub attributes : String → String
  pub error_message : Option Text

-- The instance in the process, its row, and how often it was saved.
pub record Stored : Type 0 where
  pub instance : Pulled
  pub row : Pulled
  pub saves : ℕ

-- `setattr(instance, field, value)`
unfoldable pub set_attribute : String → String → Pulled → Pulled
set_attribute field value i = record i {
  attributes = λ k. if str_eq k field then value else i.attributes k;
}

-- One round of the loop of `update_pulled_fields`, on the instance and `modified`.
unfoldable pub pull_field : Pulled → String → Pulled × Bool → Pulled × Bool
unfolding set_attribute
pull_field imported field (i, modified) =
    if str_eq (i.attributes field) (imported.attributes field)
    then (i, modified)
    else (set_attribute field (imported.attributes field) i, true)

unfoldable pub pull_fields : Pulled → List String → Pulled × Bool → Pulled × Bool
unfolding pull_field
pull_fields imported [] result = result
pull_fields imported (field ∷ fields) result =
    pull_fields imported fields (pull_field imported field result)

-- `getattr(instance, 'error_message', '')`
unfoldable pub message_of : Pulled → Text
message_of i = elim i.error_message [ none ↦ [] | some text ↦ text ]

-- `getattr(a, 'error_message', '') or getattr(b, 'error_message', '')`
unfoldable pub first_message : Option Text → Option Text → Text
first_message (some (c ∷ cs)) b = c ∷ cs
first_message (some []) (some text) = text
first_message none (some text) = text
first_message (some []) none = []
first_message none none = []

-- The condition on the error messages after the loop.
unfoldable pub has_new_message : Pulled → Pulled → Bool
unfolding first_message message_of
has_new_message imported i =
    let new = first_message imported.error_message i.error_message in
    not (same_text new []) && not (same_text (message_of i) new)

unfoldable pub pull_message : Pulled → Pulled → Pulled
unfolding has_new_message
pull_message imported i =
    if has_new_message imported i then record i { error_message = imported.error_message } else i

-- `update_pulled_fields`
unfoldable pub update_pulled_fields : Pulled → List String → Stored → Stored
unfolding pull_fields has_new_message pull_message
update_pulled_fields imported fields s =
    let (i, modified) = pull_fields imported fields (s.instance, false) in
    let j = pull_message imported i in
    if modified || has_new_message imported i
    then record { instance = j; row = j; saves = suc s.saves }
    else record s { instance = j }

abbrev pub not_found_message : Text
not_found_message = codes "Does not exist at backend."

-- The error message that `handle_resource_not_found` leaves.
unfoldable pub with_not_found : Text → Text
with_not_found [] = not_found_message
with_not_found (c ∷ cs) =
    if contains not_found_message (c ∷ cs)
    then c ∷ cs
    else (c ∷ cs) ++ (codes " (" ++ (not_found_message ++ codes ")"))

-- `handle_resource_not_found`
unfoldable pub handle_resource_not_found : Instance → Task (Unit {0})
unfolding call_transition with_not_found save
handle_resource_not_found i = do
  i' ← call_transition set_erred i
  save (record i' { runtime_state = ""; error_message = with_not_found i'.error_message })

unfoldable pub is_erred : State → Bool
is_erred State.erred = true
is_erred _ = false

unfoldable pub is_in_progress : State → Bool
is_in_progress State.updating = true
is_in_progress State.creating = true
is_in_progress _ = false

unfoldable pub is_empty : Text → Bool
is_empty [] = true
is_empty (c ∷ cs) = false

-- `handle_resource_update_success`: of the row, the fields in `update_fields` are written.
unfoldable pub handle_resource_update_success : Instance → Task (Unit {0})
unfolding call_transition update_row is_erred is_in_progress is_empty
handle_resource_update_success i = do
  j ← if is_erred i.state then call_transition recover i else pure i
  k ← if is_in_progress j.state then call_transition set_ok j else pure j
  let has_state = is_erred i.state || is_in_progress j.state
  let has_message = not (is_empty k.error_message)
  modify (
      update_row λ r. record r {
        state = if has_state then k.state else r.state;
        error_message = if has_message then [] else r.error_message;
      })

-- `BackgroundPullTask.on_pull_fail` with `set_instance_erred`. A `DatabaseError` of the save, which
-- a deleted row causes, is caught.
unfoldable pub on_pull_fail : Instance → Text → Task (Unit {0})
unfolding call_transition update_row
on_pull_fail i error_message = do
  j ← call_transition set_erred i
  modify (update_row (λ r. record r { state = j.state; error_message = error_message }))

-- `BackgroundPullTask.on_pull_success`
unfoldable pub on_pull_success : Instance → Task (Unit {0})
unfolding call_transition update_row is_erred
on_pull_success i =
    if is_erred i.state
    then (do
      j ← call_transition recover i
      modify (update_row (λ r. record r { state = j.state; error_message = [] })))
    else pure tt

-- `except ServiceBackendError ... else ...`
unfoldable pub after_pull : Instance → Outcome Error (Unit {0}) → Task (Unit {0})
unfolding on_pull_fail on_pull_success
after_pull i (raised (backend text)) = on_pull_fail i text
after_pull i (raised other) = raise other
after_pull i (returned a) = on_pull_success i

-- `BackgroundPullTask.run`
unfoldable pub background_pull : (Instance → Task (Unit {0})) → Task (Unit {0})
unfolding deserialize_instance after_pull
background_pull pull = do
  i ← deserialize_instance
  λ db. let (r, db') = pull i db in after_pull i r db'

-- An object of `BackgroundListPullTask`, with its `backend_id`.
pub record Listed : Type 0 where
  pub state : State
  pub backend_id : String

unfoldable pub is_stable : State → Bool
is_stable State.ok = true
is_stable State.erred = true
is_stable _ = false

-- `BackgroundListPullTask.get_pulled_objects`
unfoldable pub get_pulled_objects : List Listed → List Listed
unfolding is_stable
get_pulled_objects = filter (λ o. is_stable o.state && not (str_eq o.backend_id ""))
