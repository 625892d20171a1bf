-- ===== src/Logging/Hooks.antt =====
-- Hooks on events: `process_event` and `check_event` of waldur_core/logging/tasks.py, the hooks of
-- logging/models.py, and `get_permitted_objects_uuids` of `EventLoggerRegistry` in logging/loggers.py.
-- What is sent is a list; the texts of letters and the timestamps are left out.
pub mod Sent
use text.Mathlib.Text.{◌==◌ as str_eq}
use waldur_core.Prelude.{
  ℕ, Bool, true, false, not, ◌&&◌, Option, none, some, List, [], ◌∷◌, ◌++◌, String, any, filter,
  is_some, if◌then◌else◌,
}

-- A dictionary.
abbrev pub Dict : Type 0 → Type 0
Dict A = List (String × A)

unfoldable pub lookup : {A : Type 0} → String → Dict A → Option A
lookup key [] = none
lookup key ((k, v) ∷ items) = if str_eq k key then some v else lookup key items

-- `items[key] = value`
unfoldable pub put : {A : Type 0} → String → A → Dict A → Dict A
put key value [] = (key, value) ∷ []
put key value ((k, v) ∷ items) =
    if str_eq k key then (k, value) ∷ items else (k, v) ∷ put key value items

pub record Event : Type 0 where
  pub event_type : String
  pub message : Option String
  pub context : Dict String

-- The kinds of hooks, and what they need.
pub data Target : Type 0 where
  web_json web_form : String → Target
  push_ios push_android : Option String → Target
  email : String → Target

pub record Hook : Type 0 where
  pub user : ℕ
  pub is_active : Bool
  pub event_types : List String
  pub target : Target

-- The types of `SystemNotification` for each kind of hook, if there is one, and the server keys of
-- `GOOGLE_API`.
pub record Settings : Type 0 where
  pub system_types : Target → Option (List String)
  pub ios_key : Option String
  pub android_key : Option String
  pub title : String

pub data Message : Type 0 where
  posted_json posted_form : String → Event → Message
  pushed : String → String → Bool → String → Message
  mailed : String → Event → Message

-- The inner loop of `get_permitted_objects_uuids`.
unfoldable pub put_each : Dict (List String) → Dict (List String) → Dict (List String)
unfolding put
put_each [] permitted = permitted
put_each ((field, uuids) ∷ items) permitted = put_each items (put field uuids permitted)

-- `EventLoggerRegistry.get_permitted_objects_uuids`, over what each loggable model gives.
unfoldable pub permitted_from : List (Dict (List String)) → Dict (List String) → Dict (List String)
unfolding put_each
permitted_from [] permitted = permitted
permitted_from (model ∷ models) permitted = permitted_from models (put_each model permitted)

unfoldable pub get_permitted_objects_uuids : List (Dict (List String)) → Dict (List String)
unfolding permitted_from
get_permitted_objects_uuids models = permitted_from models []

-- `all_event_types`
unfoldable pub all_event_types : Settings → Hook → List String
all_event_types settings hook = elim (settings.system_types hook.target) [
  | none ↦ hook.event_types
  | some types ↦ hook.event_types ++ types
]

-- `event['context'][key] in uuids`, for a key that is there.
unfoldable pub is_permitted : Dict String → String × List String → Bool
unfolding lookup
is_permitted context (key, uuids) = elim (lookup key context) [
  | none ↦ false
  | some v ↦ any (str_eq v) uuids
]

-- `check_event`; the models of each user are an argument.
unfoldable pub check_event : Settings → (ℕ → List (Dict (List String))) → Event → Hook → Bool
unfolding all_event_types get_permitted_objects_uuids is_permitted
check_event settings models event hook =
    if not (any (str_eq event.event_type) (all_event_types settings hook))
    then false
    else any (is_permitted event.context) (get_permitted_objects_uuids (models hook.user))

-- `event.get('message', 'New event')`
unfoldable pub body_of : Event → String
body_of event = elim event.message [ none ↦ "New event" | some text ↦ text ]

-- `PushHook.process`, with the server key of the device.
unfoldable pub push : Settings → Option String → Option String → Bool → Event → List Message
unfolding body_of
push settings none token is_ios event = []
push settings (some key) none is_ios event = []
push settings (some key) (some token) is_ios event =
    if str_eq token "" then [] else pushed key token is_ios (body_of event) ∷ []

-- `process` of each kind of hook.
unfoldable pub process_hook : Settings → Target → Event → List Message
unfolding push
process_hook settings (web_json url) event = posted_json url event ∷ []
process_hook settings (web_form url) event = posted_form url event ∷ []
process_hook settings (push_ios token) event = push settings settings.ios_key token true event
process_hook settings (push_android token) event =
    push settings settings.android_key token false event
process_hook settings (email address) event =
    if str_eq address "" then [] else mailed address event ∷ []

-- `get_active_hooks`, over the hooks of all kinds.
unfoldable pub get_active_hooks : List Hook → List Hook
get_active_hooks hooks = filter (λ h. h.is_active) hooks

-- The loop of `process_event`.
unfoldable pub process_each :
    Settings → (ℕ → List (Dict (List String))) → Event → List Hook → List Message
unfolding check_event process_hook
process_each settings models event [] = []
process_each settings models event (h ∷ hooks) =
    (if check_event settings models event h then process_hook settings h.target event else [])
    ++ process_each settings models event hooks

unfoldable pub process_event :
    Settings → (ℕ → List (Dict (List String))) → Event → List Hook → List Message
unfolding process_each get_active_hooks
process_event settings models event hooks =
    process_each settings models event (get_active_hooks hooks)
