-- ===== src/Logging/Alerts.antt =====
-- `Alert` of waldur_core/logging/models.py, `AlertLogger` of logging/loggers.py, and the tasks on
-- alerts of logging/tasks.py. A scope is the number of an object, and a moment a number; the context
-- of an alert is left out. `uuid4` gives a number that no row has.
pub mod Unique
pub mod Steps
pub mod History
pub mod Opened
pub mod Threshold
use text.Mathlib.Text.{◌==◌ as str_eq}
use waldur_core.Prelude.{
  ℕ, ◌+◌, Bool, true, false, not, ◌&&◌, ◌||◌, Option, none, some, List, [], ◌∷◌, ◌++◌, String,
  Method, pure, raise, modify, raise_if, ◌>>=◌, ◌>>◌, map, any, filter, is_some, if◌then◌else◌, ltb,
  leb, ◌==◌,
}

-- `is_closed` is blank in the database until the alert is closed: `none` here.
pub record Alert : Type 0 where
  pub scope : ℕ
  pub alert_type : String
  pub severity : ℕ
  pub message : String
  pub closed : Option ℕ
  pub is_closed : Option ℕ
  pub acknowledged : Bool

abbrev pub Alerts : Type 0
Alerts = List Alert

pub data Error : Type 0 where
  unsupported_type logger_error multiple_objects integrity attribute_error : Error

abbrev pub Call : Type 0 → Type 0
Call A = Method Alerts Error A

unfoldable pub is_about : ℕ → String → Alert → Bool
is_about scope alert_type a = a.scope == scope && str_eq a.alert_type alert_type

-- `closed__isnull=True`
unfoldable pub is_open : Alert → Bool
is_open a = not (is_some a.closed)

unfoldable pub is_open_about : ℕ → String → Alert → Bool
unfolding is_about is_open
is_open_about scope alert_type a = is_about scope alert_type a && is_open a

-- `validate_logging_type`: an empty list of types supports all.
unfoldable pub validate_logging_type : List String → String → Call (Unit {0})
validate_logging_type [] alert_type = pure tt
validate_logging_type (t ∷ ts) alert_type =
    raise_if (not (any (λ s. str_eq s alert_type) (t ∷ ts))) unsupported_type

-- A save of the rows that fit.
unfoldable pub save_where : (Alert → Bool) → (Alert → Alert) → Alerts → Alerts
save_where p f alerts = map (λ a. if p a then f a else a) alerts

-- `Alert.objects.create`, under the constraint that scope, type and `is_closed` are unique.
unfoldable pub create : Bool → Alert → Call (Option Alert × Bool)
unfolding is_about
create fail_silently alert alerts =
    if any (λ a. is_about alert.scope alert.alert_type a && not (is_some a.is_closed)) alerts
    then (if fail_silently then pure (none, false) else raise integrity) alerts
    else pure (some alert, true) (alerts ++ alert ∷ [])

-- The two `try` blocks of `AlertLogger.process`, on the open alerts that `get` finds.
unfoldable pub update_or_create :
    Bool → ℕ → String → ℕ → String → List Alert → Call (Option Alert × Bool)
unfolding create save_where is_open_about
update_or_create fail_silently severity message scope alert_type [] = create fail_silently (record {
  scope = scope;
  alert_type = alert_type;
  severity = severity;
  message = message;
  closed = none;
  is_closed = none;
  acknowledged = false;
})
update_or_create fail_silently severity message scope alert_type (a ∷ []) =
    let updated = record a { severity = severity; message = message } in
    (if not (a.severity == severity) || not (str_eq a.message message)
      then modify (
          save_where (is_open_about scope alert_type)
            (λ r. record r { severity = severity; message = message }))
      else pure tt)
    >> pure (some updated, false)
update_or_create fail_silently severity message scope alert_type (a ∷ (b ∷ others)) =
    raise multiple_objects

-- The message that `compile_context` and `compile_message` make of a template and a context, or
-- none where they raise LoggerError.
unfoldable pub compile_message : Option String → Call String
compile_message none = raise logger_error
compile_message (some message) = pure message

-- `AlertLogger.process`, for the supported types of the logger.
unfoldable pub process :
    List String → Bool → ℕ → Option String → ℕ → String → Call (Option Alert × Bool)
unfolding validate_logging_type compile_message update_or_create is_open_about
process supported fail_silently severity template scope alert_type = do
  validate_logging_type supported alert_type
  message ← compile_message template
  λ alerts.
      update_or_create fail_silently severity message scope alert_type
        (filter (is_open_about scope alert_type) alerts) alerts

-- `Alert.close`, at a moment and with a new number.
unfoldable pub close_alert : ℕ → ℕ → Alert → Alert
close_alert moment uuid a = record a { closed = some moment; is_closed = some uuid }

-- `Alert.acknowledge` and `Alert.cancel_acknowledgment`
unfoldable pub set_acknowledged : Bool → Alert → Alert
set_acknowledged acknowledged a = record a { acknowledged = acknowledged }

unfoldable pub close_found : ℕ → ℕ → ℕ → String → List Alert → Call (Unit {0})
unfolding save_where is_open_about close_alert
close_found moment uuid scope alert_type [] = pure tt
close_found moment uuid scope alert_type (a ∷ []) =
    modify (save_where (is_open_about scope alert_type) (close_alert moment uuid))
close_found moment uuid scope alert_type (a ∷ (b ∷ others)) = raise multiple_objects

-- `AlertLogger.close`; there is no content type without a scope.
unfoldable pub close : ℕ → ℕ → Option ℕ → String → Call (Unit {0})
unfolding close_found is_open_about
close moment uuid none alert_type alerts = raise attribute_error alerts
close moment uuid (some scope) alert_type alerts =
    close_found moment uuid scope alert_type (filter (is_open_about scope alert_type) alerts) alerts

-- `close_alerts_without_scope`; `exists` says which objects are there. Each alert gets its own
-- number.
unfoldable pub close_alerts_without_scope : (ℕ → Bool) → ℕ → ℕ → Alerts → Alerts
unfolding is_open close_alert
close_alerts_without_scope exists moment uuid [] = []
close_alerts_without_scope exists moment uuid (a ∷ alerts) =
    (if is_open a && not (exists a.scope) then close_alert moment uuid a else a)
    ∷ close_alerts_without_scope exists moment (uuid + 1) alerts

-- Closed at `moment - timespan` or before.
unfoldable pub is_old : ℕ → ℕ → Alert → Bool
is_old moment timespan a = elim a.closed [ none ↦ false | some t ↦ leb (t + timespan) moment ]

-- `alerts_cleanup`, with CLOSED_ALERTS_LIFETIME; zero is no lifetime.
unfoldable pub alerts_cleanup : ℕ → Option ℕ → Alerts → Alerts
unfolding is_old
alerts_cleanup moment none alerts = alerts
alerts_cleanup moment (some timespan) alerts =
    if timespan == 0 then alerts else filter (λ a. not (is_old moment timespan a)) alerts

-- An object of `AlertThresholdMixin`: its scope, if it is there, and what `is_over_threshold` says.
pub record Checkable : Type 0 where
  pub scope : Option ℕ
  pub name : String
  pub threshold : ℕ
  pub is_over_threshold : Bool

abbrev pub threshold_exceeded : String
threshold_exceeded = "threshold_exceeded"

-- `SeverityChoices.WARNING`
abbrev pub warning : ℕ
warning = 30

-- One round of `check_threshold`. `message` is what is compiled for a scope: the template has a
-- field for the name of the scope, which the context of some scopes does not have.
unfoldable pub check_object : (ℕ → Option String) → ℕ → ℕ → Checkable → Call (Unit {0})
unfolding process close
check_object message moment uuid obj =
    if obj.is_over_threshold && is_some obj.scope
    then elim obj.scope [
      | none ↦ pure tt
      | some scope ↦
          process (threshold_exceeded ∷ []) true warning (message scope) scope threshold_exceeded
          >> pure tt
    ]
    else close moment uuid obj.scope threshold_exceeded

unfoldable pub check_each : (ℕ → Option String) → ℕ → ℕ → List Checkable → Call (Unit {0})
unfolding check_object
check_each message moment uuid [] = pure tt
check_each message moment uuid (obj ∷ objs) =
    check_object message moment uuid obj >> check_each message moment (uuid + 1) objs

-- `check_threshold`, over the objects whose threshold is not zero.
unfoldable pub check_threshold : (ℕ → Option String) → ℕ → ℕ → List Checkable → Call (Unit {0})
unfolding check_each
check_threshold message moment uuid objs =
    check_each message moment uuid (filter (λ o. ltb 0 o.threshold) objs)
