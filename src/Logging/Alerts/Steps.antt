-- ===== src/Logging/Alerts/Steps.antt =====
-- The methods of `AlertLogger` and the tasks keep at most one alert open for each scope and type.
use text.Mathlib.Text.{◌==◌ as str_eq}
use waldur_core.Prelude.{
  ℕ, ◌≡◌, refl, Bool, true, false, not, ◌&&◌, ◌||◌, Option, none, some, List, [], ◌∷◌, ◌++◌, String,
  arith, any, all, filter, is_some, if◌then◌else◌, ◌==◌, Bool-cases, inl, inr, returned, raised,
  Outcome,
}
use waldur_core.Logging.Alerts.{
  Alert, Alerts, Error, is_about, is_open, is_open_about, save_where, create, update_or_create,
  process, close_alert, close_found, close, alerts_cleanup, validate_logging_type,
}
use waldur_core.Logging.Alerts.Unique.{
  is_coherent, IsUnique, opened, IsUnique-snoc, IsUnique-filter, IsUnique-save_where, same_opens,
  same_coherent, closed_opens, closed_coherent,
}

any_blank :
    (scope : ℕ) (alert_type : String) (alerts : Alerts)
    → filter (is_open_about scope alert_type) alerts ≡ []
    → all is_coherent alerts ≡ true
    → any (λ a. is_about scope alert_type a && not (is_some a.is_closed)) alerts ≡ false
unfolding filter any all is_open_about is_open is_coherent
any_blank scope alert_type [] e c = refl
any_blank scope alert_type (a ∷ alerts) e c = ground (arith, any_blank scope alert_type alerts)

-- No alert is open: one is created.
pub create-opened :
    (silently : Bool) (severity : ℕ) (message : String) (scope : ℕ) (alert_type : String)
    (alerts : Alerts)
    → filter (is_open_about scope alert_type) alerts ≡ []
    → IsUnique alerts
    → create silently (opened severity message scope alert_type) alerts ≡ (
      returned (some (opened severity message scope alert_type), true),
      alerts ++ opened severity message scope alert_type ∷ [],
    )
unfolding create
create-opened silently severity message scope alert_type alerts e u =
    rw (any_blank scope alert_type alerts e u.coherent, create) refl

-- One alert is open: it is given the severity and the message.
abbrev pub is_news : ℕ → String → Alert → Bool
is_news severity message a = not (a.severity == severity) || not (str_eq a.message message)

pub update_or_create-found :
    (silently : Bool) (severity : ℕ) (message : String) (scope : ℕ) (alert_type : String)
    (alerts : Alerts) (a : Alert)
    → update_or_create silently severity message scope alert_type (a ∷ []) alerts ≡ (
      returned (some (record a { severity = severity; message = message }), false),
      (if is_news severity message a
          then save_where
              (is_open_about scope alert_type)
              (λ r. record r { severity = severity; message = message })
              alerts
          else alerts),
    )
unfolding update_or_create
update_or_create-found silently severity message scope alert_type alerts a =
    elim (Bool-cases (is_news severity message a)) [
      | inl news ↦ rw (news, update_or_create) refl
      | inr known ↦ rw (known, update_or_create) refl
    ]

if_IsUnique :
    (b : Bool) (xs ys : Alerts) → IsUnique xs → IsUnique ys → IsUnique (if b then xs else ys)
if_IsUnique true xs ys u v = u
if_IsUnique false xs ys u v = v

IsUnique-update_or_create :
    (silently : Bool) (severity : ℕ) (message : String) (scope : ℕ) (alert_type : String)
    (alerts found : Alerts)
    → filter (is_open_about scope alert_type) alerts ≡ found
    → IsUnique alerts
    → IsUnique (update_or_create silently severity message scope alert_type found alerts).1
unfolding update_or_create
IsUnique-update_or_create silently severity message scope alert_type alerts [] e u =
    rw (create-opened silently severity message scope alert_type alerts e u)
      (IsUnique-snoc severity message scope alert_type alerts e u)
IsUnique-update_or_create silently severity message scope alert_type alerts (a ∷ []) e u =
    rw (update_or_create-found silently severity message scope alert_type alerts a) (
      if_IsUnique (is_news severity message a) _ _
        (IsUnique-save_where (is_open_about scope alert_type)
          (λ r. record r { severity = severity; message = message }) (same_opens severity message)
          (same_coherent severity message) alerts u)
        u)
IsUnique-update_or_create silently severity message scope alert_type alerts (a ∷ (b ∷ found)) e u =
    u

validate_keeps :
    (supported : List String) (alert_type : String) (alerts : Alerts)
    → (validate_logging_type supported alert_type alerts).1 ≡ alerts
unfolding validate_logging_type
validate_keeps [] alert_type alerts = refl
validate_keeps (t ∷ ts) alert_type alerts =
    elim (Bool-cases (not (any (λ s. str_eq s alert_type) (t ∷ ts)))) [
      | inl bad ↦ rw (bad) refl
      | inr good ↦ rw (good) refl
    ]

-- A refused type changes nothing.
process_refused :
    (supported : List String) (silently : Bool) (severity : ℕ) (message : Option String) (scope : ℕ)
    (alert_type : String) (alerts : Alerts) (e : Error)
    → (validate_logging_type supported alert_type alerts).0 ≡ raised e
    → (process supported silently severity message scope alert_type alerts).1 ≡ alerts
unfolding process
process_refused supported silently severity message scope alert_type alerts e h =
    rw (h) (validate_keeps supported alert_type alerts)

pub process_supported :
    (supported : List String) (silently : Bool) (severity : ℕ) (message : String) (scope : ℕ)
    (alert_type : String) (alerts : Alerts)
    → (validate_logging_type supported alert_type alerts).0 ≡ returned tt
    → process supported silently severity (some message) scope alert_type alerts
      ≡ update_or_create silently severity message scope alert_type
          (filter (is_open_about scope alert_type) alerts)
          alerts
unfolding process
process_supported supported silently severity message scope alert_type alerts h =
    rw (h, validate_keeps supported alert_type alerts) refl

-- A message that does not compile changes nothing.
process_uncompiled :
    (supported : List String) (silently : Bool) (severity : ℕ) (scope : ℕ) (alert_type : String)
    (alerts : Alerts)
    → (validate_logging_type supported alert_type alerts).0 ≡ returned tt
    → (process supported silently severity none scope alert_type alerts).1 ≡ alerts
unfolding process
process_uncompiled supported silently severity scope alert_type alerts h =
    rw (h, validate_keeps supported alert_type alerts) refl

pub IsUnique-process :
    (supported : List String) (silently : Bool) (severity : ℕ) (message : Option String) (scope : ℕ)
    (alert_type : String) (alerts : Alerts)
    → IsUnique alerts
    → IsUnique (process supported silently severity message scope alert_type alerts).1
IsUnique-process supported silently severity message scope alert_type alerts u =
    go message (validate_logging_type supported alert_type alerts).0 refl
  where
    go :
        (o : Option String) (r : Outcome Error (Unit {0}))
        → (validate_logging_type supported alert_type alerts).0 ≡ r
        → IsUnique (process supported silently severity o scope alert_type alerts).1
    go o (raised e) h =
        rw (process_refused supported silently severity o scope alert_type alerts e h) u
    go none (returned a) h =
        rw (process_uncompiled supported silently severity scope alert_type alerts h) u
    go (some m) (returned a) h =
        rw (process_supported supported silently severity m scope alert_type alerts h)
          (IsUnique-update_or_create silently severity m scope alert_type alerts _ refl u)

IsUnique-close_found :
    (moment uuid scope : ℕ) (alert_type : String) (found alerts : Alerts)
    → IsUnique alerts
    → IsUnique (close_found moment uuid scope alert_type found alerts).1
unfolding close_found
IsUnique-close_found moment uuid scope alert_type [] alerts u = u
IsUnique-close_found moment uuid scope alert_type (a ∷ []) alerts u =
    IsUnique-save_where (is_open_about scope alert_type) (close_alert moment uuid)
      (closed_opens moment uuid) (closed_coherent moment uuid) alerts u
IsUnique-close_found moment uuid scope alert_type (a ∷ (b ∷ found)) alerts u = u

pub IsUnique-close :
    (moment uuid : ℕ) (scope : Option ℕ) (alert_type : String) (alerts : Alerts)
    → IsUnique alerts
    → IsUnique (close moment uuid scope alert_type alerts).1
unfolding close
IsUnique-close moment uuid none alert_type alerts u = u
IsUnique-close moment uuid (some scope) alert_type alerts u =
    IsUnique-close_found moment uuid scope alert_type _ alerts u

pub IsUnique-alerts_cleanup :
    (moment : ℕ) (timespan : Option ℕ) (alerts : Alerts)
    → IsUnique alerts
    → IsUnique (alerts_cleanup moment timespan alerts)
unfolding alerts_cleanup
IsUnique-alerts_cleanup moment none alerts u = u
IsUnique-alerts_cleanup moment (some timespan) alerts u =
    if_IsUnique (timespan == 0) _ _ u (IsUnique-filter _ alerts u)
