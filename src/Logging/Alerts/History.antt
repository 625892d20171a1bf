-- ===== src/Logging/Alerts/History.antt =====
-- Alerts over any calls of the loggers, the API and the periodic tasks.
use waldur_core.Prelude.{
  ℕ, ◌+◌, ◌≤◌, ◌≡◌, refl, Bool, true, false, not, ◌&&◌, Option, none, some, List, [], ◌∷◌, String,
  arith, all, count, returned, raised, Outcome, continue, pure,
}
use waldur_core.Logging.Alerts.{
  Alert, Alerts, Call, Error, is_open, is_open_about, save_where, process, close_alert,
  set_acknowledged, close, close_alerts_without_scope, alerts_cleanup, check_object, check_each,
  check_threshold, Checkable, threshold_exceeded, warning,
}
use waldur_core.Logging.Alerts.Unique.{
  is_coherent, IsUnique, IsUnique-save_where, closed_opens, closed_coherent, acknowledged_opens,
  acknowledged_coherent, if_opens, if_keeps,
}
use waldur_core.Logging.Alerts.Steps.{IsUnique-process, IsUnique-close, IsUnique-alerts_cleanup}

module _ (exists : ℕ → Bool) (moment : ℕ) where
  count-orphans :
      (uuid s : ℕ) (t : String) (alerts : Alerts)
      → count (is_open_about s t) (close_alerts_without_scope exists moment uuid alerts)
        ≤ count (is_open_about s t) alerts
  unfolding count close_alerts_without_scope
  count-orphans uuid s t [] = omega arith
  count-orphans uuid s t (a ∷ alerts) = ground (
    arith,
    count-orphans (uuid + 1) s t alerts,
    if_opens (is_open_about s t) (close_alert moment uuid) (is_open a && not (exists a.scope)) a
        (closed_opens moment uuid s t a),
  )

  coherent-orphans :
      (uuid : ℕ) (alerts : Alerts)
      → all is_coherent alerts ≡ true
      → all is_coherent (close_alerts_without_scope exists moment uuid alerts) ≡ true
  unfolding all close_alerts_without_scope
  coherent-orphans uuid [] h = refl
  coherent-orphans uuid (a ∷ alerts) h = ground (
    arith,
    coherent-orphans (uuid + 1) alerts,
    if_keeps is_coherent (close_alert moment uuid) (is_open a && not (exists a.scope)) a
        (closed_coherent moment uuid a),
  )

  IsUnique-orphans :
      (uuid : ℕ) (alerts : Alerts)
      → IsUnique alerts
      → IsUnique (close_alerts_without_scope exists moment uuid alerts)
  IsUnique-orphans uuid alerts u = record {
    at_most_one = λ s t. omega (arith, count-orphans uuid s t alerts, u.at_most_one s t);
    coherent = coherent-orphans uuid alerts u.coherent;
  }

IsUnique-continue :
    {A B : Type 0} (r : Outcome Error A) (alerts : Alerts) (f : A → Call B)
    → ((a : A) (rest : Alerts) → IsUnique rest → IsUnique (f a rest).1)
    → IsUnique alerts
    → IsUnique (continue r f alerts).1
IsUnique-continue (returned a) alerts f h u = h a alerts u
IsUnique-continue (raised e) alerts f h u = u

module _ (message : ℕ → Option String) (moment : ℕ) where
  IsUnique-check_fields :
      (uuid : ℕ) (scope : Option ℕ) (name : String) (threshold : ℕ) (over : Bool) (alerts : Alerts)
      → IsUnique alerts
      → IsUnique
          (check_object message moment uuid
            (record { scope = scope; name = name; threshold = threshold; is_over_threshold = over })
            alerts).1
  unfolding check_object
  IsUnique-check_fields uuid (some scope) name threshold true alerts u =
      IsUnique-continue
        (process (threshold_exceeded ∷ []) true warning (message scope) scope threshold_exceeded
          alerts).0
        (process (threshold_exceeded ∷ []) true warning (message scope) scope threshold_exceeded
          alerts).1
        (λ _. pure tt) (λ a rest v. v)
        (IsUnique-process (threshold_exceeded ∷ []) true warning (message scope) scope
          threshold_exceeded alerts u)
  IsUnique-check_fields uuid none name threshold true alerts u =
      IsUnique-close moment uuid none threshold_exceeded alerts u
  IsUnique-check_fields uuid scope name threshold false alerts u =
      IsUnique-close moment uuid scope threshold_exceeded alerts u

  pub IsUnique-check_object :
      (uuid : ℕ) (obj : Checkable) (alerts : Alerts)
      → IsUnique alerts
      → IsUnique (check_object message moment uuid obj alerts).1
  IsUnique-check_object uuid obj alerts u =
      IsUnique-check_fields uuid obj.scope obj.name obj.threshold obj.is_over_threshold alerts u

  IsUnique-check_each :
      (uuid : ℕ) (objs : List Checkable) (alerts : Alerts)
      → IsUnique alerts
      → IsUnique (check_each message moment uuid objs alerts).1
  unfolding check_each
  IsUnique-check_each uuid [] alerts u = u
  IsUnique-check_each uuid (obj ∷ objs) alerts u =
      IsUnique-continue (check_object message moment uuid obj alerts).0
        (check_object message moment uuid obj alerts).1
        (λ _. check_each message moment (uuid + 1) objs)
        (λ a rest v. IsUnique-check_each (uuid + 1) objs rest v)
        (IsUnique-check_object uuid obj alerts u)

-- Calls on the alerts.
pub data Event : Type 0 where
  logged : List String → Bool → ℕ → Option String → ℕ → String → Event
  closed : ℕ → ℕ → Option ℕ → String → Event
  acknowledged : Bool → (Alert → Bool) → Event
  orphans_closed : (ℕ → Bool) → ℕ → ℕ → Event
  cleaned_up : ℕ → Option ℕ → Event
  thresholds_checked : (ℕ → Option String) → ℕ → ℕ → List Checkable → Event

unfoldable pub step : Event → Alerts → Alerts
unfolding process close save_where set_acknowledged close_alerts_without_scope alerts_cleanup
    check_threshold
step (logged supported silently severity message scope alert_type) alerts =
    (process supported silently severity message scope alert_type alerts).1
step (closed moment uuid scope alert_type) alerts = (close moment uuid scope alert_type alerts).1
step (acknowledged b chosen) alerts = save_where chosen (set_acknowledged b) alerts
step (orphans_closed exists moment uuid) alerts =
    close_alerts_without_scope exists moment uuid alerts
step (cleaned_up moment timespan) alerts = alerts_cleanup moment timespan alerts
step (thresholds_checked message moment uuid objs) alerts =
    (check_threshold message moment uuid objs alerts).1

unfoldable pub steps : List Event → Alerts → Alerts
unfolding step
steps [] alerts = alerts
steps (e ∷ es) alerts = steps es (step e alerts)

IsUnique-step : (e : Event) (alerts : Alerts) → IsUnique alerts → IsUnique (step e alerts)
unfolding step check_threshold
IsUnique-step (logged supported silently severity message scope alert_type) alerts u =
    IsUnique-process supported silently severity message scope alert_type alerts u
IsUnique-step (closed moment uuid scope alert_type) alerts u =
    IsUnique-close moment uuid scope alert_type alerts u
IsUnique-step (acknowledged b chosen) alerts u =
    IsUnique-save_where chosen (set_acknowledged b) (acknowledged_opens b) (acknowledged_coherent b)
      alerts u
IsUnique-step (orphans_closed exists moment uuid) alerts u =
    IsUnique-orphans exists moment uuid alerts u
IsUnique-step (cleaned_up moment timespan) alerts u =
    IsUnique-alerts_cleanup moment timespan alerts u
IsUnique-step (thresholds_checked message moment uuid objs) alerts u =
    IsUnique-check_each message moment uuid _ alerts u

IsUnique-steps_from :
    (es : List Event) (alerts : Alerts) → IsUnique alerts → IsUnique (steps es alerts)
unfolding steps
IsUnique-steps_from [] alerts u = u
IsUnique-steps_from (e ∷ es) alerts u =
    IsUnique-steps_from es (step e alerts) (IsUnique-step e alerts u)

-- After any calls of the loggers, acknowledgments and periodic tasks at most one alert is open for
-- each scope and type, and an alert has a number of its closing exactly if it has a moment of
-- closing.
pub steps-IsUnique : (es : List Event) → IsUnique (steps es [])
unfolding count all
steps-IsUnique es =
    IsUnique-steps_from es [] (record { at_most_one = λ s t. omega arith; coherent = refl })
