-- ===== src/Logging/Alerts/Threshold.antt =====
-- What `check_threshold` leaves open: for each scope the verdict of its last object.
use waldur_core.Prelude.{
  ℕ, ◌+◌, ◌≡◌, refl, ◌∙◌, ap, Bool, true, false, not, ◌||◌, Option-cases, inl, inr, Option, none,
  some, List, [], ◌∷◌, ◌++◌, String, arith, any, all, filter, is_some, if◌then◌else◌, ltb, ◌==◌,
  returned, raised,
}
use waldur_core.Logging.Alerts.{
  Alerts, is_open_about, close, check_object, check_each, check_threshold, Checkable,
  validate_logging_type, threshold_exceeded, warning, attribute_error,
}
use waldur_core.Logging.Alerts.Unique.{IsUnique, and_left, and_right}
use waldur_core.Logging.Alerts.History.{IsUnique-check_object}
use waldur_core.Logging.Alerts.Steps.{process_supported}
use waldur_core.Logging.Alerts.Opened.{any-create_found, any-close_found}

-- Whether an alert on the threshold of a scope is open.
unfoldable pub is_alerted : ℕ → Alerts → Bool
unfolding is_open_about
is_alerted s alerts = any (is_open_about s threshold_exceeded) alerts

-- What the objects of a scope say, the last one standing, and `b` where there are none.
unfoldable pub verdict : ℕ → Bool → List Checkable → Bool
verdict s b [] = b
verdict s b (obj ∷ objs) =
    verdict s
      (elim obj.scope [ none ↦ b | some scope ↦ (if scope == s then obj.is_over_threshold else b) ])
      objs

-- The object has a scope, and the message for it compiles if it is over its threshold.
abbrev pub is_reported : (ℕ → Option String) → Option ℕ → Bool → Bool
is_reported message none over = false
is_reported message (some scope) over = not over || is_some (message scope)

module _ (message : ℕ → Option String) (moment : ℕ) where
  check_scope_lem :
      (uuid scope s : ℕ) (name : String) (threshold : ℕ) (over : Bool) (alerts : Alerts)
      → (not over || is_some (message scope)) ≡ true
      → IsUnique alerts
      → ((check_object message moment uuid
            (record {
              scope = some scope;
              name = name;
              threshold = threshold;
              is_over_threshold = over;
            })
            alerts).0
          ≡ returned tt)
        × (is_alerted s
              (check_object message moment uuid
                (record {
                  scope = some scope;
                  name = name;
                  threshold = threshold;
                  is_over_threshold = over;
                })
                alerts).1
            ≡ (if scope == s then over else is_alerted s alerts))
  unfolding check_object is_alerted close validate_logging_type any
  check_scope_lem uuid scope s name threshold true alerts h u =
      elim (Option-cases (message scope)) [
        | inl missing ↦ ground (arith, h, missing)
        | inr (text, compiled) ↦
            let ((x, e), o) =
              any-create_found threshold_exceeded true warning text scope s _ alerts refl u in
            rw
              (
                compiled,
                process_supported (threshold_exceeded ∷ []) true warning text scope
                    threshold_exceeded alerts refl,
                e,
              )
              (refl, ground (arith, o))
      ]
  check_scope_lem uuid scope s name threshold false alerts h u =
      let (e, o) = any-close_found threshold_exceeded moment uuid scope s _ alerts refl u in
      (e, ground (arith, o))

  check_one_lem :
      (uuid s : ℕ) (scope : Option ℕ) (name : String) (threshold : ℕ) (over : Bool)
      (alerts : Alerts)
      → is_reported message scope over ≡ true
      → IsUnique alerts
      → ((check_object message moment uuid
            (record { scope = scope; name = name; threshold = threshold; is_over_threshold = over })
            alerts).0
          ≡ returned tt)
        × (is_alerted s
              (check_object message moment uuid
                (record {
                  scope = scope;
                  name = name;
                  threshold = threshold;
                  is_over_threshold = over;
                })
                alerts).1
            ≡ elim scope [
              | none ↦ is_alerted s alerts
              | some number ↦ (if number == s then over else is_alerted s alerts)
            ])
  check_one_lem uuid s none name threshold over alerts h u = cc
  check_one_lem uuid s (some scope) name threshold over alerts h u =
      check_scope_lem uuid scope s name threshold over alerts h u

  check_each-verdict :
      (uuid s : ℕ) (objs : List Checkable) (alerts : Alerts)
      → all (λ obj. is_reported message obj.scope obj.is_over_threshold) objs ≡ true
      → IsUnique alerts
      → ((check_each message moment uuid objs alerts).0 ≡ returned tt)
        × (is_alerted s (check_each message moment uuid objs alerts).1
            ≡ verdict s (is_alerted s alerts) objs)
  unfolding check_each verdict all
  check_each-verdict uuid s [] alerts h u = (refl, refl)
  check_each-verdict uuid s (obj ∷ objs) alerts h u =
      let (e, o) =
        check_one_lem uuid s obj.scope obj.name obj.threshold obj.is_over_threshold alerts
          (and_left (is_reported message obj.scope obj.is_over_threshold) _ h) u in
      let (e', o') =
        check_each-verdict (uuid + 1) s objs (check_object message moment uuid obj alerts).1
          (and_right (is_reported message obj.scope obj.is_over_threshold) _ h)
          (IsUnique-check_object message moment uuid obj alerts u) in
      (rw (e) e', rw (e) (o' ∙ ap (λ b. verdict s b objs) o))

  -- If at most one alert is open for each scope and type, every object with a threshold has a
  -- scope, and the message compiles for those that are over it, check_threshold returns, and
  -- leaves a threshold alert of a scope open exactly if the last object of the scope is over its
  -- threshold, or, if the scope has no object, if one was open before.
  pub check_threshold-verdict :
      (uuid s : ℕ) (objs : List Checkable) (alerts : Alerts)
      → all
          (λ obj. is_reported message obj.scope obj.is_over_threshold)
          (filter (λ obj. ltb 0 obj.threshold) objs)
        ≡ true
      → IsUnique alerts
      → ((check_threshold message moment uuid objs alerts).0 ≡ returned tt)
        × (is_alerted s (check_threshold message moment uuid objs alerts).1
            ≡ verdict s (is_alerted s alerts) (filter (λ obj. ltb 0 obj.threshold) objs))
  unfolding check_threshold
  check_threshold-verdict uuid s objs alerts h u = check_each-verdict uuid s _ alerts h u

  raise_unscoped :
      (uuid : ℕ) (name : String) (threshold : ℕ) (over : Bool) (alerts : Alerts)
      → check_object message moment uuid
          (record { scope = none; name = name; threshold = threshold; is_over_threshold = over })
          alerts
        ≡ (raised attribute_error, alerts)
  unfolding check_object close
  raise_unscoped uuid name threshold true alerts = refl
  raise_unscoped uuid name threshold false alerts = refl

  -- If at most one alert is open for each scope and type, and the messages of the objects before it
  -- compile, the loop of check_threshold raises at the first object that has no scope, and the objects after it are not looked at.
  pub check_each-unscoped :
      (uuid : ℕ) (before : List Checkable) (name : String) (threshold : ℕ) (over : Bool)
      (after : List Checkable) (alerts : Alerts)
      → all (λ obj. is_reported message obj.scope obj.is_over_threshold) before ≡ true
      → IsUnique alerts
      → (check_each message moment uuid
          (before
            ++ record { scope = none; name = name; threshold = threshold; is_over_threshold = over }
              ∷ after)
          alerts)
        ≡ (raised attribute_error, (check_each message moment uuid before alerts).1)
  unfolding check_each all
  check_each-unscoped uuid [] name threshold over after alerts h u =
      rw (raise_unscoped uuid name threshold over alerts) refl
  check_each-unscoped uuid (obj ∷ before) name threshold over after alerts h u =
      let (e, o) =
        check_one_lem uuid 0 obj.scope obj.name obj.threshold obj.is_over_threshold alerts
          (and_left (is_reported message obj.scope obj.is_over_threshold) _ h) u in
      rw (e) (
        check_each-unscoped (uuid + 1) before name threshold over after
          (check_object message moment uuid obj alerts).1
          (and_right (is_reported message obj.scope obj.is_over_threshold) _ h)
          (IsUnique-check_object message moment uuid obj alerts u))
