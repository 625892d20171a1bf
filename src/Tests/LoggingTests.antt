-- ===== src/Tests/LoggingTests.antt =====
-- The theorems on alerts at concrete objects and calls.
use waldur_core.Prelude.{
  ℕ, ◌≡◌, refl, true, false, Option, none, some, List, [], ◌∷◌, String, all, ltb, ◌==◌,
  if◌then◌else◌, filter, returned,
}
use waldur_core.Logging.Alerts.{Checkable, check_threshold, threshold_exceeded, warning}
use waldur_core.Logging.Hooks.{lookup, put, put_each, permitted_from, get_permitted_objects_uuids}
use waldur_core.Logging.Hooks.Sent.{last_given, lookup-get_permitted_objects_uuids}
use waldur_core.Logging.Alerts.Unique.{IsUnique}
use waldur_core.Logging.Alerts.History.{Event, logged, closed, steps, steps-IsUnique}
use waldur_core.Logging.Alerts.Threshold.{is_alerted, verdict, check_threshold-verdict}

message : ℕ → Option String
message scope = if scope == 7 then some "Threshold is exceeded." else none

abbrev calls : List Event
calls =
    logged (threshold_exceeded ∷ []) true warning (some "exceeded") 7 threshold_exceeded
    ∷ logged (threshold_exceeded ∷ []) true warning (some "still exceeded") 7 threshold_exceeded
    ∷ closed 100 1 (some 7) threshold_exceeded
    ∷ logged [] false warning (some "again") 7 threshold_exceeded
    ∷ []

steps-IsUnique_example : IsUnique (steps calls [])
steps-IsUnique_example = steps-IsUnique calls

abbrev over : Checkable
over = record { scope = some 7; name = "ram"; threshold = 10; is_over_threshold = true }

abbrev under : Checkable
under = record { scope = some 7; name = "cpu"; threshold = 5; is_over_threshold = false }

abbrev unset : Checkable
unset = record { scope = none; name = "disk"; threshold = 0; is_over_threshold = true }

abbrev checked : List Checkable
checked = over ∷ unset ∷ []

no_alerts-IsUnique : IsUnique []
unfolding steps
no_alerts-IsUnique = steps-IsUnique []

check_threshold-verdict_example :
    ((check_threshold message 50 0 checked []).0 ≡ returned tt)
    × (is_alerted 7 (check_threshold message 50 0 checked []).1
        ≡ verdict 7 (is_alerted 7 []) (filter (λ obj. ltb 0 obj.threshold) checked))
unfolding filter all message
check_threshold-verdict_example =
    check_threshold-verdict message 50 0 7 checked [] refl no_alerts-IsUnique

-- The second object of the scope closes the alert of the first.
other_object_closes : verdict 7 false (over ∷ under ∷ []) ≡ false
unfolding verdict
other_object_closes = refl

-- Two models that give a field: the projects of the first are lost.
lookup-get_permitted_objects_uuids_example :
    lookup "customer_uuid" (
      get_permitted_objects_uuids
        ((("customer_uuid", "a" ∷ []) ∷ []) ∷ ((("customer_uuid", "b" ∷ []) ∷ []) ∷ [])))
    ≡ last_given "customer_uuid"
        ((("customer_uuid", "a" ∷ []) ∷ []) ∷ ((("customer_uuid", "b" ∷ []) ∷ []) ∷ []))
lookup-get_permitted_objects_uuids_example = lookup-get_permitted_objects_uuids "customer_uuid" _

lost_uuids :
    lookup "customer_uuid" (
      get_permitted_objects_uuids
        ((("customer_uuid", "a" ∷ []) ∷ []) ∷ ((("customer_uuid", "b" ∷ []) ∷ []) ∷ [])))
    ≡ some ("b" ∷ [])
unfolding lookup put put_each permitted_from get_permitted_objects_uuids
lost_uuids = refl
