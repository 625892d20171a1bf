-- ===== src/Tests/ProvisionTests.antt =====
-- The bound on provisions at a concrete history.
use waldur_core.Prelude.{◌≡◌, refl, ◌≤◌, suc, List, [], ◌∷◌, all, any, count, find}
use waldur_core.Core.State.{set_ok, fire, is_source, target}
use waldur_core.Structure.Provisioning.{
  default_limit, get_usage, is_creating, is_available, set_state, save_target, make_transition,
  throttle, throttle_found, throttle_provision,
}
use waldur_core.Structure.Provisioning.History.{
  Event, scheduled, provisioned, moved, is_throttled, move, move_found, step, steps,
  get_usage-steps,
}

-- Six resources of the same model and settings, one after another, and one that is done.
abbrev history : List Event
history =
    scheduled 1 3 7
    ∷ scheduled 2 3 7
    ∷ scheduled 3 3 7
    ∷ scheduled 4 3 7
    ∷ scheduled 5 3 7
    ∷ scheduled 6 3 7
    ∷ provisioned 1
    ∷ provisioned 2
    ∷ provisioned 3
    ∷ provisioned 4
    ∷ provisioned 5
    ∷ provisioned 6
    ∷ moved set_ok 9
    ∷ []

get_usage-steps_example : get_usage 3 7 (steps default_limit history []) ≤ suc default_limit
unfolding all is_throttled
get_usage-steps_example = get_usage-steps default_limit 3 7 history refl

-- Five resources are in creation at once, one more than the limit.
five_at_once : get_usage 3 7 (steps default_limit history []) ≡ 5
unfolding get_usage is_creating steps step throttle_provision throttle_found throttle is_available
    make_transition save_target set_state fire is_source target move move_found any count find
five_at_once = refl
