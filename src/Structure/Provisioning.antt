-- ===== src/Structure/Provisioning.antt =====
-- `RetryUntilAvailableTask`, `BaseThrottleProvisionTask` and `ThrottleProvisionStateTask` of
-- waldur_core/structure/tasks.py, on the resources of all models and settings. A check and the
-- transition after it are one step.
pub mod Bounded
pub mod History
use waldur_core.Prelude.{
  ℕ, suc, ◌+◌, Bool, true, false, not, ◌&&◌, Option, none, some, List, [], ◌∷◌, ◌++◌, Method,
  Outcome, returned, raised, pure, raise, modify, map, any, count, find, if◌then◌else◌, leb, ◌==◌,
}
use waldur_core.Core.State.{State, Transition, begin_creating, fire}

-- A resource of a model class. The number is one for all models.
pub record Resource : Type 0 where
  pub id : ℕ
  pub model : ℕ
  pub settings : ℕ
  pub state : State

abbrev pub Resources : Type 0
Resources = List Resource

pub data Error : Type 0 where
  retry transition_not_allowed does_not_exist : Error

abbrev pub Call : Type 0 → Type 0
Call A = Method Resources Error A

unfoldable pub is_creating : State → Bool
is_creating State.creating = true
is_creating _ = false

-- `DEFAULT_LIMIT`, which `get_limit` gives.
abbrev pub default_limit : ℕ
default_limit = 4

-- `get_usage`, for the model class and the settings of a resource.
unfoldable pub get_usage : ℕ → ℕ → Resources → ℕ
unfolding is_creating
get_usage model settings =
    count (λ r. is_creating r.state && (r.model == model && r.settings == settings))

-- `is_available`
unfoldable pub is_available : ℕ → Resource → Resources → Bool
unfolding get_usage
is_available limit resource resources =
    leb (get_usage resource.model resource.settings resources) limit

unfoldable pub set_state : ℕ → State → Resources → Resources
set_state id s = map (λ r. if r.id == id then record r { state = s } else r)

unfoldable pub save_target : ℕ → Option State → Call (Unit {0})
unfolding set_state
save_target id none = raise transition_not_allowed
save_target id (some s) = modify (set_state id s)

-- A transition method of a resource, and the save.
unfoldable pub make_transition : Transition → Resource → Call (Unit {0})
unfolding fire save_target
make_transition t r = save_target r.id (fire t r.state)

-- `pre_execute` and the transition `begin_creating` of a `ThrottleProvisionStateTask`.
unfoldable pub throttle : ℕ → Resource → Call (Unit {0})
unfolding is_available make_transition
throttle limit r resources =
    (if not (is_available limit r resources) then raise retry else make_transition begin_creating r)
      resources

unfoldable pub throttle_found : ℕ → Option Resource → Call (Unit {0})
unfolding throttle
throttle_found limit none = raise does_not_exist
throttle_found limit (some r) = throttle limit r

-- The task on the resource with a number.
unfoldable pub throttle_provision : ℕ → ℕ → Call (Unit {0})
unfolding throttle_found
throttle_provision limit id resources =
    throttle_found limit (find (λ r. r.id == id) resources) resources
