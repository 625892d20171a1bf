-- ===== src/Core/Penalty.antt =====
-- `BackgroundTask` and `PenalizedBackgroundTask` of waldur_core/core/tasks.py. The cache is Django's:
-- a map from keys to the pair (counter, penalty), which may drop an entry at any time.
mod Entries
pub mod Skips
pub mod Invariant
use text.Mathlib.Text.{◌==◌ as str_eq}
use waldur_core.Prelude.{
  ℕ, ◌+◌, ◌-◌, Bool, true, false, Option, none, some, List, String, any, if◌then◌else◌, ltb, ◌==◌,
}

abbrev pub Cache : Type 0
Cache = String → Option (ℕ × ℕ)

-- `cache.set(key, entry)`
unfoldable pub set : String → ℕ × ℕ → Cache → Cache
set key entry cache k = if str_eq k key then some entry else cache k

-- `cache.delete(key)`, and the end of an entry's lifetime.
unfoldable pub delete : String → Cache → Cache
delete key cache k = if str_eq k key then none else cache k

-- `cache.get(key, (0, 0))`
unfoldable pub get : String → Cache → ℕ × ℕ
get key cache = elim (cache key) [ none ↦ (0, 0) | some entry ↦ entry ]

abbrev pub max_penalty : ℕ
max_penalty = 3

module _ {Request : Type 0} (is_equal : Request → Bool) where
  -- `BackgroundTask.is_previous_task_processing`, over the active, scheduled and reserved tasks.
  unfoldable pub is_previous_task_processing : List Request → Bool
  is_previous_task_processing uncompleted = any is_equal uncompleted

  -- `BackgroundTask.apply_async`: `true` says that the task was submitted.
  unfoldable pub background_apply_async : List Request → Bool
  unfolding is_previous_task_processing
  background_apply_async uncompleted =
      if is_previous_task_processing uncompleted then false else true

  -- `PenalizedBackgroundTask.apply_async`
  unfoldable pub apply_async : String → List Request → Cache → Bool × Cache
  unfolding background_apply_async
  apply_async key uncompleted cache =
      let (counter, penalty) = get key cache in
      if counter == 0
      then (background_apply_async uncompleted, cache)
      else (false, set key (counter - 1, penalty) cache)

-- `on_failure`
unfoldable pub on_failure : String → Cache → Cache
on_failure key cache =
    let (counter, penalty) = get key cache in
    let p = if ltb penalty max_penalty then penalty + 1 else penalty in set key (p, p) cache

-- `on_success`
unfoldable pub on_success : String → Cache → Cache
on_success key cache = elim (cache key) [ none ↦ cache | some entry ↦ delete key cache ]
