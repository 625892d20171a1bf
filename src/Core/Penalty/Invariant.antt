-- ===== src/Core/Penalty/Invariant.antt =====
-- What stands in the cache of penalties, over any row of events.
use text.Mathlib.Text.{◌==◌ as str_eq}
use waldur_core.Prelude.{
  ℕ, ◌≤◌, ◌≡◌, ◌≢◌, Bool, String, List, [], ◌∷◌, arith, eq_iff, Option-cases, Bool-cases, true,
  false, inl, inr, ◌==◌, if◌then◌else◌,
}
use waldur_core.Core.Penalty.{
  Cache, get, set, delete, apply_async, on_failure, on_success, max_penalty,
}
use waldur_core.Core.Penalty.Entries.{get-set, get-delete}

module _ {Request : Type 0} (is_equal : Request → Bool) where
  -- What may happen to the task of a key: a call, with the requests that the queues hold; the end
  -- of a run; and the loss of the entry, at the end of its lifetime.
  pub data Event : Type 0 where
    call : String → List Request → Event
    failure success expiry : String → Event

  unfoldable pub step : Event → Cache → Cache
  unfolding apply_async on_failure on_success
  step (call key uncompleted) cache = (apply_async is_equal key uncompleted cache).1
  step (failure key) cache = on_failure key cache
  step (success key) cache = on_success key cache
  step (expiry key) cache = delete key cache

  unfoldable pub steps : List Event → Cache → Cache
  steps [] cache = cache
  steps (e ∷ es) cache = steps es (step e cache)

  -- The counter never passes the penalty, and the penalty never passes its bound.
  pub record IsBounded (cache : Cache) : Type 0 where
    pub at_key :
        (key : String) → ((get key cache).0 ≤ (get key cache).1) × ((get key cache).1 ≤ max_penalty)

  abbrev Fits : ℕ × ℕ → Type 0
  Fits entry = (entry.0 ≤ entry.1) × (entry.1 ≤ max_penalty)

  set-IsBounded :
      (key : String) (entry : ℕ × ℕ) (cache : Cache)
      → Fits entry
      → IsBounded cache
      → IsBounded (set key entry cache)
  set-IsBounded key entry cache fits h = record {
    at_key = λ j. rw get-set (fits_if (str_eq j key) fits (h.at_key j));
  }
    where
      fits_if : {d : ℕ × ℕ} (b : Bool) → Fits entry → Fits d → Fits (if b then entry else d)
      fits_if true f g = f
      fits_if false f g = g

  delete-IsBounded : (key : String) (cache : Cache) → IsBounded cache → IsBounded (delete key cache)
  delete-IsBounded key cache h = record { at_key = λ j. rw get-delete (ground (arith, h.at_key j)) }

  success-IsBounded :
      (key : String) (cache : Cache) → IsBounded cache → IsBounded (on_success key cache)
  unfolding on_success
  success-IsBounded key cache h = elim (Option-cases (cache key)) [
    | inl absent ↦ rw (absent, on_success) h
    | inr (e, there) ↦ rw (there, on_success) (delete-IsBounded key cache h)
  ]

  step-IsBounded : (e : Event) (cache : Cache) → IsBounded cache → IsBounded (step e cache)
  unfolding step
  step-IsBounded (call k q) cache h = elim (Bool-cases ((get k cache).0 == 0)) [
    | inl free ↦ rw (free, step) h
    | inr counting ↦ rw (counting, step) (set-IsBounded k _ cache (ground (arith, h.at_key k)) h)
  ]
  step-IsBounded (failure k) cache h = set-IsBounded k _ cache (ground (arith, h.at_key k)) h
  step-IsBounded (success k) cache h = success-IsBounded k cache h
  step-IsBounded (expiry k) cache h = delete-IsBounded k cache h

  -- Whatever calls, failures, successes and losses of entries follow one another, for every key the
  -- counter stays at most the penalty, and the penalty at most `MAX_PENALTY`.
  pub steps-IsBounded :
      (es : List Event) (cache : Cache) → IsBounded cache → IsBounded (steps es cache)
  unfolding steps
  steps-IsBounded [] cache h = h
  steps-IsBounded (e ∷ es) cache h = steps-IsBounded es (step e cache) (step-IsBounded e cache h)

  abbrev pub key_of : Event → String
  key_of (call key _) = key
  key_of (failure key) = key
  key_of (success key) = key
  key_of (expiry key) = key

  -- An event of one task leaves the entries of all other keys as they were.
  pub step_other :
      (e : Event) (cache : Cache) (key : String) → key ≢ key_of e → step e cache key ≡ cache key
  unfolding step set delete
  step_other (call k q) cache key h = ground (arith, eq_iff key k)
  step_other (failure k) cache key h = ground (arith, eq_iff key k)
  step_other (success k) cache key h = ground (arith, eq_iff key k)
  step_other (expiry k) cache key h = ground (arith, eq_iff key k)
