-- ===== src/Core/Penalty/Skips.antt =====
-- How many calls of a penalised task are skipped.
use Prim.Native.Nat.{min}
use waldur_core.Prelude.{
  ℕ, zero, suc, ◌+◌, ◌≤◌, ◌≡◌, refl, ap, ◌∙◌, Bool, true, false, String, List, [], ◌∷◌, arith, any,
  Option-cases, inl, inr,
}
use waldur_core.Core.Penalty.Entries.{get-set_self, get-delete_self}
use waldur_core.Core.Penalty.{Cache, get, set, apply_async, on_failure, on_success, max_penalty}

module _ {Request : Type 0} (is_equal : Request → Bool) (key : String) where
  -- Calls in a row, with no predecessor of the task in the queues, and what each call returned.
  unfoldable pub calls : ℕ → Cache → List Bool × Cache
  unfolding apply_async
  calls zero cache = ([], cache)
  calls (suc n) cache =
      let (submitted, cache') = apply_async is_equal key [] cache in
      let (rest, last) = calls n cache' in (submitted ∷ rest, last)

  abbrev pub skipped_then_run : ℕ → List Bool
  skipped_then_run zero = true ∷ []
  skipped_then_run (suc n) = false ∷ skipped_then_run n

  apply_async-zero :
      (p : ℕ) (cache : Cache)
      → get key cache ≡ (0, p)
      → apply_async is_equal key [] cache ≡ (true, cache)
  unfolding apply_async any
  apply_async-zero p cache e = ground arith

  apply_async-suc :
      (n p : ℕ) (cache : Cache)
      → get key cache ≡ (suc n, p)
      → apply_async is_equal key [] cache ≡ (false, set key (n, p) cache)
  unfolding apply_async
  apply_async-suc n p cache e = ground arith

  calls-counter :
      (n p : ℕ) (cache : Cache)
      → get key cache ≡ (n, p)
      → ((calls (suc n) cache).0 ≡ skipped_then_run n) × (get key (calls (suc n) cache).1 ≡ (0, p))
  unfolding calls
  calls-counter zero p cache e = rw (apply_async-zero p cache e) (refl, e)
  calls-counter (suc n) p cache e =
      let ih = calls-counter n p (set key (n, p) cache) (get-set_self key (n, p) cache) in
      rw (apply_async-suc n p cache e) (rw ih.0 refl, ih.1)

  -- The penalty after one more failure.
  abbrev pub next_penalty : ℕ → ℕ
  next_penalty p = min (p + 1) max_penalty

  get-on_failure :
      (c p : ℕ) (cache : Cache)
      → get key cache ≡ (c, p)
      → p ≤ max_penalty
      → get key (on_failure key cache) ≡ (next_penalty p, next_penalty p)
  unfolding on_failure
  get-on_failure c p cache e h = rw get-set_self (ground arith)

  -- One round: the calls that are skipped, and the call that runs and fails.
  pub failed_round : Cache → Cache
  failed_round cache = on_failure key (calls (suc (get key cache).0) cache).1

  pub failed_rounds : ℕ → Cache → Cache
  failed_rounds zero cache = cache
  failed_rounds (suc n) cache = failed_round (failed_rounds n cache)

  get-failed_round :
      (c p : ℕ) (cache : Cache)
      → get key cache ≡ (c, p)
      → p ≤ max_penalty
      → get key (failed_round cache) ≡ (next_penalty p, next_penalty p)
  unfolding failed_round
  get-failed_round c p cache e h = rw e (get-on_failure 0 p _ (calls-counter c p cache e).1 h)

  get-failed_rounds :
      (n : ℕ) (cache : Cache)
      → get key cache ≡ (0, 0)
      → get key (failed_rounds n cache) ≡ (min n max_penalty, min n max_penalty)
  unfolding failed_rounds
  get-failed_rounds zero cache e = e
  get-failed_rounds (suc n) cache e =
      get-failed_round (min n max_penalty) (min n max_penalty) _ (get-failed_rounds n cache e)
        (omega arith)
      ∙ ap (λ (m : ℕ). (m, m)) (omega arith)

  -- A task with an empty entry has failed `n` times, each time on the first call that was not
  -- skipped. With no predecessor in the queues, the next calls are skipped, as many as the smaller
  -- of `n` and `MAX_PENALTY`, and the call after those is submitted.
  pub skips-failed_rounds :
      (n : ℕ) (cache : Cache)
      → get key cache ≡ (0, 0)
      → (calls (suc (min n max_penalty)) (failed_rounds n cache)).0
        ≡ skipped_then_run (min n max_penalty)
  skips-failed_rounds n cache e =
      (calls-counter (min n max_penalty) (min n max_penalty) _ (get-failed_rounds n cache e)).0

  get-on_success : (cache : Cache) → get key (on_success key cache) ≡ (0, 0)
  unfolding on_success get
  get-on_success cache = elim (Option-cases (cache key)) [
    | inl absent ↦ rw (absent, on_success) (rw (absent, get) refl)
    | inr (e, there) ↦ rw (there, on_success) (get-delete_self key cache)
  ]

  -- After a success the next call is submitted, if the task has no predecessor in the queues.
  pub success-submits :
      (cache : Cache) → (apply_async is_equal key [] (on_success key cache)).0 ≡ true
  success-submits cache =
      ap (λ (r : Bool × Cache). r.0) (apply_async-zero 0 _ (get-on_success cache))
