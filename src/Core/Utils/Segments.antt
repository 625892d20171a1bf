-- ===== src/Core/Utils/Segments.antt =====
-- The segments of `format_time_and_value_to_segment_list` against the sum of the values.
use waldur_core.Prelude.{
  ℕ, zero, suc, ◌+◌, ◌*◌, ◌/◌, ◌≤◌, ◌≡◌, refl, ◌∙◌, sym, ap, false, some, List, [], ◌∷◌, arith, map,
  filter,
}
use native.Mathlib.Nat.{add-zero, mul-zero, add-suc, mul-suc}
use waldur_core.Core.Utils.{
  TimeAndValue, Segment, sum, values_between, segment_value, segments_from,
  format_time_and_value_to_segment_list,
}

abbrev sum_between : ℕ → ℕ → List TimeAndValue → ℕ
sum_between start end items = sum (values_between start end items)

sum_between-join :
    (a b c : ℕ) (items : List TimeAndValue)
    → a ≤ b
    → b ≤ c
    → sum_between a b items + sum_between b c items ≡ sum_between a c items
unfolding sum values_between filter
sum_between-join a b c [] h k = refl
sum_between-join a b c (i ∷ items) h k = ground (arith, h, k, sum_between-join a b c items)

sum_between-empty : (a : ℕ) (items : List TimeAndValue) → sum_between a a items ≡ 0
unfolding sum values_between filter
sum_between-empty a [] = refl
sum_between-empty a (i ∷ items) = ground (arith, sum_between-empty a items)

next_start : (start step i : ℕ) → start + step * suc i ≡ start + step * i + step
next_start start step i = omega (arith, mul-suc step i)

module _ (items : List TimeAndValue) (start step : ℕ) where
  later_start : (i n : ℕ) → start + step * i ≤ start + step * (i + n)
  later_start i zero = rw (add-zero i) (omega arith)
  later_start i (suc n) = rw (add-suc i n, mul-suc step (i + n)) (omega (arith, later_start i n))

  suc_add : (i n : ℕ) → suc i + n ≡ i + suc n
  suc_add i n = omega arith

  moved :
      (i n : ℕ)
      → sum_between (start + step * suc i) (start + step * (suc i + n)) items
        ≡ sum_between (start + step * i + step) (start + step * (i + suc n)) items
  moved i n =
      ap (λ a. sum_between a (start + step * (suc i + n)) items) (next_start start step i)
      ∙ ap (λ m. sum_between (start + step * i + step) (start + step * m) items) (suc_add i n)

  after_next : (i n : ℕ) → start + step * i + step ≤ start + step * (i + suc n)
  after_next i n = rw (add-suc i n, mul-suc step (i + n)) (omega (arith, later_start i n))

  sum-segments_from :
      (i n : ℕ)
      → sum (map (λ s. s.value) (segments_from false items start step i n))
        ≡ sum_between (start + step * i) (start + step * (i + n)) items
  unfolding segments_from segment_value
  sum-segments_from i zero = rw (add-zero i) (sym (sum_between-empty (start + step * i) items))
  sum-segments_from i (suc n) =
      ap (λ t. sum_between (start + step * i) (start + step * i + step) items + t)
        (sum-segments_from (suc i) n ∙ moved i n)
      ∙ sum_between-join (start + step * i) (start + step * i + step) (start + step * (i + suc n))
          items (omega arith) (after_next i n)

-- If there is at least one segment, format_time_and_value_to_segment_list without averages returns
-- segments whose values add up to the sum of the values from the start on and before the start
-- plus the number of segments times the duration divided by it, rounded down.
pub sum-format_segments :
    (items : List TimeAndValue) (segments_count start duration : ℕ)
    → ¬ (segments_count ≡ 0)
    → (segments : List Segment) × (format_time_and_value_to_segment_list items segments_count start
          duration false
        ≡ some segments)
      × (sum (map (λ s. s.value) segments)
          ≡ sum_between start (start + duration / segments_count * segments_count) items)
unfolding format_time_and_value_to_segment_list
sum-format_segments items zero start duration h = absurd (h refl)
sum-format_segments items (suc n) start duration h = (
  segments_from false items start (duration / suc n) 0 (suc n),
  ground arith,
  sum-segments_from items start (duration / suc n) 0 (suc n)
      ∙ ap (λ a. sum_between a (start + duration / suc n * (0 + suc n)) items)
          (omega (arith, mul-zero (duration / suc n)))
      ∙ ap (λ m. sum_between start (start + duration / suc n * m) items) zero_add,
)
  where
    zero_add : 0 + suc n ≡ suc n
    zero_add = omega arith
