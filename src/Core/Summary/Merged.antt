-- ===== src/Core/Summary/Merged.antt =====
-- The merge of ordered querysets: every row is there as often as before, in order.
use waldur_core.Prelude.{
  ℕ, zero, suc, ◌≤◌, ◌≡◌, refl, Bool, true, not, Option, List, [], ◌∷◌, arith, length, count, all,
  ◌∙◌,
}
use waldur_core.Core.Summary.{
  Entry, chain, total_count, start_heap, advance, least, merge_loop, merge,
}
use waldur_core.Core.Summary.Weights.{
  weight, weights, weights-start_heap, weights-advance, count-total, total_count-chain, count-all,
}
use waldur_core.Core.Summary.Least.{
  le_rows, is_ordered, le_rows_trans, le_rows_refl, le_head, least-all, weights-least, all-least,
}

module _ {A : Type 0} (attr : A → Option ℕ) (tie : A → A → Bool) (reverse : Bool) where
  count-merge_loop :
      (p : A → Bool) (n : ℕ) (heap : List (Entry A))
      → weights (λ x. true) heap ≤ n
      → count p (merge_loop attr tie reverse n heap) ≡ weights p heap
  unfolding merge_loop count weights weight
  count-merge_loop p zero [] h = refl
  count-merge_loop p zero (e ∷ heap) h = absurd (omega arith)
  count-merge_loop p (suc n) [] h = refl
  count-merge_loop p (suc n) (e ∷ heap) h =
      let first : Entry A = (least attr tie reverse e heap).0 in
      let others : List (Entry A) = (least attr tie reverse e heap).1 in
      let sizes = weights-least attr tie reverse (λ x. true) e heap in
      let same = weights-least attr tie reverse p e heap in
      let moved = weights-advance p first.rest others in
      let ih =
        count-merge_loop p n (advance first.rest others)
          (omega (arith, weights-advance (λ (x : A). true) first.rest others)) in
      ground arith

  -- The rows of an iterator are in order.
  is_ordered_entry : Entry A → Bool
  is_ordered_entry e = is_ordered attr reverse (e.value ∷ e.rest)

  count-after :
      (x y : A) (rows : List A)
      → le_rows attr reverse x y ≡ true
      → all (le_rows attr reverse y) rows ≡ true
      → count (λ z. not (le_rows attr reverse x z)) rows ≡ 0
  unfolding count all
  count-after x y [] h k = refl
  count-after x y (z ∷ rows) h k =
      ground (arith, le_rows_trans attr reverse x y z, count-after x y rows)

  weights-after :
      (x : A) (heap : List (Entry A))
      → all (le_head attr reverse x) heap ≡ true
      → all is_ordered_entry heap ≡ true
      → weights (λ z. not (le_rows attr reverse x z)) heap ≡ 0
  unfolding weights weight all le_head is_ordered_entry is_ordered count
  weights-after x [] h k = refl
  weights-after x (e ∷ heap) h k =
      ground (arith, count-after x e.value e.rest, weights-after x heap)

  count-rest :
      (e : Entry A)
      → is_ordered_entry e ≡ true
      → count (λ z. not (le_rows attr reverse e.value z)) e.rest ≡ 0
  unfolding is_ordered_entry is_ordered
  count-rest e h =
      count-after e.value e.value e.rest (le_rows_refl attr reverse e.value) (ground arith)

  ordered_rest : (e : Entry A) → is_ordered_entry e ≡ true → is_ordered attr reverse e.rest ≡ true
  unfolding is_ordered_entry is_ordered
  ordered_rest e h = ground arith

  all_ordered-advance :
      (rows : List A) (heap : List (Entry A))
      → is_ordered attr reverse rows ≡ true
      → all is_ordered_entry heap ≡ true
      → all is_ordered_entry (advance rows heap) ≡ true
  unfolding advance all is_ordered_entry
  all_ordered-advance [] heap h k = k
  all_ordered-advance (x ∷ rows) heap h k = ground arith

  is_ordered-merge_loop :
      (n : ℕ) (heap : List (Entry A))
      → weights (λ x. true) heap ≤ n
      → all is_ordered_entry heap ≡ true
      → is_ordered attr reverse (merge_loop attr tie reverse n heap) ≡ true
  unfolding merge_loop is_ordered weights weight all count
  is_ordered-merge_loop zero heap h k = refl
  is_ordered-merge_loop (suc n) [] h k = refl
  is_ordered-merge_loop (suc n) (e ∷ heap) h k =
      let first : Entry A = (least attr tie reverse e heap).0 in
      let others : List (Entry A) = (least attr tie reverse e heap).1 in
      let heads : all (le_head attr reverse first.value) others ≡ true =
        least-all attr tie reverse e heap in
      let kept : all is_ordered_entry (first ∷ others) ≡ true =
        all-least attr tie reverse is_ordered_entry e heap ∙ k in
      let own : is_ordered_entry first ≡ true = ground arith in
      let others_kept : all is_ordered_entry others ≡ true = ground arith in
      let next : List (Entry A) = advance first.rest others in
      let small : weights (λ x. true) next ≤ n = omega (
        arith,
        weights-advance (λ (x : A). true) first.rest others,
        weights-least attr tie reverse (λ x. true) e heap,
      ) in
      let after : weights (λ z. not (le_rows attr reverse first.value z)) next ≡ 0 = omega (
        arith,
        weights-advance (λ (z : A). not (le_rows attr reverse first.value z)) first.rest others,
        weights-after first.value others heads others_kept,
        count-rest first own,
      ) in
      rw
        (count-all (le_rows attr reverse first.value) (merge_loop attr tie reverse n next)
          (count-merge_loop (λ z. not (le_rows attr reverse first.value z)) n next small ∙ after))
        (is_ordered-merge_loop n next small
          (all_ordered-advance first.rest others (ordered_rest first own) others_kept))

  start_heap-ordered :
      (querysets : List (List A))
      → all (is_ordered attr reverse) querysets ≡ true
      → all is_ordered_entry (start_heap querysets) ≡ true
  unfolding start_heap all is_ordered_entry
  start_heap-ordered [] h = refl
  start_heap-ordered ([] ∷ querysets) h = start_heap-ordered querysets (ground arith)
  start_heap-ordered ((x ∷ rows) ∷ querysets) h = ground (arith, start_heap-ordered querysets)

  small_start :
      (querysets : List (List A))
      → weights (λ x. true) (start_heap querysets) ≤ total_count querysets
  small_start querysets =
      omega (arith, weights-start_heap (λ (x : A). true) querysets, total_count-chain querysets)

  -- A merge of ordered querysets is in order, and each row is in it as often as in them.
  pub merge-is_ordered :
      (querysets : List (List A))
      → all (is_ordered attr reverse) querysets ≡ true
      → (is_ordered attr reverse (merge attr tie reverse querysets) ≡ true)
        × ((p : A → Bool) → count p (merge attr tie reverse querysets) ≡ count p (chain querysets))
  unfolding merge
  merge-is_ordered querysets h = (
    is_ordered-merge_loop (total_count querysets) (start_heap querysets) (small_start querysets)
        (start_heap-ordered querysets h),
    λ p.
        count-merge_loop p (total_count querysets) (start_heap querysets) (small_start querysets)
        ∙ weights-start_heap p querysets,
  )

  pub length-merge :
      (querysets : List (List A))
      → length (merge attr tie reverse querysets) ≡ total_count querysets
  unfolding merge
  length-merge querysets = omega (
    arith,
    count-merge_loop (λ (x : A). true) (total_count querysets) (start_heap querysets)
        (small_start querysets),
    weights-start_heap (λ (x : A). true) querysets,
    total_count-chain querysets,
    count-total (merge_loop attr tie reverse (total_count querysets) (start_heap querysets)),
  )
