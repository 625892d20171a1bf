-- ===== src/Core/Summary/Least.antt =====
-- `heap[0]`: the entry that is taken is not after the others, and the others stay.
use waldur_core.Prelude.{
  ℕ, ◌≡◌, refl, Bool, true, false, ◌&&◌, Option, List, [], ◌∷◌, arith, if◌then◌else◌, all,
  Bool-cases, inl, inr,
}
use waldur_core.Core.Summary.{Entry, entry_lt, least}
use waldur_core.Core.Summary.Weights.{in_order, in_order_trans, in_order_refl, tuple_order, weights}

module _ {A : Type 0} (attr : A → Option ℕ) (reverse : Bool) where
  unfoldable pub le_rows : A → A → Bool
  unfolding in_order
  le_rows x y = in_order reverse (attr x) (attr y)

  -- The rows are in order.
  unfoldable pub is_ordered : List A → Bool
  unfolding le_rows
  is_ordered [] = true
  is_ordered (x ∷ rows) = all (le_rows x) rows && is_ordered rows

  pub le_rows_trans : (x y z : A) → le_rows x y ≡ true → le_rows y z ≡ true → le_rows x z ≡ true
  unfolding le_rows
  le_rows_trans x y z h k = in_order_trans reverse (attr x) (attr y) (attr z) h k

  pub le_rows_refl : (x : A) → le_rows x x ≡ true
  unfolding le_rows
  le_rows_refl x = in_order_refl reverse (attr x)

  -- A row is not after the current value of an entry.
  unfoldable pub le_head : A → Entry A → Bool
  le_head x e = le_rows x e.value

module _ {A : Type 0} (attr : A → Option ℕ) (tie : A → A → Bool) (reverse : Bool) where
  pub weights-least :
      (p : A → Bool) (best : Entry A) (heap : List (Entry A))
      → weights p ((least attr tie reverse best heap).0 ∷ (least attr tie reverse best heap).1)
        ≡ weights p (best ∷ heap)
  unfolding weights least
  weights-least p best [] = refl
  weights-least p best (e ∷ heap) = elim (Bool-cases (entry_lt attr tie reverse e best)) [
    | inl t ↦ rw t (omega (arith, weights-least p e heap))
    | inr t ↦ rw t (omega (arith, weights-least p best heap))
  ]

  pub all-least :
      (q : Entry A → Bool) (best : Entry A) (heap : List (Entry A))
      → all q ((least attr tie reverse best heap).0 ∷ (least attr tie reverse best heap).1)
        ≡ all q (best ∷ heap)
  unfolding all least
  all-least q best [] = refl
  all-least q best (e ∷ heap) = elim (Bool-cases (entry_lt attr tie reverse e best)) [
    | inl t ↦ rw t (ground (arith, all-least q e heap))
    | inr t ↦ rw t (ground (arith, all-least q best heap))
  ]

  -- An entry that is less than another is not after it, and otherwise the other is not after it.
  le_rows-entry_lt :
      (x y : Entry A)
      → (if entry_lt attr tie reverse x y
          then le_rows attr reverse x.value y.value
          else le_rows attr reverse y.value x.value)
        ≡ true
  unfolding entry_lt le_rows
  le_rows-entry_lt x y = tuple_order reverse (attr x.value) (attr y.value) (tie x.value y.value)

  least-le :
      (best : Entry A) (heap : List (Entry A))
      → le_rows attr reverse (least attr tie reverse best heap).0.value best.value ≡ true
  unfolding least
  least-le best [] = le_rows_refl attr reverse best.value
  least-le best (e ∷ heap) =
      let pair = le_rows-entry_lt e best in
      elim (Bool-cases (entry_lt attr tie reverse e best)) [
        | inl t ↦ rw t (
            le_rows_trans attr reverse (least attr tie reverse e heap).0.value e.value best.value
              (least-le e heap) (rw t at pair))
        | inr t ↦ rw t (least-le best heap)
      ]

  least-nil : (best : Entry A) → least attr tie reverse best [] ≡ (best, [])
  unfolding least
  least-nil best = refl

  -- One round of the search for the least entry.
  least-cons :
      (best e : Entry A) (heap : List (Entry A)) (less : Bool)
      → entry_lt attr tie reverse e best ≡ less
      → least attr tie reverse best (e ∷ heap) ≡ (
        (least attr tie reverse (if less then e else best) heap).0,
        (if less then best else e) ∷ (least attr tie reverse (if less then e else best) heap).1,
      )
  unfolding least
  least-cons best e heap less h = rw h refl

  pub least-all :
      (best : Entry A) (heap : List (Entry A))
      → all
          (le_head attr reverse (least attr tie reverse best heap).0.value)
          (least attr tie reverse best heap).1
        ≡ true
  unfolding all le_head
  least-all best [] = rw (least-nil best) refl
  least-all best (e ∷ heap) =
      let pair = le_rows-entry_lt e best in
      elim (Bool-cases (entry_lt attr tie reverse e best)) [
        | inl t ↦
            let first : A = (least attr tie reverse e heap).0.value in
            rw
              (
                least-cons best e heap true t,
                le_rows_trans attr reverse first e.value best.value (least-le e heap)
                    (rw t at pair),
              )
              (least-all e heap)
        | inr t ↦
            let first : A = (least attr tie reverse best heap).0.value in
            rw
              (
                least-cons best e heap false t,
                le_rows_trans attr reverse first best.value e.value (least-le best heap)
                    (rw t at pair),
              )
              (least-all best heap)
      ]
