-- ===== src/Core/Summary/Weights.antt =====
-- The order of the values, and how many rows of a kind the iterators of a heap have left.
use waldur_core.Prelude.{
  ℕ, suc, ◌+◌, ◌≡◌, refl, Bool, true, not, Option, List, [], ◌∷◌, arith, length, if◌then◌else◌,
  count, count-append, all, ap,
}
use waldur_core.Core.Summary.{
  compared_le, compared_eq, compared_lt, Entry, chain, total_count, start_heap, advance,
}

-- A value is not after another.
unfoldable pub in_order : Bool → Option ℕ → Option ℕ → Bool
unfolding compared_lt
in_order reverse a b = not (compared_lt reverse b a)

pub in_order_trans :
    (reverse : Bool) (a b c : Option ℕ)
    → in_order reverse a b ≡ true
    → in_order reverse b c ≡ true
    → in_order reverse a c ≡ true
unfolding in_order compared_lt compared_le compared_eq
in_order_trans reverse a b c h k = ground arith

pub in_order_refl : (reverse : Bool) (a : Option ℕ) → in_order reverse a a ≡ true
unfolding in_order compared_lt compared_le compared_eq
in_order_refl reverse a = ground arith

-- Of two tuples the less is not after the other, and if the first is not less it is not before.
pub tuple_order :
    (reverse : Bool) (a b : Option ℕ) (tied : Bool)
    → (if (if compared_eq a b then tied else compared_lt reverse a b)
        then in_order reverse a b
        else in_order reverse b a)
      ≡ true
unfolding in_order compared_lt compared_le compared_eq
tuple_order reverse a b tied = ground arith

module _ {A : Type 0} where
  -- How many rows that satisfy a test are left.
  unfoldable pub weight : (A → Bool) → Entry A → ℕ
  weight p e = count p (e.value ∷ e.rest)

  unfoldable pub weights : (A → Bool) → List (Entry A) → ℕ
  unfolding weight
  weights p [] = 0
  weights p (e ∷ heap) = weight p e + weights p heap

  pub weights-start_heap :
      (p : A → Bool) (querysets : List (List A))
      → weights p (start_heap querysets) ≡ count p (chain querysets)
  unfolding weights start_heap chain count
  weights-start_heap p [] = refl
  weights-start_heap p ([] ∷ querysets) = weights-start_heap p querysets
  weights-start_heap p ((x ∷ rows) ∷ querysets) =
      ground (arith, weights-start_heap p querysets, count-append p rows (chain querysets))

  pub weights-advance :
      (p : A → Bool) (rows : List A) (heap : List (Entry A))
      → weights p (advance rows heap) ≡ count p rows + weights p heap
  unfolding weights advance count
  weights-advance p [] heap = omega arith
  weights-advance p (x ∷ rows) heap = refl

  pub count-total : (rows : List A) → count (λ x. true) rows ≡ length rows
  unfolding count
  count-total [] = refl
  count-total (x ∷ rows) = ap suc (count-total rows)

  pub total_count-chain :
      (querysets : List (List A)) → total_count querysets ≡ count (λ x. true) (chain querysets)
  unfolding total_count chain count
  total_count-chain [] = refl
  total_count-chain (rows ∷ querysets) = omega (
    arith,
    total_count-chain querysets,
    count-append (λ (x : A). true) rows (chain querysets),
    count-total rows,
  )

  pub count-all :
      (p : A → Bool) (rows : List A) → count (λ x. not (p x)) rows ≡ 0 → all p rows ≡ true
  unfolding count all
  count-all p [] h = refl
  count-all p (x ∷ rows) h = ground (arith, count-all p rows)
