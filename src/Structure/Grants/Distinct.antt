-- ===== src/Structure/Grants/Distinct.antt =====
-- The number of distinct items of a list.
use waldur_core.Prelude.{
  ℕ, ◌+◌, ◌≤◌, ◌≡◌, refl, Bool, true, false, not, ◌&&◌, ◌||◌, List, [], ◌∷◌, ◌++◌, arith, mem,
  length, filter, ◌==◌, Bool-cases, inl, inr, sym, ap, ◌∙◌,
}
use waldur_core.Structure.Grants.{distinct}

pub mem-append : (n : ℕ) (xs ys : List ℕ) → mem n (xs ++ ys) ≡ (mem n xs || mem n ys)
unfolding mem
mem-append n [] ys = refl
mem-append n (x ∷ xs) ys = ground (arith, mem-append n xs ys)

pub mem-distinct : (n : ℕ) (xs : List ℕ) → mem n (distinct xs) ≡ mem n xs
unfolding mem distinct
mem-distinct n [] = refl
mem-distinct n (x ∷ xs) = elim (Bool-cases (mem x (distinct xs))) [
  | inl e ↦ rw e (ground (arith, mem-distinct n xs, mem-distinct x xs))
  | inr e ↦ rw e (ground (arith, mem-distinct n xs))
]

abbrev without : ℕ → List ℕ → List ℕ
without x ys = filter (λ y. not (y == x)) ys

mem-without : (n x : ℕ) (ys : List ℕ) → mem n (without x ys) ≡ (mem n ys && not (n == x))
unfolding mem filter
mem-without n x [] = refl
mem-without n x (y ∷ ys) = ground (arith, mem-without n x ys)

abbrev one_if : Bool → ℕ
one_if true = 1
one_if false = 0

length-distinct_cons :
    (x : ℕ) (xs : List ℕ)
    → length (distinct (x ∷ xs)) ≡ length (distinct xs) + one_if (not (mem x xs))
unfolding distinct
length-distinct_cons x xs = ground (arith, mem-distinct x xs)

length-distinct-without :
    (x : ℕ) (ys : List ℕ)
    → length (distinct ys) ≡ length (distinct (without x ys)) + one_if (mem x ys)
unfolding mem filter distinct
length-distinct-without x [] = refl
length-distinct-without x (y ∷ ys) = ground (
  arith,
  length-distinct-without x ys,
  length-distinct_cons y ys,
  length-distinct_cons y (without x ys),
  mem-without y x ys,
  mem-distinct y ys,
  mem-distinct y (without x ys),
)

mem_later : (n x : ℕ) (xs : List ℕ) → mem n xs ≡ true → mem n (x ∷ xs) ≡ true
unfolding mem
mem_later n x xs k = ground arith

mem_first : (x : ℕ) (xs : List ℕ) → mem x (x ∷ xs) ≡ true
unfolding mem
mem_first x xs = ground arith

mem_other :
    (n x : ℕ) (xs ys : List ℕ)
    → mem x xs ≡ false
    → mem n xs ≡ true
    → mem n ys ≡ true
    → mem n (without x ys) ≡ true
mem_other n x xs ys new k h = elim (Bool-cases (n == x)) [
  | inl e ↦
      let same : n ≡ x = ground arith in
      let both : mem x xs ≡ true = ap (λ m. mem m xs) (sym same) ∙ k in cc
  | inr e ↦ ground (arith, mem-without n x ys)
]

-- A list whose items are all in another has at most as many distinct items.
pub length-distinct_mono :
    (xs ys : List ℕ)
    → ((n : ℕ) → mem n xs ≡ true → mem n ys ≡ true)
    → length (distinct xs) ≤ length (distinct ys)
unfolding distinct
length-distinct_mono [] ys h = omega arith
length-distinct_mono (x ∷ xs) ys h = elim (Bool-cases (mem x xs)) [
  | inl old ↦ ground (
    arith,
    length-distinct_cons x xs,
    length-distinct_mono xs ys (λ n k. h n (mem_later n x xs k)),
  )
  | inr new ↦ ground (
    arith,
    length-distinct_cons x xs,
    length-distinct-without x ys,
    h x (mem_first x xs),
    length-distinct_mono xs (without x ys)
        (λ n k. mem_other n x xs ys new k (h n (mem_later n x xs k))),
  )
]
