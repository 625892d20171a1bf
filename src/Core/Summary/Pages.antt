-- ===== src/Core/Summary/Pages.antt =====
-- Ordered summaries, and reading a summary page by page.
use waldur_core.Prelude.{
  ℕ, zero, suc, ◌+◌, ◌-◌, ◌≤◌, ◌≡◌, refl, Bool, true, Option, none, some, List, [], ◌∷◌, ◌++◌,
  String, map, arith, length, count, count-append, all, ap, ◌∙◌, sym,
}
use waldur_core.Core.Summary.{
  Summary, chain, order_by, chained_querysets, chained_by, total_count, skip, take_rows, islice,
  get_slice,
}
use waldur_core.Core.Summary.Weights.{count-total, total_count-chain}
use waldur_core.Core.Summary.Least.{is_ordered}
use waldur_core.Core.Summary.Merged.{merge-is_ordered, length-merge}

module _ {A : Type 0} (attrs : String → A → Option ℕ) where
  -- What `order_by` of the database does: the rows of each queryset in order, each as often as before.
  pub record Sorts (sort : String → Bool → List A → List A) : Type 0 where
    pub ordered :
        (field : String) (reverse : Bool) (rows : List A)
        → is_ordered (attrs field) reverse (sort field reverse rows) ≡ true
    pub counted :
        (field : String) (reverse : Bool) (p : A → Bool) (rows : List A)
        → count p (sort field reverse rows) ≡ count p rows

module _ {A : Type 0} (attrs : String → A → Option ℕ) (tie : A → A → Bool) where
  module _ (sort : String → Bool → List A → List A) (laws : Sorts attrs sort) (field : String)
      (reverse : Bool) where
    all_ordered-sort :
        (querysets : List (List A))
        → all (is_ordered (attrs field) reverse) (map (sort field reverse) querysets) ≡ true
    unfolding all
    all_ordered-sort [] = refl
    all_ordered-sort (rows ∷ querysets) =
        rw (laws.ordered field reverse rows) (all_ordered-sort querysets)

    count-sort :
        (p : A → Bool) (querysets : List (List A))
        → count p (chain (map (sort field reverse) querysets)) ≡ count p (chain querysets)
    unfolding chain
    count-sort p [] = refl
    count-sort p (rows ∷ querysets) =
        rw
          (
            count-append p (sort field reverse rows) (chain (map (sort field reverse) querysets)),
            count-append p rows (chain querysets),
            laws.counted field reverse p rows,
            count-sort p querysets,
          )
          refl

    -- If the database puts the rows of each queryset in order, then after order_by a summary gives
    -- the rows of all querysets in order, each as often as before.
    pub chained_querysets-order_by :
        (s : Summary A)
        → (is_ordered
              (attrs field)
              reverse
              (chained_querysets attrs tie (order_by sort field reverse s))
            ≡ true)
          × ((p : A → Bool)
              → count p (chained_querysets attrs tie (order_by sort field reverse s))
                ≡ count p (chain s.querysets))
    unfolding chained_querysets chained_by order_by
    chained_querysets-order_by s =
        let (ordered, counted) =
          merge-is_ordered (attrs field) tie reverse (map (sort field reverse) s.querysets)
            (all_ordered-sort s.querysets) in
        (ordered, λ p. counted p ∙ count-sort p s.querysets)

  -- The first pages of some size from some row on.
  unfoldable pub read_pages : ℕ → ℕ → ℕ → Summary A → List A
  read_pages size zero start s = []
  read_pages size (suc n) start s =
      get_slice attrs tie start (some (start + size)) s ++ read_pages size n (start + size) s

module _ {A : Type 0} where
  take_rows-skip : (k : ℕ) (rows : List A) → take_rows k rows ++ skip k rows ≡ rows
  unfolding take_rows skip
  take_rows-skip zero rows = refl
  take_rows-skip (suc k) [] = refl
  take_rows-skip (suc k) (x ∷ rows) = ap (◌∷◌ x) (take_rows-skip k rows)

  skip-nil : (n : ℕ) → skip {A = A} n [] ≡ []
  unfolding skip
  skip-nil zero = refl
  skip-nil (suc n) = refl

  skip_add : (a k : ℕ) (rows : List A) → skip (a + k) rows ≡ skip k (skip a rows)
  unfolding skip
  skip_add zero k rows = ap (λ (n : ℕ). skip n rows) (omega arith)
  skip_add (suc a) k [] = skip-nil (suc a + k) ∙ sym (skip-nil k)
  skip_add (suc a) k (x ∷ rows) =
      let e : suc a + k ≡ suc (a + k) = omega arith in rw e (skip_add a k rows)

  skip-all : (n : ℕ) (rows : List A) → length rows ≤ n → skip n rows ≡ []
  unfolding skip
  skip-all zero [] h = refl
  skip-all zero (x ∷ rows) h = absurd (omega arith)
  skip-all (suc n) [] h = refl
  skip-all (suc n) (x ∷ rows) h = skip-all n rows (omega arith)

  islice-page :
      (start size : ℕ) (rows : List A)
      → islice start (some (start + size)) rows ++ skip (start + size) rows ≡ skip start rows
  unfolding islice
  islice-page start size rows =
      let e : (start + size) - start ≡ size = omega arith in
      rw (e, skip_add start size rows) (take_rows-skip size (skip start rows))

module _ {A : Type 0} (attrs : String → A → Option ℕ) (tie : A → A → Bool) where
  read_pages-skip :
      (size n start : ℕ) (s : Summary A)
      → 1 ≤ size
      → length (chained_querysets attrs tie s) ≤ start + n
      → read_pages attrs tie size n start s ≡ skip start (chained_querysets attrs tie s)
  unfolding read_pages get_slice
  read_pages-skip size zero start s h k =
      sym (skip-all start (chained_querysets attrs tie s) (omega arith))
  read_pages-skip size (suc n) start s h k =
      rw (read_pages-skip size n (start + size) s h (omega arith))
        (islice-page start size (chained_querysets attrs tie s))

  length-chained_by :
      (order : Option (String × Bool)) (querysets : List (List A))
      → length (chained_by attrs tie order querysets) ≡ total_count querysets
  unfolding chained_by
  length-chained_by none querysets =
      omega (arith, total_count-chain querysets, count-total (chain querysets))
  length-chained_by (some (field, reverse)) querysets =
      length-merge (attrs field) tie reverse querysets

  -- The pages of any size of a summary, one after another, are all its rows, if there are as many
  -- pages as count says there are rows.
  pub read_pages-chained_querysets :
      (size n : ℕ) (s : Summary A)
      → 1 ≤ size
      → total_count s.querysets ≤ n
      → read_pages attrs tie size n 0 s ≡ chained_querysets attrs tie s
  unfolding skip chained_querysets
  read_pages-chained_querysets size n s h k =
      let e = length-chained_by s.order s.querysets in read_pages-skip size n 0 s h (omega arith)
