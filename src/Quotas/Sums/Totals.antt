-- ===== src/Quotas/Sums/Totals.antt =====
-- The totals over several querysets.
use text.Mathlib.Text.{◌==◌ as str_eq}
use waldur_core.Prelude.{
  ◌≡◌, refl, sym, ◌∙◌, ap, true, false, ◌||◌, Option, none, some, List, [], ◌∷◌, ◌++◌, String,
  arith, if◌then◌else◌, Bool-cases, inl, inr, all, any, any-append, eq_refl,
}
use waldur_core.Prelude.Int.{+ℤ_assoc, +ℤ_zero, zero_+ℤ, ℤ, ◌+ℤ◌, eqb_ℤ}
use waldur_core.Quotas.Table.{unlimited}
use waldur_core.Quotas.Sums.{
  Items, Total, or_zero, sum_dicts, reduce, sum_partials, add_limited, add_unlimited, assign,
  mark_unlimited,
}
use waldur_core.Quotas.Sums.Laws.{has, sum, is_limited, plus_items, sum_dicts-at, sum-none}

unfoldable pub concat : List Items → Items
concat [] = []
concat (partial ∷ partials) = partial ++ concat partials

module _ (k : String) where
  has-append : (xs ys : Items) → has k (xs ++ ys) ≡ (has k xs || has k ys)
  unfolding has
  has-append xs ys = any-append _ xs ys

  sum-append : (xs ys : Items) → sum k (xs ++ ys) ≡ sum k xs +ℤ sum k ys
  unfolding sum
  sum-append [] ys = sym (zero_+ℤ (sum k ys))
  sum-append ((key, v) ∷ xs) ys = elim (Bool-cases (str_eq k key)) [
    | inl same ↦ rw (same, sum-append xs ys) (sym (+ℤ_assoc v (sum k xs) (sum k ys)))
    | inr other ↦ rw (other) (sum-append xs ys)
  ]

  limited-append :
      (xs ys : Items)
      → is_limited k (xs ++ ys) ≡ true
      → (is_limited k xs ≡ true) × (is_limited k ys ≡ true)
  unfolding is_limited all
  limited-append [] ys h = (refl, h)
  limited-append ((key, v) ∷ xs) ys h = ground (arith, limited-append xs ys)

  plus_items-append :
      (acc : Option ℤ) (xs ys : Items)
      → plus_items k (plus_items k acc xs) ys ≡ plus_items k acc (xs ++ ys)
  plus_items-append acc xs ys = elim (Bool-cases (has k xs)) [
    | inl x ↦ elim (Bool-cases (has k ys)) [
      | inl y ↦
          rw (has-append xs ys, x, y, sum-append xs ys)
            (ap some (+ℤ_assoc (or_zero acc) (sum k xs) (sum k ys)))
      | inr y ↦
          rw (has-append xs ys, x, y, sum-append xs ys, sum-none k ys y, +ℤ_zero (sum k xs)) refl
    ]
    | inr x ↦ rw (has-append xs ys, x, sum-append xs ys, sum-none k xs x, zero_+ℤ (sum k ys)) refl
  ]

  reduce-at :
      (partials : List Items) (total : Total)
      → is_limited k (concat partials) ≡ true
      → reduce total partials k ≡ plus_items k (total k) (concat partials)
  unfolding reduce concat has any
  reduce-at [] total h = refl
  reduce-at (partial ∷ partials) total h =
      reduce-at partials (sum_dicts total partial) (limited-append partial (concat partials) h).1
      ∙ ap (λ o. plus_items k o (concat partials))
          (sum_dicts-at k total partial (limited-append partial (concat partials) h).0)
      ∙ plus_items-append (total k) partial (concat partials)

  -- If no partial sum has -1 at a key, the total at the key is the sum of all values there, and
  -- there is none if no partial sum has the key.
  pub sum_partials-sum :
      (partials : List Items)
      → is_limited k (concat partials) ≡ true
      → sum_partials partials k
        ≡ (if has k (concat partials) then some (sum k (concat partials)) else none)
  unfolding sum_partials
  sum_partials-sum partials h =
      reduce-at partials (λ j. none) h
      ∙ ap (λ v. if has k (concat partials) then some v else none)
          (zero_+ℤ (sum k (concat partials)))

  -- With an unlimited queryset before one with another limit than -1 the total is that limit less
  -- one, and with the unlimited one after it the total is the limit.
  pub sum_partials-order :
      (v : ℤ)
      → eqb_ℤ v unlimited ≡ false
      → (sum_partials (((k, unlimited) ∷ []) ∷ ((k, v) ∷ []) ∷ []) k ≡ some (unlimited +ℤ v))
        × (sum_partials (((k, v) ∷ []) ∷ ((k, unlimited) ∷ []) ∷ []) k ≡ some v)
  unfolding sum_partials reduce sum_dicts add_limited add_unlimited mark_unlimited assign
  sum_partials-order v limited =
      (ground (arith, limited, eq_refl k), rw (limited, zero_+ℤ v) (ground (arith, eq_refl k)))
