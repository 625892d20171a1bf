-- ===== src/Cost/Estimates/Summed.antt =====
-- The total of an estimate is the sum of the totals of the resource estimates below it.
pub mod Kept
pub mod Updates
use waldur_core.Prelude.{
  ℕ, suc, ◌≤◌, ◌≡◌, refl, ◌∙◌, sym, ap, Bool, true, false, ◌&&◌, ◌||◌, not, Option, none, some,
  List, [], ◌∷◌, arith, map, find, mem, all, count, filter, is_some, if◌then◌else◌, ◌==◌, ==_iff,
  Bool-cases, Option-cases, inl, inr,
}
use waldur_core.Prelude.Int.{
  ℤ, pos, ◌+ℤ◌, ◌-ℤ◌, int_laws, +ℤ_parts, -ℤ_parts, eq_of_parts, +ℤ_assoc,
}
use mathlib.Core.Path.{subst}
use waldur_core.Core.Ancestors.{get_ancestors}
use waldur_core.Cost.Estimates.{
  Estimate, Db, Site, update_estimate, save_total, total_at, load_totals, add_to_each,
  update_ancestors_total,
}
use waldur_core.Cost.Estimates.Totals.{increased, total_at-update_ancestors_total}

-- What a resource estimate adds to the total of `k`, for the ancestors `above` of each estimate.
unfoldable pub share : (ℕ → List ℕ) → ℕ → Estimate → ℤ
share above k r = if r.is_resource && mem k (above r.id) then r.total else pos 0

unfoldable pub sum_below : (ℕ → List ℕ) → ℕ → List Estimate → ℤ
unfolding share
sum_below above k [] = pos 0
sum_below above k (r ∷ rows) = share above k r +ℤ sum_below above k rows

-- No estimate of a resource stands above another estimate.
unfoldable pub is_leaf : (ℕ → List ℕ) → ℕ → Estimate → Bool
is_leaf above x r = not (r.is_resource && mem r.id (above x))

pub head_found :
    (p : Estimate → Bool) (r e : Estimate) (rows : List Estimate)
    → p r ≡ true
    → find p (r ∷ rows) ≡ some e
    → r ≡ e
unfolding find
head_found p r e rows h f = ground (arith, h, f)

head_counted :
    (p : Estimate → Bool) (r : Estimate) (rows : List Estimate)
    → p r ≡ true
    → count p (r ∷ rows) ≤ 1
    → count p rows ≡ 0
unfolding count
head_counted p r rows h c = ground (arith, h, c)

tail_found :
    (p : Estimate → Bool) (r e : Estimate) (rows : List Estimate)
    → p r ≡ false
    → find p (r ∷ rows) ≡ some e
    → find p rows ≡ some e
unfolding find
tail_found p r e rows h f = ground (arith, h, f)

tail_counted :
    (p : Estimate → Bool) (r : Estimate) (rows : List Estimate)
    → p r ≡ false
    → count p (r ∷ rows) ≤ 1
    → count p rows ≤ 1
unfolding count
tail_counted p r rows h c = ground (arith, h, c)

module _ (above : ℕ → List ℕ) (k : ℕ) where
  -- A write to an estimate that is not of a resource.
  pub sum_below-other :
      (id : ℕ) (t : ℤ) (rows : List Estimate)
      → all (λ r. not (r.id == id && r.is_resource)) rows ≡ true
      → sum_below above k (map (λ r. if r.id == id then record r { total = t } else r) rows)
        ≡ sum_below above k rows
  unfolding sum_below all share
  sum_below-other id t [] h = refl
  sum_below-other id t (r ∷ rows) h = ground (arith, sum_below-other id t rows)

  -- A write to a resource estimate that has one row.
  sum_below-gone :
      (id : ℕ) (t : ℤ) (rows : List Estimate)
      → count (λ r. r.id == id) rows ≡ 0
      → sum_below above k (map (λ r. if r.id == id then record r { total = t } else r) rows)
        ≡ sum_below above k rows
  unfolding sum_below count
  sum_below-gone id t [] h = refl
  sum_below-gone id t (r ∷ rows) h = ground (arith, sum_below-gone id t rows)

  share-saved :
      (e : Estimate) (t s : ℤ)
      → e.is_resource ≡ true
      → share above k (record e { total = t }) +ℤ s
        ≡ share above k e +ℤ s +ℤ (if mem k (above e.id) then t -ℤ e.total else pos 0)
  unfolding share
  share-saved e t s h = elim (Bool-cases (mem k (above e.id))) [
    | inl above_it ↦ rw (h, above_it) (grind int_laws)
    | inr beside ↦ rw (h, beside) (grind int_laws)
  ]

  pub sum_below-saved :
      (e : Estimate) (t : ℤ) (rows : List Estimate)
      → count (λ r. r.id == e.id) rows ≤ 1
      → find (λ r. r.id == e.id) rows ≡ some e
      → e.is_resource ≡ true
      → (sum_below above k (map (λ r. if r.id == e.id then record r { total = t } else r) rows)
          ≡ sum_below above k rows +ℤ (if mem k (above e.id) then t -ℤ e.total else pos 0))
  unfolding sum_below find
  sum_below-saved e t [] c f h = cc
  sum_below-saved e t (r ∷ rows) c f h = elim (Bool-cases (r.id == e.id)) [
    | inl same ↦
        rw (same, sum_below-gone e.id t rows (head_counted (λ x. x.id == e.id) r rows same c))
          (subst
            (λ x.
              share above k (record x { total = t }) +ℤ sum_below above k rows
              ≡ share above k x
                +ℤ sum_below above k rows
                +ℤ (if mem k (above e.id) then t -ℤ e.total else pos 0))
            (sym (head_found (λ x. x.id == e.id) r e rows same f))
            (share-saved e t (sum_below above k rows) h))
    | inr other ↦ rw (other) (
        ap (λ s. share above k r +ℤ s)
          (sum_below-saved e t rows (tail_counted (λ x. x.id == e.id) r rows other c)
            (tail_found (λ x. x.id == e.id) r e rows other f) h)
        ∙ sym (+ℤ_assoc (share above k r) (sum_below above k rows) _))
  ]
