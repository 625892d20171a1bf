-- ===== src/Quotas/Sums.antt =====
-- `get_sum_of_quotas_for_querysets` and `_sum_dicts` of `QuotaModelMixin` in
-- waldur_core/quotas/models.py. A partial sum is a dictionary as the list of its items; the total is
-- a `defaultdict`, a function that has no value where there is no key.
pub mod Laws
pub mod Totals
use text.Mathlib.Text.{◌==◌ as str_eq}
use waldur_core.Prelude.{
  ℕ, ◌≡◌, refl, sym, ◌∙◌, ap, Bool, true, false, not, ◌&&◌, ◌||◌, Option, none, some, List, [], ◌∷◌,
  String, arith, if◌then◌else◌, Bool-cases, inl, inr, all, eq_refl, eq_iff,
}
use waldur_core.Prelude.Int.{ℤ, pos, negsuc, ◌+ℤ◌, eqb_ℤ}
use waldur_core.Quotas.Table.{unlimited}

abbrev pub Items : Type 0
Items = List (String × ℤ)

abbrev pub Total : Type 0
Total = String → Option ℤ

abbrev pub or_zero : Option ℤ → ℤ
or_zero none = pos 0
or_zero (some v) = v

unfoldable pub assign : String → ℤ → Total → Total
assign key v total k = if str_eq k key then some v else total k

-- The first loop: `if val != -1: total[key] += val`.
unfoldable pub add_limited : Items → Total → Total
unfolding assign
add_limited [] total = total
add_limited ((key, v) ∷ items) total =
    add_limited items
      (if eqb_ℤ v unlimited then total else assign key (or_zero (total key) +ℤ v) total)

unfoldable pub mark_unlimited : Option ℤ → String → Total → Total
unfolding assign
mark_unlimited none key total = assign key unlimited total
mark_unlimited (some w) key total = total

-- The second loop: `if key not in total: total[key] = -1`.
unfoldable pub add_unlimited : Items → Total → Total
unfolding mark_unlimited
add_unlimited [] total = total
add_unlimited ((key, v) ∷ items) total = add_unlimited items (mark_unlimited (total key) key total)

-- `_sum_dicts`
unfoldable pub sum_dicts : Total → Items → Total
unfolding add_limited add_unlimited
sum_dicts total partial = add_unlimited partial (add_limited partial total)

-- `reduce(cls._sum_dicts, partial_sums, ...)`
unfoldable pub reduce : Total → List Items → Total
unfolding sum_dicts
reduce total [] = total
reduce total (partial ∷ partials) = reduce (sum_dicts total partial) partials

-- `get_sum_of_quotas_for_querysets`, from the partial sums of the querysets.
unfoldable pub sum_partials : List Items → Total
unfolding reduce
sum_partials partials = reduce (λ k. none) partials
