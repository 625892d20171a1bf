-- ===== src/Quotas/Aggregators/Recalculation.antt =====
-- A recalculation of an aggregator quota against the usage that the hooks have kept.
use waldur_core.Prelude.{
  ℕ, ◌≡◌, refl, sym, ◌∙◌, ap, true, List, [], ◌∷◌, all, count, filter, is_some, returned,
  Option-cases, inl, inr, ◌==◌,
}
use waldur_core.Prelude.Int.{+ℤ_assoc, +ℤ_zero, zero_+ℤ, eqb_ℤ-refl, ℤ, pos, ◌+ℤ◌}
use waldur_core.Quotas.Table.{Table, get, set_quota_usage, with_quota}
use waldur_core.Quotas.Aggregators.{
  AggregatorQuotaField, get_child_quota_name, sum_children, recalculate_usage,
}
use waldur_core.Quotas.Aggregators.Laws.{sum_of, given, value_at, IsAggregated}
use waldur_core.Quotas.Aggregators.History.{Event, is_of_child, steps, IsAggregated-steps}

module _ (field : AggregatorQuotaField) (scope : ℕ) where
  -- The children that have the quota.
  unfoldable pub having_quota : Table → List ℕ → List ℕ
  having_quota qs = filter (λ n. is_some (get n (get_child_quota_name field) qs))

  sum_children-sum_of :
      (qs : Table) (children : List ℕ) (acc : ℤ)
      → sum_children field (having_quota qs children) acc qs
        ≡ (returned (acc +ℤ sum_of (value_at field qs) children), qs)
  unfolding sum_children sum_of having_quota filter value_at given
  sum_children-sum_of qs [] acc = rw (+ℤ_zero acc) refl
  sum_children-sum_of qs (n ∷ children) acc =
      elim (Option-cases (get n (get_child_quota_name field) qs)) [
        | inl missing ↦ rw (missing) (
            sum_children-sum_of qs children acc
            ∙ ap (λ v. (returned (acc +ℤ v), qs)) (sym (zero_+ℤ _)))
        | inr (q, found) ↦ rw (found) (
            rw (found, sum_children)
              (sum_children-sum_of qs children (acc +ℤ field.aggregation_field q)
                ∙ ap (λ v. (returned v, qs)) (+ℤ_assoc acc (field.aggregation_field q) _)))
      ]

  recalculate-aggregated :
      (children : List ℕ) (qs : Table)
      → IsAggregated field scope children qs
      → recalculate_usage field (having_quota qs children) scope qs ≡ (returned tt, qs)
  unfolding recalculate_usage set_quota_usage with_quota
  recalculate-aggregated children qs (q, found, same) =
      rw
        (
          sum_children-sum_of qs children (pos 0),
          found,
          same,
          zero_+ℤ,
          eqb_ℤ-refl,
          set_quota_usage,
          with_quota,
        )
        refl

  -- If the usage of an aggregator quota is the sum over the quotas that the children of its scope
  -- have, and the scope is not among them, then after any creations, saves and deletions of these
  -- quotas with their hooks, each of a child that is once among the children, a recalculation over
  -- the children that have the quota finds the usage that the hooks have kept and writes nothing.
  pub recalculate_usage-steps :
      (children : List ℕ) (apart : count (λ n. n == scope) children ≡ 0) (es : List Event)
      (qs : Table)
      → all (is_of_child scope children) es ≡ true
      → IsAggregated field scope children qs
      → recalculate_usage field
          (having_quota (steps field scope es qs) children)
          scope
          (steps field scope es qs)
        ≡ (returned tt, steps field scope es qs)
  recalculate_usage-steps children apart es qs h x =
      recalculate-aggregated children (steps field scope es qs)
        (IsAggregated-steps field scope children apart es qs h x)
