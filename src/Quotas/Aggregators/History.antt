-- ===== src/Quotas/Aggregators/History.antt =====
-- An aggregator quota while the quotas of its children are created, saved and deleted, each with the
-- hook that `handle_aggregated_quotas` calls for it.
use mathlib.Core.Path.{subst}
use waldur_core.Prelude.{
  ℕ, ◌≡◌, refl, sym, ◌∙◌, ap, Bool, true, false, not, ◌&&◌, Option, none, some, List, [], ◌∷◌, ◌++◌,
  arith, all, count, ◌==◌,
}
use waldur_core.Prelude.Int.{zero_+ℤ, ℤ, pos, ◌+ℤ◌, ◌-ℤ◌}
use waldur_core.Quotas.Table.{Quota, Table, get, write}
use waldur_core.Quotas.Table.Laws.{get-write, get-write_other}
use waldur_core.Quotas.Aggregators.{
  AggregatorQuotaField, get_child_quota_name, add_diff, created, changed_from,
  post_child_quota_save, pre_child_quota_delete,
}
use waldur_core.Quotas.Aggregators.Laws.{
  sum_of, sum_of-changed, given, value_at, plus_diff, plus_minus, HasUsage, HasUsage-add_diff,
  IsAggregated, get-add_diff, sum_of-add_diff,
}
use waldur_core.Quotas.Aggregators.Rows.{
  delete, get-append_found, get-append_new, get-append_other, get-delete_self, get-delete_other,
}

-- A quota of a child with its limit and usage.
pub data Event : Type 0 where
  child_created : ℕ → ℤ → ℤ → Event
  child_changed : ℕ → ℤ → ℤ → Event
  child_deleted : ℕ → Event

abbrev pub child_of : Event → ℕ
child_of (child_created child limit usage) = child
child_of (child_changed child limit usage) = child
child_of (child_deleted child) = child

-- The event is of a child that is once among the children, and is not the scope itself.
abbrev pub is_of_child : ℕ → List ℕ → Event → Bool
is_of_child scope children e =
    (count (λ n. n == child_of e) children == 1) && not (scope == child_of e)

module _ (field : AggregatorQuotaField) (scope : ℕ) where
  abbrev new_quota : ℕ → ℤ → ℤ → Quota
  new_quota child limit usage = record {
    scope = child;
    name = get_child_quota_name field;
    limit = limit;
    usage = usage;
    threshold = pos 0;
  }

  abbrev saved : ℤ → ℤ → Quota → Quota
  saved limit usage q = record q { limit = limit; usage = usage }

  -- The row is inserted, then the hook is called; there is one quota for a child and name.
  unfoldable pub create_child : ℕ → ℤ → ℤ → Option Quota → Table → Table
  unfolding post_child_quota_save
  create_child child limit usage none qs =
      let c = new_quota child limit usage in
      (post_child_quota_save field scope c created (qs ++ c ∷ [])).1
  create_child child limit usage (some q) qs = qs

  -- The row is saved, then the hook is called.
  unfoldable pub change_child : ℕ → ℤ → ℤ → Option Quota → Table → Table
  unfolding post_child_quota_save write
  change_child child limit usage none qs = qs
  change_child child limit usage (some p) qs =
      (post_child_quota_save field scope (saved limit usage p) (changed_from p)
        (write child (get_child_quota_name field) (saved limit usage) qs)).1

  -- The hook is called before the row is deleted.
  unfoldable pub delete_child : ℕ → Option Quota → Table → Table
  unfolding pre_child_quota_delete delete
  delete_child child none qs = qs
  delete_child child (some c) qs =
      delete child (get_child_quota_name field) (pre_child_quota_delete field scope c qs).1

  unfoldable pub step : Event → Table → Table
  unfolding create_child change_child delete_child get
  step (child_created child limit usage) qs =
      create_child child limit usage (get child (get_child_quota_name field) qs) qs
  step (child_changed child limit usage) qs =
      change_child child limit usage (get child (get_child_quota_name field) qs) qs
  step (child_deleted child) qs = delete_child child (get child (get_child_quota_name field) qs) qs

  unfoldable pub steps : List Event → Table → Table
  unfolding step
  steps [] qs = qs
  steps (e ∷ es) qs = steps es (step e qs)

  module _ (children : List ℕ) (apart : count (λ n. n == scope) children ≡ 0) where
    -- A hook that adds to the usage what the rows have got more.
    IsAggregated-add_diff :
        (diff : ℤ) (usage : ℤ) (qs : Table)
        → HasUsage field scope usage qs
        → sum_of (value_at field qs) children ≡ usage +ℤ diff
        → IsAggregated field scope children (add_diff field scope diff qs).1
    IsAggregated-add_diff diff usage qs x e =
        subst (λ u. HasUsage field scope u (add_diff field scope diff qs).1)
          (sym e ∙ sym (sum_of-add_diff field scope diff qs children apart))
          (HasUsage-add_diff field scope diff qs usage x)

    module _ (child : ℕ) (own : count (λ n. n == child) children ≡ 1)
        (other : (scope == child) ≡ false) where
      -- Rows that differ in the child's quota.
      sum-moved :
          (qs rs : Table) (d : ℤ)
          → ((n : ℕ)
              → (n == child) ≡ false
              → get n (get_child_quota_name field) rs ≡ get n (get_child_quota_name field) qs)
          → value_at field rs child ≡ value_at field qs child +ℤ d
          → sum_of (value_at field rs) children ≡ sum_of (value_at field qs) children +ℤ d
      unfolding value_at
      sum-moved qs rs d h e =
          sum_of-changed child (value_at field qs) (value_at field rs)
            (λ n k. ap (given field.aggregation_field) (h n k)) d e children own

      IsAggregated-create_child :
          (limit usage : ℤ) (o : Option Quota) (qs : Table)
          → get child (get_child_quota_name field) qs ≡ o
          → IsAggregated field scope children qs
          → IsAggregated field scope children (create_child child limit usage o qs)
      unfolding create_child post_child_quota_save value_at given
      IsAggregated-create_child limit usage (some q) qs e x = x
      IsAggregated-create_child limit usage none qs e (q, found, same) =
          let c = new_quota child limit usage in
          IsAggregated-add_diff (field.aggregation_field c) (sum_of (value_at field qs) children)
            (qs ++ c ∷ []) (q, get-append_found scope field.name c qs q found, same)
            (sum-moved qs (qs ++ c ∷ []) (field.aggregation_field c)
              (λ n k. get-append_other n (get_child_quota_name field) c k qs)
              (rw (get-append_new c qs e, e) (sym (zero_+ℤ (field.aggregation_field c)))))

      IsAggregated-change_child :
          (limit usage : ℤ) (o : Option Quota) (qs : Table)
          → get child (get_child_quota_name field) qs ≡ o
          → IsAggregated field scope children qs
          → IsAggregated field scope children (change_child child limit usage o qs)
      unfolding change_child post_child_quota_save value_at given
      IsAggregated-change_child limit usage none qs e x = x
      IsAggregated-change_child limit usage (some p) qs e (q, found, same) =
          let name = get_child_quota_name field in
          let d = field.aggregation_field (saved limit usage p) -ℤ field.aggregation_field p in
          let rs = write child name (saved limit usage) qs in
          IsAggregated-add_diff d (sum_of (value_at field qs) children) rs
            (
              q,
              get-write_other child name (saved limit usage) (λ s n r. refl) scope field.name
                    (rw (other) refl) qs
                  ∙ found,
              same,
            )
            (sum-moved qs rs d
              (λ n k.
                get-write_other child name (saved limit usage) (λ s m r. refl) n name (rw (k) refl)
                  qs)
              (rw (get-write child name (saved limit usage) (λ s n r. refl) qs p e, e)
                (plus_diff (field.aggregation_field p)
                  (field.aggregation_field (saved limit usage p)))))

      IsAggregated-delete_child :
          (o : Option Quota) (qs : Table)
          → get child (get_child_quota_name field) qs ≡ o
          → IsAggregated field scope children qs
          → IsAggregated field scope children (delete_child child o qs)
      unfolding delete_child pre_child_quota_delete value_at given
      IsAggregated-delete_child none qs e x = x
      IsAggregated-delete_child (some c) qs e x =
          let name = get_child_quota_name field in
          let d = pos 0 -ℤ field.aggregation_field c in
          let rs = (add_diff field scope d qs).1 in
          let (q, found, same) = HasUsage-add_diff field scope d qs _ x in
          let kept = get-add_diff field scope d qs child name (ground (arith, other)) ∙ e in
          (
            q,
            get-delete_other scope child field.name name other rs ∙ found,
            same
                ∙ ap (λ u. u +ℤ d) (sym (sum_of-add_diff field scope d qs children apart))
                ∙ sym (
                    sum-moved rs (delete child name rs) d
                      (λ n k. get-delete_other n child name name k rs)
                      (rw (get-delete_self child name rs, kept)
                        (plus_minus (field.aggregation_field c)))),
          )

    IsAggregated-step :
        (e : Event) (qs : Table)
        → is_of_child scope children e ≡ true
        → IsAggregated field scope children qs
        → IsAggregated field scope children (step e qs)
    unfolding step
    IsAggregated-step (child_created child limit usage) qs h x =
        IsAggregated-create_child child (ground (arith, h)) (ground (arith, h)) limit usage _ qs
          refl x
    IsAggregated-step (child_changed child limit usage) qs h x =
        IsAggregated-change_child child (ground (arith, h)) (ground (arith, h)) limit usage _ qs
          refl x
    IsAggregated-step (child_deleted child) qs h x =
        IsAggregated-delete_child child (ground (arith, h)) (ground (arith, h)) _ qs refl x

    pub IsAggregated-steps :
        (es : List Event) (qs : Table)
        → all (is_of_child scope children) es ≡ true
        → IsAggregated field scope children qs
        → IsAggregated field scope children (steps es qs)
    unfolding steps all
    IsAggregated-steps [] qs h x = x
    IsAggregated-steps (e ∷ es) qs h x =
        IsAggregated-steps es (step e qs) (ground (arith, h))
          (IsAggregated-step e qs (ground (arith, h)) x)
