-- ===== src/Quotas/Aggregators.antt =====
-- `AggregatorQuotaField` of waldur_core/quotas/fields.py, `get_aggregator_quotas` of `QuotaField`, and
-- `handle_aggregated_quotas` of quotas/handlers.py. An aggregator quota of a scope sums the usages, or
-- the limits, of the quotas of its children. The ancestors of a scope, with their aggregator fields,
-- are an argument of the handler.
pub mod Laws
pub mod Rows
pub mod History
pub mod Recalculation
use text.Mathlib.Text.{◌==◌ as str_eq}
use waldur_core.Prelude.{
  ℕ, Bool, true, false, ◌||◌, Option, none, some, List, [], ◌∷◌, ◌++◌, String, raised, pure, raise,
  modify, ◌>>=◌, ◌>>◌, if◌then◌else◌,
}
use waldur_core.Prelude.Int.{ℤ, pos, ◌+ℤ◌, ◌-ℤ◌, eqb_ℤ}
use waldur_core.Quotas.Table.{Quota, Call, does_not_exist, get, write, set_quota_usage}

-- `aggregation_field` reads the usage or the limit of a child quota.
pub record AggregatorQuotaField : Type 0 where
  pub name : String
  pub child_quota_name : Option String
  pub aggregation_field : Quota → ℤ

unfoldable pub get_child_quota_name : AggregatorQuotaField → String
get_child_quota_name field = elim field.child_quota_name [ none ↦ field.name | some name ↦ name ]

-- The loop of `AggregatorQuotaField.recalculate_usage`.
unfoldable pub sum_children : AggregatorQuotaField → List ℕ → ℤ → Call ℤ
unfolding get get_child_quota_name
sum_children field [] current_usage qs = pure current_usage qs
sum_children field (child ∷ children) current_usage qs =
    elim (get child (get_child_quota_name field) qs) [
      | none ↦ raise does_not_exist qs
      | some q ↦ sum_children field children (current_usage +ℤ field.aggregation_field q) qs
    ]

-- `AggregatorQuotaField.recalculate_usage`
unfoldable pub recalculate_usage : AggregatorQuotaField → List ℕ → ℕ → Call (Unit {0})
unfolding sum_children set_quota_usage
recalculate_usage field children scope =
    sum_children field children (pos 0) >>= set_quota_usage false scope field.name

-- `if diff: quota.usage += diff; quota.save()`
unfoldable pub add_diff : AggregatorQuotaField → ℕ → ℤ → Call (Unit {0})
unfolding get write
add_diff field scope diff qs = elim (get scope field.name qs) [
  | none ↦ raise does_not_exist qs
  | some q ↦
      (if eqb_ℤ diff (pos 0)
          then pure tt
          else modify (write scope field.name (λ r. record r { usage = q.usage +ℤ diff })))
        qs
]

-- A saved child quota was created, or had the values that its tracker knows.
pub data Saved : Type 0 where
  created : Saved
  changed_from : Quota → Saved

-- `post_child_quota_save`
unfoldable pub post_child_quota_save : AggregatorQuotaField → ℕ → Quota → Saved → Call (Unit {0})
unfolding add_diff
post_child_quota_save field scope child created =
    add_diff field scope (field.aggregation_field child)
post_child_quota_save field scope child (changed_from previous) =
    add_diff field scope (field.aggregation_field child -ℤ field.aggregation_field previous)

-- `pre_child_quota_delete`, with `quota.usage -= diff` as an addition.
unfoldable pub pre_child_quota_delete : AggregatorQuotaField → ℕ → Quota → Call (Unit {0})
unfolding add_diff
pre_child_quota_delete field scope child =
    add_diff field scope (pos 0 -ℤ field.aggregation_field child)

abbrev pub Aggregators : Type 0
Aggregators = List (AggregatorQuotaField × ℕ)

-- The inner loop of `get_aggregator_quotas`, over the aggregator fields of one ancestor.
unfoldable pub aggregators_of : String → ℕ → List AggregatorQuotaField → Call Aggregators
unfolding get_child_quota_name get
aggregators_of name ancestor [] qs = pure [] qs
aggregators_of name ancestor (field ∷ fields) qs =
    let rest = aggregators_of name ancestor fields in
    if str_eq (get_child_quota_name field) name
    then elim (get ancestor field.name qs) [
      | none ↦ raise does_not_exist qs
      | some q ↦ (do quotas ← rest; pure ((field, ancestor) ∷ quotas)) qs
    ]
    else rest qs

-- `get_aggregator_quotas`, over the ancestors and their aggregator fields.
unfoldable pub get_aggregator_quotas :
    String → List (ℕ × List AggregatorQuotaField) → Call Aggregators
unfolding aggregators_of
get_aggregator_quotas name [] = pure []
get_aggregator_quotas name ((ancestor, fields) ∷ ancestors) = do
  quotas ← aggregators_of name ancestor fields
  others ← get_aggregator_quotas name ancestors
  pure (quotas ++ others)

pub data Signal : Type 0 where
  post_save : Saved → Signal
  pre_delete : Signal

-- The loop of `handle_aggregated_quotas`.
unfoldable pub notify_each : Signal → Quota → Aggregators → Call (Unit {0})
unfolding post_child_quota_save pre_child_quota_delete
notify_each signal quota [] = pure tt
notify_each (post_save saved) quota ((field, scope) ∷ others) =
    post_child_quota_save field scope quota saved >> notify_each (post_save saved) quota others
notify_each pre_delete quota ((field, scope) ∷ others) =
    pre_child_quota_delete field scope quota >> notify_each pre_delete quota others

-- What `quota.get_field()` finds: no field, a usage aggregator, or another field.
pub data FieldKind : Type 0 where
  no_field usage_aggregator other_field : FieldKind

-- `handle_aggregated_quotas`; `has_scope` is false for a global quota.
unfoldable pub handle_aggregated_quotas :
    Bool → FieldKind → List (ℕ × List AggregatorQuotaField) → Signal → Quota → Call (Unit {0})
unfolding get_aggregator_quotas notify_each
handle_aggregated_quotas false kind ancestors signal quota = pure tt
handle_aggregated_quotas true no_field ancestors signal quota = pure tt
handle_aggregated_quotas true usage_aggregator ancestors signal quota = pure tt
handle_aggregated_quotas true other_field ancestors signal quota =
    get_aggregator_quotas quota.name ancestors >>= notify_each signal quota
