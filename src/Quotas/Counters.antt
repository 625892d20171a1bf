-- ===== src/Quotas/Counters.antt =====
-- `CounterQuotaField` and `TotalQuotaField` of waldur_core/quotas/fields.py, and the handler of
-- `count_quota_handler_factory` in quotas/handlers.py. A target is an instance of one of the target
-- models; its scope is what `_get_scope` finds at the end of `path_to_scope`.
pub mod Laws
pub mod History
use waldur_core.Prelude.{
  ℕ, Bool, true, false, Option, none, some, List, [], ◌∷◌, String, pure, if◌then◌else◌, ◌==◌,
}
use waldur_core.Prelude.Int.{ℤ, pos, negsuc, ◌+ℤ◌, ◌*ℤ◌}
use waldur_core.Quotas.Table.{Call, set_quota_usage, add_quota_usage}

pub record Target : Type 0 where
  pub scope : ℕ
  pub value : ℕ

pub record CounterQuotaField : Type 0 where
  pub name : String
  pub creation_condition : Option (ℕ → Bool)
  pub raw_get_current_usage : Option (List Target → ℕ → ℤ)
  pub raw_get_delta : Option (Target → ℤ)

-- `QuotaField.is_connected_to_scope`
unfoldable pub is_connected_to_scope : CounterQuotaField → ℕ → Bool
is_connected_to_scope field scope = elim field.creation_condition [
  | none ↦ true
  | some condition ↦ condition scope
]

-- `CounterQuotaField.get_delta`
unfoldable pub get_delta : CounterQuotaField → Target → ℤ
get_delta field target = elim field.raw_get_delta [ none ↦ pos 1 | some f ↦ f target ]

-- The sum of a number over the targets of a scope: with 1 this is `filter(...).count()`, and with a
-- field it is `aggregate(Sum(...))`.
unfoldable pub total : (Target → ℤ) → ℕ → List Target → ℤ
total f scope [] = pos 0
total f scope (t ∷ ts) = if t.scope == scope then f t +ℤ total f scope ts else total f scope ts

-- `CounterQuotaField.get_current_usage`
unfoldable pub get_current_usage : CounterQuotaField → List Target → ℕ → ℤ
unfolding total
get_current_usage field targets scope = elim field.raw_get_current_usage [
  | none ↦ total (λ t. pos 1) scope targets
  | some f ↦ f targets scope
]

-- `CounterQuotaField.recalculate_usage`
unfoldable pub recalculate_usage : CounterQuotaField → List Target → ℕ → Call (Unit {0})
unfolding get_current_usage set_quota_usage
recalculate_usage field targets scope =
    set_quota_usage false scope field.name (get_current_usage field targets scope)

-- `QuotaField.recalculate`
unfoldable pub recalculate : CounterQuotaField → List Target → ℕ → Call (Unit {0})
unfolding is_connected_to_scope recalculate_usage
recalculate field targets scope =
    if is_connected_to_scope field scope then recalculate_usage field targets scope else pure tt

-- `CounterQuotaField.add_usage`
unfoldable pub add_usage : CounterQuotaField → Target → ℤ → Bool → Call (Unit {0})
unfolding is_connected_to_scope get_delta add_quota_usage
add_usage field target delta fail_silently =
    if is_connected_to_scope field target.scope
    then add_quota_usage fail_silently true target.scope field.name
        (delta *ℤ get_delta field target)
    else pure tt

-- The signals that the handler is connected to; `post_save` says whether the target was created.
pub data Signal : Type 0 where
  post_save : Bool → Signal
  post_delete : Signal

-- `recalculate_count_quota`
unfoldable pub recalculate_count_quota : CounterQuotaField → Signal → Target → Call (Unit {0})
unfolding add_usage
recalculate_count_quota field (post_save true) target = add_usage field target (pos 1) false
recalculate_count_quota field (post_save false) target = pure tt
recalculate_count_quota field post_delete target = add_usage field target (negsuc 0) true

-- `TotalQuotaField`, which sums a field of its targets.
unfoldable pub TotalQuotaField : String → CounterQuotaField
unfolding total
TotalQuotaField name = record {
  name = name;
  creation_condition = none;
  raw_get_current_usage = some (λ targets scope. total (λ t. pos t.value) scope targets);
  raw_get_delta = some (λ t. pos t.value);
}
