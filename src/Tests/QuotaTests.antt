-- ===== src/Tests/QuotaTests.antt =====
-- The theorems on quotas at concrete tables.
use waldur_core.Prelude.{
  ◌==◌, all, count, filter, ℕ, ◌≡◌, refl, true, List, [], ◌∷◌, some, none, returned, arith,
  if◌then◌else◌,
}
use waldur_core.Prelude.Int.{ℤ, pos, negsuc, ◌+ℤ◌, ◌-ℤ◌, ◌*ℤ◌, ◌≤ℤ◌}
use waldur_core.Quotas.Creation.{QuotaField, init_quotas, is_created_for}
use waldur_core.Quotas.Creation.Laws.{or_else, default_for, get-init_quotas}
use waldur_core.Quotas.Table.{Quota, Table, get, unlimited, validate_quota_change}
use waldur_core.Quotas.Table.Bounds.{Addition, is_sound, add_each, add_each-is_sound}
use waldur_core.Quotas.Table.Validation.{
  is_dict, Deltas, is_returned, add_all, validate_quota_change-add_all,
}
use waldur_core.Quotas.Counters.{
  Target, CounterQuotaField, recalculate_count_quota, post_save, post_delete, TotalQuotaField,
  is_connected_to_scope, get_delta, total,
}
use waldur_core.Quotas.Counters.Laws.{IsExact}
use waldur_core.Quotas.Counters.History as Counting
use waldur_core.Quotas.Aggregators
use waldur_core.Quotas.Aggregators.{
  AggregatorQuotaField, get_child_quota_name, post_child_quota_save, changed_from,
}
use waldur_core.Quotas.Aggregators.Laws.{IsAggregated, sum_of, value_at, given}
use waldur_core.Quotas.Aggregators.Recalculation.{having_quota, recalculate_usage-steps}
use waldur_core.Quotas.Aggregators.History as Aggregating
use waldur_core.Quotas.Sums.{Items, sum_partials}
use waldur_core.Quotas.Sums.Laws.{has, sum, is_limited}
use waldur_core.Quotas.Sums.Totals.{concat, sum_partials-sum}

-- A scope 1 with a limited quota, and its parent 2 with an unlimited one.
abbrev quota : ℕ → ℤ → ℤ → Quota
quota scope limit usage = record {
  scope = scope;
  name = "size";
  limit = limit;
  usage = usage;
  threshold = pos 0;
}

abbrev table : Table
table = quota 1 (pos 10) (pos 4) ∷ quota 2 unlimited (pos 4) ∷ []

abbrev changes : Deltas
changes = ("size", pos 7) ∷ []

abbrev additions : List Addition
additions =
    record { scope = 1; name = "size"; delta = pos 7 }
    ∷ record { scope = 1; name = "size"; delta = negsuc 8 }
    ∷ []

add_each-is_sound_example : all is_sound (add_each true additions table) ≡ true
unfolding all is_sound
add_each-is_sound_example = add_each-is_sound additions table refl

validate_quota_change-add_all_example :
    is_returned (validate_quota_change 1 changes true table).0
    ≡ is_returned (add_all 1 changes table).0
unfolding is_dict all
validate_quota_change-add_all_example = validate_quota_change-add_all 1 changes table refl

-- A volume of 3 that is created in scope 1, and then deleted.
abbrev volume : Target
volume = record { scope = 1; value = 3 }

abbrev table_at : ℕ → Table
table_at usage = quota 1 (pos 10) (pos usage) ∷ quota 2 unlimited (pos 4) ∷ []

abbrev volume_field : CounterQuotaField
volume_field = TotalQuotaField "size"

volume_created :
    recalculate_count_quota volume_field (post_save true) volume (table_at 0)
    ≡ (returned tt, table_at 3)
unfolding recalculate_count_quota TotalQuotaField ◌*ℤ◌ ◌+ℤ◌
volume_created = refl

volume_deleted :
    recalculate_count_quota volume_field post_delete volume (table_at 3) ≡ (returned tt, table_at 0)
unfolding recalculate_count_quota TotalQuotaField ◌*ℤ◌ ◌+ℤ◌
volume_deleted = refl

volume_history : Counting.Steps volume_field [] (table_at 0) [] (table_at 0)
volume_history =
    Counting.next _ _ _ _ _ _
      (Counting.created volume [] [] [] (volume ∷ []) (table_at 0) (table_at 3) refl refl
        volume_created)
      (Counting.next _ _ _ _ _ _
        (Counting.deleted volume [] [] (volume ∷ []) [] (table_at 3) (table_at 0) refl refl
          volume_deleted)
        (Counting.stop _ _))

volume-IsExact : IsExact volume_field 1 [] (table_at 0)
unfolding get TotalQuotaField get_delta total
volume-IsExact = (quota 1 (pos 10) (pos 0), refl, refl)

volume_nonneg : (t : Target) → pos 0 ≤ℤ get_delta volume_field t
unfolding get_delta TotalQuotaField
volume_nonneg t = omega arith

IsExact-Steps_example : IsExact volume_field 1 [] (table_at 0)
unfolding is_connected_to_scope TotalQuotaField
IsExact-Steps_example =
    Counting.IsExact-Steps volume_field volume_nonneg 1 [] [] (table_at 0) (table_at 0) refl
      volume_history volume-IsExact

-- Scope 2 sums the usages of scope 1.
abbrev usage_field : AggregatorQuotaField
usage_field = record { name = "size"; child_quota_name = none; aggregation_field = λ q. q.usage }

-- Scope 1 has no quota yet, and scope 3 has one.
abbrev children_table : Table
children_table = quota 2 unlimited (pos 4) ∷ quota 3 (pos 10) (pos 4) ∷ []

abbrev child_history : List Aggregating.Event
child_history =
    Aggregating.child_created 1 (pos 10) (pos 9)
    ∷ Aggregating.child_changed 3 (pos 10) (pos 5)
    ∷ Aggregating.child_changed 1 (pos 10) (pos 2)
    ∷ Aggregating.child_deleted 3
    ∷ []

children-IsAggregated : IsAggregated usage_field 2 (1 ∷ 3 ∷ []) children_table
unfolding get sum_of value_at given ◌+ℤ◌
children-IsAggregated = (quota 2 unlimited (pos 4), refl, refl)

recalculate_usage-steps_example :
    Aggregators.recalculate_usage usage_field
      (having_quota usage_field 2
        (Aggregating.steps usage_field 2 child_history children_table)
        (1 ∷ 3 ∷ []))
      2
      (Aggregating.steps usage_field 2 child_history children_table)
    ≡ (returned tt, Aggregating.steps usage_field 2 child_history children_table)
unfolding count all
recalculate_usage-steps_example =
    recalculate_usage-steps usage_field 2 (1 ∷ 3 ∷ []) refl child_history children_table refl
      children-IsAggregated

-- The quota of scope 3 is gone, and the sum is the usage of scope 1.
child_history_end :
    Aggregating.steps usage_field 2 child_history children_table
    ≡ quota 2 unlimited (pos 2) ∷ quota 1 (pos 10) (pos 2) ∷ []
unfolding Aggregating.steps ◌-ℤ◌ ◌+ℤ◌ filter get_child_quota_name
child_history_end = refl

abbrev partials : List Items
partials = (("ram", pos 4) ∷ []) ∷ (("ram", pos 5) ∷ ("size", unlimited) ∷ []) ∷ []

sum_partials-sum_example :
    sum_partials partials "ram"
    ≡ (if has "ram" (concat partials) then some (sum "ram" (concat partials)) else none)
unfolding is_limited all concat
sum_partials-sum_example = sum_partials-sum "ram" partials refl

-- A count of users for all scopes, and a limit of projects for the scope 1 alone.
abbrev fields : List QuotaField
fields =
    record {
      name = "users";
      default_limit = λ scope. pos 10;
      default_usage = λ scope. pos 0;
      creation_condition = none;
    }
    ∷ record {
      name = "projects";
      default_limit = λ scope. pos 5;
      default_usage = λ scope. pos 0;
      creation_condition = some (λ scope. scope == 1);
    }
    ∷ []

get-init_quotas_example :
    get 2 "projects" (init_quotas (λ name. none) fields true 2 table)
    ≡ or_else (get 2 "projects" table) (default_for (λ name. none) fields 2 "projects")
get-init_quotas_example = get-init_quotas (λ name. none) 2 "projects" true fields table

no_projects : default_for (λ name. none) fields 2 "projects" ≡ none
unfolding default_for or_else is_created_for
no_projects = refl
