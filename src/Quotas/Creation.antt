-- ===== src/Quotas/Creation.antt =====
-- `get_or_create_quota` of `QuotaField` in waldur_core/quotas/fields.py, `init_quotas` of
-- quotas/handlers.py, and `get_sum_of_quotas_as_dict` of `QuotaModelMixin` in quotas/models.py. Of the
-- dictionary of sums, the keys of usages and those of limits are kept apart.
pub mod Laws
use text.Mathlib.Text.{◌==◌ as str_eq}
use waldur_core.Prelude.{
  ℕ, Bool, true, false, not, ◌&&◌, Option, none, some, List, [], ◌∷◌, ◌++◌, String, any, filter,
  mem, if◌then◌else◌, ◌==◌,
}
use waldur_core.Prelude.Int.{ℤ, pos, ◌+ℤ◌, eqb_ℤ}
use waldur_core.Quotas.Table.{Quota, Table, get, is_at, unlimited}

-- A field of a model, with what its defaults give for a scope.
pub record QuotaField : Type 0 where
  pub name : String
  pub default_limit : ℕ → ℤ
  pub default_usage : ℕ → ℤ
  pub creation_condition : Option (ℕ → Bool)

unfoldable pub is_created_for : QuotaField → ℕ → Bool
is_created_for field scope = elim field.creation_condition [
  | none ↦ true
  | some condition ↦ condition scope
]

-- `scope_default_limit`: a limit that was set on the object comes first.
unfoldable pub scope_default_limit : (String → Option ℤ) → QuotaField → ℕ → ℤ
scope_default_limit set_limits field scope = elim (set_limits field.name) [
  | none ↦ field.default_limit scope
  | some limit ↦ limit
]

unfoldable pub default_quota : (String → Option ℤ) → QuotaField → ℕ → Quota
unfolding scope_default_limit
default_quota set_limits field scope = record {
  scope = scope;
  name = field.name;
  limit = scope_default_limit set_limits field scope;
  usage = field.default_usage scope;
  threshold = pos 0;
}

unfoldable pub insert_missing : Option Quota → Quota → Table → Table
insert_missing none q table = table ++ q ∷ []
insert_missing (some found) q table = table

-- `get_or_create_quota`; no table is a `CreationConditionFailedQuotaError`.
unfoldable pub get_or_create_quota : (String → Option ℤ) → QuotaField → ℕ → Table → Option Table
unfolding is_created_for default_quota insert_missing
get_or_create_quota set_limits field scope table =
    if not (is_created_for field scope)
    then none
    else some
        (insert_missing (get scope field.name table) (default_quota set_limits field scope) table)

-- `except CreationConditionFailedQuotaError: pass`
unfoldable pub or_same : Table → Option Table → Table
or_same table none = table
or_same table (some changed) = changed

-- The loop of `init_quotas`.
unfoldable pub init_fields : (String → Option ℤ) → List QuotaField → ℕ → Table → Table
unfolding get_or_create_quota or_same
init_fields set_limits [] scope table = table
init_fields set_limits (field ∷ fields) scope table =
    init_fields set_limits fields scope
      (or_same table (get_or_create_quota set_limits field scope table))

-- `init_quotas`, after a save that created the object or did not.
unfoldable pub init_quotas : (String → Option ℤ) → List QuotaField → Bool → ℕ → Table → Table
unfolding init_fields
init_quotas set_limits fields created scope table =
    if not created then table else init_fields set_limits fields scope table

pub record Sums : Type 0 where
  pub usages : String → Option ℤ
  pub limits : String → Option ℤ

unfoldable pub plus : ℤ → Option ℤ → Option ℤ
plus a none = some a
plus a (some b) = some (a +ℤ b)

-- `values('name').annotate(Sum(...))` at a name.
unfoldable pub sum_at : (Quota → ℤ) → String → Table → Option ℤ
unfolding plus
sum_at value name [] = none
sum_at value name (q ∷ qs) =
    let rest = sum_at value name qs in if str_eq q.name name then plus (value q) rest else rest

-- `filter_kwargs`
unfoldable pub is_queried : List ℕ → List String → Quota → Bool
is_queried scopes names q = mem q.scope scopes && any (str_eq q.name) names

unfoldable pub limit_at : String → Table → Option ℤ
unfolding sum_at
limit_at name quotas =
    if any (λ q. str_eq q.name name && eqb_ℤ q.limit unlimited) quotas
    then some unlimited
    else sum_at (λ q. q.limit) name quotas

-- `get_sum_of_quotas_as_dict`, for scopes of one model.
unfoldable pub get_sum_of_quotas_as_dict : List ℕ → List String → Table → Sums
unfolding sum_at is_queried limit_at
get_sum_of_quotas_as_dict [] names table = record { usages = λ k. none; limits = λ k. none }
get_sum_of_quotas_as_dict (scope ∷ scopes) names table =
    let quotas = filter (is_queried (scope ∷ scopes) names) table in
    record {
      usages = λ name. sum_at (λ q. q.usage) name quotas;
      limits = λ name. limit_at name quotas;
    }
