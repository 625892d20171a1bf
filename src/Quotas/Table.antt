-- ===== src/Quotas/Table.antt =====
-- `Quota` and `QuotaModelMixin` of waldur_core/quotas/models.py. Limits and usages, which are floats
-- in the source, are integers here: counts, sizes and other whole values. A scope is the number of
-- its object; the table holds one row for each scope and name.
pub mod Laws
pub mod Bounds
pub mod Validation
use text.Mathlib.Text.{◌==◌ as str_eq}
use waldur_core.Prelude.{
  ℕ, Bool, true, false, not, ◌&&◌, Option, none, some, List, [], ◌∷◌, String, Method, Outcome,
  returned, raised, pure, raise, raise_if, modify, ◌>>=◌, ◌>>◌, if◌then◌else◌, ◌==◌,
}
use waldur_core.Prelude.Int.{ℤ, pos, negsuc, ◌+ℤ◌, ◌*ℤ◌, ltb_ℤ, leb_ℤ, eqb_ℤ}

pub record Quota : Type 0 where
  pub scope : ℕ
  pub name : String
  pub limit : ℤ
  pub usage : ℤ
  pub threshold : ℤ

abbrev pub Table : Type 0
Table = List Quota

pub data Error : Type 0 where
  does_not_exist quota_validation : Error
  quota_exceeded : List String → Error

abbrev pub Call : Type 0 → Type 0
Call A = Method Table Error A

-- A limit of -1 is never exceeded.
abbrev pub unlimited : ℤ
unlimited = negsuc 0

-- `delta < 0`; in Python 2 `None` is smaller than every number.
unfoldable pub is_negative : Option ℤ → Bool
is_negative none = true
is_negative (some delta) = ltb_ℤ delta (pos 0)

abbrev plus_given : ℤ → Option ℤ → ℤ
plus_given usage none = usage
plus_given usage (some delta) = usage +ℤ delta

abbrev times_given : Option ℤ → ℤ → ℤ
times_given none limit = limit
times_given (some threshold) limit = threshold *ℤ limit

-- `Quota.is_exceeded`
unfoldable pub is_exceeded : Option ℤ → Option ℤ → Quota → Bool
unfolding is_negative
is_exceeded delta threshold q =
    if eqb_ℤ q.limit unlimited
    then false
    else if is_negative delta
    then false
    else ltb_ℤ (times_given threshold q.limit) (plus_given q.usage delta)

-- `Quota.is_over_threshold`
unfoldable pub is_over_threshold : Quota → Bool
is_over_threshold q = leb_ℤ q.threshold q.usage

unfoldable pub is_at : ℕ → String → Quota → Bool
is_at scope name q = q.scope == scope && str_eq q.name name

-- `self.quotas.get(name=quota_name)`
unfoldable pub get : ℕ → String → Table → Option Quota
unfolding is_at
get scope name [] = none
get scope name (q ∷ qs) = if is_at scope name q then some q else get scope name qs

-- `quota.save(update_fields=[...])`
unfoldable pub write : ℕ → String → (Quota → Quota) → Table → Table
unfolding is_at
write scope name f [] = []
write scope name f (q ∷ qs) = if is_at scope name q then f q ∷ qs else q ∷ write scope name f qs

-- `_fail_silently` around a method: a missing quota is an error, unless the caller silences it.
unfoldable pub with_quota : Bool → ℕ → String → (Quota → Call (Unit {0})) → Call (Unit {0})
unfolding get
with_quota fail_silently scope name method qs = elim (get scope name qs) [
  | none ↦ raise_if (not fail_silently) does_not_exist qs
  | some q ↦ method q qs
]

-- `set_quota_limit`
unfoldable pub set_quota_limit : Bool → ℕ → String → ℤ → Call (Unit {0})
unfolding with_quota write
set_quota_limit fail_silently scope name limit = with_quota fail_silently scope name λ q.
    if eqb_ℤ q.limit limit
    then pure tt
    else modify (write scope name (λ r. record r { limit = limit }))

-- `set_quota_usage`
unfoldable pub set_quota_usage : Bool → ℕ → String → ℤ → Call (Unit {0})
unfolding with_quota write
set_quota_usage fail_silently scope name usage = with_quota fail_silently scope name λ q.
    if eqb_ℤ q.usage usage
    then pure tt
    else modify (write scope name (λ r. record r { usage = usage }))

-- `quota.usage += usage_delta`, and the correction of a negative usage.
unfoldable pub added : ℤ → ℤ → ℤ
added usage delta = if ltb_ℤ (usage +ℤ delta) (pos 0) then pos 0 else usage +ℤ delta

-- `add_quota_usage`
unfoldable pub add_quota_usage : Bool → Bool → ℕ → String → ℤ → Call (Unit {0})
unfolding with_quota write is_exceeded added
add_quota_usage fail_silently validate scope name delta = with_quota fail_silently scope name λ q.
    raise_if (validate && is_exceeded (some delta) none q) quota_validation
    >> modify (write scope name (λ r. record r { usage = added q.usage delta }))

-- The loop of `validate_quota_change`: the names of the quotas that would be exceeded.
unfoldable pub exceeded_names : ℕ → List (String × ℤ) → Call (List String)
unfolding get is_exceeded
exceeded_names scope [] qs = pure [] qs
exceeded_names scope ((name, delta) ∷ deltas) qs = elim (get scope name qs) [
  | none ↦ raise does_not_exist qs
  | some q ↦
      (do
        rest ← exceeded_names scope deltas
        pure (if is_exceeded (some delta) none q then name ∷ rest else rest))
        qs
]

-- `if raise_exception: ... raise QuotaExceededException` of `validate_quota_change`.
unfoldable pub raise_errors : Bool → List String → Call (List String)
raise_errors true (e ∷ es) = raise (quota_exceeded (e ∷ es))
raise_errors true [] = pure []
raise_errors false errors = pure errors

-- `validate_quota_change`
unfoldable pub validate_quota_change : ℕ → List (String × ℤ) → Bool → Call (List String)
unfolding exceeded_names raise_errors
validate_quota_change scope deltas raise_exception =
    exceeded_names scope deltas >>= raise_errors raise_exception
