-- ===== src/Quotas/Creation/Laws.antt =====
-- The quotas of a new object.
use text.Mathlib.Text.{◌==◌ as str_eq}
use waldur_core.Prelude.{
  ℕ, Bool, true, false, ◌≡◌, refl, ◌∙◌, sym, ap, ◌&&◌, Option, none, some, List, [], ◌∷◌, ◌++◌,
  String, arith, if◌then◌else◌, eq_iff, ==_refl, Bool-cases, inl, inr,
}
use waldur_core.Prelude.Int.{ℤ}
use waldur_core.Quotas.Table.{Quota, Table, get, is_at}
use waldur_core.Quotas.Creation.{
  QuotaField, is_created_for, default_quota, insert_missing, get_or_create_quota, or_same,
  init_fields, init_quotas,
}

unfoldable pub or_else : Option Quota → Option Quota → Option Quota
or_else none b = b
or_else (some a) b = some a

or_else_assoc : (a b c : Option Quota) → or_else (or_else a b) c ≡ or_else a (or_else b c)
unfolding or_else
or_else_assoc none b c = refl
or_else_assoc (some a) b c = refl

or_else-none : (o : Option Quota) → or_else o none ≡ o
unfolding or_else
or_else-none none = refl
or_else-none (some q) = refl

-- The default quota of the first field that has a name and is created for a scope.
unfoldable pub default_for : (String → Option ℤ) → List QuotaField → ℕ → String → Option Quota
unfolding or_else
default_for set_limits [] scope name = none
default_for set_limits (field ∷ fields) scope name =
    or_else
      (if is_created_for field scope && str_eq field.name name
        then some (default_quota set_limits field scope)
        else none)
      (default_for set_limits fields scope name)

get-snoc :
    (scope : ℕ) (name : String) (table : Table) (q : Quota)
    → get scope name (table ++ q ∷ [])
      ≡ or_else (get scope name table) (if is_at scope name q then some q else none)
unfolding get or_else
get-snoc scope name [] q = refl
get-snoc scope name (x ∷ table) q = ground (arith, get-snoc scope name table q)

module _ (set_limits : String → Option ℤ) (scope : ℕ) (name : String) where
  own_default :
      (field : QuotaField)
      → is_at scope name (default_quota set_limits field scope) ≡ str_eq field.name name
  unfolding is_at default_quota
  own_default field = ground (arith, ==_refl scope)

  get-insert_missing :
      (field : QuotaField) (o : Option Quota) (table : Table)
      → get scope field.name table ≡ o
      → get scope name (insert_missing o (default_quota set_limits field scope) table)
        ≡ or_else
            (get scope name table)
            (if str_eq field.name name then some (default_quota set_limits field scope) else none)
  unfolding insert_missing or_else
  get-insert_missing field none table e =
      get-snoc scope name table (default_quota set_limits field scope)
      ∙ ap
          (λ b.
            or_else (get scope name table)
              (if b then some (default_quota set_limits field scope) else none))
          (own_default field)
  get-insert_missing field (some q) table e = elim (Bool-cases (str_eq field.name name)) [
    | inl same ↦
        rw (same, sym (ap (λ n. get scope n table) ((eq_iff field.name name).0 same)) ∙ e) refl
    | inr other ↦ rw (other) (sym (or_else-none (get scope name table)))
  ]

  get-init_fields :
      (fields : List QuotaField) (table : Table)
      → get scope name (init_fields set_limits fields scope table)
        ≡ or_else (get scope name table) (default_for set_limits fields scope name)
  unfolding init_fields default_for get_or_create_quota or_same or_else
  get-init_fields [] table = sym (or_else-none (get scope name table))
  get-init_fields (field ∷ fields) table = elim (Bool-cases (is_created_for field scope)) [
    | inl created ↦ rw (created) (
        get-init_fields fields
          (insert_missing (get scope field.name table) (default_quota set_limits field scope) table)
        ∙ ap (λ o. or_else o (default_for set_limits fields scope name))
            (get-insert_missing field (get scope field.name table) table refl)
        ∙ or_else_assoc (get scope name table) _ (default_for set_limits fields scope name))
    | inr not_created ↦ rw (not_created) (get-init_fields fields table)
  ]

  -- For each name the quota of an object after init_quotas is the one that was there; if there was
  -- none, it is the default quota of the first field with the name whose creation condition holds,
  -- if the save has created the object and there is such a field, and none otherwise.
  pub get-init_quotas :
      (created : Bool) (fields : List QuotaField) (table : Table)
      → get scope name (init_quotas set_limits fields created scope table)
        ≡ or_else
            (get scope name table)
            (if created then default_for set_limits fields scope name else none)
  unfolding init_quotas
  get-init_quotas true fields table = get-init_fields fields table
  get-init_quotas false fields table = sym (or_else-none (get scope name table))
