-- ===== src/Quotas/Counters/History.antt =====
-- The counter over any creations and deletions of targets.
use mathlib.Core.Path.{subst}
use waldur_core.Prelude.{
  ℕ, ◌≡◌, refl, sym, ◌∙◌, ap, true, false, List, ◌∷◌, ◌++◌, String, arith, ◌==◌, ==_iff, Bool-cases,
  inl, inr, returned,
}
use waldur_core.Prelude.Int.{eqb_ℤ-refl, pos, negsuc, ◌≤ℤ◌}
use waldur_core.Quotas.Table.{Table, get, set_quota_usage, with_quota}
use waldur_core.Quotas.Counters.{
  Target, CounterQuotaField, total, get_delta, is_connected_to_scope, post_save, post_delete,
  recalculate_count_quota, recalculate, recalculate_usage, get_current_usage, TotalQuotaField,
}
use waldur_core.Quotas.Counters.Laws.{
  IsExact, IsExact-created, IsExact-deleted, add_usage-other, total-insert,
}

-- Creations and deletions of targets, in any order, whose handler returned.
pub data Step (field : CounterQuotaField) : List Target → Table → List Target → Table → Type 0 where
  created :
      (t : Target) (before after ts ts' : List Target) (qs qs' : Table)
      → ts ≡ before ++ after
      → ts' ≡ before ++ t ∷ after
      → recalculate_count_quota field (post_save true) t qs ≡ (returned tt, qs')
      → Step field ts qs ts' qs'
  deleted :
      (t : Target) (before after ts ts' : List Target) (qs qs' : Table)
      → ts ≡ before ++ t ∷ after
      → ts' ≡ before ++ after
      → recalculate_count_quota field post_delete t qs ≡ (returned tt, qs')
      → Step field ts qs ts' qs'

pub data Steps (field : CounterQuotaField)
    : List Target → Table → List Target → Table → Type 0 where
  stop : (ts : List Target) (qs : Table) → Steps field ts qs ts qs
  next :
      (ts us vs : List Target) (qs rs ss : Table)
      → Step field ts qs us rs
      → Steps field us rs vs ss
      → Steps field ts qs vs ss

module _ (field : CounterQuotaField) (nonneg : (t : Target) → pos 0 ≤ℤ get_delta field t) where
  -- A target of another scope, in a list with it and in one without it.
  IsExact-other :
      (t : Target) (before after : List Target) (scope : ℕ) (qs qs' : Table)
      → (t.scope == scope) ≡ false
      → get scope field.name qs' ≡ get scope field.name qs
      → (IsExact field scope (before ++ after) qs → IsExact field scope (before ++ t ∷ after) qs')
        × (IsExact field scope (before ++ t ∷ after) qs → IsExact field scope (before ++ after) qs')
  IsExact-other t before after scope qs qs' other kept = (
    λ (q, found, exact). (q, kept ∙ found, exact ∙ sym without),
    λ (q, found, exact). (q, kept ∙ found, exact ∙ without),
  )
    where
      without :
          total (get_delta field) scope (before ++ t ∷ after)
          ≡ total (get_delta field) scope (before ++ after)
      without = rw (total-insert (get_delta field) scope t before after, other) refl

  IsExact-post_save :
      (scope : ℕ) (t : Target) (before after : List Target) (qs rs : Table)
      → is_connected_to_scope field scope ≡ true
      → recalculate_count_quota field (post_save true) t qs ≡ (returned tt, rs)
      → IsExact field scope (before ++ after) qs
      → IsExact field scope (before ++ t ∷ after) rs
  unfolding recalculate_count_quota
  IsExact-post_save scope t before after qs rs connected h x =
      elim (Bool-cases (t.scope == scope)) [
        | inl same ↦
            subst
              (λ s.
                is_connected_to_scope field s ≡ true
                → IsExact field s (before ++ after) qs
                → IsExact field s (before ++ t ∷ after) rs)
              ((==_iff t.scope scope).0 same)
              (λ c y. IsExact-created field nonneg t before after qs rs c h y) connected x
        | inr other ↦
            (IsExact-other t before after scope qs rs other (
                ap (λ r. get scope field.name r.1) (sym h)
                ∙ add_usage-other field nonneg t (pos 1) false scope qs other)).0
              x
      ]

  IsExact-post_delete :
      (scope : ℕ) (t : Target) (before after : List Target) (qs rs : Table)
      → is_connected_to_scope field scope ≡ true
      → recalculate_count_quota field post_delete t qs ≡ (returned tt, rs)
      → IsExact field scope (before ++ t ∷ after) qs
      → IsExact field scope (before ++ after) rs
  unfolding recalculate_count_quota
  IsExact-post_delete scope t before after qs rs connected h x =
      elim (Bool-cases (t.scope == scope)) [
        | inl same ↦
            subst
              (λ s.
                is_connected_to_scope field s ≡ true
                → IsExact field s (before ++ t ∷ after) qs
                → IsExact field s (before ++ after) rs)
              ((==_iff t.scope scope).0 same)
              (λ c y. IsExact-deleted field nonneg t before after qs rs c h y) connected x
        | inr other ↦
            (IsExact-other t before after scope qs rs other (
                ap (λ r. get scope field.name r.1) (sym h)
                ∙ add_usage-other field nonneg t (negsuc 0) true scope qs other)).1
              x
      ]

  IsExact-Step :
      (scope : ℕ) (ts us : List Target) (qs rs : Table)
      → is_connected_to_scope field scope ≡ true
      → Step field ts qs us rs
      → IsExact field scope ts qs
      → IsExact field scope us rs
  IsExact-Step scope ts us qs rs connected (created t before after _ _ _ _ e e' h) x =
      subst (λ vs. IsExact field scope vs rs) (sym e')
        (IsExact-post_save scope t before after qs rs connected h
          (subst (λ vs. IsExact field scope vs qs) e x))
  IsExact-Step scope ts us qs rs connected (deleted t before after _ _ _ _ e e' h) x =
      subst (λ vs. IsExact field scope vs rs) (sym e')
        (IsExact-post_delete scope t before after qs rs connected h
          (subst (λ vs. IsExact field scope vs qs) e x))

  -- If no target counts for less than zero, the usage of a quota that is connected to its scope
  -- stays the total over the targets of the scope, whatever targets of any scopes are created and
  -- deleted with the handler returning.
  pub IsExact-Steps :
      (scope : ℕ) (ts us : List Target) (qs rs : Table)
      → is_connected_to_scope field scope ≡ true
      → Steps field ts qs us rs
      → IsExact field scope ts qs
      → IsExact field scope us rs
  IsExact-Steps scope ts us qs rs connected (stop _ _) x = x
  IsExact-Steps scope ts us qs rs connected (next _ vs _ _ ss _ s rest) x =
      IsExact-Steps scope vs us ss rs connected rest (IsExact-Step scope ts vs qs ss connected s x)

-- A usage that is exact is not written by a recalculation.
recalculate-exact :
    (field : CounterQuotaField) (scope : ℕ) (ts : List Target) (qs : Table)
    → is_connected_to_scope field scope ≡ true
    → get_current_usage field ts scope ≡ total (get_delta field) scope ts
    → IsExact field scope ts qs
    → recalculate field ts scope qs ≡ (returned tt, qs)
unfolding recalculate recalculate_usage set_quota_usage with_quota
recalculate-exact field scope ts qs connected same (q, found, exact) =
    rw (connected, recalculate, found, exact, same, set_quota_usage, with_quota, eqb_ℤ-refl _) refl

-- If the usage of a total size is the sum of the sizes of the targets of a scope, then after any
-- creations and deletions of targets with the handler returning, a recalculation finds the usage
-- that the handler has counted, and writes nothing.
pub recalculate-Steps :
    (name : String) (scope : ℕ) (ts us : List Target) (qs rs : Table)
    → Steps (TotalQuotaField name) ts qs us rs
    → IsExact (TotalQuotaField name) scope ts qs
    → recalculate (TotalQuotaField name) us scope rs ≡ (returned tt, rs)
unfolding TotalQuotaField is_connected_to_scope get_current_usage get_delta
recalculate-Steps name scope ts us qs rs steps x =
    recalculate-exact (TotalQuotaField name) scope us rs refl refl
      (IsExact-Steps (TotalQuotaField name) (λ t. omega arith) scope ts us qs rs refl steps x)
