-- ===== src/Quotas/Counters/Laws.antt =====
-- The usage that the handler counts against the usage that is counted anew.
use waldur_core.Prelude.{
  ℕ, ◌≡◌, refl, sym, ◌∙◌, Bool, true, false, some, List, [], ◌∷◌, ◌++◌, arith, if◌then◌else◌, ◌==◌,
  ==_refl, Bool-cases, inl, inr, returned,
}
use waldur_core.Prelude.Int.{
  ℤ, pos, negsuc, ◌+ℤ◌, ◌*ℤ◌, ◌≤ℤ◌, +ℤ_parts, +ℤ_comm, +ℤ_swap, eq_of_parts,
}
use waldur_core.Quotas.Table.{Quota, Table, get, added, add_quota_usage}
use waldur_core.Quotas.Table.Laws.{add_quota_usage-other, add_quota_usage-usage}
use waldur_core.Quotas.Counters.{
  Target, CounterQuotaField, total, get_delta, is_connected_to_scope, add_usage, post_save,
  post_delete, recalculate_count_quota,
}

module _ (f : Target → ℤ) (scope : ℕ) where
  pub total-insert :
      (t : Target) (before after : List Target)
      → total f scope (before ++ t ∷ after) ≡ (
          if t.scope == scope
          then f t +ℤ total f scope (before ++ after)
          else total f scope (before ++ after))
  unfolding total
  total-insert t [] after = refl
  total-insert t (b ∷ before) after =
      ground
        (arith, total-insert t before after, +ℤ_swap (f b) (f t) (total f scope (before ++ after)))

  pub total-nonneg : ((t : Target) → pos 0 ≤ℤ f t) → (ts : List Target) → pos 0 ≤ℤ total f scope ts
  unfolding total
  total-nonneg h [] = omega arith
  total-nonneg h (t ∷ ts) =
      ground (arith, h t, total-nonneg h ts, +ℤ_parts (f t) (total f scope ts))

pos_one_times : (d : ℤ) → pos 1 *ℤ d ≡ d
unfolding ◌*ℤ◌
pos_one_times d = ground arith

-- A deletion takes back what a creation added.
minus_one_times : (d r : ℤ) → (d +ℤ r) +ℤ (negsuc 0 *ℤ d) ≡ r
unfolding ◌*ℤ◌
minus_one_times d r =
    eq_of_parts _ _ (ground (arith, +ℤ_parts (d +ℤ r) (negsuc 0 *ℤ d), +ℤ_parts d r))

added-nonneg : (usage delta : ℤ) → pos 0 ≤ℤ usage +ℤ delta → added usage delta ≡ usage +ℤ delta
unfolding added
added-nonneg usage delta h = ground arith

added-created : (usage d : ℤ) → pos 0 ≤ℤ usage → pos 0 ≤ℤ d → added usage (pos 1 *ℤ d) ≡ d +ℤ usage
added-created usage d h k =
    rw (pos_one_times d, +ℤ_comm d usage)
      (added-nonneg usage d (ground (arith, h, k, +ℤ_parts usage d)))

added-deleted : (rest d : ℤ) → pos 0 ≤ℤ rest → added (d +ℤ rest) (negsuc 0 *ℤ d) ≡ rest
added-deleted rest d h = added-nonneg _ _ (rw (minus_one_times d rest) h) ∙ minus_one_times d rest

-- The quota of the scope is there, and its usage is the total over the targets.
abbrev pub IsExact : CounterQuotaField → ℕ → List Target → Table → Type 0
IsExact field scope targets qs =
    (q : Quota) × (get scope field.name qs ≡ some q)
    × (q.usage ≡ total (get_delta field) scope targets)

module _ (field : CounterQuotaField) (nonneg : (t : Target) → pos 0 ≤ℤ get_delta field t) where
  add_usage-connected :
      (t : Target) (delta : ℤ) (silently : Bool) (qs : Table)
      → is_connected_to_scope field t.scope ≡ true
      → add_usage field t delta silently qs
        ≡ add_quota_usage silently true t.scope field.name (delta *ℤ get_delta field t) qs
  unfolding add_usage
  add_usage-connected t delta silently qs connected = rw (connected, add_usage) refl

  add_usage-detached :
      (t : Target) (delta : ℤ) (silently : Bool) (qs : Table)
      → is_connected_to_scope field t.scope ≡ false
      → add_usage field t delta silently qs ≡ (returned tt, qs)
  unfolding add_usage
  add_usage-detached t delta silently qs detached = rw (detached, add_usage) refl

  -- The handler on a target of another scope.
  pub add_usage-other :
      (t : Target) (delta : ℤ) (silently : Bool) (scope : ℕ) (qs : Table)
      → (t.scope == scope) ≡ false
      → get scope field.name (add_usage field t delta silently qs).1 ≡ get scope field.name qs
  add_usage-other t delta silently scope qs other =
      elim (Bool-cases (is_connected_to_scope field t.scope)) [
        | inl connected ↦ rw (add_usage-connected t delta silently qs connected) (
            add_quota_usage-other silently true t.scope field.name _ qs scope field.name
              (ground (arith, other)))
        | inr detached ↦ rw (add_usage-detached t delta silently qs detached) refl
      ]

  -- The handler on a target of the scope.
  add_usage-usage :
      (t : Target) (delta : ℤ) (silently : Bool) (qs qs' : Table) (q : Quota)
      → is_connected_to_scope field t.scope ≡ true
      → get t.scope field.name qs ≡ some q
      → add_usage field t delta silently qs ≡ (returned tt, qs')
      → get t.scope field.name qs'
        ≡ some (record q { usage = added q.usage (delta *ℤ get_delta field t) })
  add_usage-usage t delta silently qs qs' q connected found e =
      add_quota_usage-usage silently true t.scope field.name _ qs qs' q found
        (sym (add_usage-connected t delta silently qs connected) ∙ e)

  -- A created target of the scope.
  pub IsExact-created :
      (t : Target) (before after : List Target) (qs qs' : Table)
      → is_connected_to_scope field t.scope ≡ true
      → recalculate_count_quota field (post_save true) t qs ≡ (returned tt, qs')
      → IsExact field t.scope (before ++ after) qs
      → IsExact field t.scope (before ++ t ∷ after) qs'
  unfolding recalculate_count_quota
  IsExact-created t before after qs qs' connected e (q, found, exact) =
      (_, add_usage-usage t (pos 1) false qs qs' q connected found e, counted)
    where
      counted :
          added q.usage (pos 1 *ℤ get_delta field t)
          ≡ total (get_delta field) t.scope (before ++ t ∷ after)
      counted =
          rw (exact, total-insert (get_delta field) t.scope t before after, ==_refl t.scope)
            (added-created _ _ (total-nonneg (get_delta field) t.scope nonneg _) (nonneg t))

  pub IsExact-deleted :
      (t : Target) (before after : List Target) (qs qs' : Table)
      → is_connected_to_scope field t.scope ≡ true
      → recalculate_count_quota field post_delete t qs ≡ (returned tt, qs')
      → IsExact field t.scope (before ++ t ∷ after) qs
      → IsExact field t.scope (before ++ after) qs'
  unfolding recalculate_count_quota
  IsExact-deleted t before after qs qs' connected e (q, found, exact) =
      (_, add_usage-usage t (negsuc 0) true qs qs' q connected found e, counted)
    where
      counted :
          added q.usage (negsuc 0 *ℤ get_delta field t)
          ≡ total (get_delta field) t.scope (before ++ after)
      counted =
          rw (exact, total-insert (get_delta field) t.scope t before after, ==_refl t.scope)
            (added-deleted _ _ (total-nonneg (get_delta field) t.scope nonneg _))
