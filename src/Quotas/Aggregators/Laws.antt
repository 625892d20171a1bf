-- ===== src/Quotas/Aggregators/Laws.antt =====
-- The usage that the hooks of an aggregator quota keep against the usage that is summed anew.
use waldur_core.Prelude.{
  ℕ, ◌≡◌, refl, ◌∙◌, sym, ap, true, false, Option, none, some, List, [], ◌∷◌, String, arith,
  Bool-cases, Option-cases, inl, inr, count, ◌==◌, ==_iff,
}
use waldur_core.Prelude.Int.{ℤ, pos, ◌+ℤ◌, ◌-ℤ◌, eqb_ℤ, +ℤ_parts, -ℤ_parts, eq_of_parts}
use waldur_core.Quotas.Table.{Quota, Table, get}
use waldur_core.Quotas.Table.Laws.{get-write, get-write_other, usage_kept}
use waldur_core.Quotas.Aggregators.{AggregatorQuotaField, get_child_quota_name, add_diff}

unfoldable pub sum_of : (ℕ → ℤ) → List ℕ → ℤ
sum_of v [] = pos 0
sum_of v (n ∷ ns) = v n +ℤ sum_of v ns

swap_last : (v d s : ℤ) → (v +ℤ d) +ℤ s ≡ (v +ℤ s) +ℤ d
swap_last v d s =
    eq_of_parts _ _
      (omega (arith, +ℤ_parts (v +ℤ d) s, +ℤ_parts v d, +ℤ_parts (v +ℤ s) d, +ℤ_parts v s))

assoc_last : (v s d : ℤ) → v +ℤ (s +ℤ d) ≡ (v +ℤ s) +ℤ d
assoc_last v s d =
    eq_of_parts _ _
      (omega (arith, +ℤ_parts v (s +ℤ d), +ℤ_parts s d, +ℤ_parts (v +ℤ s) d, +ℤ_parts v s))

pub plus_diff : (p c : ℤ) → c ≡ p +ℤ (c -ℤ p)
plus_diff p c = eq_of_parts _ _ (omega (arith, +ℤ_parts p (c -ℤ p), -ℤ_parts c p))

pub plus_minus : (c : ℤ) → pos 0 ≡ c +ℤ (pos 0 -ℤ c)
plus_minus c = eq_of_parts _ _ (omega (arith, +ℤ_parts c (pos 0 -ℤ c), -ℤ_parts (pos 0) c))

plus_zero : (a d : ℤ) → eqb_ℤ d (pos 0) ≡ true → a ≡ a +ℤ d
plus_zero a d h = eq_of_parts _ _ (ground (arith, +ℤ_parts a d))

-- A change of one value.
module _ (child : ℕ) (v v' : ℕ → ℤ) (same : (n : ℕ) → (n == child) ≡ false → v' n ≡ v n) where
  pub sum_of-same : (ns : List ℕ) → count (λ n. n == child) ns ≡ 0 → sum_of v' ns ≡ sum_of v ns
  unfolding sum_of count
  sum_of-same [] c = refl
  sum_of-same (n ∷ ns) c = elim (Bool-cases (n == child)) [
    | inl own ↦ ground (arith, c, own)
    | inr other ↦ rw (same n other, sum_of-same ns (ground (arith, c, other))) refl
  ]

  pub sum_of-changed :
      (d : ℤ)
      → v' child ≡ v child +ℤ d
      → (ns : List ℕ) → count (λ n. n == child) ns ≡ 1
      → sum_of v' ns ≡ sum_of v ns +ℤ d
  unfolding sum_of count
  sum_of-changed d e [] c = ground (arith, c)
  sum_of-changed d e (n ∷ ns) c = elim (Bool-cases (n == child)) [
    | inl own ↦
        let k = (==_iff n child).0 own in
        rw (ap v' k ∙ e ∙ ap (λ x. x +ℤ d) (ap v (sym k)), sum_of-same ns (ground (arith, c, own)))
          (swap_last (v n) d (sum_of v ns))
    | inr other ↦
        rw (same n other, sum_of-changed d e ns (ground (arith, c, other)))
          (assoc_last (v n) (sum_of v ns) d)
  ]

-- What the quota of a child gives to the sum, if it has one.
unfoldable pub given : (Quota → ℤ) → Option Quota → ℤ
given f none = pos 0
given f (some q) = f q

unfoldable pub value_at : AggregatorQuotaField → Table → ℕ → ℤ
unfolding given get_child_quota_name
value_at field qs child = given field.aggregation_field (get child (get_child_quota_name field) qs)

-- The aggregator quota is there, and its usage is a given number.
abbrev pub HasUsage : AggregatorQuotaField → ℕ → ℤ → Table → Type 0
HasUsage field scope usage qs = (q : Quota) × (get scope field.name qs ≡ some q) × (q.usage ≡ usage)

-- The usage of the aggregator quota is the sum over the quotas that the children have.
abbrev pub IsAggregated : AggregatorQuotaField → ℕ → List ℕ → Table → Type 0
IsAggregated field scope children qs = HasUsage field scope (sum_of (value_at field qs) children) qs

module _ (field : AggregatorQuotaField) (scope : ℕ) (diff : ℤ) (qs : Table) where
  pub HasUsage-add_diff :
      (usage : ℤ)
      → HasUsage field scope usage qs
      → HasUsage field scope (usage +ℤ diff) (add_diff field scope diff qs).1
  unfolding add_diff
  HasUsage-add_diff usage (q, found, same) = elim (Bool-cases (eqb_ℤ diff (pos 0))) [
    | inl zero_diff ↦
        rw (found, add_diff, zero_diff) (q, found, same ∙ plus_zero usage diff zero_diff)
    | inr other ↦
        rw (found, add_diff, other)
          (
            _,
            get-write scope field.name (λ r. record r { usage = q.usage +ℤ diff })
                (usage_kept (q.usage +ℤ diff)) qs q found,
            ap (λ u. u +ℤ diff) same,
          )
  ]

  -- The hooks write no row but that of the aggregator quota.
  pub get-add_diff :
      (s : ℕ) (n : String)
      → (s == scope) ≡ false
      → get s n (add_diff field scope diff qs).1 ≡ get s n qs
  unfolding add_diff
  get-add_diff s n other = elim (Option-cases (get scope field.name qs)) [
    | inl missing ↦ rw (missing, add_diff) refl
    | inr (q, found) ↦ elim (Bool-cases (eqb_ℤ diff (pos 0))) [
      | inl zero_diff ↦ rw (found, add_diff, zero_diff) refl
      | inr changed ↦
          rw (found, add_diff, changed)
            (get-write_other scope field.name (λ r. record r { usage = q.usage +ℤ diff })
              (usage_kept (q.usage +ℤ diff)) s n (rw (other) refl) qs)
    ]
  ]

  pub sum_of-add_diff :
      (children : List ℕ)
      → count (λ n. n == scope) children ≡ 0
      → sum_of (value_at field (add_diff field scope diff qs).1) children
        ≡ sum_of (value_at field qs) children
  unfolding value_at
  sum_of-add_diff children c =
      sum_of-same scope (value_at field qs) (value_at field (add_diff field scope diff qs).1)
        (λ n other.
          ap (given field.aggregation_field) (get-add_diff n (get_child_quota_name field) other))
        children c
