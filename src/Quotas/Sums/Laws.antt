-- ===== src/Quotas/Sums/Laws.antt =====
-- What the totals over querysets are, key by key.
use text.Mathlib.Text.{◌==◌ as str_eq}
use mathlib.Core.Path.{subst}
use waldur_core.Prelude.{
  ◌≡◌, refl, sym, ◌∙◌, ap, Bool, true, false, not, ◌&&◌, Option, none, some, [], ◌∷◌, String, arith,
  if◌then◌else◌, Bool-cases, inl, inr, all, any, eq_refl, eq_iff,
}
use waldur_core.Prelude.Int.{+ℤ_assoc, +ℤ_zero, ℤ, pos, ◌+ℤ◌, eqb_ℤ}
use waldur_core.Quotas.Table.{unlimited}
use waldur_core.Quotas.Sums.{
  Items, Total, or_zero, assign, add_limited, mark_unlimited, add_unlimited, sum_dicts,
}

module _ (k : String) where
  unfoldable pub has : Items → Bool
  has items = any (λ i. str_eq k i.0) items

  -- The sum of the values of the key.
  unfoldable pub sum : Items → ℤ
  sum [] = pos 0
  sum ((key, v) ∷ items) = if str_eq k key then v +ℤ sum items else sum items

  -- No item of the key is unlimited.
  unfoldable pub is_limited : Items → Bool
  is_limited items = all (λ i. not (str_eq k i.0 && eqb_ℤ i.1 unlimited)) items

  abbrev pub plus_items : Option ℤ → Items → Option ℤ
  plus_items acc items = if has items then some (or_zero acc +ℤ sum items) else acc

  assign-at :
      (key : String) (v : ℤ) (total : Total)
      → assign key v total k ≡ (if str_eq k key then some v else total k)
  unfolding assign
  assign-at key v total = refl

  pub sum-none : (items : Items) → has items ≡ false → sum items ≡ pos 0
  unfolding has sum any
  sum-none [] h = refl
  sum-none ((key, v) ∷ items) h = ground (arith, sum-none items)

  plus_items-some :
      (a v : ℤ) (items : Items) → plus_items (some (a +ℤ v)) items ≡ some (a +ℤ (v +ℤ sum items))
  plus_items-some a v items = elim (Bool-cases (has items)) [
    | inl found ↦ rw (found, +ℤ_assoc a v (sum items)) refl
    | inr absent ↦ rw (absent, sum-none items absent, +ℤ_zero v) refl
  ]

  plus_items-same :
      (acc : Option ℤ) (key : String) (v : ℤ) (items : Items)
      → str_eq k key ≡ true
      → plus_items acc ((key, v) ∷ items) ≡ some (or_zero acc +ℤ (v +ℤ sum items))
  unfolding has sum any
  plus_items-same acc key v items same = rw (same) refl

  plus_items-other :
      (acc : Option ℤ) (key : String) (v : ℤ) (items : Items)
      → str_eq k key ≡ false
      → plus_items acc ((key, v) ∷ items) ≡ plus_items acc items
  unfolding has sum any
  plus_items-other acc key v items other = rw (other) refl

  has_rest :
      (key : String) (v : ℤ) (items : Items)
      → has ((key, v) ∷ items) ≡ false
      → (str_eq k key ≡ false) × (has items ≡ false)
  unfolding has any
  has_rest key v items h = (ground arith, ground arith)

  limited_rest :
      (key : String) (v : ℤ) (items : Items)
      → is_limited ((key, v) ∷ items) ≡ true
      → is_limited items ≡ true
  unfolding is_limited all
  limited_rest key v items h = ground arith

  limited_value :
      (key : String) (v : ℤ) (items : Items)
      → is_limited ((key, v) ∷ items) ≡ true
      → str_eq k key ≡ true
      → eqb_ℤ v unlimited ≡ false
  unfolding is_limited all
  limited_value key v items h same = ground arith

  -- One step of the first loop.
  unfoldable step_total : String → ℤ → Total → Total
  step_total key v total =
      if eqb_ℤ v unlimited then total else assign key (or_zero (total key) +ℤ v) total

  step_total-same :
      (key : String) (v : ℤ) (total : Total)
      → str_eq k key ≡ true
      → eqb_ℤ v unlimited ≡ false
      → step_total key v total k ≡ some (or_zero (total k) +ℤ v)
  unfolding step_total assign
  step_total-same key v total same limited =
      subst (λ j. step_total j v total k ≡ some (or_zero (total k) +ℤ v)) ((eq_iff k key).0 same)
        (rw (limited, step_total, eq_refl k) refl)

  step_total-other :
      (key : String) (v : ℤ) (total : Total)
      → str_eq k key ≡ false
      → step_total key v total k ≡ total k
  unfolding step_total assign
  step_total-other key v total other = elim (Bool-cases (eqb_ℤ v unlimited)) [
    | inl unlimited_value ↦ rw (unlimited_value, step_total) refl
    | inr limited ↦ rw (limited, step_total, other) refl
  ]

  add_limited-at :
      (items : Items) (total : Total)
      → is_limited items ≡ true
      → add_limited items total k ≡ plus_items (total k) items
  unfolding add_limited has any step_total
  add_limited-at [] total h = refl
  add_limited-at ((key, v) ∷ items) total h = elim (Bool-cases (str_eq k key)) [
    | inl same ↦
        add_limited-at items (step_total key v total) (limited_rest key v items h)
        ∙ ap (λ o. plus_items o items)
            (step_total-same key v total same (limited_value key v items h same))
        ∙ plus_items-some (or_zero (total k)) v items
        ∙ sym (plus_items-same (total k) key v items same)
    | inr other ↦
        add_limited-at items (step_total key v total) (limited_rest key v items h)
        ∙ ap (λ o. plus_items o items) (step_total-other key v total other)
        ∙ sym (plus_items-other (total k) key v items other)
  ]

  -- The value of the key after one step of the second loop.
  abbrev marked : Option ℤ → Bool → Option ℤ
  marked (some w) b = some w
  marked none b = if b then some unlimited else none

  mark_unlimited_self :
      (o : Option ℤ) (total : Total) → total k ≡ o → mark_unlimited o k total k ≡ marked o true
  unfolding mark_unlimited assign
  mark_unlimited_self none total e = rw (eq_refl k) refl
  mark_unlimited_self (some w) total e = e

  mark_unlimited-other :
      (o : Option ℤ) (key : String) (total : Total)
      → str_eq k key ≡ false
      → mark_unlimited o key total k ≡ total k
  unfolding mark_unlimited assign
  mark_unlimited-other none key total other = rw (other) refl
  mark_unlimited-other (some w) key total other = refl

  mark_unlimited-some :
      (key : String) (total : Total) (w : ℤ)
      → total k ≡ some w
      → mark_unlimited (total key) key total k ≡ some w
  mark_unlimited-some key total w e = elim (Bool-cases (str_eq k key)) [
    | inl same ↦
        subst (λ j. mark_unlimited (total j) j total k ≡ some w) ((eq_iff k key).0 same)
          (rw (e) (mark_unlimited_self (some w) total e))
    | inr other ↦ mark_unlimited-other (total key) key total other ∙ e
  ]

  -- A key that the total has keeps its value in the second loop.
  add_unlimited-some :
      (items : Items) (total : Total) (w : ℤ)
      → total k ≡ some w
      → add_unlimited items total k ≡ some w
  unfolding add_unlimited
  add_unlimited-some [] total w e = e
  add_unlimited-some ((key, v) ∷ items) total w e =
      add_unlimited-some items _ w (mark_unlimited-some key total w e)

  -- A key that the items do not have is left alone.
  add_unlimited-absent :
      (items : Items) (total : Total) → has items ≡ false → add_unlimited items total k ≡ total k
  unfolding add_unlimited
  add_unlimited-absent [] total h = refl
  add_unlimited-absent ((key, v) ∷ items) total h =
      add_unlimited-absent items _ (has_rest key v items h).1
      ∙ mark_unlimited-other (total key) key total (has_rest key v items h).0

  pub sum_dicts-at :
      (total : Total) (partial : Items)
      → is_limited partial ≡ true
      → sum_dicts total partial k ≡ plus_items (total k) partial
  unfolding sum_dicts
  sum_dicts-at total partial h = elim (Bool-cases (has partial)) [
    | inl found ↦
        rw (found)
          (add_unlimited-some partial _ _ (add_limited-at partial total h ∙ rw (found) refl))
    | inr absent ↦ add_unlimited-absent partial _ absent ∙ add_limited-at partial total h
  ]
