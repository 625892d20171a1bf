-- ===== src/Cost/Consumption/Laws.antt =====
-- What a resource has consumed before and after the updates of its configuration.
use waldur_core.Prelude.{
  ◌≡◌, refl, sym, ◌∙◌, ap, Bool, true, false, not, ◌&&◌, ◌||◌, List, [], ◌∷◌, arith, map, any,
  any-append, filter, if◌then◌else◌, Bool-cases, inl, inr, eq_iff, eq_refl,
}
use waldur_core.Prelude.Int.{ℤ, pos, ◌+ℤ◌, ◌*ℤ◌, +ℤ_zero}
use waldur_core.Cost.Consumption.{
  ConsumableItem, Items, is_same, has_item, usage_of, put, consume, all_keys, consumed_items,
}

is_same_refl : (a : ConsumableItem) → is_same a a ≡ true
unfolding is_same
is_same_refl a = rw (eq_refl a.item_type, eq_refl a.key) refl

eq_of_same : (a b : ConsumableItem) → is_same a b ≡ true → a ≡ b
unfolding is_same
eq_of_same a b h =
    ap (λ t. record { item_type = t; key = a.key })
      ((eq_iff a.item_type b.item_type).0 ground arith)
    ∙ ap (λ k. record { item_type = b.item_type; key = k }) ((eq_iff a.key b.key).0 ground arith)

-- Two items compared with a third agree if they are the same.
same_trans : (k a b : ConsumableItem) → is_same a b ≡ true → is_same k a ≡ is_same k b
same_trans k a b h = ap (is_same k) (eq_of_same a b h)

other_of_same :
    (k item j : ConsumableItem)
    → is_same item j ≡ false
    → is_same k j ≡ true
    → is_same k item ≡ false
other_of_same k item j other h = elim (Bool-cases (is_same k item)) [
  | inl same ↦ ground (arith, ap (λ x. is_same x j) (eq_of_same k item same))
  | inr fine ↦ fine
]

usage_of-put :
    (k item : ConsumableItem) (usage : ℤ) (items : Items)
    → usage_of k (put item usage items) ≡ (if is_same k item then usage else usage_of k items)
unfolding usage_of put
usage_of-put k item usage [] = refl
usage_of-put k item usage (i ∷ items) = elim (Bool-cases (is_same item i.0)) [
  | inl same ↦ ground (arith, same_trans k item i.0 same)
  | inr other ↦ ground (arith, other_of_same k item i.0 other, usage_of-put k item usage items)
]

-- The keys of a dictionary are different.
unfoldable pub is_dict : Items → Bool
unfolding has_item
is_dict [] = true
is_dict (i ∷ items) = not (has_item i.0 items) && is_dict items

zero_times : (m : ℤ) → pos 0 *ℤ m ≡ pos 0
unfolding ◌*ℤ◌
zero_times m = ground arith

usage_of-none :
    (k : ConsumableItem) (items : Items) → has_item k items ≡ false → usage_of k items ≡ pos 0
unfolding usage_of has_item
usage_of-none k [] h = refl
usage_of-none k (i ∷ items) h = ground (arith, usage_of-none k items)

module _ (k : ConsumableItem) where
  dict_usage :
      (item : ConsumableItem) (usage : ℤ) (items : Items)
      → is_dict ((item, usage) ∷ items) ≡ true
      → is_same k item ≡ true
      → usage_of k items ≡ pos 0
  unfolding is_dict
  dict_usage item usage items h same =
      usage_of-none k items
        (ap (λ j. has_item j items) (eq_of_same k item same) ∙ ground (arith, h))

  dict_rest :
      (i : ConsumableItem × ℤ) (items : Items) → is_dict (i ∷ items) ≡ true → is_dict items ≡ true
  unfolding is_dict
  dict_rest i items h = ground arith

  -- The loop adds the usage of each item over the minutes.
  pub usage_of-consume :
      (minutes : ℤ) (configuration before : Items)
      → is_dict configuration ≡ true
      → usage_of k (consume minutes configuration before)
        ≡ usage_of k before +ℤ usage_of k configuration *ℤ minutes
  unfolding consume usage_of
  usage_of-consume minutes [] before h = sym (rw (zero_times minutes) (+ℤ_zero (usage_of k before)))
  usage_of-consume minutes ((item, usage) ∷ items) before h = elim (Bool-cases (is_same k item)) [
    | inl same ↦
        rw
          (
            usage_of-consume minutes items
                (put item (usage_of item before +ℤ usage *ℤ minutes) before)
                (dict_rest (item, usage) items h),
            usage_of-put k item (usage_of item before +ℤ usage *ℤ minutes) before,
            same,
            dict_usage item usage items h same,
            zero_times minutes,
            +ℤ_zero (usage_of item before +ℤ usage *ℤ minutes),
          )
          (ap (λ j. usage_of j before +ℤ usage *ℤ minutes) (sym (eq_of_same k item same)))
    | inr other ↦
        rw
          (
            usage_of-consume minutes items
                (put item (usage_of item before +ℤ usage *ℤ minutes) before)
                (dict_rest (item, usage) items h),
            usage_of-put k item (usage_of item before +ℤ usage *ℤ minutes) before,
            other,
          )
          refl
  ]

  usage_of-consumed_items :
      (minutes : ℤ) (configuration before : Items) (keys : List ConsumableItem)
      → usage_of k (consumed_items minutes configuration before keys) ≡ (
          if any (is_same k) keys
          then usage_of k configuration *ℤ minutes +ℤ usage_of k before
          else pos 0)
  unfolding usage_of consumed_items any
  usage_of-consumed_items minutes configuration before [] = refl
  usage_of-consumed_items minutes configuration before (j ∷ keys) =
      elim (Bool-cases (is_same k j)) [
        | inl same ↦ rw (same) (
            ap (λ i. usage_of i configuration *ℤ minutes +ℤ usage_of i before)
              (sym (eq_of_same k j same)))
        | inr other ↦ rw (other) (usage_of-consumed_items minutes configuration before keys)
      ]

  any-keys : (items : Items) → any (is_same k) (map (λ i. i.0) items) ≡ has_item k items
  unfolding any has_item
  any-keys [] = refl
  any-keys (i ∷ items) = ground (arith, any-keys items)

  any-new_keys :
      (a b : Items)
      → any (is_same k) (map (λ i. i.0) (filter (λ i. not (has_item i.0 a)) b))
        ≡ (has_item k b && not (has_item k a))
  unfolding any has_item filter
  any-new_keys a [] = refl
  any-new_keys a (i ∷ b) = elim (Bool-cases (is_same k i.0)) [
    | inl same ↦ ground (arith, any-new_keys a b, ap (λ j. has_item j a) (eq_of_same k i.0 same))
    | inr other ↦ ground (arith, any-new_keys a b)
  ]

  any-all_keys : (a b : Items) → any (is_same k) (all_keys a b) ≡ (has_item k a || has_item k b)
  unfolding all_keys
  any-all_keys a b =
      any-append (is_same k) (map (λ i. i.0) a) _
      ∙ (rw (any-keys a, any-new_keys a b) (ground arith))

  absent_usage :
      (minutes : ℤ) (a b : Items)
      → (has_item k a || has_item k b) ≡ false
      → pos 0 ≡ usage_of k a *ℤ minutes +ℤ usage_of k b
  absent_usage minutes a b h =
      rw
        (
          usage_of-none k a (ground (arith, h)),
          usage_of-none k b (ground (arith, h)),
          zero_times minutes,
        )
        (sym (+ℤ_zero (pos 0)))

  -- What is consumed of an item, in the configuration and before.
  pub usage_of-consumed :
      (minutes : ℤ) (configuration before : Items)
      → usage_of k (consumed_items minutes configuration before (all_keys configuration before))
        ≡ usage_of k configuration *ℤ minutes +ℤ usage_of k before
  usage_of-consumed minutes configuration before =
      elim (Bool-cases (has_item k configuration || has_item k before)) [
        | inl found ↦
            rw
              (
                usage_of-consumed_items minutes configuration before
                    (all_keys configuration before),
                any-all_keys configuration before,
                found,
              )
              refl
        | inr absent ↦
            rw
              (
                usage_of-consumed_items minutes configuration before
                    (all_keys configuration before),
                any-all_keys configuration before,
                absent,
              )
              (absent_usage minutes configuration before absent)
      ]
