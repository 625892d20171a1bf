-- ===== src/Cost/Prices/Registered.antt =====
-- `init_from_registered_resources` when it runs again.
use waldur_core.Prelude.{
  ℕ, suc, ◌≡◌, refl, ◌∙◌, ap, Bool, true, false, ◌&&◌, ◌||◌, List, [], ◌∷◌, ◌++◌, arith, map, any,
  all, if◌then◌else◌, any-append, eq_refl, Bool-cases, inl, inr,
}
use waldur_core.Cost.Prices.{
  Consumable, DefaultPriceListItem, Defaults, is_registered_as,
  create_or_update_default_price_list_item, init_from_registered_resources,
}

-- Whether an item has a row.
unfoldable pub has_row : Consumable → Defaults → Bool
has_row c rows = any (is_registered_as c) rows

has_row-units :
    (b c : Consumable) (rows : Defaults)
    → any
        (is_registered_as b)
        (map (λ d. if is_registered_as c d then record d { units = c.units } else d) rows)
      ≡ any (is_registered_as b) rows
unfolding any is_registered_as
has_row-units b c [] = refl
has_row-units b c (d ∷ rows) = ground (arith, has_row-units b c rows)

row_of : ℕ → Consumable → DefaultPriceListItem
row_of id c = record {
  id = id;
  resource_content_type = c.content_type;
  item_type = c.item_type;
  key = c.key;
  name = c.name;
  units = c.units;
  value = c.default_price;
}

has_row-snoc :
    (b : Consumable) (d : DefaultPriceListItem) (rows : Defaults)
    → has_row b rows ≡ true
    → has_row b (rows ++ d ∷ []) ≡ true
unfolding has_row
has_row-snoc b d rows h =
    any-append (is_registered_as b) rows (d ∷ [])
    ∙ ap (λ x. x || any (is_registered_as b) (d ∷ [])) h

has_row_self :
    (id : ℕ) (c : Consumable) (rows : Defaults) → has_row c (rows ++ row_of id c ∷ []) ≡ true
unfolding has_row row_of
has_row_self id c rows =
    any-append (is_registered_as c) rows (row_of id c ∷ []) ∙ ground (arith, own_row)
  where
    own_row : any (is_registered_as c) (row_of id c ∷ []) ≡ true
    own_row = unfold any is_registered_as in ground (arith, eq_refl c.item_type, eq_refl c.key)

has_row-create_or_update :
    (id : ℕ) (b c : Consumable) (rows : Defaults)
    → has_row b rows ≡ true
    → has_row b (create_or_update_default_price_list_item id c rows).1 ≡ true
unfolding has_row create_or_update_default_price_list_item row_of
has_row-create_or_update id b c rows h = elim (Bool-cases (any (is_registered_as c) rows)) [
  | inl there ↦ rw (there) (has_row-units b c rows ∙ h)
  | inr new ↦ rw (new) (has_row-snoc b (row_of id c) rows h)
]

has_row-own :
    (id : ℕ) (c : Consumable) (rows : Defaults)
    → has_row c (create_or_update_default_price_list_item id c rows).1 ≡ true
unfolding has_row create_or_update_default_price_list_item row_of
has_row-own id c rows = elim (Bool-cases (any (is_registered_as c) rows)) [
  | inl there ↦ rw (there) (has_row-units c c rows ∙ there)
  | inr new ↦ rw (new) (has_row_self id c rows)
]

has_row-init :
    (id : ℕ) (b : Consumable) (cs : List Consumable) (rows : Defaults)
    → has_row b rows ≡ true
    → has_row b (init_from_registered_resources id cs rows).1 ≡ true
unfolding init_from_registered_resources
has_row-init id b [] rows h = h
has_row-init id b (c ∷ cs) rows h =
    has_row-init (suc id) b cs (create_or_update_default_price_list_item id c rows).1
      (has_row-create_or_update id b c rows h)

-- All items of the list have rows after the run.
all-init :
    (id : ℕ) (cs : List Consumable) (rows : Defaults)
    → all (λ c. has_row c (init_from_registered_resources id cs rows).1) cs ≡ true
unfolding init_from_registered_resources all
all-init id [] rows = refl
all-init id (c ∷ cs) rows =
    let rows' = (create_or_update_default_price_list_item id c rows).1 in
    ground
      (arith, has_row-init (suc id) c cs rows' (has_row-own id c rows), all-init (suc id) cs rows')

known_update :
    (id : ℕ) (c : Consumable) (rows : Defaults)
    → has_row c rows ≡ true
    → (create_or_update_default_price_list_item id c rows).0 ≡ false
unfolding has_row create_or_update_default_price_list_item
known_update id c rows h = rw (h) refl

all_kept :
    (id : ℕ) (c : Consumable) (rows : Defaults) (cs : List Consumable)
    → all (λ b. has_row b rows) cs ≡ true
    → all (λ b. has_row b (create_or_update_default_price_list_item id c rows).1) cs ≡ true
unfolding all
all_kept id c rows [] h = refl
all_kept id c rows (b ∷ cs) h =
    ground (arith, h, has_row-create_or_update id b c rows, all_kept id c rows cs)

init_known :
    (id : ℕ) (cs : List Consumable) (rows : Defaults)
    → all (λ c. has_row c rows) cs ≡ true
    → (init_from_registered_resources id cs rows).0 ≡ []
unfolding init_from_registered_resources all
init_known id [] rows h = refl
init_known id (c ∷ cs) rows h = rw (known_update id c rows (first (has_row c rows) _ h)) (
    init_known (suc id) cs (create_or_update_default_price_list_item id c rows).1
      (all_kept id c rows cs (second (has_row c rows) _ h)))
  where
    first : (a b : Bool) → (a && b) ≡ true → a ≡ true
    first a b e = ground (arith, e)

    second : (a b : Bool) → (a && b) ≡ true → b ≡ true
    second a b e = ground (arith, e)

pub init_from_registered_resources_twice :
    (id new_id : ℕ) (cs : List Consumable) (rows : Defaults)
    → (init_from_registered_resources new_id cs (init_from_registered_resources id cs rows).1).0
      ≡ []
init_from_registered_resources_twice id new_id cs rows =
    init_known new_id cs (init_from_registered_resources id cs rows).1 (all-init id cs rows)
