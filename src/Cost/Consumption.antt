-- ===== src/Cost/Consumption.antt =====
-- `ConsumptionDetails` of waldur_core/cost_tracking/models.py, `_get_price` of `PriceEstimate`, and
-- `ConsumableItem` of cost_tracking/__init__.py. A moment is a number of seconds; usages and prices,
-- floats in the source, are integers. A dictionary is the list of its items, each key once.
pub mod Laws
pub mod History
use text.Mathlib.Text.{◌==◌ as str_eq}
use waldur_core.Prelude.{
  ℕ, ◌-◌, ◌/◌, Bool, true, false, not, ◌&&◌, Option, none, some, List, [], ◌∷◌, ◌++◌, String,
  Method, pure, raise, map, all, filter, length, if◌then◌else◌, leb, ◌==◌,
}
use waldur_core.Prelude.Int.{ℤ, pos, ◌+ℤ◌, ◌-ℤ◌, ◌*ℤ◌, ltb_ℤ, eqb_ℤ}

-- What `__eq__` and `__hash__` read.
pub record ConsumableItem : Type 0 where
  pub item_type : String
  pub key : String

unfoldable pub is_same : ConsumableItem → ConsumableItem → Bool
is_same a b = str_eq a.item_type b.item_type && str_eq a.key b.key

abbrev pub Items : Type 0
Items = List (ConsumableItem × ℤ)

-- `item in items`
unfoldable pub has_item : ConsumableItem → Items → Bool
unfolding is_same
has_item item [] = false
has_item item (i ∷ items) = if is_same item i.0 then true else has_item item items

-- `items.get(item, 0)`
unfoldable pub usage_of : ConsumableItem → Items → ℤ
unfolding is_same
usage_of item [] = pos 0
usage_of item (i ∷ items) = if is_same item i.0 then i.1 else usage_of item items

-- `items[item] = usage`
unfoldable pub put : ConsumableItem → ℤ → Items → Items
unfolding is_same
put item usage [] = (item, usage) ∷ []
put item usage (i ∷ items) =
    if is_same item i.0 then (i.0, usage) ∷ items else i ∷ put item usage items

-- `a == b` on dictionaries.
unfoldable pub is_equal : Items → Items → Bool
unfolding has_item usage_of
is_equal a b = length a == length b && all (λ i. has_item i.0 b && eqb_ℤ (usage_of i.0 b) i.1) a

pub record ConsumptionDetails : Type 0 where
  pub month : ℕ
  pub configuration : Items
  pub last_update_time : ℕ
  pub consumed_before_update : Items

pub data Error : Type 0 where
  update_error calculate_error : Error

abbrev pub Call : Type 0 → Type 0
Call A = Method ConsumptionDetails Error A

-- `_get_minutes_from_last_update`: `int` rounds towards zero.
unfoldable pub minutes_between : ℕ → ℕ → ℤ
minutes_between last time =
    if leb last time then pos ((time - last) / 60) else pos 0 -ℤ pos ((last - time) / 60)

-- The loop of `update_configuration`, over the items of the configuration.
unfoldable pub consume : ℤ → Items → Items → Items
unfolding put usage_of
consume minutes [] before = before
consume minutes ((item, usage) ∷ items) before =
    consume minutes items (put item (usage_of item before +ℤ usage *ℤ minutes) before)

-- `update_configuration`, at a moment in a month.
unfoldable pub update_configuration : ℕ → ℕ → Items → Call Bool
unfolding is_equal consume minutes_between
update_configuration now now_month new_configuration d =
    if is_equal new_configuration d.configuration
    then (pure false d)
    else if not (now_month == d.month)
    then (raise update_error d)
    else (pure true (record d {
      configuration = new_configuration;
      last_update_time = now;
      consumed_before_update =
          consume (minutes_between d.last_update_time now) d.configuration d.consumed_before_update;
    }))

-- `set(list(a.keys()) + list(b.keys()))`
unfoldable pub all_keys : Items → Items → List ConsumableItem
unfolding has_item
all_keys a b = map (λ i. i.0) a ++ map (λ i. i.0) (filter (λ i. not (has_item i.0 a)) b)

-- The loop of `_get_consumed`.
unfoldable pub consumed_items : ℤ → Items → Items → List ConsumableItem → Items
unfolding usage_of
consumed_items minutes configuration before keys =
    map (λ item. (item, usage_of item configuration *ℤ minutes +ℤ usage_of item before)) keys

-- `_get_consumed`
unfoldable pub get_consumed : ℕ → Call Items
unfolding minutes_between consumed_items all_keys
get_consumed time d =
    let minutes = minutes_between d.last_update_time time in
    if ltb_ℤ minutes (pos 0)
    then (raise calculate_error d)
    else (pure
        (consumed_items minutes d.configuration d.consumed_before_update
          (all_keys d.configuration d.consumed_before_update))
        d)

-- The dictionary of `_get_price`: a later price list item replaces an earlier one.
unfoldable pub price_of : ConsumableItem → Items → Option ℤ
unfolding is_same
price_of item [] = none
price_of item (i ∷ items) = elim (price_of item items) [
  | some rate ↦ some rate
  | none ↦ if is_same item i.0 then some i.1 else none
]

-- `_get_price`: an item without a price is left out.
unfoldable pub get_price : Items → Items → ℤ
unfolding price_of
get_price prices [] = pos 0
get_price prices ((item, usage) ∷ consumed) = elim (price_of item prices) [
  | none ↦ get_price prices consumed
  | some rate ↦ rate *ℤ usage +ℤ get_price prices consumed
]
