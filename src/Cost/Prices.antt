-- ===== src/Cost/Prices.antt =====
-- `DefaultPriceListItem` and `PriceListItem` of waldur_core/cost_tracking/models.py. Content types,
-- services and rows are numbers; a hourly rate is an integer.
pub mod Chosen
pub mod Registered
use text.Mathlib.Text.{◌==◌ as str_eq}
use waldur_core.Prelude.{
  ℕ, suc, Bool, true, false, not, ◌&&◌, Option, none, some, List, [], ◌∷◌, ◌++◌, String, map,
  filter, find, any, if◌then◌else◌, ◌==◌, mem,
}
use waldur_core.Prelude.Int.{ℤ}

pub record DefaultPriceListItem : Type 0 where
  pub id : ℕ
  pub resource_content_type : ℕ
  pub item_type : String
  pub key : String
  pub name : String
  pub units : String
  pub value : ℤ

pub record PriceListItem : Type 0 where
  pub service : ℕ
  pub default_price_list_item : ℕ
  pub value : ℤ

-- An item of the result of `get_for_resource`: a price, and the default item that gives it its type
-- and key.
pub record Priced : Type 0 where
  pub default_item : ℕ
  pub value : ℤ

unfoldable pub is_default_for : ℕ → DefaultPriceListItem → Bool
is_default_for content_type d = d.resource_content_type == content_type

-- The filter on the items of a service.
unfoldable pub is_item_for : ℕ → List DefaultPriceListItem → PriceListItem → Bool
is_item_for service defaults i =
    i.service == service && any (λ d. d.id == i.default_price_list_item) defaults

abbrev pub priced_item : PriceListItem → Priced
priced_item i = record { default_item = i.default_price_list_item; value = i.value }

abbrev pub priced_default : DefaultPriceListItem → Priced
priced_default d = record { default_item = d.id; value = d.value }

-- `items | (default_items - rewrited_defaults)`
unfoldable pub rewrite_defaults : List DefaultPriceListItem → List PriceListItem → List Priced
rewrite_defaults defaults items =
    map priced_item items
    ++ map priced_default
        (filter (λ d. not (any (λ i. i.default_price_list_item == d.id) items)) defaults)

-- `get_for_resource`, for the content type of the resource and its service.
unfoldable pub get_for_resource :
    ℕ → ℕ → List DefaultPriceListItem → List PriceListItem → List Priced
unfolding is_default_for is_item_for rewrite_defaults
get_for_resource content_type service all_defaults all_items =
    let defaults = filter (is_default_for content_type) all_defaults in
    rewrite_defaults defaults (filter (is_item_for service defaults) all_items)

-- `PriceListItem.clean`, by what it looks up.
pub data ValidationError : Type 0 where
  no_service public_service unsupported_content_type : ValidationError

unfoldable pub clean : Bool → Bool → List ℕ → ℕ → Option ValidationError
clean has_service is_public valid_resources resource =
    if not has_service
    then some no_service
    else if is_public
    then some public_service
    else if not (mem resource valid_resources)
    then some unsupported_content_type
    else none

-- An item that a strategy declares, with the content type of its resource.
pub record Consumable : Type 0 where
  pub content_type : ℕ
  pub item_type : String
  pub key : String
  pub name : String
  pub units : String
  pub default_price : ℤ

unfoldable pub is_registered_as : Consumable → DefaultPriceListItem → Bool
is_registered_as c d =
    d.resource_content_type == c.content_type
    && str_eq d.item_type c.item_type
    && str_eq d.key c.key

abbrev pub Defaults : Type 0
Defaults = List DefaultPriceListItem

-- `_create_or_update_default_price_list_item`, with the number of a new row.
unfoldable pub create_or_update_default_price_list_item :
    ℕ → Consumable → Defaults → Bool × Defaults
create_or_update_default_price_list_item id c rows =
    if any (is_registered_as c) rows
    then (false, map (λ d. if is_registered_as c d then record d { units = c.units } else d) rows)
    else (
      true,
      rows
          ++ record {
            id = id;
            resource_content_type = c.content_type;
            item_type = c.item_type;
            key = c.key;
            name = c.name;
            units = c.units;
            value = c.default_price;
          }
            ∷ [],
    )

-- `init_from_registered_resources`, over the items of all registered resources, with the items whose
-- row was created.
unfoldable pub init_from_registered_resources :
    ℕ → List Consumable → Defaults → List Consumable × Defaults
unfolding create_or_update_default_price_list_item
init_from_registered_resources id [] rows = ([], rows)
init_from_registered_resources id (c ∷ cs) rows =
    let (created, rows') = create_or_update_default_price_list_item id c rows in
    let (items, last) = init_from_registered_resources (suc id) cs rows' in
    ((if created then c ∷ items else items), last)
