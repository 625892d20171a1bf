-- ===== src/Cost/Prices/Chosen.antt =====
-- The price of each default item: that of the service, where it has one.
use waldur_core.Prelude.{
  ℕ, ◌≡◌, refl, ◌∙◌, ap, Bool, true, false, not, ◌&&◌, Option, none, some, List, [], ◌∷◌, ◌++◌,
  arith, map, filter, find, any, if◌then◌else◌, ◌==◌,
}
use waldur_core.Cost.Prices.{
  DefaultPriceListItem, PriceListItem, Priced, is_default_for, is_item_for, priced_item,
  priced_default, rewrite_defaults, get_for_resource,
}

unfoldable pub or_else : Option Priced → Option Priced → Option Priced
or_else none b = b
or_else (some a) b = some a

-- The price of a default item in a list.
unfoldable pub price_at : ℕ → List Priced → Option Priced
price_at d = find (λ p. p.default_item == d)

price_at-append :
    (d : ℕ) (xs ys : List Priced) → price_at d (xs ++ ys) ≡ or_else (price_at d xs) (price_at d ys)
unfolding price_at find or_else
price_at-append d [] ys = refl
price_at-append d (x ∷ xs) ys = ground (arith, price_at-append d xs ys)

abbrev pub of_item : Option PriceListItem → Option Priced
of_item none = none
of_item (some i) = some (priced_item i)

abbrev pub of_default : Option DefaultPriceListItem → Option Priced
of_default none = none
of_default (some d) = some (priced_default d)

price_at-items :
    (d service : ℕ) (defaults : List DefaultPriceListItem) (items : List PriceListItem)
    → any (λ x. x.id == d) defaults ≡ true
    → price_at d (map priced_item (filter (is_item_for service defaults) items))
      ≡ of_item (find (λ i. i.service == service && i.default_price_list_item == d) items)
unfolding price_at find filter is_item_for
price_at-items d service defaults [] h = refl
price_at-items d service defaults (i ∷ items) h = ground (
  arith,
  h,
  price_at-items d service defaults items,
  λ (e : i.default_price_list_item ≡ d). ap (λ (n : ℕ). any (λ x. x.id == n) defaults) e,
)

price_at-defaults :
    (d : ℕ) (items : List PriceListItem) (defaults : List DefaultPriceListItem)
    → price_at d (
        map priced_default
          (filter (λ x. not (any (λ i. i.default_price_list_item == x.id) items)) defaults))
      ≡ (if any (λ i. i.default_price_list_item == d) items
          then none
          else of_default (find (λ x. x.id == d) defaults))
unfolding price_at find filter
price_at-defaults d items [] = ground arith
price_at-defaults d items (x ∷ defaults) = ground (
  arith,
  price_at-defaults d items defaults,
  λ (e : x.id ≡ d). ap (λ (n : ℕ). any (λ i. i.default_price_list_item == n) items) e,
)

any-found :
    (d service : ℕ) (defaults : List DefaultPriceListItem) (items : List PriceListItem)
    → find (λ i. i.service == service && i.default_price_list_item == d) items ≡ none
    → any (λ i. i.default_price_list_item == d) (filter (is_item_for service defaults) items)
      ≡ false
unfolding any find filter is_item_for
any-found d service defaults [] h = refl
any-found d service defaults (i ∷ items) h = ground (arith, h, any-found d service defaults items)

settled :
    (o : Option PriceListItem) (b : Bool) (g : Option Priced)
    → (o ≡ none → b ≡ false)
    → or_else (of_item o) (if b then none else g) ≡ or_else (of_item o) g
unfolding or_else
settled none b g h = ap (λ c. if c then none else g) (h refl)
settled (some i) b g h = refl

-- For a default item of the content type of a resource, get_for_resource has the price of the
-- first item of the service for it, and the default price if the service has none.
pub price_at-get_for_resource :
    (content_type service d : ℕ) (defaults : List DefaultPriceListItem) (items : List PriceListItem)
    → any (λ x. x.id == d) (filter (is_default_for content_type) defaults) ≡ true
    → price_at d (get_for_resource content_type service defaults items)
      ≡ or_else
          (of_item (find (λ i. i.service == service && i.default_price_list_item == d) items))
          (of_default (find (λ x. x.id == d) (filter (is_default_for content_type) defaults)))
unfolding get_for_resource rewrite_defaults
price_at-get_for_resource content_type service d defaults items h =
    price_at-append d (map priced_item chosen) _
    ∙ ap (λ o. or_else o (price_at d (map priced_default (filter kept own))))
        (price_at-items d service own items h)
    ∙ ap (or_else _) (price_at-defaults d chosen own)
    ∙ settled (find (λ i. i.service == service && i.default_price_list_item == d) items)
        (any (λ i. i.default_price_list_item == d) chosen) (of_default (find (λ x. x.id == d) own))
        (any-found d service own items)
  where
    own : List DefaultPriceListItem
    own = filter (is_default_for content_type) defaults

    chosen : List PriceListItem
    chosen = filter (is_item_for service own) items

    kept : DefaultPriceListItem → Bool
    kept x = not (any (λ i. i.default_price_list_item == x.id) chosen)
