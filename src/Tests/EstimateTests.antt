-- ===== src/Tests/EstimateTests.antt =====
-- The theorems on price estimates and price lists at concrete rows.
use waldur_core.Prelude.{
  ℕ, ◌≡◌, refl, true, false, none, some, List, [], ◌∷◌, arith, any, all, count, filter, find, mem,
  ◌==◌, if◌then◌else◌, ◌-◌, ◌+◌, ◌*◌, ◌&&◌, ◌||◌, Bool-cases, inl, inr,
}
use waldur_core.Prelude.Int.{ℤ, pos, ◌+ℤ◌}
use waldur_core.Core.Ancestors.{get_ancestors, flat_map}
use waldur_core.Cost.Consumption.{ConsumableItem, ConsumptionDetails}
use waldur_core.Cost.Estimates.{Estimate, Db, Site, total_at, update_ancestors_total, update_total}
use waldur_core.Cost.Estimates.Totals.{increased, total_at-update_ancestors_total}
use waldur_core.Cost.Estimates.Summed.{is_leaf, sum_below, share}
use waldur_core.Cost.Estimates.Summed.Kept.{IsSummed, is_no_resource}
use waldur_core.Cost.Estimates.Summed.Updates.{IsSummed-update_total}
use waldur_core.Cost.Prices.{
  DefaultPriceListItem, PriceListItem, Consumable, is_default_for, get_for_resource,
  init_from_registered_resources,
}
use waldur_core.Cost.Prices.Chosen.{
  price_at, or_else, of_item, of_default, price_at-get_for_resource,
}
use waldur_core.Cost.Prices.Registered.{init_from_registered_resources_twice}
use waldur_core.Cost.Resources.{create_historical_estimates}
use waldur_core.Cost.Resources.Created.{start_before, create_historical_estimates_fuel}

abbrev ram : ConsumableItem
ram = record { item_type = "ram"; key = "1 MB" }

-- Months of 1000 seconds; the estimate 1 is of a resource, below those of a link, a service, a project and
-- a customer.
abbrev site : Site
site = record {
  month_start = λ year month. (year - 2018) * 12000 + month * 1000;
  month_end = λ year month. (year - 2018) * 12000 + month * 1000 + 999;
  scope_parents = λ scope. [];
  is_resource_scope = λ scope. scope == 11;
  prices = λ scope. (ram, pos 2) ∷ [];
  depth = 4;
}

abbrev parents : ℕ → List ℕ
parents id =
    if id == 1
    then 2 ∷ []
    else if id == 2
    then 3 ∷ (4 ∷ [])
    else if id == 3 || id == 4
    then 5 ∷ []
    else []

abbrev details : ConsumptionDetails
details = record {
  month = 5;
  configuration = (ram, pos 3) ∷ [];
  last_update_time = 5099;
  consumed_before_update = [];
}

abbrev machine : Estimate
machine = record {
  id = 1;
  scope = 11;
  month = 5;
  year = 2018;
  is_resource = true;
  has_scope = true;
  total = pos 7;
  consumed = pos 0;
  details = some details;
}

abbrev customer : Estimate
customer = record {
  id = 5;
  scope = 15;
  month = 5;
  year = 2018;
  is_resource = false;
  has_scope = true;
  total = pos 7;
  consumed = pos 0;
  details = none;
}

abbrev db : Db
db = record { estimates = machine ∷ customer ∷ []; parents = parents; next_id = 6 }

-- The customer is twice among the ancestors, and its total grows once.
total_at-update_ancestors_total_example :
    total_at 5 (update_ancestors_total site (pos 3) machine db) ≡ (
      if mem 5 (get_ancestors parents 4 1)
      then increased (pos 3) (total_at 5 db)
      else total_at 5 db)
total_at-update_ancestors_total_example = total_at-update_ancestors_total site (pos 3) machine db 5

grown : total_at 5 (update_ancestors_total site (pos 3) machine db) ≡ some (pos 10)
unfolding total_at update_ancestors_total get_ancestors mem increased ◌+ℤ◌ find flat_map filter
grown = total_at-update_ancestors_total_example

-- The resource estimate right below the customer's.
abbrev links : ℕ → List ℕ
links id = if id == 1 then 5 ∷ [] else []

abbrev short_site : Site
short_site = record site { depth = 2 }

abbrev short_db : Db
short_db = record db { parents = links }

short_leaves : (x : ℕ) → all (is_leaf (get_ancestors links 2) x) (machine ∷ customer ∷ []) ≡ true
unfolding all is_leaf get_ancestors mem flat_map filter
short_leaves x = elim (Bool-cases (x == 1)) [ inl e ↦ rw (e) refl | inr e ↦ rw (e) refl ]

short_summed :
    (k : ℕ) (t : ℤ)
    → all (is_no_resource k) (machine ∷ customer ∷ []) ≡ true
    → total_at k short_db ≡ some t
    → t ≡ sum_below (get_ancestors links 2) k (machine ∷ customer ∷ [])
unfolding all total_at find sum_below share get_ancestors mem flat_map filter ◌+ℤ◌
short_summed k t n h = ground (arith, n, h)

short-IsSummed : IsSummed short_site short_db
unfolding count
short-IsSummed = record {
  one_row = λ id. ground arith;
  leaves = short_leaves;
  summed = short_summed;
}

IsSummed-update_total_example :
    IsSummed short_site (update_total short_site true machine short_db).1
unfolding find
IsSummed-update_total_example =
    IsSummed-update_total short_site machine short_db refl short-IsSummed

abbrev defaults : List DefaultPriceListItem
defaults =
    record {
      id = 1;
      resource_content_type = 8;
      item_type = "ram";
      key = "1 MB";
      name = "RAM";
      units = "MB";
      value = pos 2;
    }
    ∷ []

abbrev items : List PriceListItem
items = record { service = 3; default_price_list_item = 1; value = pos 4 } ∷ []

abbrev consumables : List Consumable
consumables =
    record {
      content_type = 8;
      item_type = "cores";
      key = "1 core";
      name = "Cores";
      units = "core";
      default_price = pos 5;
    }
    ∷ []

price_at-get_for_resource_example :
    price_at 1 (get_for_resource 8 3 defaults items)
    ≡ or_else
        (of_item (find (λ i. i.service == 3 && i.default_price_list_item == 1) items))
        (of_default (find (λ x. x.id == 1) (filter (is_default_for 8) defaults)))
unfolding any filter is_default_for
price_at-get_for_resource_example = price_at-get_for_resource 8 3 1 defaults items refl

init_from_registered_resources_twice_example :
    (init_from_registered_resources 7 consumables
      (init_from_registered_resources 4 consumables defaults).1).0
    ≡ []
init_from_registered_resources_twice_example =
    init_from_registered_resources_twice 4 7 consumables defaults

-- Two months are enough for a resource of March, in May.
create_historical_estimates_fuel_example :
    create_historical_estimates site 11 [] 3500 9 5 2018
    ≡ create_historical_estimates site 11 [] 3500 2 5 2018
unfolding start_before
create_historical_estimates_fuel_example =
    create_historical_estimates_fuel site 11 [] 3500 2 9 5 2018 (omega arith) refl
