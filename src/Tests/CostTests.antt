-- ===== src/Tests/CostTests.antt =====
-- The theorems on consumption at concrete details.
use waldur_core.Prelude.{◌≡◌, refl, all, List, [], ◌∷◌, returned}
use waldur_core.Prelude.Int.{pos, ◌+ℤ◌, ◌*ℤ◌}
use waldur_core.Cost.Consumption.{
  ConsumableItem, Items, is_equal, usage_of, ConsumptionDetails, minutes_between,
  update_configuration, get_consumed,
}
use waldur_core.Cost.Consumption.Laws.{is_dict}
use waldur_core.Cost.Consumption.History.{
  Update, update_each, are_dicts, used, get_consumed-update_each,
}

abbrev ram : ConsumableItem
ram = record { item_type = "ram"; key = "1 MB" }

-- Two units from the start of May, three after an hour, and four, which June refuses.
abbrev details : ConsumptionDetails
details = record {
  month = 5;
  configuration = (ram, pos 2) ∷ [];
  last_update_time = 0;
  consumed_before_update = [];
}

abbrev updates : List Update
updates =
    record { now = 3600; now_month = 5; new_configuration = (ram, pos 3) ∷ [] }
    ∷ record { now = 3700; now_month = 6; new_configuration = (ram, pos 4) ∷ [] }
    ∷ []

get_consumed-update_each_example :
    (consumed : Items) × (get_consumed 7200 (update_each updates details)
      ≡ (returned consumed, update_each updates details))
    × (usage_of ram consumed ≡ used ram 5 ((ram, pos 2) ∷ []) 0 updates 7200 +ℤ usage_of ram [])
unfolding update_each update_configuration minutes_between is_dict are_dicts all
get_consumed-update_each_example = get_consumed-update_each ram updates details 7200 refl refl refl

-- Two units for an hour, and three for another one.
consumed_usage : used ram 5 ((ram, pos 2) ∷ []) 0 updates 7200 ≡ pos 300
unfolding used ◌*ℤ◌ ◌+ℤ◌ is_equal all minutes_between
consumed_usage = refl
