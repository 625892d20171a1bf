-- ===== src/Cost/Consumption/History.antt =====
-- What is consumed over a history of configurations.
use waldur_core.Prelude.{
  ℕ, ◌≡◌, refl, ◌∙◌, ap, Bool, true, false, not, ◌&&◌, List, [], ◌∷◌, arith, if◌then◌else◌, ◌==◌,
  Bool-cases, inl, inr, returned,
}
use waldur_core.Prelude.Int.{ℤ, pos, ◌+ℤ◌, ◌*ℤ◌, ltb_ℤ, +ℤ_parts, eq_of_parts}
use waldur_core.Cost.Consumption.{
  ConsumableItem, Items, usage_of, is_equal, ConsumptionDetails, minutes_between, consume,
  update_configuration, get_consumed,
}
use waldur_core.Cost.Consumption.Laws.{is_dict, usage_of-consume, usage_of-consumed}

-- A call of `update_configuration`, at a moment in a month.
pub record Update : Type 0 where
  pub now : ℕ
  pub now_month : ℕ
  pub new_configuration : Items

-- The callers go on after an exception.
unfoldable pub update_each : List Update → ConsumptionDetails → ConsumptionDetails
update_each [] d = d
update_each (u ∷ us) d =
    update_each us (update_configuration u.now u.now_month u.new_configuration d).1

unfoldable pub are_dicts : List Update → Bool
unfolding is_dict
are_dicts [] = true
are_dicts (u ∷ us) = is_dict u.new_configuration && are_dicts us

-- An update takes effect in the month of the details, if it changes the configuration.
unfoldable pub takes_effect : ℕ → Items → Update → Bool
takes_effect month configuration u =
    not (is_equal u.new_configuration configuration) && u.now_month == month

-- The usage of an item in each configuration, times the minutes that the configuration lasted.
unfoldable pub used : ConsumableItem → ℕ → Items → ℕ → List Update → ℕ → ℤ
unfolding takes_effect
used k month configuration last [] time = usage_of k configuration *ℤ minutes_between last time
used k month configuration last (u ∷ us) time =
    if takes_effect month configuration u
    then usage_of k configuration *ℤ minutes_between last u.now
      +ℤ used k month u.new_configuration u.now us time
    else used k month configuration last us time

-- What is consumed of an item until a moment, read off the details.
abbrev consumed_of : ConsumableItem → ConsumptionDetails → ℕ → ℤ
consumed_of k d time =
    usage_of k d.configuration *ℤ minutes_between d.last_update_time time
    +ℤ usage_of k d.consumed_before_update

not_and : (a b : Bool) → (not a && b) ≡ true → (a ≡ false) × (b ≡ true)
not_and a b h = (ground arith, ground arith)

not_and_false : (a b : Bool) → (not a && b) ≡ false → a ≡ false → b ≡ false
not_and_false a b h e = ground arith

regroup : (u b s : ℤ) → u +ℤ (b +ℤ s) ≡ (s +ℤ u) +ℤ b
regroup u b s =
    eq_of_parts _ _
      (omega (arith, +ℤ_parts u (b +ℤ s), +ℤ_parts b s, +ℤ_parts (s +ℤ u) b, +ℤ_parts s u))

update_configuration-same :
    (u : Update) (d : ConsumptionDetails)
    → takes_effect d.month d.configuration u ≡ false
    → (update_configuration u.now u.now_month u.new_configuration d).1 ≡ d
unfolding update_configuration takes_effect
update_configuration-same u d h = elim (Bool-cases (is_equal u.new_configuration d.configuration)) [
  | inl same ↦ rw (same, update_configuration) refl
  | inr other ↦ rw (other, not_and_false _ _ h other, update_configuration) refl
]

abbrev updated : Update → ConsumptionDetails → ConsumptionDetails
updated u d = record d {
  configuration = u.new_configuration;
  last_update_time = u.now;
  consumed_before_update =
      consume (minutes_between d.last_update_time u.now) d.configuration d.consumed_before_update;
}

update_configuration-updated :
    (u : Update) (d : ConsumptionDetails)
    → takes_effect d.month d.configuration u ≡ true
    → update_configuration u.now u.now_month u.new_configuration d ≡ (returned true, updated u d)
unfolding update_configuration takes_effect
update_configuration-updated u d h =
    rw
      (
        (not_and (is_equal u.new_configuration d.configuration) (u.now_month == d.month) h).0,
        (not_and (is_equal u.new_configuration d.configuration) (u.now_month == d.month) h).1,
        update_configuration,
      )
      refl

new_dict :
    (u : Update) (us : List Update) → are_dicts (u ∷ us) ≡ true → is_dict u.new_configuration ≡ true
unfolding are_dicts
new_dict u us h = ground arith

rest_dicts : (u : Update) (us : List Update) → are_dicts (u ∷ us) ≡ true → are_dicts us ≡ true
unfolding are_dicts
rest_dicts u us h = ground arith

consumed_of-updates :
    (k : ConsumableItem) (us : List Update) (d : ConsumptionDetails) (time : ℕ)
    → is_dict d.configuration ≡ true
    → are_dicts us ≡ true
    → consumed_of k (update_each us d) time
      ≡ used k d.month d.configuration d.last_update_time us time
        +ℤ usage_of k d.consumed_before_update
unfolding update_each are_dicts used
consumed_of-updates k [] d time dict dicts = refl
consumed_of-updates k (u ∷ us) d time dict dicts =
    elim (Bool-cases (takes_effect d.month d.configuration u)) [
      | inl effect ↦ rw (effect) (
          ap (λ r. consumed_of k (update_each us r.1) time)
            (update_configuration-updated u d effect)
          ∙ consumed_of-updates k us (updated u d) time (new_dict u us dicts)
              (rest_dicts u us dicts)
          ∙ ap (λ v. used k d.month u.new_configuration u.now us time +ℤ v)
              (usage_of-consume k (minutes_between d.last_update_time u.now) d.configuration
                d.consumed_before_update dict)
          ∙ regroup _ _ _)
      | inr none_taken ↦ rw (none_taken) (
          ap (λ e. consumed_of k (update_each us e) time) (update_configuration-same u d none_taken)
          ∙ consumed_of-updates k us d time dict (rest_dicts u us dicts))
    ]

-- If the configurations are dictionaries, then whatever updates are made and refused, what
-- _get_consumed gives of an item at a moment that is not before the last update is what was
-- consumed before the history plus, for each configuration that took effect, its usage times the
-- minutes that it lasted.
pub get_consumed-update_each :
    (k : ConsumableItem) (us : List Update) (d : ConsumptionDetails) (time : ℕ)
    → is_dict d.configuration ≡ true
    → are_dicts us ≡ true
    → ltb_ℤ (minutes_between (update_each us d).last_update_time time) (pos 0) ≡ false
    → (consumed : Items) × (get_consumed time (update_each us d)
        ≡ (returned consumed, update_each us d))
      × (usage_of k consumed
          ≡ used k d.month d.configuration d.last_update_time us time
            +ℤ usage_of k d.consumed_before_update)
unfolding get_consumed
get_consumed-update_each k us d time dict dicts later = (
  _,
  rw (later, get_consumed) refl,
  usage_of-consumed k _ _ _ ∙ consumed_of-updates k us d time dict dicts,
)
