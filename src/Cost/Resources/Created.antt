-- ===== src/Cost/Resources/Created.antt =====
-- The loop of `_create_historical_estimates` ends.
use waldur_core.Prelude.{
  ℕ, zero, suc, ◌≤◌, ◌≡◌, refl, ap, false, arith, if◌then◌else◌, ltb, ◌>>=◌, pure,
}
use waldur_core.Cost.Consumption.{Items}
use waldur_core.Cost.Estimates.{Site, Call, previous_month}
use waldur_core.Cost.Resources.{create_historical_estimates, create_historical, later}

-- The start of the month that is n months before a month.
unfoldable pub start_before : Site → ℕ → ℕ → ℕ → ℕ
unfolding previous_month
start_before site zero month year = site.month_start year month
start_before site (suc n) month year =
    let (before, its_year) = previous_month month year in start_before site n before its_year

module _ (site : Site) (resource : ℕ) (configuration : Items) (created : ℕ) where
  -- If the month n months before a month starts no later than the resource was created, the loop
  -- of _create_historical_estimates does with any fuel of at least n what it does with n.
  pub create_historical_estimates_fuel :
      (n fuel month year : ℕ)
      → n ≤ fuel
      → ltb created (start_before site n month year) ≡ false
      → create_historical_estimates site resource configuration created fuel month year
        ≡ create_historical_estimates site resource configuration created n month year
  unfolding create_historical_estimates start_before
  create_historical_estimates_fuel zero zero month year h e = refl
  create_historical_estimates_fuel zero (suc fuel) month year h e = rw (e) refl
  create_historical_estimates_fuel (suc n) zero month year h e = absurd (omega (arith, h))
  create_historical_estimates_fuel (suc n) (suc fuel) month year h e =
      ap
        (λ (rest : Call (Unit {0})).
          if ltb created (site.month_start year month)
          then (create_historical site resource configuration
                (later
                  (site.month_start (previous_month month year).1 (previous_month month year).0)
                  created)
                (previous_month month year).0 (previous_month month year).1
              >>= (λ x. rest))
          else pure tt)
        (create_historical_estimates_fuel n fuel (previous_month month year).0
          (previous_month month year).1 (omega (arith, h)) e)
