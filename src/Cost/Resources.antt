-- ===== src/Cost/Resources.antt =====
-- The creation of consumption details in waldur_core/cost_tracking/managers.py,
-- `update_resource_estimate`, `create_historical` and `collect_children` of `PriceEstimate`, and the
-- handlers of cost_tracking/handlers.py on resources. The saved details of a deleted scope are left
-- out. The links of a deleted estimate stay in the table of parents, as no number is given twice.
pub mod Created
use waldur_core.Prelude.{
  ℕ, zero, suc, ◌+◌, ◌-◌, Bool, true, false, not, ◌&&◌, Option, none, some, List, [], ◌∷◌, ◌++◌,
  Outcome, returned, raised, pure, raise, modify, ◌>>=◌, ◌>>◌, map, filter, any, mem, if◌then◌else◌,
  ltb, ◌==◌,
}
use waldur_core.Prelude.Int.{ℤ, pos, ◌-ℤ◌}
use waldur_core.Core.Ancestors.{flat_map}
use waldur_core.Cost.Consumption.{ConsumptionDetails, Items, update_configuration}
use waldur_core.Cost.Consumption
use waldur_core.Cost.Estimates.{
  Estimate, Db, Site, Call, does_not_exist, integrity, no_details, consumption, is_for,
  save_details, details_at, get_previous, previous_month, on_details, update_ancestors_total,
  update_total, insert_estimate, get_or_create, create_ancestors,
}

-- `ConsumptionDetailsQuerySet.create`: the configuration is that of the previous month's estimate,
-- which raises where that one has no details.
unfoldable pub new_details : Site → Estimate → Items → ConsumptionDetails
new_details site e configuration = record {
  month = e.month;
  configuration = configuration;
  last_update_time = site.month_start e.year e.month;
  consumed_before_update = [];
}

unfoldable pub create_from : Site → Estimate → Option Estimate → Call ConsumptionDetails
unfolding new_details save_details
create_from site e none =
    modify (save_details e.id (new_details site e [])) >> pure (new_details site e [])
create_from site e (some previous) = elim previous.details [
  | none ↦ raise no_details
  | some d ↦
      modify (save_details e.id (new_details site e d.configuration))
      >> pure (new_details site e d.configuration)
]

unfoldable pub create_details : Site → Estimate → Call ConsumptionDetails
unfolding create_from get_previous
create_details site e db = create_from site e (get_previous e db) db

-- `ConsumptionDetails.objects.get_or_create(price_estimate=e)`
unfoldable pub get_or_create_details : Site → Estimate → Call ConsumptionDetails
unfolding create_details details_at
get_or_create_details site e db = elim (details_at e.id db) [
  | some d ↦ pure d db
  | none ↦ create_details site e db
]

-- `update_configuration` on the details of an estimate, which writes only where it returns True.
unfoldable pub configure : ℕ → ℕ → Items → Estimate → ConsumptionDetails → Call Bool
unfolding update_configuration on_details save_details
configure now now_month new_configuration e d =
    let (result, d') = update_configuration now now_month new_configuration d in
    do
      is_updated ← on_details result
      modify (if is_updated then save_details e.id d' else λ db. db)
      pure is_updated

-- `update_resource_estimate`, at a moment with its month and year.
unfoldable pub update_resource_estimate : Site → ℕ → ℕ → ℕ → ℕ → Items → Call Estimate
unfolding get_or_create create_ancestors get_or_create_details configure update_total
update_resource_estimate site now month year resource new_configuration = do
  (e, created) ← get_or_create site resource month year
  if created then create_ancestors site site.depth e else pure tt
  d ← get_or_create_details site e
  is_updated ← configure now month new_configuration e d
  if is_updated then update_total site true e else pure tt
  pure e

-- `create_historical`, from a moment to the end of its month.
unfoldable pub create_historical : Site → ℕ → Items → ℕ → ℕ → ℕ → Call Estimate
unfolding is_for insert_estimate create_ancestors save_details update_total
create_historical site resource configuration date month year db =
    if any (is_for resource month year) db.estimates
    then (raise integrity db)
    else ((do
      e ← insert_estimate site resource month year
      create_ancestors site site.depth e
      modify (
          save_details e.id (record {
            month = month;
            configuration = configuration;
            last_update_time = date;
            consumed_before_update = [];
          }))
      update_total site true e
      pure e)
        db)

-- `max(a, b)`
unfoldable pub later : ℕ → ℕ → ℕ
later a b = if ltb a b then b else a

-- The loop of `_create_historical_estimates`, from the month before the given one on; the loop ends
-- where a month starts before the resource was created, and the fuel is for the months in between.
unfoldable pub create_historical_estimates : Site → ℕ → Items → ℕ → ℕ → ℕ → ℕ → Call (Unit {0})
unfolding previous_month create_historical later
create_historical_estimates site resource configuration created zero month year = pure tt
create_historical_estimates site resource configuration created (suc fuel) month year =
    let (before, its_year) = previous_month month year in
    let start = site.month_start its_year before in
    let rest =
      create_historical_estimates site resource configuration created fuel before its_year in
    if ltb created (site.month_start year month)
    then (create_historical site resource configuration (later start created) before its_year
        >>= λ e. rest)
    else pure tt

-- `resource_update`; a resource that is not registered has no configuration.
unfoldable pub resource_update :
    Site → ℕ → ℕ → ℕ → ℕ → ℕ → Bool → Option Items → ℕ → Call (Unit {0})
unfolding update_resource_estimate create_historical_estimates
resource_update site fuel now month year resource is_created none created = pure tt
resource_update site fuel now month year resource is_created (some configuration) created = do
  update_resource_estimate site now month year resource configuration
  if is_created
      then create_historical_estimates site resource configuration created fuel month year
      else pure tt

-- `resource_quota_update`
unfoldable pub resource_quota_update : Site → ℕ → ℕ → ℕ → ℕ → Option Items → Call (Unit {0})
unfolding update_resource_estimate
resource_quota_update site now month year resource none = pure tt
resource_quota_update site now month year resource (some configuration) =
    update_resource_estimate site now month year resource configuration >> pure tt

unfoldable pub delete_estimate : ℕ → Db → Db
delete_estimate id db = record db { estimates = filter (λ r. not (r.id == id)) db.estimates }

-- The loop of `_resource_unlink`, over the estimates that the query gave.
unfoldable pub unlink_each : Site → List Estimate → Db → Db
unfolding update_ancestors_total delete_estimate
unlink_each site [] db = db
unlink_each site (e ∷ es) db =
    unlink_each site es (delete_estimate e.id (update_ancestors_total site (pos 0 -ℤ e.total) e db))

unfoldable pub resource_unlink : Site → Bool → ℕ → Db → Db
unfolding unlink_each
resource_unlink site is_registered resource db =
    if is_registered
    then unlink_each site (filter (λ e. e.scope == resource) db.estimates) db
    else db

-- `_resource_deletion`: the configuration becomes empty.
unfoldable pub resource_deletion : Site → ℕ → ℕ → ℕ → Bool → ℕ → Call (Unit {0})
unfolding update_resource_estimate
resource_deletion site now month year false resource = pure tt
resource_deletion site now month year true resource =
    update_resource_estimate site now month year resource [] >> pure tt

-- The children of an estimate, and `collect_children`, on the depth of the estimates.
unfoldable pub children : Db → ℕ → List ℕ
children db id = map (λ r. r.id) (filter (λ r. mem id (db.parents r.id)) db.estimates)

unfoldable pub collect_children : Db → ℕ → ℕ → List ℕ
unfolding children flat_map
collect_children db zero id = []
collect_children db (suc n) id = flat_map (λ c. c ∷ collect_children db n c) (children db id)

-- `_customer_deletion`: `get_descendants` is the set of what `collect_children` gives.
unfoldable pub delete_each : List ℕ → Db → Db
unfolding delete_estimate
delete_each [] db = db
delete_each (id ∷ ids) db = delete_each ids (delete_estimate id db)

unfoldable pub customer_deletion : Site → List Estimate → Db → Db
unfolding collect_children delete_each
customer_deletion site [] db = db
customer_deletion site (e ∷ es) db =
    customer_deletion site es (delete_each (collect_children db site.depth e.id) db)
