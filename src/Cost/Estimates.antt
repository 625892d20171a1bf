-- ===== src/Cost/Estimates.antt =====
-- `PriceEstimate` and `ConsumptionDetailsQuerySet` of waldur_core/cost_tracking/models.py and
-- managers.py, and the signal handlers of cost_tracking/handlers.py. A row of an estimate carries
-- its consumption details; the parents are the table between estimates.
pub mod Totals
pub mod Summed
use waldur_core.Prelude.{
  ℕ, zero, suc, ◌+◌, ◌-◌, Bool, true, false, not, ◌&&◌, ◌||◌, Option, none, some, List, [], ◌∷◌,
  ◌++◌, Method, Outcome, returned, raised, pure, raise, raise_if, gets, modify, ◌>>=◌, ◌>>◌, map,
  filter, find, mem, is_some, if◌then◌else◌, ltb, ◌==◌,
}
use waldur_core.Prelude.Int.{ℤ, pos, ◌+ℤ◌, ◌-ℤ◌}
use waldur_core.Core.Ancestors.{get_ancestors, flat_map}
use waldur_core.Cost.Consumption.{
  ConsumptionDetails, Items, update_configuration, get_consumed, get_price,
}
use waldur_core.Cost.Consumption

-- An estimate of a scope for a month, and its consumption details. `has_scope` is false once the
-- scope is deleted.
pub record Estimate : Type 0 where
  pub id : ℕ
  pub scope : ℕ
  pub month : ℕ
  pub year : ℕ
  pub is_resource : Bool
  pub has_scope : Bool
  pub total : ℤ
  pub consumed : ℤ
  pub details : Option ConsumptionDetails

pub record Db : Type 0 where
  pub estimates : List Estimate
  pub parents : ℕ → List ℕ
  pub next_id : ℕ

pub data Error : Type 0 where
  does_not_exist integrity not_updatable no_details : Error
  consumption : Consumption.Error → Error

abbrev pub Call : Type 0 → Type 0
Call A = Method Db Error A

-- What the estimates read elsewhere: the bounds of a month, given as year and month, the parents of a
-- scope, the prices for a resource, and how deep the graphs of scopes and estimates are.
pub record Site : Type 0 where
  pub month_start : ℕ → ℕ → ℕ
  pub month_end : ℕ → ℕ → ℕ
  pub scope_parents : ℕ → List ℕ
  pub is_resource_scope : ℕ → Bool
  pub prices : ℕ → Items
  pub depth : ℕ

unfoldable pub is_for : ℕ → ℕ → ℕ → Estimate → Bool
is_for scope month year e = e.scope == scope && e.month == month && e.year == year

unfoldable pub update_estimate : ℕ → (Estimate → Estimate) → Db → Db
update_estimate id f db = record db {
  estimates = map (λ r. if r.id == id then f r else r) db.estimates;
}

-- `save(update_fields=['total'])`
unfoldable pub save_total : ℕ → ℤ → Db → Db
unfolding update_estimate
save_total id total = update_estimate id (λ r. record r { total = total })

unfoldable pub save_details : ℕ → ConsumptionDetails → Db → Db
unfolding update_estimate
save_details id details = update_estimate id (λ r. record r { details = some details })

unfoldable pub total_at : ℕ → Db → Option ℤ
total_at id db = elim (find (λ r. r.id == id) db.estimates) [ none ↦ none | some r ↦ some r.total ]

unfoldable pub details_at : ℕ → Db → Option ConsumptionDetails
details_at id db = elim (find (λ r. r.id == id) db.estimates) [ none ↦ none | some r ↦ r.details ]

-- `get_previous`
unfoldable pub previous_month : ℕ → ℕ → ℕ × ℕ
previous_month month year = if month == 1 then (12, year - 1) else (month - 1, year)

unfoldable pub get_previous : Estimate → Db → Option Estimate
unfolding previous_month is_for
get_previous e db =
    let (month, year) = previous_month e.month e.year in
    find (is_for e.scope month year) db.estimates

unfoldable pub load_next : ℕ → Option ℤ → List (ℕ × ℤ) → List (ℕ × ℤ)
load_next id none loaded = loaded
load_next id (some total) loaded = (id, total) ∷ loaded

-- `get_ancestors` loads an object for each item of its list, with the total that the row has.
unfoldable pub load_totals : List ℕ → Db → List (ℕ × ℤ)
unfolding total_at load_next
load_totals [] db = []
load_totals (id ∷ ids) db = load_next id (total_at id db) (load_totals ids db)

-- `ancestor.total += diff` and its save, for each object.
unfoldable pub add_to_each : ℤ → List (ℕ × ℤ) → Db → Db
unfolding save_total
add_to_each diff [] db = db
add_to_each diff ((id, total) ∷ loaded) db =
    add_to_each diff loaded (save_total id (total +ℤ diff) db)

-- `update_ancestors_total`
unfoldable pub update_ancestors_total : Site → ℤ → Estimate → Db → Db
unfolding get_ancestors load_totals add_to_each
update_ancestors_total site diff e db =
    add_to_each diff (load_totals (get_ancestors db.parents site.depth e.id) db) db

-- `_check_is_updatable` on the details that the database has, and whether the estimate is of no
-- resource that is there.
unfoldable pub checked_details : Option ConsumptionDetails → Bool → Call ConsumptionDetails
checked_details none unrelated = raise not_updatable
checked_details (some d) true = raise not_updatable
checked_details (some d) false = pure d

unfoldable pub check_is_updatable : Estimate → Call ConsumptionDetails
unfolding details_at checked_details
check_is_updatable e db =
    checked_details (details_at e.id db) (not e.is_resource || not e.has_scope) db

-- A method of the details, whose errors are those of the caller.
unfoldable pub on_details : {A : Type 0} → Outcome Consumption.Error A → Call A
on_details (returned a) = pure a
on_details (raised e) = raise (consumption e)

-- The rest of `update_total`, once the consumption is calculated.
unfoldable pub set_total :
    Site → Bool → Estimate → Outcome Consumption.Error Items → Call (Unit {0})
unfolding on_details save_total update_ancestors_total get_price
set_total site update_ancestors e result = do
  consumed ← on_details result
  let new_total = get_price (site.prices e.scope) consumed
  modify (save_total e.id new_total)
  modify
      (if update_ancestors then update_ancestors_total site (new_total -ℤ e.total) e else λ db. db)

-- `update_total`, of an object that was just read.
unfoldable pub update_total : Site → Bool → Estimate → Call (Unit {0})
unfolding check_is_updatable set_total get_consumed
update_total site update_ancestors e = do
  d ← check_is_updatable e
  set_total site update_ancestors e (get_consumed (site.month_end e.year e.month) d).0

-- `update_consumed`, at a moment.
unfoldable pub update_consumed : Site → ℕ → Estimate → Call (Unit {0})
unfolding check_is_updatable on_details update_estimate get_consumed get_price
update_consumed site now e = do
  d ← check_is_updatable e
  consumed ← on_details (get_consumed now d).0
  modify
      (update_estimate e.id (λ r. record r { consumed = get_price (site.prices e.scope) consumed }))

-- A new row of `PriceEstimate`.
unfoldable pub insert_estimate : Site → ℕ → ℕ → ℕ → Call Estimate
insert_estimate site scope month year db =
    let e : Estimate = record {
      id = db.next_id;
      scope = scope;
      month = month;
      year = year;
      is_resource = site.is_resource_scope scope;
      has_scope = true;
      total = pos 0;
      consumed = pos 0;
      details = none;
    } in
    pure e (record db { estimates = db.estimates ++ e ∷ []; next_id = suc db.next_id })

-- `get_or_create(scope=scope, month=month, year=year)`
unfoldable pub get_or_create : Site → ℕ → ℕ → ℕ → Call (Estimate × Bool)
unfolding is_for insert_estimate
get_or_create site scope month year db = elim (find (is_for scope month year) db.estimates) [
  | some e ↦ pure (e, false) db
  | none ↦ (insert_estimate site scope month year >>= λ e. pure (e, true)) db
]

-- `self.parents.add(parent)`
unfoldable pub add_parent : ℕ → ℕ → Db → Db
add_parent id parent db = record db {
  parents = λ k.
      if k == id && not (mem parent (db.parents k))
      then db.parents k ++ parent ∷ []
      else db.parents k;
}

-- The loop of `create_ancestors`; the recursive call is an argument.
unfoldable pub create_parents :
    Site → (Estimate → Call (Unit {0})) → Estimate → List ℕ → Call (Unit {0})
unfolding get_or_create add_parent
create_parents site create e [] = pure tt
create_parents site create e (scope ∷ scopes) = do
  (parent, created) ← get_or_create site scope e.month e.year
  modify (add_parent e.id parent.id)
  if created then create parent else pure tt
  create_parents site create e scopes

-- `create_ancestors`, on the depth of the scopes.
unfoldable pub create_ancestors : Site → ℕ → Estimate → Call (Unit {0})
unfolding create_parents
create_ancestors site zero e = pure tt
create_ancestors site (suc n) e =
    create_parents site (create_ancestors site n) e (site.scope_parents e.scope)
