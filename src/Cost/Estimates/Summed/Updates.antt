-- ===== src/Cost/Estimates/Summed/Updates.antt =====
-- `update_total` keeps the totals summed.
use mathlib.Core.Path.{subst}
use waldur_core.Prelude.{
  ℕ, ◌≤◌, ◌≡◌, refl, ◌∙◌, sym, ap, Bool, true, false, ◌&&◌, ◌||◌, not, Option, none, some, List, [],
  ◌∷◌, arith, find, mem, all, is_some, if◌then◌else◌, ◌==◌, ◌>>=◌, Outcome, returned, raised,
  Bool-cases, inl, inr,
}
use waldur_core.Prelude.Int.{ℤ, pos, ◌+ℤ◌, ◌-ℤ◌, +ℤ_zero}
use waldur_core.Core.Ancestors.{get_ancestors}
use waldur_core.Cost.Estimates.{
  Estimate, Db, Site, update_estimate, save_total, total_at, update_ancestors_total,
  check_is_updatable, checked_details, set_total, on_details, update_total, details_at,
}
use waldur_core.Cost.Consumption.{ConsumptionDetails, Items, get_consumed, get_price}
use waldur_core.Cost.Consumption
use waldur_core.Cost.Estimates.Totals.{
  increased, total_at-save_total, total_at-update_ancestors_total,
}
use waldur_core.Cost.Estimates.Summed.{sum_below, is_leaf, head_found, sum_below-saved}
use waldur_core.Cost.Estimates.Summed.Kept.{
  is_no_resource, above, IsSummed, IsSummedBy, all-with_total, count-with_total, and_left,
  and_right, all_of, Kept, Kept-add_to_each,
}

some_injective : (a b : ℤ) → some a ≡ some b → a ≡ b
some_injective a b e = ap (λ o. elim o [ none ↦ a | some x ↦ x ]) e

-- The two cases of an estimate: above the changed one, or not.
conclude :
    (b : Bool) (o : Option ℤ) (s u d : ℤ)
    → ((v : ℤ) → o ≡ some v → v ≡ s)
    → (if b then increased d o else o) ≡ some u
    → u ≡ s +ℤ (if b then d else pos 0)
unfolding increased
conclude true none s u d h e = cc
conclude false none s u d h e = cc
conclude true (some v) s u d h e = sym (some_injective _ _ e) ∙ ap (λ x. x +ℤ d) (h v refl)
conclude false (some v) s u d h e = sym (some_injective _ _ e) ∙ h v refl ∙ sym (+ℤ_zero s)

resource_row :
    (e : Estimate) (k : ℕ) → e.is_resource ≡ true → is_no_resource k e ≡ true → (e.id == k) ≡ false
resource_row e k h n = ground (arith, h, n)

other_row :
    (e : Estimate) (k : ℕ) (rows : List Estimate)
    → find (λ r. r.id == e.id) rows ≡ some e
    → e.is_resource ≡ true
    → all (is_no_resource k) rows ≡ true
    → (e.id == k) ≡ false
unfolding find all
other_row e k [] f h n = cc
other_row e k (r ∷ rows) f h n = elim (Bool-cases (r.id == e.id)) [
  | inl same ↦ resource_row e k h (
      subst (λ x. is_no_resource k x ≡ true) (head_found (λ x. x.id == e.id) r e rows same f)
        (and_left (is_no_resource k r) _ n))
  | inr other ↦ other_row e k rows (ground (arith, other, f)) h (and_right (is_no_resource k r) _ n)
]

-- The row of a resource estimate is no ancestor's, and its own total counts below its ancestors.
module _ (site : Site) (db : Db) (e : Estimate) (t : ℤ) where
  abbrev saved : Db
  saved = save_total e.id t db

  abbrev updated : Db
  updated = update_ancestors_total site (t -ℤ e.total) e saved

  Kept-updated :
      all (is_leaf (above site db) e.id) db.estimates ≡ true
      → Kept (above site db) e.id (t -ℤ e.total) saved saved updated
  unfolding update_ancestors_total save_total update_estimate is_leaf
  Kept-updated h =
      Kept-add_to_each (above site db) e.id (t -ℤ e.total) saved (above site db e.id) saved
        (all_of _ (above site db e.id) (λ i m. m))
        (all-with_total e.id t (is_leaf (above site db) e.id) (λ r u. refl) db.estimates ∙ h)

  pub IsSummed-updated :
      find (λ r. r.id == e.id) db.estimates ≡ some e
      → e.is_resource ≡ true
      → IsSummed site db
      → IsSummed site updated
  unfolding save_total update_estimate is_leaf
  IsSummed-updated f h s =
      subst (λ g. IsSummedBy g updated)
        (sym (ap (λ p. get_ancestors p site.depth) kept.same_parents))
        (record {
          one_row = λ id.
              subst (λ n. n ≤ 1)
                (sym (kept.same_count id ∙ count-with_total e.id t id db.estimates)) (s.one_row id);
          leaves = λ x. same (is_leaf (above site db) x) (λ r u. refl) ∙ s.leaves x;
          summed = λ k u n total.
              conclude (mem k (above site db e.id)) (total_at k db)
                (sum_below (above site db) k db.estimates) u (t -ℤ e.total)
                (λ v. s.summed k v (old k n))
                (ap (λ o. if mem k (above site db e.id) then increased (t -ℤ e.total) o else o)
                    (sym (unchanged k (other_row e k db.estimates f h (old k n))))
                  ∙ sym (total_at-update_ancestors_total site (t -ℤ e.total) e saved k)
                  ∙ total)
              ∙ sym (
                  kept.same_sum k
                  ∙ sum_below-saved (above site db) k e t db.estimates (s.one_row e.id) f h);
        })
    where
      kept : Kept (above site db) e.id (t -ℤ e.total) saved saved updated
      kept = Kept-updated (s.leaves e.id)

      same :
          (p : Estimate → Bool)
          → ((r : Estimate) (u : ℤ) → p (record r { total = u }) ≡ p r)
          → all p updated.estimates ≡ all p db.estimates
      same p q = kept.same_all p q ∙ all-with_total e.id t p q db.estimates

      old :
          (k : ℕ)
          → all (is_no_resource k) updated.estimates ≡ true
          → all (is_no_resource k) db.estimates ≡ true
      old k n = sym (same (is_no_resource k) (λ r u. refl)) ∙ n

      unchanged : (k : ℕ) → (e.id == k) ≡ false → total_at k saved ≡ total_at k db
      unchanged k other =
          total_at-save_total e.id k t db
          ∙ ap (λ b. if b && is_some (total_at k db) then some t else total_at k db) other

module _ (site : Site) (e : Estimate) (db : Db) where
  -- The state after the checks of `update_total`, by what they find.
  totalled : Option ConsumptionDetails → Bool → Outcome Consumption.Error Items → Db
  totalled none b r = db
  totalled (some d) true r = db
  totalled (some d) false (raised x) = db
  totalled (some d) false (returned items) =
      updated site db e (get_price (site.prices e.scope) items)

  outcome_of : Option ConsumptionDetails → Outcome Consumption.Error Items
  outcome_of none = returned []
  outcome_of (some d) = (get_consumed (site.month_end e.year e.month) d).0

  set_total-totalled :
      (d : ConsumptionDetails) (r : Outcome Consumption.Error Items)
      → (set_total site true e r db).1 ≡ totalled (some d) false r
  unfolding set_total on_details totalled
  set_total-totalled d (raised x) = refl
  set_total-totalled d (returned items) = refl

  checked-totalled :
      (o : Option ConsumptionDetails) (b : Bool)
      → ((checked_details o b >>= λ d.
            set_total site true e (get_consumed (site.month_end e.year e.month) d).0)
          db).1
        ≡ totalled o b (outcome_of o)
  unfolding checked_details totalled outcome_of
  checked-totalled none b = refl
  checked-totalled (some d) true = refl
  checked-totalled (some d) false =
      set_total-totalled d (get_consumed (site.month_end e.year e.month) d).0

  update_total-totalled :
      (update_total site true e db).1
      ≡ totalled
          (details_at e.id db)
          (not e.is_resource || not e.has_scope)
          (outcome_of (details_at e.id db))
  unfolding update_total check_is_updatable
  update_total-totalled =
      checked-totalled (details_at e.id db) (not e.is_resource || not e.has_scope)

  IsSummed-totalled :
      (o : Option ConsumptionDetails) (b : Bool) (r : Outcome Consumption.Error Items)
      → find (λ x. x.id == e.id) db.estimates ≡ some e
      → (b ≡ false → e.is_resource ≡ true)
      → IsSummed site db
      → IsSummed site (totalled o b r)
  unfolding totalled
  IsSummed-totalled none b r f h s = s
  IsSummed-totalled (some d) true r f h s = s
  IsSummed-totalled (some d) false (raised x) f h s = s
  IsSummed-totalled (some d) false (returned items) f h s =
      IsSummed-updated site db e (get_price (site.prices e.scope) items) f (h refl) s

  -- If each estimate has one row, no estimate of a resource is an ancestor, and every other total
  -- is the sum of the totals of the resource estimates below it, this is so after update_total of
  -- an object that is as its row, whether it raises or not.
  pub IsSummed-update_total :
      find (λ x. x.id == e.id) db.estimates ≡ some e
      → IsSummed site db
      → IsSummed site (update_total site true e db).1
  IsSummed-update_total f s = subst (IsSummed site) (sym update_total-totalled) (
      IsSummed-totalled (details_at e.id db) (not e.is_resource || not e.has_scope)
        (outcome_of (details_at e.id db)) f (λ h. ground (arith, h)) s)
