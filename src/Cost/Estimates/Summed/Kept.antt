-- ===== src/Cost/Estimates/Summed/Kept.antt =====
-- What writes to the totals of estimates leave alone.
use waldur_core.Prelude.{
  ℕ, ◌≤◌, ◌≡◌, refl, ◌∙◌, ap, Bool, true, ◌&&◌, not, Option, none, some, List, [], ◌∷◌, arith, map,
  mem, all, count, if◌then◌else◌, ◌==◌,
}
use waldur_core.Prelude.Int.{ℤ, ◌+ℤ◌}
use waldur_core.Core.Ancestors.{get_ancestors}
use waldur_core.Cost.Estimates.{
  Estimate, Db, Site, update_estimate, save_total, total_at, load_next, load_totals, add_to_each,
}
use waldur_core.Cost.Estimates.Summed.{sum_below, is_leaf, sum_below-other}

abbrev pub is_no_resource : ℕ → Estimate → Bool
is_no_resource id r = not (r.id == id && r.is_resource)

abbrev pub above : Site → Db → ℕ → List ℕ
above site db = get_ancestors db.parents site.depth

-- For the ancestors `f` of each estimate: a row for each number, and in each estimate that is not of a
-- resource the sum of the totals below it.
pub record IsSummedBy (f : ℕ → List ℕ) (db : Db) : Type 0 where
  pub one_row : (id : ℕ) → count (λ r. r.id == id) db.estimates ≤ 1
  pub leaves : (x : ℕ) → all (is_leaf f x) db.estimates ≡ true
  pub summed :
      (k : ℕ) (t : ℤ)
      → all (is_no_resource k) db.estimates ≡ true
      → total_at k db ≡ some t
      → t ≡ sum_below f k db.estimates

abbrev pub IsSummed : Site → Db → Type 0
IsSummed site db = IsSummedBy (above site db) db

pub and_left : (a b : Bool) → (a && b) ≡ true → a ≡ true
and_left a b h = ground (arith, h)

pub and_right : (a b : Bool) → (a && b) ≡ true → b ≡ true
and_right a b h = ground (arith, h)

module _ (id : ℕ) (t : ℤ) where
  abbrev pub with_total : Estimate → Estimate
  with_total r = if r.id == id then record r { total = t } else r

  pub all-with_total :
      (p : Estimate → Bool)
      → ((r : Estimate) (u : ℤ) → p (record r { total = u }) ≡ p r)
      → (rows : List Estimate) → all p (map with_total rows) ≡ all p rows
  unfolding all
  all-with_total p h [] = refl
  all-with_total p h (r ∷ rows) = ground (arith, all-with_total p h rows, h r t)

  pub count-with_total :
      (k : ℕ) (rows : List Estimate)
      → count (λ r. r.id == k) (map with_total rows) ≡ count (λ r. r.id == k) rows
  unfolding count
  count-with_total k [] = refl
  count-with_total k (r ∷ rows) = ground (arith, count-with_total k rows)

pub leaf_row :
    (f : ℕ → List ℕ) (x id : ℕ) (rows : List Estimate)
    → mem id (f x) ≡ true
    → all (is_leaf f x) rows ≡ true
    → all (is_no_resource id) rows ≡ true
unfolding all is_leaf
leaf_row f x id [] m h = refl
leaf_row f x id (r ∷ rows) m h =
    ground (arith, m, h, leaf_row f x id rows, λ (e : r.id ≡ id). ap (λ (i : ℕ). mem i (f x)) e)

pub all_of :
    (p : ℕ → Bool) (ids : List ℕ) → ((i : ℕ) → mem i ids ≡ true → p i ≡ true) → all p ids ≡ true
unfolding all mem
all_of p [] h = refl
all_of p (i ∷ ids) h = ground (arith, h i, all_of p ids (λ j m. h j (ground (arith, m))))

module _ (f : ℕ → List ℕ) (x : ℕ) (diff : ℤ) (before : Db) where
  -- What the writes to the ancestors leave alone.
  pub record Kept (db after : Db) : Type 0 where
    pub same_parents : after.parents ≡ db.parents
    pub same_count :
        (k : ℕ) → count (λ r. r.id == k) after.estimates ≡ count (λ r. r.id == k) db.estimates
    pub same_all :
        (p : Estimate → Bool)
        → ((r : Estimate) (u : ℤ) → p (record r { total = u }) ≡ p r)
        → all p after.estimates ≡ all p db.estimates
    pub same_sum : (k : ℕ) → sum_below f k after.estimates ≡ sum_below f k db.estimates

  Kept-trans : (db after later : Db) → Kept db after → Kept after later → Kept db later
  Kept-trans db after later u v = record {
    same_parents = v.same_parents ∙ u.same_parents;
    same_count = λ k. v.same_count k ∙ u.same_count k;
    same_all = λ p h. v.same_all p h ∙ u.same_all p h;
    same_sum = λ k. v.same_sum k ∙ u.same_sum k;
  }

  pub Kept-save_total :
      (id : ℕ) (t : ℤ) (db : Db)
      → mem id (f x) ≡ true
      → all (is_leaf f x) db.estimates ≡ true
      → Kept db (save_total id t db)
  unfolding save_total update_estimate
  Kept-save_total id t db m h = record {
    same_parents = refl;
    same_count = λ k. count-with_total id t k db.estimates;
    same_all = λ p q. all-with_total id t p q db.estimates;
    same_sum = λ k. sum_below-other f k id t db.estimates (leaf_row f x id db.estimates m h);
  }

  pub Kept-add_to_each :
      (ids : List ℕ) (db : Db)
      → all (λ i. mem i (f x)) ids ≡ true
      → all (is_leaf f x) db.estimates ≡ true
      → Kept db (add_to_each diff (load_totals ids before) db)
  unfolding add_to_each load_totals all is_leaf
  Kept-add_to_each [] db m h = record {
    same_parents = refl;
    same_count = λ k. refl;
    same_all = λ p q. refl;
    same_sum = λ k. refl;
  }
  Kept-add_to_each (id ∷ ids) db m h =
      go (total_at id before) (λ after. Kept-add_to_each ids after (and_right (mem id (f x)) _ m))
    where
      go :
          (o : Option ℤ)
          → ((after : Db)
              → all (is_leaf f x) after.estimates ≡ true
              → Kept after (add_to_each diff (load_totals ids before) after))
          → Kept db (add_to_each diff (load_next id o (load_totals ids before)) db)
      go none rest = rest db h
      go (some t) rest =
          let saved = Kept-save_total id (t +ℤ diff) db (and_left (mem id (f x)) _ m) h in
          Kept-trans db (save_total id (t +ℤ diff) db)
            (add_to_each diff (load_totals ids before) (save_total id (t +ℤ diff) db)) saved
            (rest (save_total id (t +ℤ diff) db) (saved.same_all (is_leaf f x) (λ r u. refl) ∙ h))
