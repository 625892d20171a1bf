-- ===== src/Cost/Estimates/Totals.antt =====
-- `update_ancestors_total` on the totals of all estimates.
use waldur_core.Prelude.{
  ℕ, ◌≡◌, refl, ◌∙◌, ap, Bool, true, ◌&&◌, ◌||◌, Option, none, some, List, [], ◌∷◌, arith, map,
  find, mem, is_some, if◌then◌else◌, ◌==◌, ==_iff, Option-cases, inl, inr,
}
use waldur_core.Prelude.Int.{ℤ, ◌+ℤ◌}
use waldur_core.Core.Ancestors.{get_ancestors}
use waldur_core.Cost.Estimates.{
  Estimate, Db, Site, update_estimate, save_total, total_at, load_next, load_totals, add_to_each,
  update_ancestors_total,
}

unfoldable pub increased : ℤ → Option ℤ → Option ℤ
increased diff none = none
increased diff (some t) = some (t +ℤ diff)

abbrev found_total : ℕ → List Estimate → Option ℤ
found_total k rows = elim (find (λ r. r.id == k) rows) [ none ↦ none | some r ↦ some r.total ]

found-saved :
    (id k : ℕ) (t : ℤ) (rows : List Estimate)
    → found_total k (map (λ r. if r.id == id then record r { total = t } else r) rows)
      ≡ (if id == k && is_some (found_total k rows) then some t else found_total k rows)
unfolding find
found-saved id k t [] = ground arith
found-saved id k t (r ∷ rows) = ground (arith, found-saved id k t rows)

pub total_at-save_total :
    (id k : ℕ) (t : ℤ) (db : Db)
    → total_at k (save_total id t db)
      ≡ (if id == k && is_some (total_at k db) then some t else total_at k db)
unfolding total_at save_total update_estimate
total_at-save_total id k t db = found-saved id k t db.estimates

load_totals-none :
    (id : ℕ) (ids : List ℕ) (db : Db)
    → total_at id db ≡ none
    → load_totals (id ∷ ids) db ≡ load_totals ids db
unfolding load_totals load_next
load_totals-none id ids db e = ap (λ o. load_next id o (load_totals ids db)) e

load_totals-some :
    (id : ℕ) (ids : List ℕ) (db : Db) (t : ℤ)
    → total_at id db ≡ some t
    → load_totals (id ∷ ids) db ≡ (id, t) ∷ load_totals ids db
unfolding load_totals load_next
load_totals-some id ids db t e = ap (λ o. load_next id o (load_totals ids db)) e

shape :
    (b : Bool) (t : ℤ) (now before : Option ℤ)
    → is_some now ≡ is_some before
    → is_some (if b && is_some now then some t else now) ≡ is_some before
shape b t now before e = ground (arith, e)

module _ (diff : ℤ) (before : Db) (k : ℕ) where
  same_total : (id : ℕ) → (k == id) ≡ true → total_at k before ≡ total_at id before
  same_total id e = ap (λ i. total_at i before) ((==_iff k id).0 e)

  -- The conditionals that the two sides of the lemma come to.
  choice_none :
      (id : ℕ) (later : Bool) (now old : Option ℤ)
      → is_some now ≡ is_some old
      → ((k == id) ≡ true → old ≡ none)
      → (if later then increased diff old else now)
        ≡ (if k == id || later then increased diff old else now)
  unfolding increased
  choice_none id later none none e missing = ground arith
  choice_none id later none (some o) e missing = cc
  choice_none id later (some n) none e missing = cc
  choice_none id later (some n) (some o) e missing = ground (arith, missing)

  choice_some :
      (id : ℕ) (later : Bool) (t : ℤ) (now old : Option ℤ)
      → is_some now ≡ is_some old
      → ((k == id) ≡ true → old ≡ some t)
      → (if later
          then increased diff old
          else (if id == k && is_some now then some (t +ℤ diff) else now))
        ≡ (if k == id || later then increased diff old else now)
  unfolding increased
  choice_some id later t none none e there = ground (arith, there)
  choice_some id later t none (some o) e there = cc
  choice_some id later t (some n) none e there = cc
  choice_some id later t (some n) (some o) e there = ground (arith, there)

  total_at-add_to_each :
      (ids : List ℕ) (db : Db)
      → is_some (total_at k db) ≡ is_some (total_at k before)
      → total_at k (add_to_each diff (load_totals ids before) db)
        ≡ (if mem k ids then increased diff (total_at k before) else total_at k db)
  unfolding add_to_each mem load_totals
  total_at-add_to_each [] db e = refl
  total_at-add_to_each (id ∷ ids) db e = elim (Option-cases (total_at id before)) [
    | inl missing ↦ rw (load_totals-none id ids before missing) (
        total_at-add_to_each ids db e
        ∙ choice_none id (mem k ids) _ _ e (λ same. same_total id same ∙ missing))
    | inr (t, there) ↦ rw (load_totals-some id ids before t there) (
        total_at-add_to_each ids (save_total id (t +ℤ diff) db)
          (ap is_some (total_at-save_total id k (t +ℤ diff) db) ∙ shape (id == k) (t +ℤ diff) _ _ e)
        ∙ ap (λ o. if mem k ids then increased diff (total_at k before) else o)
            (total_at-save_total id k (t +ℤ diff) db)
        ∙ choice_some id (mem k ids) t _ _ e (λ same. same_total id same ∙ there))
  ]

-- Update_ancestors_total adds the difference once to the total of each ancestor, however often the
-- ancestor is in the list of get_ancestors, and leaves all other totals alone.
pub total_at-update_ancestors_total :
    (site : Site) (diff : ℤ) (e : Estimate) (db : Db) (k : ℕ)
    → total_at k (update_ancestors_total site diff e db) ≡ (
        if mem k (get_ancestors db.parents site.depth e.id)
        then increased diff (total_at k db)
        else total_at k db)
unfolding update_ancestors_total
total_at-update_ancestors_total site diff e db k =
    total_at-add_to_each diff db k (get_ancestors db.parents site.depth e.id) db refl
