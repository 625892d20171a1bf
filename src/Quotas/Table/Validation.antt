-- ===== src/Quotas/Table/Validation.antt =====
-- `validate_quota_change` against the additions that it is asked about.
use text.Mathlib.Text.{◌==◌ as str_eq}
use waldur_core.Prelude.{
  ℕ, ◌≡◌, refl, Bool, true, false, not, ◌&&◌, Option, none, some, List, [], ◌∷◌, String, arith,
  ◌==◌, all, if◌then◌else◌, Bool-cases, Option-cases, inl, inr, Outcome, returned, raised, pure,
  continue, sym, ap, ◌∙◌, ◌>>◌,
}
use waldur_core.Prelude.Int.{ℤ}
use waldur_core.Quotas.Table.{
  Quota, Table, Call, Error, is_at, get, write, is_exceeded, add_quota_usage, exceeded_names,
  raise_errors, validate_quota_change,
}
use waldur_core.Quotas.Table.Laws.{
  add_quota_usage-refused, add_quota_usage-made, add_quota_usage-missing, get-write_other,
}

abbrev pub Deltas : Type 0
Deltas = List (String × ℤ)

-- The keys of a dictionary are different.
unfoldable pub is_fresh : String → Deltas → Bool
is_fresh name deltas = all (λ d. not (str_eq d.0 name)) deltas

unfoldable pub is_dict : Deltas → Bool
unfolding is_fresh
is_dict [] = true
is_dict (d ∷ ds) = is_fresh d.0 ds && is_dict ds

-- All additions of a change, with validation.
unfoldable pub add_all : ℕ → Deltas → Call (Unit {0})
add_all scope [] qs = pure tt qs
add_all scope ((name, delta) ∷ ds) qs =
    (add_quota_usage false true scope name delta >> add_all scope ds) qs

abbrev pub is_returned {ℓ κ} : {E : Type κ} {A : Type ℓ} → Outcome E A → Bool
is_returned (returned a) = true
is_returned (raised e) = false

unfoldable pub clears : Option Quota → ℤ → Bool → Bool
clears none delta rest = false
clears (some q) delta rest = not (is_exceeded (some delta) none q) && rest

-- The change has no errors: every quota is there, and none would be exceeded.
unfoldable pub is_clear : ℕ → Deltas → Table → Bool
unfolding clears
is_clear scope [] qs = true
is_clear scope ((name, delta) ∷ ds) qs = clears (get scope name qs) delta (is_clear scope ds qs)

module _ (name : String) where
  fresh_rest :
      (n : String) (d : ℤ) (ds : Deltas)
      → is_fresh name ((n, d) ∷ ds) ≡ true
      → is_fresh name ds ≡ true
  unfolding is_fresh all
  fresh_rest n d ds h = ground arith

  fresh_other :
      (scope : ℕ) (n : String) (d : ℤ) (ds : Deltas)
      → is_fresh name ((n, d) ∷ ds) ≡ true
      → (scope == scope && str_eq n name) ≡ false
  unfolding is_fresh all
  fresh_other scope n d ds h = ground arith

dict_rest : (n : String) (d : ℤ) (ds : Deltas) → is_dict ((n, d) ∷ ds) ≡ true → is_dict ds ≡ true
unfolding is_dict
dict_rest n d ds h = ground arith

dict_fresh :
    (n : String) (d : ℤ) (ds : Deltas) → is_dict ((n, d) ∷ ds) ≡ true → is_fresh n ds ≡ true
unfolding is_dict
dict_fresh n d ds h = ground arith

is_clear-write :
    (scope : ℕ) (name : String) (usage : ℤ) (qs : Table) (ds : Deltas)
    → is_fresh name ds ≡ true
    → is_clear scope ds (write scope name (λ r. record r { usage = usage }) qs)
      ≡ is_clear scope ds qs
unfolding is_clear is_fresh is_at
is_clear-write scope name usage qs [] h = refl
is_clear-write scope name usage qs ((n, d) ∷ ds) h =
    rw (kept, is_clear-write scope name usage qs ds (fresh_rest name n d ds h)) refl
  where
    kept : get scope n (write scope name (λ r. record r { usage = usage }) qs) ≡ get scope n qs
    kept =
        get-write_other scope name (λ r. record r { usage = usage }) (λ s m q. refl) scope n
          (fresh_other name scope n d ds h) qs

abbrev is_accepted : Outcome Error (List String) → Bool
is_accepted (returned []) = true
is_accepted (returned (n ∷ ns)) = false
is_accepted (raised e) = false

accepts_one :
    (b : Bool) (name : String) (r : Outcome Error (List String)) (qs : Table)
    → is_accepted (continue {S = Table} r (λ rest. pure (if b then name ∷ rest else rest)) qs).0
      ≡ (not b && is_accepted r)
accepts_one true name (returned ns) qs = refl
accepts_one true name (raised e) qs = refl
accepts_one false name (returned ns) qs = refl
accepts_one false name (raised e) qs = refl

accepts_all :
    (r : Outcome Error (List String)) (qs : Table)
    → is_returned (continue r (raise_errors true) qs).0 ≡ is_accepted r
unfolding raise_errors
accepts_all (returned []) qs = refl
accepts_all (returned (n ∷ ns)) qs = refl
accepts_all (raised e) qs = refl

-- The list of errors is empty exactly if the change is clear.
exceeded_names-clear :
    (scope : ℕ) (ds : Deltas) (qs : Table)
    → is_accepted (exceeded_names scope ds qs).0 ≡ is_clear scope ds qs
unfolding is_clear exceeded_names
exceeded_names-clear scope [] qs = refl
exceeded_names-clear scope ((n, d) ∷ ds) qs = elim (Option-cases (get scope n qs)) [
  | inl missing ↦ rw (missing, exceeded_names) refl
  | inr (q, found) ↦
      rw (found, exceeded_names)
        (accepts_one (is_exceeded (some d) none q) n (exceeded_names scope ds qs).0 _
          ∙ ap (λ c. not (is_exceeded (some d) none q) && c) (exceeded_names-clear scope ds qs))
]

add_all-clear :
    (scope : ℕ) (ds : Deltas) (qs : Table)
    → is_dict ds ≡ true
    → is_returned (add_all scope ds qs).0 ≡ is_clear scope ds qs
unfolding add_all is_clear is_dict
add_all-clear scope [] qs h = refl
add_all-clear scope ((n, d) ∷ ds) qs h = elim (Option-cases (get scope n qs)) [
  | inl missing ↦ rw (add_quota_usage-missing false true scope n d qs missing, missing) refl
  | inr (q, found) ↦ elim (Bool-cases (is_exceeded (some d) none q)) [
    | inl over ↦
        rw (add_quota_usage-refused false true scope n d qs q found over, found, clears, over) refl
    | inr within ↦
        rw (add_quota_usage-made false true scope n d qs q found within, found, clears, within)
          (add_all-clear scope ds _ (dict_rest n d ds h)
            ∙ is_clear-write scope n _ qs ds (dict_fresh n d ds h))
  ]
]

-- For a dictionary of changes, validate_quota_change with raise_exception returns exactly if all
-- the additions, made one after another with validation, return.
pub validate_quota_change-add_all :
    (scope : ℕ) (ds : Deltas) (qs : Table)
    → is_dict ds ≡ true
    → is_returned (validate_quota_change scope ds true qs).0 ≡ is_returned (add_all scope ds qs).0
unfolding validate_quota_change
validate_quota_change-add_all scope ds qs h =
    accepts_all (exceeded_names scope ds qs).0 _
    ∙ exceeded_names-clear scope ds qs
    ∙ sym (add_all-clear scope ds qs h)
