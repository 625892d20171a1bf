-- ===== src/Tests/SummaryTests.antt =====
-- Summaries of querysets at concrete inputs.
use waldur_core.Prelude.{
  ℕ, zero, suc, ◌≡◌, refl, Bool, true, false, ◌&&◌, Option, none, some, List, [], ◌∷◌, String,
  arith, count, all, if◌then◌else◌, ltb, ◌∙◌,
}
use waldur_core.Core.Summary.{
  Summary, chain, chained_querysets, order_by, total_count, get_slice, compared_lt, compared_eq,
  compared_le,
}
use waldur_core.Core.Summary.Weights.{in_order}
use waldur_core.Core.Summary.Least.{is_ordered, le_rows, le_rows_trans}
use waldur_core.Core.Summary.Pages.{
  Sorts, chained_querysets-order_by, read_pages, read_pages-chained_querysets,
}

-- Rows that are their own values of every attribute; 0 has none.
abbrev value_of : ℕ → Option ℕ
value_of zero = none
value_of (suc n) = some n

abbrev attrs : String → ℕ → Option ℕ
attrs field = value_of

-- A database that orders by insertion.
put_row : Bool → ℕ → List ℕ → List ℕ
put_row reverse x [] = x ∷ []
put_row reverse x (y ∷ rows) =
    let rest = put_row reverse x rows in
    if le_rows value_of reverse x y then x ∷ y ∷ rows else y ∷ rest

sort_rows : String → Bool → List ℕ → List ℕ
unfolding put_row
sort_rows field reverse [] = []
sort_rows field reverse (x ∷ rows) = put_row reverse x (sort_rows field reverse rows)

le_rows-total :
    (reverse : Bool) (x y : ℕ)
    → le_rows value_of reverse x y ≡ false
    → le_rows value_of reverse y x ≡ true
unfolding le_rows in_order compared_lt compared_le compared_eq
le_rows-total reverse x y h = ground arith

all-put_row :
    (p : ℕ → Bool) (reverse : Bool) (x : ℕ) (rows : List ℕ)
    → all p (put_row reverse x rows) ≡ (p x && all p rows)
unfolding all put_row
all-put_row p reverse x [] = refl
all-put_row p reverse x (y ∷ rows) = ground (arith, all-put_row p reverse x rows)

all_trans :
    (reverse : Bool) (x y : ℕ) (rows : List ℕ)
    → le_rows value_of reverse x y ≡ true
    → all (le_rows value_of reverse y) rows ≡ true
    → all (le_rows value_of reverse x) rows ≡ true
unfolding all
all_trans reverse x y [] h k = refl
all_trans reverse x y (z ∷ rows) h k =
    ground (arith, all_trans reverse x y rows, le_rows_trans value_of reverse x y z)

is_ordered-put_row :
    (reverse : Bool) (x : ℕ) (rows : List ℕ)
    → is_ordered value_of reverse rows ≡ true
    → is_ordered value_of reverse (put_row reverse x rows) ≡ true
unfolding is_ordered put_row all
is_ordered-put_row reverse x [] h = refl
is_ordered-put_row reverse x (y ∷ rows) h = ground (
  arith,
  is_ordered-put_row reverse x rows,
  all_trans reverse x y rows,
  all-put_row (le_rows value_of reverse y) reverse x rows,
  le_rows-total reverse x y,
)

count-put_row :
    (p : ℕ → Bool) (reverse : Bool) (x : ℕ) (rows : List ℕ)
    → count p (put_row reverse x rows) ≡ count p (x ∷ rows)
unfolding count put_row
count-put_row p reverse x [] = refl
count-put_row p reverse x (y ∷ rows) = ground (arith, count-put_row p reverse x rows)

is_ordered-sort_rows :
    (field : String) (reverse : Bool) (rows : List ℕ)
    → is_ordered value_of reverse (sort_rows field reverse rows) ≡ true
unfolding sort_rows is_ordered
is_ordered-sort_rows field reverse [] = refl
is_ordered-sort_rows field reverse (x ∷ rows) =
    is_ordered-put_row reverse x (sort_rows field reverse rows)
      (is_ordered-sort_rows field reverse rows)

count-sort_rows :
    (field : String) (reverse : Bool) (p : ℕ → Bool) (rows : List ℕ)
    → count p (sort_rows field reverse rows) ≡ count p rows
unfolding sort_rows count
count-sort_rows field reverse p [] = refl
count-sort_rows field reverse p (x ∷ rows) =
    count-put_row p reverse x (sort_rows field reverse rows)
    ∙ ground (arith, count-sort_rows field reverse p rows)

sort_rows-Sorts : Sorts attrs sort_rows
sort_rows-Sorts = record { ordered = is_ordered-sort_rows; counted = count-sort_rows }

abbrev rows : Summary ℕ
rows = record { querysets = (5 ∷ 0 ∷ 7 ∷ []) ∷ [] ∷ (6 ∷ 1 ∷ []) ∷ []; order = none }

chained_querysets-order_by_example :
    (is_ordered value_of true
        (chained_querysets attrs (λ x y. ltb x y) (order_by sort_rows "name" true rows))
      ≡ true)
    × ((p : ℕ → Bool)
        → count p (chained_querysets attrs (λ x y. ltb x y) (order_by sort_rows "name" true rows))
          ≡ count p (chain rows.querysets))
chained_querysets-order_by_example =
    chained_querysets-order_by attrs (λ x y. ltb x y) sort_rows sort_rows-Sorts "name" true rows

read_pages-chained_querysets_example :
    read_pages attrs (λ x y. ltb x y) 2 5 0 rows ≡ chained_querysets attrs (λ x y. ltb x y) rows
unfolding total_count
read_pages-chained_querysets_example =
    read_pages-chained_querysets attrs (λ x y. ltb x y) 2 5 rows (omega arith) (omega arith)

-- Descending, with the row that has no value at the end.
descending :
    get_slice attrs (λ x y. ltb x y) 1 (some 5) (order_by sort_rows "name" true rows)
    ≡ 6 ∷ 5 ∷ 1 ∷ 0 ∷ []
unfolding get_slice order_by sort_rows le_rows in_order compared_lt compared_le compared_eq
descending = refl
