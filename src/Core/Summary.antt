-- ===== src/Core/Summary.antt =====
-- `SummaryQuerySet` of waldur_core/core/managers.py: the rows of several querysets as one. A queryset is
-- the list of its rows; what the database makes of a filter or an order is an argument, and so are the
-- value of an attribute, in lower case for a text, and the order of rows whose values are equal. The
-- heap is a list whose least entry is taken.
pub mod Weights
pub mod Least
pub mod Merged
pub mod Pages
use waldur_core.Prelude.{
  ℕ, zero, suc, ◌+◌, ◌-◌, Bool, true, false, not, ◌&&◌, Option, none, some, List, [], ◌∷◌, ◌++◌,
  String, map, length, if◌then◌else◌, ltb, leb, ◌==◌, count,
}

-- The querysets and `_order_by`: the name of an attribute, and whether it has a minus sign.
pub record Summary (A : Type 0) : Type 0 where
  pub querysets : List (List A)
  pub order : Option (String × Bool)

-- `Compared.__le__`; None comes first in ascending order.
unfoldable pub compared_le : Bool → Option ℕ → Option ℕ → Bool
compared_le reverse none b = not reverse
compared_le reverse (some a) none = reverse
compared_le reverse (some a) (some b) = if not reverse then ltb a b else leb b a

-- `Compared.__eq__`
unfoldable pub compared_eq : Option ℕ → Option ℕ → Bool
compared_eq none none = true
compared_eq none (some b) = false
compared_eq (some a) none = false
compared_eq (some a) (some b) = a == b

-- `__lt__` as `functools.total_ordering` makes it.
unfoldable pub compared_lt : Bool → Option ℕ → Option ℕ → Bool
unfolding compared_le compared_eq
compared_lt reverse a b = compared_le reverse a b && not (compared_eq a b)

-- A row of the heap: the current value of an iterator, and what the iterator has still to give.
pub record Entry (A : Type 0) : Type 0 where
  pub value : A
  pub rest : List A

module _ {A : Type 0} where
  -- `filter`, `exclude` and `distinct`, with what the database makes of each queryset.
  unfoldable pub filter_each : (List A → List A) → Summary A → Summary A
  filter_each f s = record s { querysets = map f s.querysets }

  -- `order_by`
  unfoldable pub order_by :
      (String → Bool → List A → List A) → String → Bool → Summary A → Summary A
  order_by sort field reverse s = record {
    querysets = map (sort field reverse) s.querysets;
    order = some (field, reverse);
  }

  -- `itertools.chain`
  unfoldable pub chain : List (List A) → List A
  chain [] = []
  chain (rows ∷ querysets) = rows ++ chain querysets

  -- `count` and `__len__`
  unfoldable pub total_count : List (List A) → ℕ
  total_count [] = 0
  total_count (rows ∷ querysets) = length rows + total_count querysets

  -- The entries of the iterators that are not empty.
  unfoldable pub start_heap : List (List A) → List (Entry A)
  start_heap [] = []
  start_heap ([] ∷ querysets) = start_heap querysets
  start_heap ((x ∷ rows) ∷ querysets) = record { value = x; rest = rows } ∷ start_heap querysets

  -- `heapreplace` with the next value of the iterator, or `heappop`.
  unfoldable pub advance : List A → List (Entry A) → List (Entry A)
  advance [] heap = heap
  advance (x ∷ rows) heap = record { value = x; rest = rows } ∷ heap

  module _ (attr : A → Option ℕ) (tie : A → A → Bool) (reverse : Bool) where
    -- The order of the tuples in the heap.
    unfoldable pub entry_lt : Entry A → Entry A → Bool
    unfolding compared_lt compared_eq
    entry_lt x y =
        if compared_eq (attr x.value) (attr y.value)
        then tie x.value y.value
        else compared_lt reverse (attr x.value) (attr y.value)

    -- `heap[0]`, and the other entries.
    unfoldable pub least : Entry A → List (Entry A) → Entry A × List (Entry A)
    unfolding entry_lt
    least best [] = (best, [])
    least best (e ∷ heap) =
        let is_less = entry_lt e best in
        let (first, others) = least (if is_less then e else best) heap in
        (first, (if is_less then best else e) ∷ others)

    -- `while heap`, on the number of rows that are left.
    unfoldable pub merge_loop : ℕ → List (Entry A) → List A
    unfolding least advance
    merge_loop zero heap = []
    merge_loop (suc n) [] = []
    merge_loop (suc n) (e ∷ heap) =
        let (first, others) = least e heap in first.value ∷ merge_loop n (advance first.rest others)

    -- `_merge`
    unfoldable pub merge : List (List A) → List A
    unfolding merge_loop start_heap total_count
    merge querysets = merge_loop (total_count querysets) (start_heap querysets)

  unfoldable pub chained_by :
      (String → A → Option ℕ) → (A → A → Bool) → Option (String × Bool) → List (List A) → List A
  unfolding merge chain
  chained_by attrs tie none querysets = chain querysets
  chained_by attrs tie (some (field, reverse)) querysets = merge (attrs field) tie reverse querysets

  -- `_get_chained_querysets`, with the attribute of each name.
  unfoldable pub chained_querysets : (String → A → Option ℕ) → (A → A → Bool) → Summary A → List A
  unfolding chained_by
  chained_querysets attrs tie s = chained_by attrs tie s.order s.querysets

  -- What an iterator gives after some values, and its first values.
  unfoldable pub skip : ℕ → List A → List A
  skip zero rows = rows
  skip (suc n) [] = []
  skip (suc n) (x ∷ rows) = skip n rows

  unfoldable pub take_rows : ℕ → List A → List A
  take_rows zero rows = []
  take_rows (suc n) [] = []
  take_rows (suc n) (x ∷ rows) = x ∷ take_rows n rows

  -- `itertools.islice`
  unfoldable pub islice : ℕ → Option ℕ → List A → List A
  unfolding skip take_rows
  islice start none rows = skip start rows
  islice start (some stop) rows = take_rows (stop - start) (skip start rows)

  unfoldable pub first_of : List A → Option A
  first_of [] = none
  first_of (x ∷ rows) = some x

  -- `__getitem__` with a slice, and with an index: there is no result where it raises IndexError.
  unfoldable pub get_slice :
      (String → A → Option ℕ) → (A → A → Bool) → ℕ → Option ℕ → Summary A → List A
  unfolding islice chained_querysets
  get_slice attrs tie start stop s = islice start stop (chained_querysets attrs tie s)

  unfoldable pub get_item : (String → A → Option ℕ) → (A → A → Bool) → ℕ → Summary A → Option A
  unfolding islice chained_querysets first_of
  get_item attrs tie n s = first_of (islice n (some (n + 1)) (chained_querysets attrs tie s))
