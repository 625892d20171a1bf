-- ===== src/Prelude/Lists.antt =====
-- Lists over the native numbers, with Boolean tests: Python's `any`, `all`, `in` and `filter`.
use Prim.Native.Nat.{ℕ, suc, ◌+◌}
use mathlib.Core.Bool.{Bool, true, false, ◌&&◌, ◌||◌}
use mathlib.Core.Option.{Option, none, some}
use mathlib.Core.Path.{◌≡◌, refl}
use mathlib.Core.List.{List, [], ◌∷◌, ◌++◌}
use native.Mathlib.Omega.{arith}
use waldur_core.Prelude.Tests.{◌==◌, if◌then◌else◌}

module _ {ℓ} {A : Type ℓ} where
  abbrev pub length : List A → ℕ
  length [] = 0
  length (x ∷ xs) = suc (length xs)

  unfoldable pub any : (A → Bool) → List A → Bool
  any p [] = false
  any p (x ∷ xs) = p x || any p xs

  unfoldable pub all : (A → Bool) → List A → Bool
  all p [] = true
  all p (x ∷ xs) = p x && all p xs

  -- `[x for x in xs if p(x)]` and `queryset.filter(p)`.
  unfoldable pub filter : (A → Bool) → List A → List A
  filter p [] = []
  filter p (x ∷ xs) = let rest = filter p xs in if p x then x ∷ rest else rest

  -- `queryset.filter(p).first()`
  unfoldable pub find : (A → Bool) → List A → Option A
  find p [] = none
  find p (x ∷ xs) = if p x then some x else find p xs

  unfoldable pub count : (A → Bool) → List A → ℕ
  count p [] = 0
  count p (x ∷ xs) = if p x then suc (count p xs) else count p xs

  -- A predicate that holds of every item.
  abbrev pub All {κ} : (A → Type κ) → List A → Type κ
  All P [] = Unit
  All P (x ∷ xs) = P x × All P xs

-- `n in xs`
unfoldable pub mem : ℕ → List ℕ → Bool
mem n [] = false
mem n (x ∷ xs) = n == x || mem n xs

module _ {ℓ} {A : Type ℓ} (p : A → Bool) where
  pub any-append : (xs ys : List A) → any p (xs ++ ys) ≡ (any p xs || any p ys)
  unfolding any
  any-append [] ys = refl
  any-append (x ∷ xs) ys = ground (arith, any-append xs ys)

  pub any_ext : (q : A → Bool) → ((x : A) → p x ≡ q x) → (xs : List A) → any p xs ≡ any q xs
  unfolding any
  any_ext q h [] = refl
  any_ext q h (x ∷ xs) = ground (arith, h x, any_ext q h xs)

  pub any-find : (xs : List A) (a : A) → find p xs ≡ some a → any p xs ≡ true
  unfolding any find
  any-find [] a e = cc
  any-find (x ∷ xs) a e = ground (arith, any-find xs a)

  pub any-find-none : (xs : List A) → find p xs ≡ none → any p xs ≡ false
  unfolding any find
  any-find-none [] e = refl
  any-find-none (x ∷ xs) e = ground (arith, any-find-none xs)

  pub count-append : (xs ys : List A) → count p (xs ++ ys) ≡ count p xs + count p ys
  unfolding count
  count-append [] ys = omega arith
  count-append (x ∷ xs) ys = ground (arith, count-append xs ys)

  pub count-none : (xs : List A) → any p xs ≡ false → count p xs ≡ 0
  unfolding any count
  count-none [] e = refl
  count-none (x ∷ xs) e = ground (arith, count-none xs)

  pub any_of_count : (xs : List A) → count p xs ≡ 0 → any p xs ≡ false
  unfolding any count
  any_of_count [] e = refl
  any_of_count (x ∷ xs) e = ground (arith, any_of_count xs)
