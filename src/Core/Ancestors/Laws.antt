-- ===== src/Core/Ancestors/Laws.antt =====
-- `get_ancestors` against the ancestors of an object.
use waldur_core.Prelude.{
  ℕ, zero, suc, ◌<◌, ◌≡◌, refl, ◌∙◌, ap, sym, Bool, true, false, not, ◌&&◌, ◌||◌, List, [], ◌∷◌,
  ◌++◌, arith, filter, mem, Bool-cases, inl, inr, ◌⊎◌, ◌==◌, ◌↔◌, ==_iff,
}
use waldur_core.Core.Ancestors.{flat_map, get_ancestors}

mem-append : (a : ℕ) (xs ys : List ℕ) → mem a (xs ++ ys) ≡ (mem a xs || mem a ys)
unfolding mem
mem-append a [] ys = refl
mem-append a (x ∷ xs) ys = ground (arith, mem-append a xs ys)

mem-filter : (p : ℕ → Bool) (a : ℕ) (xs : List ℕ) → mem a (filter p xs) ≡ (mem a xs && p a)
unfolding mem filter
mem-filter p a [] = refl
mem-filter p a (x ∷ xs) = elim (Bool-cases (a == x)) [
  | inl same ↦ ground (arith, mem-filter p a xs, ap p ((==_iff a x).0 same))
  | inr other ↦ ground (arith, mem-filter p a xs)
]

or_cases : (a b : Bool) → (a || b) ≡ true → (a ≡ true) ⊎ (b ≡ true)
or_cases true b h = inl refl
or_cases false b h = inr h

or_right : (a b : Bool) → b ≡ true → (a || b) ≡ true
or_right a b h = ground (arith, h)

and_left : (a b : Bool) → (a && b) ≡ true → a ≡ true
and_left a b h = ground (arith, h)

and_both : (a b : Bool) → a ≡ true → b ≡ true → (a && b) ≡ true
and_both a b h k = ground (arith, h, k)

-- An item of the list of one of the objects.
mem-flat_map :
    (f : ℕ → List ℕ) (a : ℕ) (xs : List ℕ)
    → mem a (flat_map f xs) ≡ true
    → (x : ℕ) × (mem x xs ≡ true) × (mem a (f x) ≡ true)
unfolding flat_map mem
mem-flat_map f a [] h = absurd (ground (arith, h))
mem-flat_map f a (x ∷ xs) h = elim (or_cases _ _ (sym (mem-append a (f x) (flat_map f xs)) ∙ h)) [
  | inl here ↦ (x, ground arith, here)
  | inr there ↦ let (y, m, k) = mem-flat_map f a xs there in (y, ground (arith, m), k)
]

flat_map-mem :
    (f : ℕ → List ℕ) (a x : ℕ) (xs : List ℕ)
    → mem x xs ≡ true
    → mem a (f x) ≡ true
    → mem a (flat_map f xs) ≡ true
unfolding flat_map mem
flat_map-mem f a x [] h k = absurd (ground (arith, h))
flat_map-mem f a x (y ∷ ys) h k = elim (Bool-cases (x == y)) [
  | inl same ↦
      mem-append a (f y) (flat_map f ys)
      ∙ ground (arith, k, ap (λ z. mem a (f z)) ((==_iff x y).0 same))
  | inr other ↦
      mem-append a (f y) (flat_map f ys)
      ∙ ground (arith, flat_map-mem f a x ys (ground (arith, h, other)) k)
]

-- A parent, a parent of a parent, and so on.
pub data IsAncestor (parents : ℕ → List ℕ) : ℕ → ℕ → Type 0 where
  parent : (x p : ℕ) → mem p (parents x) ≡ true → IsAncestor parents x p
  further : (x p a : ℕ) → mem p (parents x) ≡ true → IsAncestor parents p a → IsAncestor parents x a

module _ (parents : ℕ → List ℕ) where
  -- What is found is an ancestor, whatever the fuel.
  get_ancestors-IsAncestor :
      (n x a : ℕ) → mem a (get_ancestors parents n x) ≡ true → IsAncestor parents x a
  unfolding get_ancestors mem
  get_ancestors-IsAncestor zero x a h = absurd (ground (arith, h))
  get_ancestors-IsAncestor (suc n) x a h =
      elim (or_cases _ _ (sym (mem-append a (parents x) _) ∙ h)) [
        | inl direct ↦ parent x a direct
        | inr found ↦
            let (p, m, k) = mem-flat_map _ a (parents x) found in
            further x p a m (
              get_ancestors-IsAncestor n p a
                (and_left _ _ (sym (mem-filter _ a (get_ancestors parents n p)) ∙ k)))
      ]

  get_ancestors-all :
      (rank : ℕ → ℕ)
      → ((x p : ℕ) → mem p (parents x) ≡ true → rank p < rank x)
      → (n x a : ℕ) → rank x < n
      → IsAncestor parents x a
      → mem a (get_ancestors parents n x) ≡ true
  unfolding get_ancestors
  get_ancestors-all rank acyclic zero x a h r = absurd (omega (arith, h))
  get_ancestors-all rank acyclic (suc n) x a h (parent _ _ m) =
      mem-append a (parents x) _ ∙ ground (arith, m)
  get_ancestors-all rank acyclic (suc n) x a h (further _ p _ m r) =
      elim (Bool-cases (mem a (parents x))) [
        | inl direct ↦ mem-append a (parents x) _ ∙ ground (arith, direct)
        | inr new ↦
            mem-append a (parents x) _
            ∙ or_right _ _ (
                flat_map-mem _ a p (parents x) m (
                  mem-filter _ a (get_ancestors parents n p)
                  ∙ and_both _ _
                      (get_ancestors-all rank acyclic n p a (omega (arith, acyclic x p m, h)) r)
                      (ap not new)))
      ]

-- If a rank is smaller for each parent of an object than for the object, then with fuel above the
-- rank of an object get_ancestors finds exactly its parents, their parents, and so on.
pub get_ancestors_lem :
    (parents : ℕ → List ℕ) (rank : ℕ → ℕ)
    → ((x p : ℕ) → mem p (parents x) ≡ true → rank p < rank x)
    → (n x a : ℕ) → rank x < n
    → (mem a (get_ancestors parents n x) ≡ true) ↔ IsAncestor parents x a
get_ancestors_lem parents rank acyclic n x a h =
    (get_ancestors-IsAncestor parents n x a, get_ancestors-all parents rank acyclic n x a h)

module _ (parents : ℕ → List ℕ) where
  none_of : (n d : ℕ) → parents d ≡ [] → get_ancestors parents n d ≡ []
  unfolding get_ancestors flat_map
  none_of zero d e = refl
  none_of (suc n) d e = rw (e) refl

  one_of :
      (n p d : ℕ) → parents p ≡ d ∷ [] → parents d ≡ [] → get_ancestors parents (suc n) p ≡ d ∷ []
  unfolding get_ancestors flat_map filter
  one_of n p d e ed = rw (e, none_of n d ed) refl

kept_twice :
    (g : ℕ → List ℕ) (p q d : ℕ)
    → g p ≡ d ∷ []
    → g q ≡ d ∷ []
    → mem d (p ∷ q ∷ []) ≡ false
    → flat_map (λ r. filter (λ a. not (mem a (p ∷ q ∷ []))) (g r)) (p ∷ q ∷ []) ≡ d ∷ d ∷ []
unfolding flat_map filter
kept_twice g p q d gp gq other = rw (gp, gq, other) refl

-- If an object has two parents that have the same single parent, which has no parents and is
-- neither of the two, then with fuel of at least two get_ancestors gives that parent twice.
pub get_ancestors_twice :
    (parents : ℕ → List ℕ) (n x p q d : ℕ)
    → parents x ≡ p ∷ q ∷ []
    → parents p ≡ d ∷ []
    → parents q ≡ d ∷ []
    → parents d ≡ []
    → mem d (p ∷ q ∷ []) ≡ false
    → get_ancestors parents (suc (suc n)) x ≡ p ∷ q ∷ d ∷ d ∷ []
unfolding get_ancestors
get_ancestors_twice parents n x p q d ex ep eq ed other =
    ap
      (λ ps.
        ps ++ flat_map (λ r. filter (λ a. not (mem a ps)) (get_ancestors parents (suc n) r)) ps)
      ex
    ∙ ap (λ rest. p ∷ q ∷ rest)
        (kept_twice (get_ancestors parents (suc n)) p q d (one_of parents n p d ep ed)
          (one_of parents n q d eq ed) other)
