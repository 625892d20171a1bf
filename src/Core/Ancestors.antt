-- ===== src/Core/Ancestors.antt =====
-- `get_ancestors` of `DescendantMixin` in waldur_core/core/models.py. Objects are numbers, and their
-- parents are a function, which is what `get_parents` of each class gives; all parents have parents
-- of their own in this sense. The recursion is on fuel.
pub mod Laws
use waldur_core.Prelude.{ℕ, zero, suc, not, List, [], ◌∷◌, ◌++◌, filter, mem}

-- The two nested loops, with the list that each ancestor gives.
unfoldable pub flat_map : (ℕ → List ℕ) → List ℕ → List ℕ
flat_map f [] = []
flat_map f (x ∷ xs) = f x ++ flat_map f xs

-- `get_ancestors`: the set of the attributes is that of the parents, and is not extended.
unfoldable pub get_ancestors : (ℕ → List ℕ) → ℕ → ℕ → List ℕ
unfolding flat_map
get_ancestors parents zero x = []
get_ancestors parents (suc n) x =
    parents x
    ++ flat_map (λ p. filter (λ a. not (mem a (parents x))) (get_ancestors parents n p)) (parents x)
