-- ===== src/Tests/AncestorTests.antt =====
-- The ancestors of a link between a service and a project of one customer.
use waldur_core.Prelude.{ℕ, ◌<◌, ◌≡◌, true, List, [], ◌∷◌, ◌↔◌, arith, mem, if◌then◌else◌, ◌==◌}
use waldur_core.Core.Ancestors.{get_ancestors}
use waldur_core.Core.Ancestors.Laws.{IsAncestor, get_ancestors_lem}

-- The link 3, the project 2, the service 1 and the customer 0.
abbrev parents : ℕ → List ℕ
parents x = if x == 3 then 1 ∷ 2 ∷ [] else if x == 2 then 0 ∷ [] else if x == 1 then 0 ∷ [] else []

parents-smaller : (x p : ℕ) → mem p (parents x) ≡ true → p < x
unfolding mem
parents-smaller x p h = ground arith

get_ancestors_lem_example : (mem 0 (get_ancestors parents 4 3) ≡ true) ↔ IsAncestor parents 3 0
get_ancestors_lem_example = get_ancestors_lem parents (λ x. x) parents-smaller 4 3 0 (omega arith)
