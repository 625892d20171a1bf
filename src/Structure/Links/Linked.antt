-- ===== src/Structure/Links/Linked.antt =====
-- The links that the loops over projects make.
use waldur_core.Prelude.{
  ℕ, ◌≡◌, refl, ◌∙◌, Bool, true, false, not, ◌&&◌, ◌||◌, List, [], ◌∷◌, ◌++◌, arith, any, all,
  if◌then◌else◌, ◌==◌, any-append, Bool-cases, ◌⊎◌, inl, inr,
}
use waldur_core.Structure.Links.{
  Service, Project, Links, Db, has_link, get_or_create_link, link_projects,
}

unfoldable pub is_linked : Links → Service → Project → Bool
unfolding has_link
is_linked links s p =
    not s.available_for_all || not (p.customer == s.customer) || has_link p.id s.id links

unfoldable pub is_connected : Links → List Project → Service → Bool
unfolding is_linked
is_connected links projects s = all (is_linked links s) projects

-- All services that are available for all are linked with the projects of their customers.
unfoldable pub are_connected : Db → Bool
unfolding is_connected
are_connected db = all (is_connected db.links db.projects) db.services

-- More links.
abbrev pub Extends : Links → Links → Type 0
Extends links more = (p s : ℕ) → has_link p s links ≡ true → has_link p s more ≡ true

pub Extends-snoc : (links : Links) (l : ℕ × ℕ) → Extends links (links ++ l ∷ [])
unfolding has_link
Extends-snoc links l p s h =
    any-append (λ l. l.0 == p && l.1 == s) links (l ∷ []) ∙ ground (arith, h)

pub Extends-get_or_create_link :
    (project service : ℕ) (links : Links) → Extends links (get_or_create_link project service links)
unfolding get_or_create_link
Extends-get_or_create_link project service links p s h =
    elim (Bool-cases (has_link project service links)) [
      | inl there ↦ rw (there) h
      | inr new ↦ rw (new) (Extends-snoc links (project, service) p s h)
    ]

pub has_link-get_or_create_link :
    (project service : ℕ) (links : Links)
    → has_link project service (get_or_create_link project service links) ≡ true
unfolding get_or_create_link
has_link-get_or_create_link project service links =
    elim (Bool-cases (has_link project service links)) [
      | inl there ↦ rw (there) there
      | inr new ↦ rw (new) last_link
    ]
  where
    last_link : has_link project service (links ++ (project, service) ∷ []) ≡ true
    last_link =
        unfold has_link any in
        any-append (λ l. l.0 == project && l.1 == service) links ((project, service) ∷ [])
        ∙ ground (arith)

pub Extends-link_projects :
    (s : Service) (ps : List Project) (links : Links) → Extends links (link_projects s ps links)
unfolding link_projects
Extends-link_projects s [] links p q h = h
Extends-link_projects s (x ∷ ps) links p q h =
    Extends-link_projects s ps _ p q (step (x.customer == s.customer))
  where
    step :
        (b : Bool) → has_link p q (if b then get_or_create_link x.id s.id links else links) ≡ true
    step true = Extends-get_or_create_link x.id s.id links p q h
    step false = h

pub is_linked_mono :
    (links more : Links) (s : Service) (p : Project)
    → Extends links more
    → is_linked links s p ≡ true
    → is_linked more s p ≡ true
unfolding is_linked
is_linked_mono links more s p e h = ground (arith, h, e p.id s.id)

pub both : {a b : Bool} → a ≡ true → b ≡ true → (a && b) ≡ true
both h k = ground (arith, h, k)

pub left : (a b : Bool) → (a && b) ≡ true → a ≡ true
left a b h = ground (arith, h)

pub right : (a b : Bool) → (a && b) ≡ true → b ≡ true
right a b h = ground (arith, h)

pub first_linked :
    (links : Links) (s : Service) (p : Project)
    → (p.customer == s.customer) ≡ true
    → is_linked (if p.customer == s.customer then get_or_create_link p.id s.id links else links) s p
      ≡ true
unfolding is_linked
first_linked links s p same =
    rw (same) (ground (arith, has_link-get_or_create_link p.id s.id links))

-- The loop links a service with the projects of its customer.
pub is_connected-link_projects :
    (s : Service) (ps : List Project) (links : Links)
    → is_connected (link_projects s ps links) ps s ≡ true
unfolding is_connected link_projects all
is_connected-link_projects s [] links = refl
is_connected-link_projects s (p ∷ ps) links =
    both
      (is_linked_mono next (link_projects s ps next) s p (Extends-link_projects s ps next)
        (linked (Bool-cases (p.customer == s.customer))))
      (is_connected-link_projects s ps next)
  where
    next : Links
    next = if p.customer == s.customer then get_or_create_link p.id s.id links else links

    linked :
        (((p.customer == s.customer) ≡ true) ⊎ ((p.customer == s.customer) ≡ false))
        → is_linked next s p ≡ true
    linked (inl same) = first_linked links s p same
    linked (inr other) = unfold is_linked in ground (arith, other)
