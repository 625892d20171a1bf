-- ===== src/Structure/Links/Connected.antt =====
-- Each project is linked with each service of its customer that is available for all.
use waldur_core.Prelude.{
  ℕ, ◌≡◌, refl, Bool, true, false, ◌&&◌, Option, none, some, List, [], ◌∷◌, ◌++◌, arith, any, all,
  find, if◌then◌else◌, ◌==◌, any-append,
}
use waldur_core.Structure.Links.{
  ServiceSettings, Service, Project, Links, Db, has_link, link_projects, connect_service,
  create_service, connect_customer, link_services, create_project, get_or_create_service,
  link_service, connect_customers,
}
use waldur_core.Structure.Links.Linked.{
  is_linked, is_connected, are_connected, Extends, Extends-snoc, Extends-link_projects,
  is_linked_mono, both, left, right, is_connected-link_projects,
}

is_connected_mono :
    (links more : Links) (s : Service) (ps : List Project)
    → Extends links more
    → is_connected links ps s ≡ true
    → is_connected more ps s ≡ true
unfolding is_connected all
is_connected_mono links more s [] e h = refl
is_connected_mono links more s (p ∷ ps) e h =
    both (is_linked_mono links more s p e (left _ _ h))
      (is_connected_mono links more s ps e (right _ _ h))

all_connected_mono :
    (links more : Links) (ps : List Project) (ss : List Service)
    → Extends links more
    → all (is_connected links ps) ss ≡ true
    → all (is_connected more ps) ss ≡ true
unfolding all
all_connected_mono links more ps [] e h = refl
all_connected_mono links more ps (s ∷ ss) e h =
    both (is_connected_mono links more s ps e (left _ _ h))
      (all_connected_mono links more ps ss e (right _ _ h))

all-snoc :
    {A : Type 0} (p : A → Bool) (xs : List A) (x : A)
    → all p xs ≡ true
    → p x ≡ true
    → all p (xs ++ x ∷ []) ≡ true
unfolding all
all-snoc p [] x h k = ground (arith, k)
all-snoc p (y ∷ xs) x h k = both (left _ _ h) (all-snoc p xs x (right _ _ h) k)

-- A service that is not available for all is connected as it is.
closed_service :
    (links : Links) (ps : List Project) (s : Service)
    → s.available_for_all ≡ false
    → is_connected links ps s ≡ true
unfolding is_connected is_linked all
closed_service links [] s e = refl
closed_service links (p ∷ ps) s e = ground (arith, e, closed_service links ps s)

pub are_connected-create_service :
    (customer settings : ℕ) (available : Bool) (db : Db)
    → are_connected db ≡ true
    → are_connected (create_service customer settings available db) ≡ true
unfolding are_connected create_service connect_service
are_connected-create_service customer settings true db h =
    all-snoc (is_connected (link_projects s db.projects db.links) db.projects) db.services s
      (all_connected_mono db.links _ db.projects db.services
        (Extends-link_projects s db.projects db.links) h)
      (is_connected-link_projects s db.projects db.links)
  where
    s : Service
    s = record {
      id = db.next_id;
      customer = customer;
      settings = settings;
      available_for_all = true;
    }
are_connected-create_service customer settings false db h =
    all-snoc (is_connected db.links db.projects) db.services s h
      (closed_service db.links db.projects s refl)
  where
    s : Service
    s = record {
      id = db.next_id;
      customer = customer;
      settings = settings;
      available_for_all = false;
    }

pub are_connected-connect_customer :
    (customer : ℕ) (ss : List ServiceSettings) (db : Db)
    → are_connected db ≡ true
    → are_connected (connect_customer customer ss db) ≡ true
unfolding connect_customer
are_connected-connect_customer customer [] db h = h
are_connected-connect_customer customer (s ∷ ss) db h =
    are_connected-connect_customer customer ss _ (step (s.shared && s.is_registered))
  where
    step :
        (b : Bool) → are_connected (if b then create_service customer s.id true db else db) ≡ true
    step true = are_connected-create_service customer s.id true db h
    step false = h

Extends-link_services :
    (p : Project) (ss : List Service) (links : Links) → Extends links (link_services p ss links)
unfolding link_services
Extends-link_services p [] links q s h = h
Extends-link_services p (x ∷ ss) links q s h =
    Extends-link_services p ss _ q s (step (x.available_for_all && x.customer == p.customer))
  where
    step : (b : Bool) → has_link q s (if b then links ++ (p.id, x.id) ∷ [] else links) ≡ true
    step true = Extends-snoc links (p.id, x.id) q s h
    step false = h

new_link :
    (links : Links) (s : Service) (p : Project)
    → is_linked
        (if s.available_for_all && s.customer == p.customer
          then links ++ (p.id, s.id) ∷ []
          else links)
        s
        p
      ≡ true
unfolding is_linked has_link any
new_link links s p =
    ground (arith, any-append (λ l. l.0 == p.id && l.1 == s.id) links ((p.id, s.id) ∷ []))

-- A new project is linked with the services, and the older ones stay so.
all_connected-link_services :
    (p : Project) (ps : List Project) (ss : List Service) (links : Links)
    → all (is_connected links ps) ss ≡ true
    → all (is_connected (link_services p ss links) (ps ++ p ∷ [])) ss ≡ true
unfolding link_services all is_connected
all_connected-link_services p ps [] links h = refl
all_connected-link_services p ps (s ∷ ss) links h =
    both
      (is_connected_mono next (link_services p ss next) s (ps ++ p ∷ [])
        (Extends-link_services p ss next)
        (all-snoc (is_linked next s) ps p (is_connected_mono links next s ps more (left _ _ h))
          (new_link links s p)))
      (all_connected-link_services p ps ss next
        (all_connected_mono links next ps ss more (right _ _ h)))
  where
    next : Links
    next =
        if s.available_for_all && s.customer == p.customer
        then links ++ (p.id, s.id) ∷ []
        else links

    more : Extends links next
    more q t k = step (s.available_for_all && s.customer == p.customer)
      where
        step : (b : Bool) → has_link q t (if b then links ++ (p.id, s.id) ∷ [] else links) ≡ true
        step true = Extends-snoc links (p.id, s.id) q t k
        step false = k

pub are_connected-create_project :
    (customer : ℕ) (db : Db)
    → are_connected db ≡ true
    → are_connected (create_project customer db) ≡ true
unfolding are_connected create_project
are_connected-create_project customer db h =
    all_connected-link_services (record { id = db.next_id; customer = customer }) db.projects
      db.services db.links h

more_links :
    (db : Db) (links : Links)
    → Extends db.links links
    → are_connected db ≡ true
    → are_connected (record db { links = links }) ≡ true
unfolding are_connected
more_links db links e h = all_connected_mono db.links links db.projects db.services e h

are_connected-link_service :
    (customer settings : ℕ) (db : Db)
    → are_connected db ≡ true
    → are_connected (link_service customer settings db) ≡ true
unfolding link_service
are_connected-link_service customer settings db h =
    go (find (λ s. s.customer == customer && s.settings == settings) db.services)
  where
    go :
        (o : Option Service)
        → are_connected (elim o [
          | none ↦ db
          | some s ↦ record db { links = link_projects s db.projects db.links }
        ])
          ≡ true
    go none = h
    go (some s) = more_links db _ (Extends-link_projects s db.projects db.links) h

are_connected-get_or_create_service :
    (customer settings : ℕ) (db : Db)
    → are_connected db ≡ true
    → are_connected (get_or_create_service customer settings db) ≡ true
unfolding get_or_create_service
are_connected-get_or_create_service customer settings db h =
    go (any (λ s. s.customer == customer && s.settings == settings) db.services)
  where
    go :
        (b : Bool)
        → are_connected (if b then db else create_service customer settings true db) ≡ true
    go true = h
    go false = are_connected-create_service customer settings true db h

pub are_connected-connect_customers :
    (settings : ℕ) (customers : List ℕ) (db : Db)
    → are_connected db ≡ true
    → are_connected (connect_customers settings customers db) ≡ true
unfolding connect_customers
are_connected-connect_customers settings [] db h = h
are_connected-connect_customers settings (c ∷ cs) db h =
    are_connected-connect_customers settings cs _ (
      are_connected-link_service c settings _ (are_connected-get_or_create_service c settings db h))
