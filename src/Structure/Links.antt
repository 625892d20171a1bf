-- ===== src/Structure/Links.antt =====
-- The handlers of waldur_core/structure/handlers.py that connect customers, services and projects,
-- and `ConnectSharedSettingsTask` of structure/tasks.py. A link of a project and a service is a pair of
-- their numbers.
pub mod Linked
pub mod Connected
pub mod History
use waldur_core.Prelude.{
  ℕ, suc, Bool, true, false, not, ◌&&◌, ◌||◌, Option, none, some, List, [], ◌∷◌, ◌++◌, Method, pure,
  raise, modify, ◌>>◌, any, filter, find, if◌then◌else◌, ◌==◌,
}

pub record ServiceSettings : Type 0 where
  pub id : ℕ
  pub shared : Bool
  pub is_registered : Bool

pub record Service : Type 0 where
  pub id : ℕ
  pub customer : ℕ
  pub settings : ℕ
  pub available_for_all : Bool

pub record Project : Type 0 where
  pub id : ℕ
  pub customer : ℕ

abbrev pub Links : Type 0
Links = List (ℕ × ℕ)

pub record Db : Type 0 where
  pub customers : List ℕ
  pub settings : List ServiceSettings
  pub services : List Service
  pub projects : List Project
  pub links : Links
  pub next_id : ℕ

unfoldable pub has_link : ℕ → ℕ → Links → Bool
has_link project service = any (λ l. l.0 == project && l.1 == service)

-- `get_or_create(project=project, service=service)`
unfoldable pub get_or_create_link : ℕ → ℕ → Links → Links
unfolding has_link
get_or_create_link project service links =
    if has_link project service links then links else links ++ (project, service) ∷ []

-- The loop over the projects of the customer of a service.
unfoldable pub link_projects : Service → List Project → Links → Links
unfolding get_or_create_link
link_projects s [] links = links
link_projects s (p ∷ ps) links =
    link_projects s ps
      (if p.customer == s.customer then get_or_create_link p.id s.id links else links)

-- `connect_service_to_all_projects_if_it_is_available_for_all`, after each save of a service.
unfoldable pub connect_service : Service → Db → Db
unfolding link_projects
connect_service s db = record db {
  links = if s.available_for_all then link_projects s db.projects db.links else db.links;
}

-- The creation of a service, with the handler.
unfoldable pub create_service : ℕ → ℕ → Bool → Db → Db
unfolding connect_service
create_service customer settings available_for_all db =
    let s : Service = record {
      id = db.next_id;
      customer = customer;
      settings = settings;
      available_for_all = available_for_all;
    } in
    connect_service s (record db { services = db.services ++ s ∷ []; next_id = suc db.next_id })

-- The loop of `connect_customer_to_shared_service_settings`; settings of a type that is not
-- registered are skipped.
unfoldable pub connect_customer : ℕ → List ServiceSettings → Db → Db
unfolding create_service
connect_customer customer [] db = db
connect_customer customer (s ∷ ss) db =
    connect_customer customer ss
      (if s.shared && s.is_registered then create_service customer s.id true db else db)

unfoldable pub create_customer : ℕ → Db → Db
unfolding connect_customer
create_customer customer db =
    connect_customer customer db.settings (record db { customers = db.customers ++ customer ∷ [] })

-- The loop of `connect_project_to_all_available_services`.
unfoldable pub link_services : Project → List Service → Links → Links
link_services p [] links = links
link_services p (s ∷ ss) links =
    link_services p ss (
      if s.available_for_all && s.customer == p.customer then links ++ (p.id, s.id) ∷ [] else links)

-- The creation of a project, with the handler.
unfoldable pub create_project : ℕ → Db → Db
unfolding link_services
create_project customer db =
    let p : Project = record { id = db.next_id; customer = customer } in
    record db {
      projects = db.projects ++ p ∷ [];
      links = link_services p db.services db.links;
      next_id = suc db.next_id;
    }

-- The service of a customer with settings: `get_or_create(customer=customer, settings=settings)`.
unfoldable pub get_or_create_service : ℕ → ℕ → Db → Db
unfolding create_service
get_or_create_service customer settings db =
    if any (λ s. s.customer == customer && s.settings == settings) db.services
    then db
    else create_service customer settings true db

unfoldable pub link_service : ℕ → ℕ → Db → Db
unfolding link_projects
link_service customer settings db =
    elim (find (λ s. s.customer == customer && s.settings == settings) db.services) [
      | none ↦ db
      | some s ↦ record db { links = link_projects s db.projects db.links }
    ]

-- The loop of `ConnectSharedSettingsTask.execute`.
unfoldable pub connect_customers : ℕ → List ℕ → Db → Db
unfolding get_or_create_service link_service
connect_customers settings [] db = db
connect_customers settings (customer ∷ customers) db =
    connect_customers settings customers
      (link_service customer settings (get_or_create_service customer settings db))

pub data Error : Type 0 where
  value_error key_error : Error

-- `ConnectSharedSettingsTask.execute`
unfoldable pub connect_shared_settings : ServiceSettings → Method Db Error (Unit {0})
unfolding connect_customers
connect_shared_settings s db =
    (if not s.shared
        then raise value_error
        else if not s.is_registered
        then raise key_error
        else modify (connect_customers s.id db.customers))
      db
