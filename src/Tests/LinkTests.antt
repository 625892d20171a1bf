-- ===== src/Tests/LinkTests.antt =====
-- The theorem on links at a concrete history.
use waldur_core.Prelude.{◌≡◌, refl, true, List, [], ◌∷◌, any, all, find}
use waldur_core.Structure.Links.{
  ServiceSettings, Db, has_link, get_or_create_link, link_projects, connect_service, create_service,
  connect_customer, create_customer, link_services, create_project, connect_shared_settings,
  connect_customers, get_or_create_service, link_service,
}
use waldur_core.Structure.Links.Linked.{are_connected}
use waldur_core.Structure.Links.History.{
  Event, customer_created, service_created, project_created, settings_connected, step, steps,
  are_connected-steps,
}

abbrev cloud : ServiceSettings
cloud = record { id = 1; shared = true; is_registered = true }

abbrev empty_db : Db
empty_db = record {
  customers = [];
  settings = cloud ∷ [];
  services = [];
  projects = [];
  links = [];
  next_id = 10;
}

abbrev history : List Event
history =
    customer_created 1
    ∷ project_created 1
    ∷ service_created 1 2 true
    ∷ settings_connected (record { id = 3; shared = true; is_registered = true })
    ∷ []

are_connected-steps_example : are_connected (steps history empty_db) ≡ true
unfolding are_connected all
are_connected-steps_example = are_connected-steps history empty_db refl

-- The project is linked with the shared service, the new one, and that of the task.
made_links : (steps history empty_db).links ≡ (11, 10) ∷ ((11, 12) ∷ ((11, 13) ∷ []))
unfolding steps step create_customer connect_customer create_service connect_service link_projects
    get_or_create_link has_link create_project link_services connect_shared_settings
    connect_customers get_or_create_service link_service any find
made_links = refl
