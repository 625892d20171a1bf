-- ===== src/Structure/Links/History.antt =====
-- Links over any creations of customers, services and projects, and runs of `ConnectSharedSettingsTask`.
use waldur_core.Prelude.{ℕ, ◌≡◌, Bool, true, false, List, [], ◌∷◌, ◌++◌}
use waldur_core.Structure.Links.{
  ServiceSettings, Db, create_service, create_customer, create_project, connect_shared_settings,
}
use waldur_core.Structure.Links.Linked.{are_connected}
use waldur_core.Structure.Links.Connected.{
  are_connected-create_service, are_connected-connect_customer, are_connected-create_project,
  are_connected-connect_customers,
}

pub data Event : Type 0 where
  customer_created : ℕ → Event
  service_created : ℕ → ℕ → Bool → Event
  project_created : ℕ → Event
  settings_connected : ServiceSettings → Event

unfoldable pub step : Event → Db → Db
unfolding create_customer create_service create_project connect_shared_settings
step (customer_created customer) db = create_customer customer db
step (service_created customer settings available) db =
    create_service customer settings available db
step (project_created customer) db = create_project customer db
step (settings_connected settings) db = (connect_shared_settings settings db).1

unfoldable pub steps : List Event → Db → Db
unfolding step
steps [] db = db
steps (e ∷ es) db = steps es (step e db)

are_connected-create_customer :
    (customer : ℕ) (db : Db)
    → are_connected db ≡ true
    → are_connected (create_customer customer db) ≡ true
unfolding create_customer are_connected
are_connected-create_customer customer db h =
    are_connected-connect_customer customer db.settings
      (record db { customers = db.customers ++ customer ∷ [] }) h

are_connected-connect_shared_settings :
    (shared registered : Bool) (id : ℕ) (db : Db)
    → are_connected db ≡ true
    → are_connected
        (connect_shared_settings
          (record { id = id; shared = shared; is_registered = registered })
          db).1
      ≡ true
unfolding connect_shared_settings
are_connected-connect_shared_settings true true id db h =
    are_connected-connect_customers id db.customers db h
are_connected-connect_shared_settings true false id db h = h
are_connected-connect_shared_settings false registered id db h = h

are_connected-step :
    (e : Event) (db : Db) → are_connected db ≡ true → are_connected (step e db) ≡ true
unfolding step
are_connected-step (customer_created customer) db h = are_connected-create_customer customer db h
are_connected-step (service_created customer settings available) db h =
    are_connected-create_service customer settings available db h
are_connected-step (project_created customer) db h = are_connected-create_project customer db h
are_connected-step (settings_connected s) db h =
    are_connected-connect_shared_settings s.shared s.is_registered s.id db h

-- If every service that is available for all is linked with each project of its customer, this is
-- so after any creations of customers, services and projects and any runs of
-- ConnectSharedSettingsTask.
pub are_connected-steps :
    (es : List Event) (db : Db) → are_connected db ≡ true → are_connected (steps es db) ≡ true
unfolding steps
are_connected-steps [] db h = h
are_connected-steps (e ∷ es) db h = are_connected-steps es (step e db) (are_connected-step e db h)
