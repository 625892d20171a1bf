-- ===== src/Structure/Registry/Lookups.antt =====
-- The lookups of `SupportedServices`, with no result where they raise KeyError.
use waldur_core.Structure.Registry.{Model, ResourceEntry, ServiceEntry, Registry, find_entry}
use waldur_core.Prelude.{ℕ, Bool, Option, none, some, String, is_some}

-- `get_service_backend`, without a result where it raises ServiceBackendNotImplemented.
abbrev pub backend_in : Option ServiceEntry → Option ℕ
backend_in none = none
backend_in (some service) = service.backend

unfoldable pub get_service_backend : String → Registry → Option ℕ
unfolding find_entry
get_service_backend key registry = backend_in (find_entry key registry)

-- The entry of a resource; there is none where the code raises KeyError.
abbrev pub resource_in : String → Option ServiceEntry → Option ResourceEntry
resource_in model_str none = none
resource_in model_str (some service) = find_entry model_str service.resources

unfoldable pub resource_entry : Model → Registry → Option ResourceEntry
unfolding find_entry
resource_entry model registry = resource_in model.model_str (find_entry model.service_name registry)

abbrev pub serializer_in : Option ResourceEntry → Option ℕ
serializer_in none = none
serializer_in (some resource) = resource.serializer

abbrev pub filter_in : Option ResourceEntry → Option ℕ
filter_in none = none
filter_in (some resource) = resource.filter

abbrev pub view_in : Option ResourceEntry → Option ℕ
view_in none = none
view_in (some resource) = resource.view

unfoldable pub get_resource_serializer : Model → Registry → Option ℕ
unfolding resource_entry
get_resource_serializer model registry = serializer_in (resource_entry model registry)

unfoldable pub get_resource_filter : Model → Registry → Option ℕ
unfolding resource_entry
get_resource_filter model registry = filter_in (resource_entry model registry)

unfoldable pub get_resource_view : Model → Registry → Option ℕ
unfolding resource_entry
get_resource_view model registry = view_in (resource_entry model registry)

-- `has_service_type`
unfoldable pub has_service_type : String → Registry → Bool
unfolding find_entry
has_service_type key registry = is_some (find_entry key registry)

-- `get_name_for_type`
abbrev pub name_in : String → Option ServiceEntry → String
name_in key none = key
name_in key (some service) = elim service.name [ none ↦ key | some name ↦ name ]

unfoldable pub get_name_for_type : String → Registry → String
unfolding find_entry
get_name_for_type key registry = name_in key (find_entry key registry)
