-- ===== src/Structure/Registry.antt =====
-- `SupportedServices` of waldur_core/structure/__init__.py: the registry of backends, services, resources
-- and properties that the plugins fill when they are loaded. Classes are numbers.
pub mod Lookups
pub mod Entries
pub mod History
pub mod Serializers
use text.Mathlib.Text.{◌==◌ as str_eq}
use waldur_core.Prelude.{
  ℕ, zero, suc, Bool, true, false, not, ◌&&◌, ◌||◌, Option, none, some, List, [], ◌∷◌, ◌++◌, String,
  any, if◌then◌else◌, ◌==◌, is_some,
}
use Prim.Native.String
use waldur_core.Prelude.Text.{Text, same_text}

-- A dictionary.
abbrev pub StrDict : Type 0 → Type 0
StrDict A = List (String × A)

unfoldable pub find_entry : {A : Type 0} → String → StrDict A → Option A
find_entry key [] = none
find_entry key ((k, v) ∷ items) = if str_eq k key then some v else find_entry key items

-- `items.setdefault(key, value)`
unfoldable pub setdefault : {A : Type 0} → String → A → StrDict A → StrDict A
setdefault key value [] = (key, value) ∷ []
setdefault key value ((k, v) ∷ items) =
    if str_eq k key then (k, v) ∷ items else (k, v) ∷ setdefault key value items

-- An assignment inside the value of a key that is there.
unfoldable pub change_entry : {A : Type 0} → String → (A → A) → StrDict A → StrDict A
change_entry key f [] = []
change_entry key f ((k, v) ∷ items) =
    if str_eq k key then (k, f v) ∷ items else (k, v) ∷ change_entry key f items

-- The fields of a class that the code reads: its module, the service name of its application, the text
-- of its `_meta`, its own name and its URL name.
pub record Model : Type 0 where
  pub module_name : Text
  pub service_name : String
  pub model_str : String
  pub class_name : String
  pub url_name : String
  pub abstract : Bool

pub record ResourceEntry : Type 0 where
  pub name : String
  pub detail_view : Option String
  pub list_view : Option String
  pub serializer : Option ℕ
  pub filter : Option ℕ
  pub view : Option ℕ

pub record PropertyEntry : Type 0 where
  pub name : String
  pub list_view : String

pub record ServiceEntry : Type 0 where
  pub backend : Option ℕ
  pub name : Option String
  pub model_name : Option String
  pub detail_view : Option String
  pub list_view : Option String
  pub serializer : Option ℕ
  pub filter : Option ℕ
  pub resources : StrDict ResourceEntry
  pub properties : StrDict PropertyEntry

abbrev pub Registry : Type 0
Registry = StrDict ServiceEntry

abbrev pub no_service : ServiceEntry
no_service = record {
  backend = none;
  name = none;
  model_name = none;
  detail_view = none;
  list_view = none;
  serializer = none;
  filter = none;
  resources = [];
  properties = [];
}

-- `model.__module__.split('.')`
unfoldable pub push_code : ℕ → List Text → List Text
push_code c [] = (c ∷ []) ∷ []
push_code c (part ∷ parts) = (c ∷ part) ∷ parts

unfoldable pub split_dots : Text → List Text
unfolding push_code
split_dots [] = [] ∷ []
split_dots (c ∷ cs) = let rest = split_dots cs in if c == 46 then [] ∷ rest else push_code c rest

-- `'.'.join(parts[:n])`
unfoldable pub join_first : ℕ → List Text → Text
join_first zero parts = []
join_first (suc n) [] = []
join_first (suc zero) (part ∷ parts) = part
join_first (suc (suc n)) (part ∷ []) = part
join_first (suc (suc n)) (part ∷ next ∷ parts) = part ++ (46 ∷ join_first (suc n) (next ∷ parts))

-- `_is_active_model`, with the setting `INSTALLED_APPS`.
unfoldable pub is_active_model : List Text → Model → Bool
unfolding split_dots join_first
is_active_model installed_apps model =
    any (same_text (join_first 2 (split_dots model.module_name))) installed_apps
    || any (same_text (join_first 1 (split_dots model.module_name))) installed_apps

-- `_setdefault(key)` and an assignment in the entry of the key.
unfoldable pub set_service : String → (ServiceEntry → ServiceEntry) → Registry → Registry
unfolding setdefault change_entry
set_service key f registry = change_entry key f (setdefault key no_service registry)

abbrev pub named_resource : Model → ResourceEntry
named_resource model = record {
  name = model.class_name;
  detail_view = none;
  list_view = none;
  serializer = none;
  filter = none;
  view = none;
}

-- The same for the entry of a resource in its service.
unfoldable pub set_resource : Model → (ResourceEntry → ResourceEntry) → Registry → Registry
unfolding set_service setdefault change_entry
set_resource model f registry =
    set_service model.service_name
      (λ service. record service {
        resources =
            change_entry model.model_str f
              (setdefault model.model_str (named_resource model) service.resources);
      })
      registry

-- `get_list_view_for_model` and `get_detail_view_for_model`
abbrev pub list_view_of : Model → String
list_view_of model = String.◌++◌ model.url_name "-list"

abbrev pub detail_view_of : Model → String
detail_view_of model = String.◌++◌ model.url_name "-detail"

module _ (installed_apps : List Text) where
  -- `register_backend`; the key of a backend is that of its application.
  unfoldable pub register_backend : Model → ℕ → Bool → Registry → Registry
  unfolding is_active_model set_service
  register_backend model backend nested registry =
      if not (is_active_model installed_apps model) || nested
      then registry
      else set_service model.service_name (λ service. record service { backend = some backend })
          registry

  -- What a registration does unless the model is NotImplemented, which is none here, or not active.
  unfoldable pub if_active : Option Model → (Model → Registry → Registry) → Registry → Registry
  unfolding is_active_model
  if_active none f registry = registry
  if_active (some model) f registry =
      if is_active_model installed_apps model then f model registry else registry

  unfoldable pub register_service : Option Model → Registry → Registry
  unfolding if_active set_service
  register_service model = if_active model λ m. set_service m.service_name λ service.
      record service {
        name = some m.service_name;
        model_name = some m.model_str;
        detail_view = some (detail_view_of m);
        list_view = some (list_view_of m);
      }

  unfoldable pub register_service_serializer : Option Model → ℕ → Registry → Registry
  unfolding if_active set_service
  register_service_serializer model serializer =
      if_active model
        λ m. set_service m.service_name λ service. record service { serializer = some serializer }

  unfoldable pub register_service_filter : Option Model → ℕ → Registry → Registry
  unfolding if_active set_service
  register_service_filter model filter =
      if_active model
        λ m. set_service m.service_name λ service. record service { filter = some filter }

  unfoldable pub register_resource_serializer : Option Model → ℕ → Registry → Registry
  unfolding if_active set_resource
  register_resource_serializer model serializer = if_active model λ m. set_resource m λ resource.
      record resource {
        detail_view = some (detail_view_of m);
        list_view = some (list_view_of m);
        serializer = some serializer;
      }

  -- Filters and views are not registered for abstract models.
  unfoldable pub register_resource_filter : Option Model → ℕ → Registry → Registry
  unfolding if_active set_resource
  register_resource_filter model filter = if_active model λ m registry.
      if m.abstract
      then registry
      else set_resource m (λ resource. record resource { filter = some filter }) registry

  unfoldable pub register_resource_view : Option Model → ℕ → Registry → Registry
  unfolding if_active set_resource
  register_resource_view model view = if_active model λ m registry.
      if m.abstract
      then registry
      else set_resource m (λ resource. record resource { view = some view }) registry

  -- `self._registry[key]['properties'][model_str] = {...}`
  unfoldable pub register_property : Option Model → Registry → Registry
  unfolding if_active set_service setdefault change_entry
  register_property model = if_active model λ m.
      let entry : PropertyEntry = record { name = m.class_name; list_view = list_view_of m } in
      set_service m.service_name λ service. record service {
        properties =
            change_entry m.model_str (λ old. entry)
              (setdefault m.model_str entry service.properties);
      }
