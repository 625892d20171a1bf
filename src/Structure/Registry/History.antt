-- ===== src/Structure/Registry/History.antt =====
-- What the registry gives after any registrations.
use text.Mathlib.Text.{◌==◌ as str_eq}
use waldur_core.Prelude.{
  ◌≡◌, refl, Bool, true, false, not, ◌&&◌, Option, none, some, List, [], ◌∷◌, String, ap, ◌∙◌, sym,
  if◌then◌else◌, Bool-cases, inl, inr, ℕ,
}
use waldur_core.Prelude.Text.{Text}
use waldur_core.Structure.Registry.{
  Model, ResourceEntry, Registry, set_service, set_resource, is_active_model, register_backend,
  if_active, register_service, register_service_serializer, register_service_filter,
  register_resource_serializer, register_resource_filter, register_resource_view, register_property,
}
use waldur_core.Structure.Registry.Lookups.{get_service_backend}
use waldur_core.Structure.Registry.Entries.{find_entry-set_service, get_service_backend-kept}

pub data Registration : Type 0 where
  backend : Model → ℕ → Bool → Registration
  service property : Option Model → Registration
  service_serializer service_filter : Option Model → ℕ → Registration
  resource_serializer resource_filter resource_view : Option Model → ℕ → Registration

module _ (apps : List Text) where
  unfoldable pub register : Registration → Registry → Registry
  unfolding register_backend register_service register_service_serializer register_service_filter
      register_resource_serializer register_resource_filter register_resource_view register_property
  register (backend m b nested) = register_backend apps m b nested
  register (service m) = register_service apps m
  register (property m) = register_property apps m
  register (service_serializer m s) = register_service_serializer apps m s
  register (service_filter m f) = register_service_filter apps m f
  register (resource_serializer m s) = register_resource_serializer apps m s
  register (resource_filter m f) = register_resource_filter apps m f
  register (resource_view m v) = register_resource_view apps m v

  unfoldable pub register_all : List Registration → Registry → Registry
  unfolding register
  register_all [] registry = registry
  register_all (r ∷ rs) registry = register_all rs (register r registry)

  -- The backend of the last registration of a backend for a key that is active and not nested.
  unfoldable pub last_backend : String → List Registration → Option ℕ → Option ℕ
  last_backend key [] found = found
  last_backend key (backend m b nested ∷ rs) found =
      last_backend key rs (
        if is_active_model apps m && not nested && str_eq m.service_name key then some b else found)
  last_backend key (r ∷ rs) found = last_backend key rs found

  backend-if_active :
      (key : String) (m : Option Model) (f : Model → Registry → Registry) (registry : Registry)
      → ((n : Model) → get_service_backend key (f n registry) ≡ get_service_backend key registry)
      → get_service_backend key (if_active apps m f registry) ≡ get_service_backend key registry
  unfolding if_active
  backend-if_active key none f registry h = refl
  backend-if_active key (some m) f registry h = elim (Bool-cases (is_active_model apps m)) [
    | inl e ↦ rw e (h m)
    | inr e ↦ rw e refl
  ]

  backend-assigned :
      (key own : String) (b : ℕ) (registry : Registry)
      → get_service_backend key
          (set_service own (λ service. record service { backend = some b }) registry)
        ≡ (if str_eq own key then some b else get_service_backend key registry)
  unfolding get_service_backend
  backend-assigned key own b registry = elim (Bool-cases (str_eq own key)) [
    | inl e ↦ rw (find_entry-set_service key own _ registry, e) refl
    | inr e ↦ rw (find_entry-set_service key own _ registry, e) refl
  ]

  backend-register_backend :
      (key : String) (m : Model) (b : ℕ) (nested : Bool) (registry : Registry)
      → get_service_backend key (register_backend apps m b nested registry) ≡ (
          if is_active_model apps m && not nested && str_eq m.service_name key
          then some b
          else get_service_backend key registry)
  unfolding register_backend
  backend-register_backend key m b nested registry = elim (Bool-cases (is_active_model apps m)) [
    | inl active ↦ elim (Bool-cases nested) [
      | inl e ↦ rw (active, e) refl
      | inr e ↦ rw (active, e) (backend-assigned key m.service_name b registry)
    ]
    | inr inactive ↦ rw inactive refl
  ]

  backend-set_resource :
      (key : String) (m : Model) (f : ResourceEntry → ResourceEntry) (registry : Registry)
      → get_service_backend key (set_resource m f registry) ≡ get_service_backend key registry
  unfolding set_resource
  backend-set_resource key m f registry =
      get_service_backend-kept key m.service_name _ registry (λ s. refl)

  backend-unless :
      (key : String) (m : Model) (f : ResourceEntry → ResourceEntry) (abstract : Bool)
      (registry : Registry)
      → get_service_backend key (if abstract then registry else set_resource m f registry)
        ≡ get_service_backend key registry
  backend-unless key m f true registry = refl
  backend-unless key m f false registry = backend-set_resource key m f registry

  backend-register :
      (key : String) (r : Registration) (registry : Registry)
      → get_service_backend key (register r registry)
        ≡ last_backend key (r ∷ []) (get_service_backend key registry)
  unfolding register last_backend register_service register_service_serializer
      register_service_filter register_resource_serializer register_resource_filter
      register_resource_view register_property
  backend-register key (backend m b nested) registry =
      backend-register_backend key m b nested registry
  backend-register key (service m) registry =
      backend-if_active key m _ registry
        λ n. get_service_backend-kept key n.service_name _ registry (λ s. refl)
  backend-register key (property m) registry =
      backend-if_active key m _ registry
        λ n. get_service_backend-kept key n.service_name _ registry (λ s. refl)
  backend-register key (service_serializer m v) registry =
      backend-if_active key m _ registry
        λ n. get_service_backend-kept key n.service_name _ registry (λ s. refl)
  backend-register key (service_filter m v) registry =
      backend-if_active key m _ registry
        λ n. get_service_backend-kept key n.service_name _ registry (λ s. refl)
  backend-register key (resource_serializer m v) registry =
      backend-if_active key m _ registry λ n. backend-set_resource key n _ registry
  backend-register key (resource_filter m v) registry =
      backend-if_active key m _ registry λ n. backend-unless key n _ n.abstract registry
  backend-register key (resource_view m v) registry =
      backend-if_active key m _ registry λ n. backend-unless key n _ n.abstract registry

  last_backend-cons :
      (key : String) (r : Registration) (rs : List Registration) (found : Option ℕ)
      → last_backend key (r ∷ rs) found ≡ last_backend key rs (last_backend key (r ∷ []) found)
  unfolding last_backend
  last_backend-cons key (backend m b nested) rs found = refl
  last_backend-cons key (service m) rs found = refl
  last_backend-cons key (property m) rs found = refl
  last_backend-cons key (service_serializer m v) rs found = refl
  last_backend-cons key (service_filter m v) rs found = refl
  last_backend-cons key (resource_serializer m v) rs found = refl
  last_backend-cons key (resource_filter m v) rs found = refl
  last_backend-cons key (resource_view m v) rs found = refl

  -- After any registrations get_service_backend gives for a key the backend of the last
  -- registration of a backend with the key that is of an installed application and not nested, and
  -- what it gave before if there is none.
  pub get_service_backend-register_all :
      (key : String) (rs : List Registration) (registry : Registry)
      → get_service_backend key (register_all rs registry)
        ≡ last_backend key rs (get_service_backend key registry)
  unfolding register_all last_backend
  get_service_backend-register_all key [] registry = refl
  get_service_backend-register_all key (r ∷ rs) registry =
      get_service_backend-register_all key rs (register r registry)
      ∙ ap (last_backend key rs) (backend-register key r registry)
      ∙ sym (last_backend-cons key r rs (get_service_backend key registry))
