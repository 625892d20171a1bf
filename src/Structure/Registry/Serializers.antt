-- ===== src/Structure/Registry/Serializers.antt =====
-- The serializers of resources after any registrations.
use waldur_core.Prelude.{
  ◌≡◌, refl, Bool, true, false, not, ◌&&◌, ◌||◌, Option, none, some, List, [], ◌∷◌, String, ap, ◌∙◌,
  if◌then◌else◌, Bool-cases, inl, inr, ℕ,
}
use waldur_core.Prelude.Text.{Text}
use waldur_core.Structure.Registry.{
  Model, ResourceEntry, ServiceEntry, Registry, set_service, set_resource, is_active_model,
  named_resource, register_backend, if_active, register_service, register_service_serializer,
  register_service_filter, register_resource_serializer, register_resource_filter,
  register_resource_view, register_property, detail_view_of, list_view_of,
}
use waldur_core.Structure.Registry.Lookups.{resource_entry, serializer_in, get_resource_serializer}
use waldur_core.Structure.Registry.Entries.{
  or_default, resource_entry-kept, is_same_resource, resource_entry-set_resource,
}
use waldur_core.Structure.Registry.History.{
  Registration, backend, service, property, service_serializer, service_filter, resource_serializer,
  resource_filter, resource_view, register, register_all,
}

module _ (apps : List Text) (m : Model) where
  -- The serializer of the last registration for the resource.
  unfoldable pub last_serializer : List Registration → Option ℕ → Option ℕ
  last_serializer [] found = found
  last_serializer (resource_serializer (some n) s ∷ rs) found =
      last_serializer rs (if is_active_model apps n && is_same_resource m n then some s else found)
  last_serializer (r ∷ rs) found = last_serializer rs found

  serializer-if_active :
      (n : Option Model) (f : Model → Registry → Registry) (registry : Registry)
      → ((n' : Model)
          → get_resource_serializer m (f n' registry) ≡ get_resource_serializer m registry)
      → get_resource_serializer m (if_active apps n f registry) ≡ get_resource_serializer m registry
  unfolding if_active
  serializer-if_active none f registry h = refl
  serializer-if_active (some n) f registry h = elim (Bool-cases (is_active_model apps n)) [
    | inl e ↦ rw e (h n)
    | inr e ↦ rw e refl
  ]

  serializer-set_service :
      (key : String) (f : ServiceEntry → ServiceEntry) (registry : Registry)
      → ((s : ServiceEntry) → (f s).resources ≡ s.resources)
      → get_resource_serializer m (set_service key f registry) ≡ get_resource_serializer m registry
  unfolding get_resource_serializer
  serializer-set_service key f registry kept =
      ap serializer_in (resource_entry-kept m key f registry kept)

  serializer-register_backend :
      (n : Model) (b : ℕ) (nested : Bool) (registry : Registry)
      → get_resource_serializer m (register_backend apps n b nested registry)
        ≡ get_resource_serializer m registry
  unfolding register_backend
  serializer-register_backend n b nested registry =
      elim (Bool-cases (not (is_active_model apps n) || nested)) [
        | inl e ↦ rw e refl
        | inr e ↦ rw e (serializer-set_service n.service_name _ registry (λ s. refl))
      ]

  kept_in :
      (n : Model) (f : ResourceEntry → ResourceEntry) (same : Bool) (old : Option ResourceEntry)
      → ((r : ResourceEntry) → (f r).serializer ≡ r.serializer)
      → serializer_in (if same then some (f (or_default (named_resource n) old)) else old)
        ≡ serializer_in old
  kept_in n f true none kept = kept (named_resource n)
  kept_in n f true (some r) kept = kept r
  kept_in n f false old kept = refl

  serializer-unless :
      (n : Model) (f : ResourceEntry → ResourceEntry) (abstract : Bool) (registry : Registry)
      → ((r : ResourceEntry) → (f r).serializer ≡ r.serializer)
      → get_resource_serializer m (if abstract then registry else set_resource n f registry)
        ≡ get_resource_serializer m registry
  unfolding get_resource_serializer
  serializer-unless n f true registry kept = refl
  serializer-unless n f false registry kept =
      ap serializer_in (resource_entry-set_resource m n f registry)
      ∙ kept_in n f (is_same_resource m n) (resource_entry m registry) kept

  set_in :
      (n : Model) (f : ResourceEntry → ResourceEntry) (s : ℕ) (same : Bool)
      (old : Option ResourceEntry)
      → ((r : ResourceEntry) → (f r).serializer ≡ some s)
      → serializer_in (if same then some (f (or_default (named_resource n) old)) else old)
        ≡ (if same then some s else serializer_in old)
  set_in n f s true old h = h (or_default (named_resource n) old)
  set_in n f s false old h = refl

  abbrev with_serializer : Model → ℕ → ResourceEntry → ResourceEntry
  with_serializer n s resource = record resource {
    detail_view = some (detail_view_of n);
    list_view = some (list_view_of n);
    serializer = some s;
  }

  serializer-register_resource_serializer :
      (n : Model) (s : ℕ) (registry : Registry)
      → get_resource_serializer m (register_resource_serializer apps (some n) s registry) ≡ (
          if is_active_model apps n && is_same_resource m n
          then some s
          else get_resource_serializer m registry)
  unfolding register_resource_serializer if_active get_resource_serializer
  serializer-register_resource_serializer n s registry =
      elim (Bool-cases (is_active_model apps n)) [
        | inl e ↦ rw e (
            ap serializer_in (resource_entry-set_resource m n (with_serializer n s) registry)
            ∙ set_in n (with_serializer n s) s (is_same_resource m n) (resource_entry m registry)
                (λ r. refl))
        | inr e ↦ rw e refl
      ]

  -- After any registrations get_resource_serializer gives for a resource the serializer of the
  -- last registration of a serializer for it that is of an installed application, and what it gave
  -- before if there is none.
  pub get_resource_serializer-register_all :
      (rs : List Registration) (registry : Registry)
      → get_resource_serializer m (register_all apps rs registry)
        ≡ last_serializer rs (get_resource_serializer m registry)
  unfolding register_all register last_serializer register_service register_service_serializer
      register_service_filter register_resource_filter register_resource_view register_property
  get_resource_serializer-register_all [] registry = refl
  get_resource_serializer-register_all (backend n b nested ∷ rs) registry =
      get_resource_serializer-register_all rs (register apps (backend n b nested) registry)
      ∙ ap (last_serializer rs) (serializer-register_backend n b nested registry)
  get_resource_serializer-register_all (service n ∷ rs) registry =
      get_resource_serializer-register_all rs (register apps (service n) registry)
      ∙ ap (last_serializer rs) (
          serializer-if_active n _ registry
            λ n'. serializer-set_service n'.service_name _ registry (λ s. refl))
  get_resource_serializer-register_all (property n ∷ rs) registry =
      get_resource_serializer-register_all rs (register apps (property n) registry)
      ∙ ap (last_serializer rs) (
          serializer-if_active n _ registry
            λ n'. serializer-set_service n'.service_name _ registry (λ s. refl))
  get_resource_serializer-register_all (service_serializer n v ∷ rs) registry =
      get_resource_serializer-register_all rs (register apps (service_serializer n v) registry)
      ∙ ap (last_serializer rs) (
          serializer-if_active n _ registry
            λ n'. serializer-set_service n'.service_name _ registry (λ s. refl))
  get_resource_serializer-register_all (service_filter n v ∷ rs) registry =
      get_resource_serializer-register_all rs (register apps (service_filter n v) registry)
      ∙ ap (last_serializer rs) (
          serializer-if_active n _ registry
            λ n'. serializer-set_service n'.service_name _ registry (λ s. refl))
  get_resource_serializer-register_all (resource_serializer none v ∷ rs) registry =
      get_resource_serializer-register_all rs registry
  get_resource_serializer-register_all (resource_serializer (some n) v ∷ rs) registry =
      get_resource_serializer-register_all rs
        (register apps (resource_serializer (some n) v) registry)
      ∙ ap (last_serializer rs) (serializer-register_resource_serializer n v registry)
  get_resource_serializer-register_all (resource_filter n v ∷ rs) registry =
      get_resource_serializer-register_all rs (register apps (resource_filter n v) registry)
      ∙ ap (last_serializer rs) (
          serializer-if_active n _ registry
            λ n'. serializer-unless n' _ n'.abstract registry (λ r. refl))
  get_resource_serializer-register_all (resource_view n v ∷ rs) registry =
      get_resource_serializer-register_all rs (register apps (resource_view n v) registry)
      ∙ ap (last_serializer rs) (
          serializer-if_active n _ registry
            λ n'. serializer-unless n' _ n'.abstract registry (λ r. refl))
