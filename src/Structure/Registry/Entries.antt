-- ===== src/Structure/Registry/Entries.antt =====
-- The entries of the registry after an assignment.
use text.Mathlib.Text.{◌==◌ as str_eq}
use waldur_core.Prelude.{
  ◌≡◌, refl, Bool, true, false, ◌&&◌, Option, none, some, [], ◌∷◌, String, arith, eq_iff, ap, ◌∙◌,
  if◌then◌else◌, Option-cases, inl, inr,
}
use waldur_core.Structure.Registry.{
  StrDict, find_entry, setdefault, change_entry, Model, ResourceEntry, ServiceEntry, Registry,
  no_service, set_service, named_resource, set_resource,
}
use waldur_core.Structure.Registry.Lookups.{get_service_backend, resource_in, resource_entry}

abbrev pub or_default : {A : Type 0} → A → Option A → A
or_default d none = d
or_default d (some a) = a

-- The entry of a key after `setdefault` and an assignment to the entry of another.
pub find_entry-change_entry :
    {A : Type 0} (k key : String) (f : A → A) (v : A) (d : StrDict A)
    → find_entry k (change_entry key f (setdefault key v d))
      ≡ (if str_eq key k then some (f (or_default v (find_entry k d))) else find_entry k d)
unfolding find_entry change_entry setdefault
find_entry-change_entry k key f v [] = ground (arith, eq_iff key key)
find_entry-change_entry k key f v ((j, w) ∷ d) = ground (
  arith,
  find_entry-change_entry k key f v d,
  eq_iff j key,
  eq_iff j k,
  eq_iff key k,
  eq_iff key key,
)

pub find_entry-set_service :
    (k key : String) (f : ServiceEntry → ServiceEntry) (registry : Registry)
    → find_entry k (set_service key f registry) ≡ (
        if str_eq key k
        then some (f (or_default no_service (find_entry k registry)))
        else find_entry k registry)
unfolding set_service
find_entry-set_service k key f registry = find_entry-change_entry k key f no_service registry

-- An assignment that leaves the backends.
pub get_service_backend-kept :
    (k key : String) (f : ServiceEntry → ServiceEntry) (registry : Registry)
    → ((s : ServiceEntry) → (f s).backend ≡ s.backend)
    → get_service_backend k (set_service key f registry) ≡ get_service_backend k registry
unfolding get_service_backend
get_service_backend-kept k key f registry kept = elim (Option-cases (find_entry k registry)) [
  | inl e ↦ rw (find_entry-set_service k key f registry, e) (ground (arith, kept no_service))
  | inr (s, e) ↦ rw (find_entry-set_service k key f registry, e) (ground (arith, kept s))
]

-- An assignment that leaves the resources.
pub resource_entry-kept :
    (m : Model) (key : String) (f : ServiceEntry → ServiceEntry) (registry : Registry)
    → ((s : ServiceEntry) → (f s).resources ≡ s.resources)
    → resource_entry m (set_service key f registry) ≡ resource_entry m registry
unfolding resource_entry find_entry
resource_entry-kept m key f registry kept =
    elim (Option-cases (find_entry m.service_name registry)) [
      | inl e ↦
          rw (find_entry-set_service m.service_name key f registry, e)
            (ground (arith, kept no_service))
      | inr (s, e) ↦
          rw (find_entry-set_service m.service_name key f registry, e) (ground (arith, kept s))
    ]

-- Two models that stand in the same entry.
abbrev pub is_same_resource : Model → Model → Bool
is_same_resource m n = str_eq n.service_name m.service_name && str_eq n.model_str m.model_str

-- What `set_resource` does with a service.
abbrev changed_service : Model → (ResourceEntry → ResourceEntry) → ServiceEntry → ServiceEntry
changed_service n f service = record service {
  resources =
      change_entry n.model_str f (setdefault n.model_str (named_resource n) service.resources);
}

resource_in-changed :
    (m n : Model) (f : ResourceEntry → ResourceEntry) (old : Option ServiceEntry) (same : Bool)
    → resource_in m.model_str
        (if same then some (changed_service n f (or_default no_service old)) else old)
      ≡ (if same && str_eq n.model_str m.model_str
          then some (f (or_default (named_resource n) (resource_in m.model_str old)))
          else resource_in m.model_str old)
unfolding find_entry
resource_in-changed m n f none true =
    find_entry-change_entry m.model_str n.model_str f (named_resource n) []
resource_in-changed m n f (some s) true =
    find_entry-change_entry m.model_str n.model_str f (named_resource n) s.resources
resource_in-changed m n f none false = refl
resource_in-changed m n f (some s) false = refl

pub resource_entry-set_resource :
    (m n : Model) (f : ResourceEntry → ResourceEntry) (registry : Registry)
    → resource_entry m (set_resource n f registry) ≡ (
        if is_same_resource m n
        then some (f (or_default (named_resource n) (resource_entry m registry)))
        else resource_entry m registry)
unfolding resource_entry set_resource
resource_entry-set_resource m n f registry =
    ap (resource_in m.model_str)
      (find_entry-set_service m.service_name n.service_name (changed_service n f) registry)
    ∙ resource_in-changed m n f (find_entry m.service_name registry)
        (str_eq n.service_name m.service_name)
