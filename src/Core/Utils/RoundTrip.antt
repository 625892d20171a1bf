-- ===== src/Core/Utils/RoundTrip.antt =====
-- Instances and classes are restored from what they are serialized to.
use waldur_core.Prelude.{
  ℕ, suc, ◌≡◌, refl, ◌∙◌, ap, Bool, true, not, Option, some, [], ◌∷◌, ◌++◌, arith, all, returned,
  ◌==◌,
}
use waldur_core.Prelude.Text.{Text, codes, starts_with}
use waldur_core.Core.Utils.{
  colon, prepend, split, serialize_instance, unpack, restore_instance, serialize_class,
  deserialize_class, after_first, split_rest, last_of_split, clear_url, slash,
}

-- A text without the separator.
unfoldable pub lacks : ℕ → Text → Bool
lacks separator text = all (λ c. not (c == separator)) text

split-lacks : (separator : ℕ) (t : Text) → lacks separator t ≡ true → split separator t ≡ t ∷ []
unfolding split lacks all prepend
split-lacks separator [] h = refl
split-lacks separator (c ∷ t) h = ground (arith, h, split-lacks separator t)

split-append :
    (separator : ℕ) (a b : Text)
    → lacks separator a ≡ true
    → lacks separator b ≡ true
    → split separator (a ++ separator ∷ b) ≡ a ∷ (b ∷ [])
unfolding split lacks all prepend
split-append separator [] b h k = ground (arith, split-lacks separator b k)
split-append separator (c ∷ a) b h k = ground (arith, h, split-append separator a b)

-- If the name of a model and the printed key have no colon, the registry has the model and the
-- model has an instance with the key, deserialize_instance gives that instance for what
-- serialize_instance gives.
pub restore_instance-serialize_instance :
    {Model Instance : Type 0} (get_model : Text → Option Model)
    (get : Model → Text → Option Instance) (model_name pk : Text) (model : Model)
    (instance : Instance)
    → lacks colon model_name ≡ true
    → lacks colon pk ≡ true
    → get_model model_name ≡ some model
    → get model pk ≡ some instance
    → restore_instance get_model get (serialize_instance model_name pk) ≡ returned instance
unfolding restore_instance serialize_instance
restore_instance-serialize_instance get_model get model_name pk model instance h k e f =
    rw (split-append colon model_name pk h k, unpack, e, f) refl

pub deserialize_class-serialize_class :
    {Class : Type 0} (import_class : Text → Text → Option Class) (module_name class_name : Text)
    (class : Class)
    → lacks colon module_name ≡ true
    → lacks colon class_name ≡ true
    → import_class module_name class_name ≡ some class
    → deserialize_class import_class (serialize_class module_name class_name) ≡ returned class
unfolding deserialize_class serialize_class
deserialize_class-serialize_class import_class module_name class_name class h k e =
    rw (split-append colon module_name class_name h k, unpack, e) refl

after_first-append :
    (separator : ℕ) (a b : Text)
    → lacks separator a ≡ true
    → after_first separator (a ++ separator ∷ b) ≡ some b
unfolding after_first lacks all
after_first-append separator [] b h = ground arith
after_first-append separator (c ∷ a) b h = ground (arith, h, after_first-append separator a b)

last_of_split-append :
    (separator n : ℕ) (a b : Text)
    → lacks separator a ≡ true
    → last_of_split separator (suc n) (a ++ separator ∷ b) ≡ last_of_split separator n b
unfolding last_of_split split_rest
last_of_split-append separator n a b h =
    ap (split_rest (last_of_split separator n) (a ++ separator ∷ b))
      (after_first-append separator a b h)

-- The path of a URL with a protocol and a host.
pub clear_url-path :
    (protocol host path : Text)
    → starts_with (codes "http") (protocol ++ slash ∷ (slash ∷ (host ++ slash ∷ path))) ≡ true
    → lacks slash protocol ≡ true
    → lacks slash host ≡ true
    → clear_url (protocol ++ slash ∷ (slash ∷ (host ++ slash ∷ path))) ≡ slash ∷ path
unfolding clear_url lacks all
clear_url-path protocol host path s h k = rw (s) (
    ap (λ t. slash ∷ t)
      (last_of_split-append slash 2 protocol (slash ∷ (host ++ slash ∷ path)) h
        ∙ last_of_split-append slash 1 [] (host ++ slash ∷ path) refl
        ∙ last_of_split-append slash 0 host path k
        ∙ no_split path))
  where
    no_split : (t : Text) → last_of_split slash 0 t ≡ t
    no_split t = unfold last_of_split in refl
