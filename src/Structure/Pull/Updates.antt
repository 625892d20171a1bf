-- ===== src/Structure/Pull/Updates.antt =====
-- `update_pulled_fields`: what it leaves in the instance and in the row, and when it saves.
use text.Mathlib.Text.{◌==◌ as str_eq}
use waldur_core.Prelude.{
  ◌≡◌, refl, sym, ◌∙◌, ap, Bool, true, false, not, suc, ◌&&◌, ◌||◌, Option, none, some, List, [],
  ◌∷◌, String, arith, any, all, if◌then◌else◌, Bool-cases, Option-cases, inl, inr, eq_iff, eq_refl,
}
use waldur_core.Prelude.Text.{Text, same_text, same_text_iff}
use waldur_core.Structure.Pull.{
  Pulled, Stored, pull_fields, first_message, message_of, has_new_message, pull_message,
  update_pulled_fields,
}
use waldur_core.Structure.Pull.Fields.{
  attributes-pull_fields, pull_fields-unmodified, pull_fields-agreed,
}

all_of_any :
    (p : String → Bool) (fields : List String)
    → ((k : String) → any (str_eq k) fields ≡ true → p k ≡ true)
    → all p fields ≡ true
unfolding all any
all_of_any p [] h = refl
all_of_any p (f ∷ fields) h =
    ground (arith, h f, eq_refl f, all_of_any p fields (λ k e. h k (ground (arith, e))))

same_text_refl : (t : Text) → same_text t t ≡ true
same_text_refl t = (same_text_iff t t).1 refl

neither : (a b : Bool) → (a || b) ≡ false → (a ≡ false) × (b ≡ false)
neither a b h = (ground arith, ground arith)

text_of : Option Text → Text
text_of none = []
text_of (some text) = text

known_message :
    (m : Option Text)
    → (not (same_text (first_message m m) []) && not (same_text (text_of m) (first_message m m)))
      ≡ false
unfolding first_message same_text text_of
known_message none = refl
known_message (some []) = refl
known_message (some (c ∷ cs)) = ground (arith, same_text_refl (c ∷ cs))

message_of-text : (i : Pulled) → message_of i ≡ text_of i.error_message
unfolding message_of text_of
message_of-text i = elim (Option-cases i.error_message) [
  | inl missing ↦ rw (missing, text_of) refl
  | inr (t, e) ↦ rw (e, text_of) refl
]

-- The message of the imported object is not new to an instance that has it.
no_new_message :
    (imported : Pulled) (i : Pulled)
    → i.error_message ≡ imported.error_message
    → has_new_message imported i ≡ false
unfolding has_new_message
no_new_message imported i e = rw (message_of-text i, e) (known_message imported.error_message)

module _ (imported : Pulled) (fields : List String) where
  module _ (s : Stored) where
    abbrev pulled : Pulled
    pulled = (pull_fields imported fields (s.instance, false)).0

    abbrev is_modified : Bool
    is_modified = (pull_fields imported fields (s.instance, false)).1

    saved :
        (is_modified || has_new_message imported pulled) ≡ true
        → update_pulled_fields imported fields s ≡ record {
          instance = pull_message imported pulled;
          row = pull_message imported pulled;
          saves = suc s.saves;
        }
    unfolding update_pulled_fields
    saved h = rw (h) refl

    unsaved :
        (is_modified || has_new_message imported pulled) ≡ false
        → update_pulled_fields imported fields s
          ≡ record s { instance = pull_message imported pulled }
    unfolding update_pulled_fields
    unsaved h = rw (h) refl

    instance-update :
        (update_pulled_fields imported fields s).instance ≡ pull_message imported pulled
    instance-update = elim (Bool-cases (is_modified || has_new_message imported pulled)) [
      | inl h ↦ ap (λ t. t.instance) (saved h)
      | inr h ↦ ap (λ t. t.instance) (unsaved h)
    ]

  module _ (i : Pulled) where
    attributes-pull_message : (k : String) → (pull_message imported i).attributes k ≡ i.attributes k
    unfolding pull_message
    attributes-pull_message k = elim (Bool-cases (has_new_message imported i)) [
      | inl h ↦ rw (h) refl
      | inr h ↦ rw (h) refl
    ]

    no_news-pull_message : has_new_message imported (pull_message imported i) ≡ false
    unfolding pull_message
    no_news-pull_message = elim (Bool-cases (has_new_message imported i)) [
      | inl h ↦
          rw (h)
            (no_new_message imported (record i { error_message = imported.error_message }) refl)
      | inr h ↦ rw (h) h
    ]

    same-pull_message : has_new_message imported i ≡ false → pull_message imported i ≡ i
    unfolding pull_message
    same-pull_message h = rw (h) refl

  -- The fields become those of the imported object.
  pub attributes-update_pulled_fields :
      (s : Stored) (k : String)
      → (update_pulled_fields imported fields s).instance.attributes k
        ≡ (if any (str_eq k) fields then imported.attributes k else s.instance.attributes k)
  attributes-update_pulled_fields s k =
      ap (λ (i : Pulled). i.attributes k) (instance-update s)
      ∙ attributes-pull_message (pulled s) k
      ∙ attributes-pull_fields imported fields (s.instance, false) k

  row-update_pulled_fields :
      (s : Stored)
      → s.row ≡ s.instance
      → (update_pulled_fields imported fields s).row
        ≡ (update_pulled_fields imported fields s).instance
  row-update_pulled_fields s e =
      elim (Bool-cases (is_modified s || has_new_message imported (pulled s))) [
        | inl h ↦ ap (λ t. t.row) (saved s h) ∙ sym (ap (λ t. t.instance) (saved s h))
        | inr h ↦
            ap (λ t. t.row) (unsaved s h)
            ∙ e
            ∙ sym (
                ap (λ t. t.instance) (unsaved s h)
                ∙ same-pull_message (pulled s) (neither _ _ h).1
                ∙ pull_fields-unmodified imported fields s.instance (neither _ _ h).0)
      ]

  -- An instance that agrees already is not saved.
  idle :
      (s : Stored)
      → all (λ f. str_eq (s.instance.attributes f) (imported.attributes f)) fields ≡ true
      → has_new_message imported s.instance ≡ false
      → update_pulled_fields imported fields s ≡ s
  unfolding update_pulled_fields
  idle s agrees quiet = rw (pull_fields-agreed imported fields s.instance agrees, quiet) refl

  -- A second call of update_pulled_fields with the same imported object changes and saves nothing.
  pub update_pulled_fields_twice :
      (s : Stored)
      → update_pulled_fields imported fields (update_pulled_fields imported fields s)
        ≡ update_pulled_fields imported fields s
  update_pulled_fields_twice s =
      idle (update_pulled_fields imported fields s)
        (all_of_any _ fields (λ k named. agreed k named))
        (ap (has_new_message imported) (instance-update s) ∙ no_news-pull_message (pulled s))
    where
      agreed :
          (k : String)
          → any (str_eq k) fields ≡ true
          → str_eq
              ((update_pulled_fields imported fields s).instance.attributes k)
              (imported.attributes k)
            ≡ true
      agreed k named = (eq_iff _ _).1 (
          attributes-update_pulled_fields s k
          ∙ ap (λ b. if b then imported.attributes k else s.instance.attributes k) named)

  -- If the row is as the instance, after update_pulled_fields the named attributes of the row are
  -- those of the imported object, and the others as before.
  pub update_pulled_fields_lem :
      (s : Stored)
      → s.row ≡ s.instance
      → (k : String)
      → (update_pulled_fields imported fields s).row.attributes k
        ≡ (if any (str_eq k) fields then imported.attributes k else s.row.attributes k)
  update_pulled_fields_lem s e k =
      ap (λ (i : Pulled). i.attributes k) (row-update_pulled_fields s e)
      ∙ attributes-update_pulled_fields s k
      ∙ ap (λ (i : Pulled). if any (str_eq k) fields then imported.attributes k else i.attributes k)
          (sym e)
