-- ===== src/Structure/Pull/Fields.antt =====
-- What `update_pulled_fields` leaves.
use text.Mathlib.Text.{◌==◌ as str_eq}
use mathlib.Core.Path.{subst}
use waldur_core.Prelude.{
  ◌≢◌, ◌≡◌, refl, sym, ◌∙◌, ap, Bool, true, false, ◌||◌, List, [], ◌∷◌, String, arith, any, all,
  if◌then◌else◌, Bool-cases, inl, inr, eq_iff,
}
use waldur_core.Structure.Pull.{Pulled, set_attribute, pull_field, pull_fields}

true_ne_false : true ≢ false
true_ne_false e = cc

if_or :
    (b c : Bool) (x y : String) → (if b then x else if c then x else y) ≡ (if c || b then x else y)
if_or b c x y = ground arith

module _ (imported : Pulled) where
  module _ (f : String) (i : Pulled) (modified : Bool) where
    pull_field-same :
        str_eq (i.attributes f) (imported.attributes f) ≡ true
        → pull_field imported f (i, modified) ≡ (i, modified)
    unfolding pull_field
    pull_field-same same = rw (same, pull_field) refl

    pull_field-other :
        str_eq (i.attributes f) (imported.attributes f) ≡ false
        → pull_field imported f (i, modified) ≡ (set_attribute f (imported.attributes f) i, true)
    unfolding pull_field
    pull_field-other other = rw (other, pull_field) refl

    attributes-pull_field :
        (k : String)
        → (pull_field imported f (i, modified)).0.attributes k
          ≡ (if str_eq k f then imported.attributes k else i.attributes k)
    unfolding set_attribute
    attributes-pull_field k = elim (Bool-cases (str_eq (i.attributes f) (imported.attributes f))) [
      | inl same ↦
          rw (pull_field-same same)
            (agreed k ((eq_iff (i.attributes f) (imported.attributes f)).0 same))
      | inr other ↦ rw (pull_field-other other) (kept k)
    ]
      where
        agreed :
            (j : String)
            → i.attributes f ≡ imported.attributes f
            → i.attributes j ≡ (if str_eq j f then imported.attributes j else i.attributes j)
        agreed j e = elim (Bool-cases (str_eq j f)) [
          | inl named ↦
              rw (named)
                (subst (λ n. i.attributes n ≡ imported.attributes n) (sym ((eq_iff j f).0 named)) e)
          | inr unnamed ↦ rw (unnamed) refl
        ]

        kept :
            (j : String)
            → (if str_eq j f then imported.attributes f else i.attributes j)
              ≡ (if str_eq j f then imported.attributes j else i.attributes j)
        kept j = elim (Bool-cases (str_eq j f)) [
          | inl named ↦ rw (named) (ap imported.attributes (sym ((eq_iff j f).0 named)))
          | inr unnamed ↦ rw (unnamed) refl
        ]

  -- The loop: the named attributes are those of the imported object, the others stay.
  pub attributes-pull_fields :
      (fields : List String) (r : Pulled × Bool) (k : String)
      → (pull_fields imported fields r).0.attributes k
        ≡ (if any (str_eq k) fields then imported.attributes k else r.0.attributes k)
  unfolding pull_fields any
  attributes-pull_fields [] r k = refl
  attributes-pull_fields (f ∷ fields) (i, m) k =
      attributes-pull_fields fields (pull_field imported f (i, m)) k
      ∙ (rw (attributes-pull_field f i m k)
          (if_or (any (str_eq k) fields) (str_eq k f) (imported.attributes k) (i.attributes k)))

  pull_fields-modified :
      (fields : List String) (i : Pulled) → (pull_fields imported fields (i, true)).1 ≡ true
  unfolding pull_fields
  pull_fields-modified [] i = refl
  pull_fields-modified (f ∷ fields) i =
      elim (Bool-cases (str_eq (i.attributes f) (imported.attributes f))) [
        | inl same ↦
            ap (λ r. (pull_fields imported fields r).1) (pull_field-same f i true same)
            ∙ pull_fields-modified fields i
        | inr other ↦
            ap (λ r. (pull_fields imported fields r).1) (pull_field-other f i true other)
            ∙ pull_fields-modified fields _
      ]

  -- A loop that changes nothing.
  pub pull_fields-unmodified :
      (fields : List String) (i : Pulled)
      → (pull_fields imported fields (i, false)).1 ≡ false
      → (pull_fields imported fields (i, false)).0 ≡ i
  unfolding pull_fields
  pull_fields-unmodified [] i h = refl
  pull_fields-unmodified (f ∷ fields) i h =
      elim (Bool-cases (str_eq (i.attributes f) (imported.attributes f))) [
        | inl same ↦
            let e = pull_field-same f i false same in
            ap (λ r. (pull_fields imported fields r).0) e
            ∙ pull_fields-unmodified fields i
                (sym (ap (λ r. (pull_fields imported fields r).1) e) ∙ h)
        | inr other ↦ absurd (
            true_ne_false (
              sym (pull_fields-modified fields (set_attribute f (imported.attributes f) i))
              ∙ sym (ap (λ r. (pull_fields imported fields r).1) (pull_field-other f i false other))
              ∙ h))
      ]

  -- The loop over an object that agrees already.
  pub pull_fields-agreed :
      (fields : List String) (i : Pulled)
      → all (λ f. str_eq (i.attributes f) (imported.attributes f)) fields ≡ true
      → pull_fields imported fields (i, false) ≡ (i, false)
  unfolding pull_fields all
  pull_fields-agreed [] i h = refl
  pull_fields-agreed (f ∷ fields) i h =
      ap (pull_fields imported fields) (pull_field-same f i false (ground (arith, h)))
      ∙ pull_fields-agreed fields i (ground (arith, h))
