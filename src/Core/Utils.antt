-- ===== src/Core/Utils.antt =====
-- Functions of waldur_core/core/utils.py: `format_time_and_value_to_segment_list`, the serialization
-- of instances and classes, and `clear_url`. Texts are lists of code points.
pub mod Segments
pub mod RoundTrip
use waldur_core.Prelude.{
  ℕ, zero, suc, ◌+◌, ◌*◌, ◌/◌, Bool, true, false, not, ◌&&◌, Option, none, some, List, [], ◌∷◌,
  ◌++◌, map, filter, length, Outcome, returned, raised, if◌then◌else◌, ltb, leb, ◌==◌,
}
use waldur_core.Prelude.Text.{Text, codes, starts_with}

-- An item of `time_and_value_list`.
pub record TimeAndValue : Type 0 where
  pub time : ℕ
  pub value : ℕ

pub record Segment : Type 0 where
  pub start : ℕ
  pub end : ℕ
  pub value : ℕ

unfoldable pub sum : List ℕ → ℕ
sum [] = 0
sum (x ∷ xs) = x + sum xs

-- The list comprehension of a segment.
unfoldable pub values_between : ℕ → ℕ → List TimeAndValue → List ℕ
values_between start end items =
    map (λ i. i.value) (filter (λ i. leb start i.time && ltb i.time end) items)

-- The value of a segment; the division of integers rounds down.
unfoldable pub segment_value : Bool → List ℕ → ℕ
unfolding sum
segment_value average values =
    if average && not (length values == 0) then sum values / length values else sum values

-- The rounds of the loop from `i` on.
unfoldable pub segments_from : Bool → List TimeAndValue → ℕ → ℕ → ℕ → ℕ → List Segment
unfolding values_between segment_value
segments_from average items start step i zero = []
segments_from average items start step i (suc n) =
    record {
      start = start + step * i;
      end = start + step * i + step;
      value =
          segment_value average (values_between (start + step * i) (start + step * i + step) items);
    }
    ∷ segments_from average items start step (suc i) n

-- `format_time_and_value_to_segment_list`, with the duration `end_timestamp - start_timestamp`. No
-- segments are a division by zero.
unfoldable pub format_time_and_value_to_segment_list :
    List TimeAndValue → ℕ → ℕ → ℕ → Bool → Option (List Segment)
unfolding segments_from
format_time_and_value_to_segment_list items segments_count start duration average =
    if segments_count == 0
    then none
    else some (segments_from average items start (duration / segments_count) 0 segments_count)

-- The code of ':', and that of '/'.
abbrev pub colon : ℕ
colon = 58

abbrev pub slash : ℕ
slash = 47

unfoldable pub prepend : ℕ → List Text → List Text
prepend c [] = (c ∷ []) ∷ []
prepend c (part ∷ parts) = (c ∷ part) ∷ parts

-- `text.split(separator)`
unfoldable pub split : ℕ → Text → List Text
unfolding prepend
split separator [] = [] ∷ []
split separator (c ∷ text) =
    let parts = split separator text in if c == separator then [] ∷ parts else prepend c parts

pub data Error : Type 0 where
  value_error lookup_error does_not_exist import_error : Error

-- `serialize_instance`, given the name of the model and the printed key.
unfoldable pub serialize_instance : Text → Text → Text
serialize_instance model_name pk = model_name ++ colon ∷ pk

-- The assignment to two names.
unfoldable pub unpack : {A : Type 0} → (Text → Text → Outcome Error A) → List Text → Outcome Error A
unpack f (a ∷ (b ∷ [])) = f a b
unpack f _ = raised value_error

-- `deserialize_instance`, with Django's registry of models and the query by key of a model.
unfoldable pub restore_instance :
    {Model Instance : Type 0}
    → (Text → Option Model)
    → (Model → Text → Option Instance)
    → Text
    → Outcome Error Instance
unfolding split unpack
restore_instance get_model get serialized =
    unpack
      (λ model_name pk. elim (get_model model_name) [
        | none ↦ raised lookup_error
        | some model ↦ elim (get model pk) [ none ↦ raised does_not_exist | some i ↦ returned i ]
      ])
      (split colon serialized)

-- `serialize_class` and `deserialize_class`, with the import of a module.
unfoldable pub serialize_class : Text → Text → Text
serialize_class module_name class_name = module_name ++ colon ∷ class_name

unfoldable pub deserialize_class :
    {Class : Type 0} → (Text → Text → Option Class) → Text → Outcome Error Class
unfolding split unpack
deserialize_class import serialized =
    unpack
      (λ module_name class_name. elim (import module_name class_name) [
        | none ↦ raised import_error
        | some c ↦ returned c
      ])
      (split colon serialized)

-- The text after the first separator, where there is one.
unfoldable pub after_first : ℕ → Text → Option Text
after_first separator [] = none
after_first separator (c ∷ text) = if c == separator then some text else after_first separator text

-- Goes on with the rest of a text, where there is one.
unfoldable pub split_rest : (Text → Text) → Text → Option Text → Text
split_rest f text none = text
split_rest f text (some rest) = f rest

-- `text.split(separator, n)[-1]`
unfoldable pub last_of_split : ℕ → ℕ → Text → Text
unfolding after_first split_rest
last_of_split separator zero text = text
last_of_split separator (suc n) text =
    split_rest (last_of_split separator n) text (after_first separator text)

-- `clear_url`
unfoldable pub clear_url : Text → Text
unfolding last_of_split starts_with
clear_url url = if starts_with (codes "http") url then slash ∷ last_of_split slash 3 url else url
