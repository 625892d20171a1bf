-- ===== src/Tests/UtilTests.antt =====
-- The theorems on the functions of core/utils.py at concrete values.
use waldur_core.Prelude.{
  ◌≡◌, refl, ◌+◌, ◌*◌, ◌/◌, false, some, Option, List, [], ◌∷◌, all, map, filter, arith, returned,
}
use waldur_core.Prelude.Text.{Text, codes, starts_with}
use waldur_core.Core.Utils.{
  TimeAndValue, Segment, sum, values_between, format_time_and_value_to_segment_list,
  restore_instance, serialize_instance, segments_from, segment_value, clear_url, last_of_split,
  after_first, split_rest,
}
use waldur_core.Core.Utils.RoundTrip.{lacks, restore_instance-serialize_instance}
use waldur_core.Core.Utils.Segments.{sum-format_segments}

abbrev times : List TimeAndValue
times =
    record { time = 10; value = 3 }
    ∷ record { time = 14; value = 4 }
    ∷ record { time = 16; value = 5 }
    ∷ []

sum-format_segments_example :
    (segments : List Segment) × (format_time_and_value_to_segment_list times 2 10 7 false
      ≡ some segments)
    × (sum (map (λ s. s.value) segments) ≡ sum (values_between 10 (10 + 7 / 2 * 2) times))
sum-format_segments_example = sum-format_segments times 2 10 7 (omega arith)

-- The item at 16 lies before the end of the period, 17, and in no segment.
lost_item :
    format_time_and_value_to_segment_list times 2 10 7 false
    ≡ some (
        record { start = 10; end = 13; value = 3 }
        ∷ (record { start = 13; end = 16; value = 4 } ∷ []))
unfolding format_time_and_value_to_segment_list segments_from segment_value values_between sum
    filter
lost_item = refl

-- Models are named by texts, and the rows of a model by their keys.
abbrev registry : Text → Option Text
registry name = some name

abbrev row : Text → Text → Option Text
row model pk = some pk

restore_instance-serialize_instance_example :
    restore_instance registry row (serialize_instance (codes "structure.project") (codes "12"))
    ≡ returned (codes "12")
unfolding lacks all
restore_instance-serialize_instance_example =
    restore_instance-serialize_instance registry row (codes "structure.project") (codes "12")
      (codes "structure.project") (codes "12") refl refl refl refl

cleared : clear_url (codes "https://example.com/api/users/") ≡ codes "/api/users/"
unfolding clear_url last_of_split after_first split_rest starts_with
cleared = refl
