-- ===== src/Composite/Key/Tests.antt =====
-- A key whose parts hold colons and escapes.
use fuzzmeter.Prelude.{◌≡◌, refl, some, none, [], ◌∷◌}
use fuzzmeter.Composite.Key.{
  CompositeMeasurementKey, as_id, from_id, split_colon, unescape, key_of_parts, replace_three,
}
use fuzzmeter.Composite.Key.RoundTrip.{from_id-as_id}

-- The parts 'a:b', '%3A', '%', '' and '%25'.
abbrev odd_key : CompositeMeasurementKey
odd_key = record {
  source_id = 97 ∷ 58 ∷ 98 ∷ [];
  run_id = 37 ∷ 51 ∷ 65 ∷ [];
  fuzzer = 37 ∷ [];
  benchmark = [];
  fuzz_target = 37 ∷ 50 ∷ 53 ∷ [];
}

too_few_parts : from_id (97 ∷ 58 ∷ 98 ∷ []) ≡ none
unfolding from_id split_colon unescape replace_three key_of_parts
too_few_parts = refl

from_id-as_id_example : from_id (as_id odd_key) ≡ some odd_key
from_id-as_id_example = from_id-as_id odd_key
