-- ===== src/Composite/Key/RoundTrip.antt =====
-- Reading a key's text back.
use fuzzmeter.Prelude.{◌≡◌, refl, ap, ◌∙◌, some, List, [], ◌∷◌, ◌++◌, map, All}
use fuzzmeter.Composite.Key.{
  Text, colon, escape, unescape, split_colon, join_colon, CompositeMeasurementKey, as_id,
  key_of_parts, from_id,
}
use fuzzmeter.Composite.Key.Escaping.{IsPlain, unescape-escape, escape-IsPlain}

split-last : (part : Text) → All IsPlain part → split_colon part ≡ (part, [])
unfolding split_colon
split-last [] plain = refl
split-last (c ∷ cs) plain = rw (plain.0, split-last cs plain.1) refl

split-next :
    (part rest : Text)
    → All IsPlain part
    → split_colon (part ++ colon ∷ rest) ≡ (part, (split_colon rest).0 ∷ (split_colon rest).1)
unfolding split_colon
split-next [] rest plain = refl
split-next (c ∷ cs) rest plain = rw (plain.0, split-next cs rest plain.1) refl

abbrev parts_of : Text × List Text → List Text
parts_of (part, parts) = part ∷ parts

-- Parts without a colon come back from their join.
split-join :
    (part : Text) (parts : List Text)
    → All IsPlain part
    → All (All IsPlain) parts
    → split_colon (join_colon (part ∷ parts)) ≡ (part, parts)
unfolding join_colon
split-join part [] plain rest = split-last part plain
split-join part (next ∷ parts) plain rest =
    split-next part (join_colon (next ∷ parts)) plain
    ∙ ap (λ (s : Text × List Text). (part, s.0 ∷ s.1)) (split-join next parts rest.0 rest.1)

map-unescape : (parts : List Text) → map unescape (map escape parts) ≡ parts
map-unescape [] = refl
map-unescape (part ∷ parts) = rw (unescape-escape part, map-unescape parts) refl

-- Whatever the five parts of a measurement key hold, colons, percent signs and escapes included,
-- `from_id` reads the key back from its `as_id`.
pub from_id-as_id : (key : CompositeMeasurementKey) → from_id (as_id key) ≡ some key
unfolding as_id from_id
from_id-as_id key =
    let e = escape-IsPlain in
    let split =
      split-join (escape key.source_id)
        (map escape (key.run_id ∷ key.fuzzer ∷ key.benchmark ∷ key.fuzz_target ∷ []))
        (e key.source_id)
        (e key.run_id, (e key.fuzzer, (e key.benchmark, (e key.fuzz_target, tt)))) in
    ap (λ (s : Text × List Text). key_of_parts (map unescape (s.0 ∷ s.1))) split
    ∙ ap key_of_parts (
        map-unescape
          (key.source_id ∷ key.run_id ∷ key.fuzzer ∷ key.benchmark ∷ key.fuzz_target ∷ []))
