-- ===== src/Composite/Key.antt =====
-- `CompositeMeasurementKey` of src/fuzzmeter/composite/models.py, and the text that stands for it in
-- URLs. A text is the list of its code points.
pub mod Escaping
pub mod RoundTrip
mod Tests
use fuzzmeter.Prelude.{
  ℕ, Bool, true, false, ◌&&◌, Option, none, some, List, [], ◌∷◌, ◌++◌, map, nat_beq, if◌then◌else◌,
}

abbrev pub Text : Type 0
Text = List ℕ

abbrev pub percent : ℕ
percent = 37

abbrev pub colon : ℕ
colon = 58

-- '25', which follows a percent sign that stands for itself.
abbrev pub two_five : Text
two_five = 50 ∷ 53 ∷ []

-- '3A', which follows one that stands for a colon.
abbrev pub three_a : Text
three_a = 51 ∷ 65 ∷ []

-- `text.replace(c, new)` for one character.
pub replace_char : ℕ → Text → Text → Text
replace_char c new [] = []
replace_char c new (x ∷ xs) =
    if nat_beq x c then new ++ replace_char c new xs else x ∷ replace_char c new xs

-- `text.replace(abc, new)` for three characters and one, from the left.
pub replace_three : ℕ → ℕ → ℕ → ℕ → Text → Text
replace_three a b c new (x ∷ y ∷ z ∷ rest) =
    let here = replace_three a b c new rest in
    let on = replace_three a b c new (y ∷ z ∷ rest) in
    if nat_beq x a && nat_beq y b && nat_beq z c then new ∷ here else x ∷ on
replace_three a b c new (x ∷ y ∷ []) = x ∷ y ∷ []
replace_three a b c new (x ∷ []) = x ∷ []
replace_three a b c new [] = []

-- `_escape`
pub escape : Text → Text
unfolding replace_char
escape value =
    replace_char colon (percent ∷ three_a) (replace_char percent (percent ∷ two_five) value)

-- `_unescape`
pub unescape : Text → Text
unfolding replace_three
unescape value = replace_three percent 50 53 percent (replace_three percent 51 65 colon value)

-- `text.split(':')`; the first part and the others.
pub split_colon : Text → Text × List Text
split_colon [] = ([], [])
split_colon (c ∷ cs) =
    let (part, parts) = split_colon cs in
    if nat_beq c colon then ([], part ∷ parts) else (c ∷ part, parts)

-- `':'.join(parts)`
pub join_colon : List Text → Text
join_colon [] = []
join_colon (part ∷ []) = part
join_colon (part ∷ next ∷ parts) = part ++ colon ∷ join_colon (next ∷ parts)

pub record CompositeMeasurementKey : Type 0 where
  pub source_id : Text
  pub run_id : Text
  pub fuzzer : Text
  pub benchmark : Text
  pub fuzz_target : Text

pub as_id : CompositeMeasurementKey → Text
unfolding join_colon escape
as_id key =
    join_colon
      (map escape (key.source_id ∷ key.run_id ∷ key.fuzzer ∷ key.benchmark ∷ key.fuzz_target ∷ []))

-- `cls(*parts)` where there are five parts; none is the ValueError.
pub key_of_parts : List Text → Option CompositeMeasurementKey
key_of_parts (a ∷ b ∷ c ∷ d ∷ e ∷ []) =
    some (record { source_id = a; run_id = b; fuzzer = c; benchmark = d; fuzz_target = e })
key_of_parts _ = none

pub from_id : Text → Option CompositeMeasurementKey
unfolding split_colon unescape key_of_parts
from_id value = let (part, parts) = split_colon value in key_of_parts (map unescape (part ∷ parts))
