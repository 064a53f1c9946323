-- ===== src/Coverage/Codec.antt =====
-- The byte codec of coverage set artifacts, `_encode_uvarint` to `_decode_compact_metric` of
-- src/fuzzmeter/resources/entrypoints/coverage_sets.py.
-- A byte string is a list of numbers. `offset` into `data` is the list of bytes still to be read.
-- Python's base64 and zlib are the parameter `Packing`.
pub mod Bytes
pub mod RoundTrip
pub mod Errors
mod Tests
use Prim.Native.Nat.{bit_and, bit_or}
use mathlib.Core.Logic.{dite}
use mathlib.Core.Option
use mathlib.Core.WellFounded.{Acc}
use native.Mathlib.Decide.{dec_le}
use fuzzmeter.Prelude.{
  ℕ, zero, suc, ◌+◌, ◌-◌, ◌*◌, ◌/◌, ◌^◌, ◌≤◌, ◌<◌, ◌≡◌, Bool, true, false, Option, none, some, List,
  [], ◌∷◌, ◌++◌, arith, ltb, if◌then◌else◌, length,
}
use fuzzmeter.Prelude.Failing.{◌>>=◌}
use fuzzmeter.Prelude.Order.{lt_wf}

encode_loop : (value : ℕ) → Acc ◌<◌ value → List ℕ
encode_loop value (Acc.intro _ smaller) =
    dite (dec_le 0x80 value)
      (λ big.
        bit_or (bit_and value 0x7f) 0x80 ∷ encode_loop (value / 128) (smaller _ (omega arith)))
      (λ _. value ∷ [])

-- `_encode_uvarint`; `value >>= 7` is `value / 128`.
pub encode_uvarint : ℕ → List ℕ
unfolding encode_loop lt_wf dec_le
encode_uvarint value = encode_loop value (lt_wf.apply value)

-- A difference of two numbers is an integer.
pub data ℤ : Type 0 where
  pos negsuc : ℕ → ℤ

-- `value - prev`
abbrev pub difference : ℕ → ℕ → ℤ
difference value prev = if ltb value prev then negsuc (prev - value - 1) else pos (value - prev)

-- `out.append(value)` of a bytearray: none, a ValueError, unless the value is a byte.
abbrev pub append_byte : List ℕ → ℤ → Option (List ℕ)
append_byte out (negsuc n) = none
append_byte out (pos n) = if ltb n 256 then some (out ++ n ∷ []) else none

-- `_encode_uvarint` of an integer: one below 0 is below 0x80, and is appended as it is.
pub encode_integer : ℤ → Option (List ℕ)
encode_integer (pos n) = some (encode_uvarint n)
encode_integer (negsuc n) = append_byte [] (negsuc n)

-- `value if prev is None else value - prev`
abbrev pub delta_of : Option ℕ → ℕ → ℤ
delta_of none value = pos value
delta_of (some prev) value = difference value prev

-- `prev` is none before the first value.
pub encode_from : Option ℕ → List ℕ → Option (List ℕ)
unfolding encode_integer
encode_from prev [] = some []
encode_from prev (value ∷ values) = do
  written ← encode_integer (delta_of prev value)
  payload ← encode_from (some value) values
  some (written ++ payload)

-- `_encode_delta_varints`
pub encode_delta_varints : List ℕ → Option (List ℕ)
unfolding encode_from
encode_delta_varints values = encode_from none values

-- The loop of `_decode_uvarint`; none is its ValueError, a truncated payload.
decode_loop : List ℕ → ℕ → ℕ → Option (ℕ × List ℕ)
decode_loop [] value shift = none
decode_loop (byte ∷ rest) value shift =
    let value' = bit_or value (bit_and byte 0x7f * 2 ^ shift) in
    let more = decode_loop rest value' (shift + 7) in
    if ltb byte 0x80 then some (value', rest) else more

-- `_decode_uvarint`
pub decode_uvarint : List ℕ → Option (ℕ × List ℕ)
unfolding decode_loop
decode_uvarint raw = decode_loop raw 0 0

-- What `_decode_compact_metric` does: it returns a list, or None, or a ValueError leaves it.
-- `stuck` is no outcome of the source: the loop ran out of fuel.
pub data Decoded : Type 0 where
  decoded : List ℕ → Decoded
  unknown value_error stuck : Decoded

-- `current = delta if not values else current + delta`
abbrev next_value : List ℕ → ℕ → ℕ → ℕ
next_value [] current delta = delta
next_value (v ∷ vs) current delta = current + delta

pub decode_values : ℕ → List ℕ → List ℕ → ℕ → Decoded
decode_values fuel [] values current = decoded values
decode_values zero (b ∷ raw) values current = stuck
decode_values (suc fuel) (b ∷ raw) values current = elim (decode_uvarint (b ∷ raw)) [
  | none ↦ value_error
  | some (delta, rest) ↦
      decode_values fuel rest (values ++ next_value values current delta ∷ [])
        (next_value values current delta)
]

-- base64 over zlib. `unpack` gives none where either of the two raises.
pub record Packing : Type 1 where
  pub Payload : Type 0
  pub is_empty : Payload → Bool
  pub pack : List ℕ → Payload
  pub unpack : Payload → Option (List ℕ)
  pub pack_nonempty : (raw : List ℕ) → is_empty (pack raw) ≡ false
  pub unpack-pack : (raw : List ℕ) → unpack (pack raw) ≡ some raw

module _ (p : Packing) where
  open p use {Payload, is_empty, pack, unpack}

  unpacked : Option (List ℕ) → Decoded
  unfolding decode_values
  unpacked none = unknown
  unpacked (some raw) = decode_values (length raw) raw [] 0

  -- `_decode_compact_metric`; none is a payload that is missing or is no text.
  pub decode_compact_metric : Option Payload → Decoded
  unfolding unpacked
  decode_compact_metric none = unknown
  decode_compact_metric (some payload) =
      if is_empty payload then unknown else unpacked (unpack payload)

  -- The `payload` entry that `write_coverage_sets` stores for one metric.
  unfoldable pub encode_payload : List ℕ → Option Payload
  encode_payload values = Option.map pack (encode_delta_varints values)
