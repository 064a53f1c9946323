-- ===== src/Coverage/Codec/Tests.antt =====
-- Runs of the codec, and its theorems at concrete inputs.
use fuzzmeter.Prelude.{
  ℕ, ◌≡◌, ◌≢◌, ◌⊎◌, All, length, refl, Bool, true, false, Option, none, some, List, [], ◌∷◌, ◌++◌,
}
use fuzzmeter.Coverage.Codec.{
  encode_uvarint, encode_delta_varints, decode_uvarint, decode_values, decoded, value_error, stuck,
  Packing, decode_compact_metric, encode_payload,
}
use fuzzmeter.Coverage.Codec.Bytes.{IsByte, decode-encode_uvarint}
use fuzzmeter.Coverage.Codec.RoundTrip.{is_rising, decode-encode_payload}
use fuzzmeter.Coverage.Codec.Errors.{encode_delta_varints-cases, decode_compact_metric-ne-stuck}

-- A packing that puts one byte in front.
abbrev strip : List ℕ → Option (List ℕ)
strip [] = none
strip (b ∷ raw) = some raw

abbrev is_nil : List ℕ → Bool
is_nil [] = true
is_nil (b ∷ raw) = false

abbrev marked : Packing
marked = record {
  Payload = List ℕ;
  is_empty = is_nil;
  pack = λ raw. 120 ∷ raw;
  unpack = strip;
  pack_nonempty = λ raw. refl;
  unpack-pack = λ raw. refl;
}

encode_300 : encode_uvarint 300 ≡ 0xac ∷ 0x02 ∷ []
unfolding encode_uvarint
encode_300 = refl

encode_deltas : encode_delta_varints (5 ∷ 5 ∷ 305 ∷ []) ≡ some (5 ∷ 0 ∷ 0xac ∷ 0x02 ∷ [])
unfolding encode_delta_varints encode_uvarint
encode_deltas = refl

decode_cut : decode_compact_metric marked (some (120 ∷ 5 ∷ 0xac ∷ [])) ≡ value_error
unfolding decode_compact_metric decode_uvarint
decode_cut = refl

decode-encode_uvarint_example :
    decode_uvarint (encode_uvarint 0xffff_ffff_ffff_ffff ++ 9 ∷ [])
    ≡ some (0xffff_ffff_ffff_ffff, 9 ∷ [])
decode-encode_uvarint_example = decode-encode_uvarint 0xffff_ffff_ffff_ffff (9 ∷ [])

decode-encode_payload_example :
    decode_compact_metric marked (encode_payload marked (5 ∷ 5 ∷ 305 ∷ []))
    ≡ decoded (5 ∷ 5 ∷ 305 ∷ [])
decode-encode_payload_example = decode-encode_payload marked (5 ∷ 5 ∷ 305 ∷ []) refl

encode_falling : encode_delta_varints (5 ∷ 4 ∷ []) ≡ none
unfolding encode_delta_varints encode_uvarint
encode_falling = refl

encode_delta_varints-cases_example :
    ((is_rising 0 (5 ∷ 4 ∷ []) ≡ false) × (encode_delta_varints (5 ∷ 4 ∷ []) ≡ none))
    ⊎ ((is_rising 0 (5 ∷ 4 ∷ []) ≡ true)
        × (payload : List ℕ) × (encode_delta_varints (5 ∷ 4 ∷ []) ≡ some payload)
        × All IsByte payload
        × (decode_values (length payload) payload [] 0 ≡ decoded (5 ∷ 4 ∷ [])))
encode_delta_varints-cases_example = encode_delta_varints-cases (5 ∷ 4 ∷ [])

decode_compact_metric-ne-stuck_example :
    decode_compact_metric marked (some (120 ∷ 5 ∷ 0xac ∷ [])) ≢ stuck
decode_compact_metric-ne-stuck_example =
    decode_compact_metric-ne-stuck marked (some (120 ∷ 5 ∷ 0xac ∷ []))
