-- ===== src/Coverage/Codec/Errors.antt =====
-- What the codec does with bad input.
use mathlib.Core.List.{append-nil}
use fuzzmeter.Prelude.{
  ℕ, zero, suc, ◌≤◌, ◌≡◌, ◌≢◌, ◌⊎◌, ◌↔◌, true, All, false, Option, some, none, List, [], ◌∷◌, ◌++◌,
  arith, length, length-append, Option-cases, inl, inr, Bool-cases,
}
use fuzzmeter.Coverage.Codec.{
  encode_uvarint, encode_from, decoded, encode_delta_varints, decode_uvarint, stuck, decode_values,
  Packing, unpacked, decode_compact_metric,
}
use fuzzmeter.Coverage.Codec.Bytes.{
  IsByte, decode-encode_uvarint, decode_uvarint_shorter, decode_uvarint-append,
}
use fuzzmeter.Coverage.Codec.RoundTrip.{
  is_rising, differences, differences-IsByte, encode-differences, encode_from-differences,
  decode-differences,
}

encode_from-none :
    (prev : ℕ) (vs : List ℕ) → is_rising prev vs ≡ false → encode_from (some prev) vs ≡ none
unfolding encode_from
encode_from-none prev [] h = cc
encode_from-none prev (v ∷ vs) h = ground (arith, encode_from-none v vs)

-- Encoding raises exactly where some value is smaller than the one before it.
pub encode-none_iff : (vs : List ℕ) → (encode_delta_varints vs ≡ none) ↔ (is_rising 0 vs ≡ false)
unfolding encode_delta_varints
encode-none_iff [] = (λ h. cc, λ h. cc)
encode-none_iff (v ∷ vs) = elim (Bool-cases (is_rising v vs)) [
  | inl up ↦ (λ h. ground (arith, encode_from-differences v vs up), λ h. ground arith)
  | inr down ↦ (λ h. ground arith, λ h. ground (arith, encode_from-none v vs down))
]

-- Encoding numbers of any size either raises, and then some value is smaller than the one before
-- it, or no value is and it gives a payload of bytes, which `_decode_compact_metric` reads back
-- as the values.
pub encode_delta_varints-cases :
    (vs : List ℕ)
    → ((is_rising 0 vs ≡ false) × (encode_delta_varints vs ≡ none))
      ⊎ ((is_rising 0 vs ≡ true)
          × (payload : List ℕ) × (encode_delta_varints vs ≡ some payload)
          × All IsByte payload
          × (decode_values (length payload) payload [] 0 ≡ decoded vs))
encode_delta_varints-cases vs = elim (Bool-cases (is_rising 0 vs)) [
  | inr falls ↦ inl (falls, (encode-none_iff vs).1 falls)
  | inl rises ↦ inr (
    rises,
    differences 0 vs,
    encode-differences vs rises,
    differences-IsByte 0 vs,
    decode-differences (length (differences 0 vs)) vs rises (omega arith),
  )
]

-- No proper beginning of a written number is read as a number: it is a truncated payload.
pub decode_truncated :
    (v x : ℕ) (front back : List ℕ)
    → encode_uvarint v ≡ front ++ x ∷ back
    → decode_uvarint front ≡ none
decode_truncated v x front back e = elim (Option-cases (decode_uvarint front)) [
  | inl cut ↦ cut
  | inr ((u, rest), found) ↦ ground (
    arith,
    whole,
    decode_uvarint-append front (x ∷ back) u rest found,
    length-append rest (x ∷ back),
  )
]
  where
    whole : decode_uvarint (front ++ x ∷ back) ≡ some (v, [])
    whole = rw (← e) (rw (append-nil (encode_uvarint v)) at (decode-encode_uvarint v []))

decode_values-ne-stuck :
    (fuel : ℕ) (raw values : List ℕ) (current : ℕ)
    → length raw ≤ fuel
    → decode_values fuel raw values current ≢ stuck
unfolding decode_values
decode_values-ne-stuck fuel [] values current h = λ e. cc
decode_values-ne-stuck zero (b ∷ raw) values current h = absurd (omega arith)
decode_values-ne-stuck (suc fuel) (b ∷ raw) values current h =
    elim (Option-cases (decode_uvarint (b ∷ raw))) [
      | inl cut ↦ rw (cut, decode_values) (λ e. cc)
      | inr ((delta, rest), e) ↦
          rw (e, decode_values)
            (decode_values-ne-stuck fuel rest _ _
              (omega (arith, decode_uvarint_shorter (b ∷ raw) delta rest e)))
    ]

unpacked-ne-stuck : (p : Packing) (raw : Option (List ℕ)) → unpacked p raw ≢ stuck
unfolding unpacked
unpacked-ne-stuck p none = λ e. cc
unpacked-ne-stuck p (some raw) = decode_values-ne-stuck (length raw) raw [] 0 (omega arith)

-- Decoding ends on every payload, well formed or not: the fuel never runs out.
pub decode_compact_metric-ne-stuck :
    (p : Packing) (payload : Option (Packing.Payload p)) → decode_compact_metric p payload ≢ stuck
unfolding decode_compact_metric
decode_compact_metric-ne-stuck p none = λ e. cc
decode_compact_metric-ne-stuck p (some payload) = elim (Bool-cases (p.is_empty payload)) [
  | inl empty ↦ rw empty (λ e. cc)
  | inr filled ↦ rw filled (unpacked-ne-stuck p (p.unpack payload))
]
