-- ===== src/Coverage/Codec/RoundTrip.antt =====
-- Reading back what was written: `_decode_compact_metric` after `_encode_delta_varints`.
use mathlib.Core.List.{append-nil, append_assoc}
use fuzzmeter.Prelude.{
  ℕ, zero, suc, ◌+◌, ◌-◌, ◌≤◌, ◌<◌, ◌≡◌, refl, ap, ◌∙◌, Bool, true, ◌&&◌, some, List, [], ◌∷◌, ◌++◌,
  arith, length, leb, All, All-append,
}
use fuzzmeter.Coverage.Codec.{
  encode_uvarint, encode_from, encode_delta_varints, decode_uvarint, decoded, decode_values,
  Packing, unpacked, decode_compact_metric, encode_payload,
}
use fuzzmeter.Coverage.Codec.Bytes.{
  IsByte, encode_uvarint-IsByte, decode-encode_uvarint, decode_uvarint_shorter,
}

-- No value is smaller than the one before it, the first not smaller than `prev`.
abbrev pub is_rising : ℕ → List ℕ → Bool
is_rising prev [] = true
is_rising prev (v ∷ vs) = leb prev v && is_rising v vs

-- The differences of a rising sequence, one after another.
unfoldable pub differences : ℕ → List ℕ → List ℕ
differences prev [] = []
differences prev (v ∷ vs) = encode_uvarint (v - prev) ++ differences v vs

pub encode_from-differences :
    (prev : ℕ) (vs : List ℕ)
    → is_rising prev vs ≡ true
    → encode_from (some prev) vs ≡ some (differences prev vs)
unfolding encode_from differences
encode_from-differences prev [] h = refl
encode_from-differences prev (v ∷ vs) h = ground (arith, encode_from-differences v vs)

pub encode-differences :
    (vs : List ℕ) → is_rising 0 vs ≡ true → encode_delta_varints vs ≡ some (differences 0 vs)
unfolding encode_delta_varints differences
encode-differences [] h = refl
encode-differences (v ∷ vs) h =
    let same : v - 0 ≡ v = omega arith in
    rw same (rw (encode_from-differences v vs (ground arith), encode_from))

pub differences-IsByte : (prev : ℕ) (vs : List ℕ) → All IsByte (differences prev vs)
unfolding differences
differences-IsByte prev [] = tt
differences-IsByte prev (v ∷ vs) =
    All-append IsByte (encode_uvarint (v - prev)) (differences v vs)
      (encode_uvarint-IsByte (v - prev)) (differences-IsByte v vs)

-- What a value adds to `values`, once it is not the first.
decode_values_step :
    (fuel : ℕ) (raw rest : List ℕ) (w : ℕ) (ws : List ℕ) (current delta : ℕ)
    → decode_uvarint raw ≡ some (delta, rest)
    → decode_values (suc fuel) raw (w ∷ ws) current
      ≡ decode_values fuel rest (w ∷ (ws ++ (current + delta) ∷ [])) (current + delta)
unfolding decode_values
decode_values_step fuel [] rest w ws current delta e = unfold decode_uvarint in cc
decode_values_step fuel (b ∷ raw) rest w ws current delta e = rw (e, decode_values)

decode_values_first :
    (fuel : ℕ) (raw rest : List ℕ) (delta : ℕ)
    → decode_uvarint raw ≡ some (delta, rest)
    → decode_values (suc fuel) raw [] 0 ≡ decode_values fuel rest (delta ∷ []) delta
unfolding decode_values
decode_values_first fuel [] rest delta e = unfold decode_uvarint in cc
decode_values_first fuel (b ∷ raw) rest delta e = rw (e, decode_values)

written_shorter : (v : ℕ) (rest : List ℕ) → length rest < length (encode_uvarint v ++ rest)
written_shorter v rest = decode_uvarint_shorter _ v rest (decode-encode_uvarint v rest)

decode_values-differences :
    (fuel prev w : ℕ) (ws vs : List ℕ)
    → is_rising prev vs ≡ true
    → length (differences prev vs) ≤ fuel
    → decode_values fuel (differences prev vs) (w ∷ ws) prev ≡ decoded (w ∷ (ws ++ vs))
unfolding differences
decode_values-differences fuel prev w ws [] h f = unfold decode_values in rw append-nil
decode_values-differences zero prev w ws (v ∷ vs) h f =
    absurd (omega (arith, written_shorter (v - prev) (differences v vs)))
decode_values-differences (suc fuel) prev w ws (v ∷ vs) h f =
    let up : prev + (v - prev) ≡ v = ground arith in
    decode_values_step fuel _ (differences v vs) w ws prev (v - prev)
      (decode-encode_uvarint (v - prev) (differences v vs))
    ∙ rw up (
        decode_values-differences fuel v w (ws ++ v ∷ []) vs (ground arith)
          (omega (arith, written_shorter (v - prev) (differences v vs)))
        ∙ ap (λ (t : List ℕ). decoded (w ∷ t)) (append_assoc ws (v ∷ []) vs))

pub decode-differences :
    (fuel : ℕ) (vs : List ℕ)
    → is_rising 0 vs ≡ true
    → length (differences 0 vs) ≤ fuel
    → decode_values fuel (differences 0 vs) [] 0 ≡ decoded vs
unfolding differences
decode-differences fuel [] h f = unfold decode_values in refl
decode-differences zero (v ∷ vs) h f =
    absurd (omega (arith, written_shorter (v - 0) (differences v vs)))
decode-differences (suc fuel) (v ∷ vs) h f =
    let same : v - 0 ≡ v = omega arith in
    decode_values_first fuel _ (differences v vs) (v - 0)
      (decode-encode_uvarint (v - 0) (differences v vs))
    ∙ rw same (
        decode_values-differences fuel v v [] vs (ground arith)
          (omega (arith, written_shorter (v - 0) (differences v vs))))

-- A sequence in which no value is smaller than the one before it, of numbers of any size, is read
-- back from the payload that was stored for it, for every packing that unpacks what it packed.
pub decode-encode_payload :
    (p : Packing) (vs : List ℕ)
    → is_rising 0 vs ≡ true
    → decode_compact_metric p (encode_payload p vs) ≡ decoded vs
unfolding decode_compact_metric encode_payload
decode-encode_payload p vs h =
    rw
      (
        encode-differences vs h,
        p.pack_nonempty (differences 0 vs),
        p.unpack-pack (differences 0 vs),
      )
      (unfold unpacked in decode-differences _ vs h (omega arith))
