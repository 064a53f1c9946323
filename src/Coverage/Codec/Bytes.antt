-- ===== src/Coverage/Codec/Bytes.antt =====
-- What one number is written as, and that it is read back.
use Prim.Native.Nat.{bit_and, bit_or}
use mathlib.Core.Logic.{dif_pos, dif_neg}
use mathlib.Core.WellFounded.{Acc}
use native.Mathlib.Bridge.{le_prop}
use native.Mathlib.Decide.{dec_le}
use native.Mathlib.Nat.{div-add-mod}
use native.Mathlib.Numerals.{towards_suc}
use fuzzmeter.Prelude.{
  ℕ, ◌+◌, ◌*◌, ◌/◌, ◌%◌, ◌^◌, ◌<◌, ◌≡◌, ap, ◌∙◌, some, List, [], ◌∷◌, ◌++◌, arith, All, length,
}
use fuzzmeter.Prelude.Bits.{low_bits, set_top_bit, or_shifted}
use fuzzmeter.Prelude.Order.{lt_wf}
use fuzzmeter.Coverage.Codec.{encode_loop, encode_uvarint, decode_loop, decode_uvarint}

abbrev pub IsByte : ℕ → Type 0
IsByte b = b < 256

continued : (v : ℕ) → bit_or (bit_and v 0x7f) 0x80 ≡ v % 128 + 128
continued v = rw low_bits (set_top_bit (v % 128) (omega arith))

encode_loop-IsByte : (v : ℕ) (w : Acc ◌<◌ v) → All IsByte (encode_loop v w)
unfolding encode_loop
encode_loop-IsByte v (Acc.intro _ smaller) = elim (dec_le 128 v) [
  | yes big ↦
      rw (dif_pos _ le_prop big, continued)
        (omega arith, encode_loop-IsByte (v / 128) (smaller _ (omega arith)))
  | no small ↦ rw (dif_neg _ small) (omega arith, tt)
]

-- Every element that is written for a number is a byte.
pub encode_uvarint-IsByte : (v : ℕ) → All IsByte (encode_uvarint v)
unfolding encode_uvarint
encode_uvarint-IsByte v = encode_loop-IsByte v (lt_wf.apply v)

shift_seven : (s : ℕ) → 2 ^ (s + 7) ≡ 128 * 2 ^ s
shift_seven s = simp towards_suc (omega arith)

low_and_high : (v s : ℕ) → v * 2 ^ s ≡ v % 128 * 2 ^ s + v / 128 * 2 ^ (s + 7)
low_and_high v s = rw shift_seven (omega (arith, ap (λ (t : ℕ). t * 2 ^ s) (div-add-mod v 128)))

below_next : (value s g : ℕ) → value < 2 ^ s → g < 128 → value + g * 2 ^ s < 2 ^ (s + 7)
below_next value s g h k = rw shift_seven (grind arith)

last_byte :
    (value s v : ℕ) (rest : List ℕ)
    → value < 2 ^ s
    → v < 128
    → decode_loop (v ∷ rest) value s ≡ some (value + v * 2 ^ s, rest)
unfolding decode_loop
last_byte value s v rest h small = ground (arith, low_bits v, or_shifted s value v h)

inner_byte :
    (value s g : ℕ) (rest : List ℕ)
    → value < 2 ^ s
    → g < 128
    → decode_loop ((g + 128) ∷ rest) value s ≡ decode_loop rest (value + g * 2 ^ s) (s + 7)
unfolding decode_loop
inner_byte value s g rest h small = ground (arith, low_bits (g + 128), or_shifted s value g h)

-- `value` holds the bits below `s`, and the number that is still to be read counts from there.
decode_loop-encode_loop :
    (v : ℕ) (w : Acc ◌<◌ v) (value s : ℕ) (rest : List ℕ)
    → value < 2 ^ s
    → decode_loop (encode_loop v w ++ rest) value s ≡ some (value + v * 2 ^ s, rest)
unfolding encode_loop
decode_loop-encode_loop v (Acc.intro _ smaller) value s rest h = elim (dec_le 128 v) [
  | yes big ↦
      rw (dif_pos _ le_prop big, continued)
        (inner_byte value s (v % 128) (encode_loop (v / 128) (smaller _ (omega arith)) ++ rest) h
            (omega arith)
          ∙ decode_loop-encode_loop (v / 128) (smaller _ (omega arith)) (value + v % 128 * 2 ^ s)
              (s + 7) rest (below_next value s (v % 128) h (omega arith))
          ∙ ap (λ (t : ℕ). some (t, rest)) (omega (arith, low_and_high v s)))
  | no small ↦ rw (dif_neg _ small) (last_byte value s v rest h (omega arith))
]

-- A number of any size is read back from its bytes, and the bytes behind them are left to be
-- read.
pub decode-encode_uvarint :
    (v : ℕ) (rest : List ℕ) → decode_uvarint (encode_uvarint v ++ rest) ≡ some (v, rest)
unfolding encode_uvarint decode_uvarint
decode-encode_uvarint v rest =
    decode_loop-encode_loop v (lt_wf.apply v) 0 0 rest (omega arith)
    ∙ ap (λ (t : ℕ). some (t, rest)) (omega arith)

decode_loop_shorter :
    (raw : List ℕ) (value s v : ℕ) (rest : List ℕ)
    → decode_loop raw value s ≡ some (v, rest)
    → length rest < length raw
unfolding decode_loop
decode_loop_shorter [] value s v rest e = cc
decode_loop_shorter (b ∷ raw) value s v rest e =
    ground (arith, decode_loop_shorter raw (bit_or value (bit_and b 0x7f * 2 ^ s)) (s + 7) v rest)

-- Reading a number takes at least one byte.
pub decode_uvarint_shorter :
    (raw : List ℕ) (v : ℕ) (rest : List ℕ)
    → decode_uvarint raw ≡ some (v, rest)
    → length rest < length raw
unfolding decode_uvarint
decode_uvarint_shorter raw v rest e = decode_loop_shorter raw 0 0 v rest e

decode_loop-append :
    (raw more : List ℕ) (value s v : ℕ) (rest : List ℕ)
    → decode_loop raw value s ≡ some (v, rest)
    → decode_loop (raw ++ more) value s ≡ some (v, rest ++ more)
unfolding decode_loop
decode_loop-append [] more value s v rest e = cc
decode_loop-append (b ∷ raw) more value s v rest e =
    ground
      (arith, decode_loop-append raw more (bit_or value (bit_and b 0x7f * 2 ^ s)) (s + 7) v rest)

-- Bytes behind the input do not change what is read.
pub decode_uvarint-append :
    (raw more : List ℕ) (v : ℕ) (rest : List ℕ)
    → decode_uvarint raw ≡ some (v, rest)
    → decode_uvarint (raw ++ more) ≡ some (v, rest ++ more)
unfolding decode_uvarint
decode_uvarint-append raw more v rest e = decode_loop-append raw more 0 0 v rest e
