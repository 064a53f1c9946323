-- ===== src/Prelude/Bits.antt =====
-- Masks and shifts as arithmetic, on numbers of any width: Python's integers have no bound.
use Prim.Native.Nat.{
  ℕ, zero, suc, ◌+◌, ◌*◌, ◌/◌, ◌%◌, ◌^◌, ◌≤◌, ◌<◌, min, max, bit_and, bit_or, digits,
  bit_and-bitwise, bit_or-bitwise,
}
use native.Mathlib.Nat.{pow-suc}
use native.Mathlib.Omega.{arith}
use mathlib.Core.Path.{◌≡◌, refl, ◌∙◌, ap}

-- A digitwise operation, lowest digit first; `z` is the result once the first number has run out.
module _ (z : ℕ → ℕ) (f : ℕ → ℕ → ℕ) (runs_out : (b : ℕ) → z b ≡ z (b / 2) * 2 + f 0 (b % 2)) where
  -- Any count of digits that reaches the top of the first number gives the same result.
  same_digits : (n m a b : ℕ) → a ≤ n → a ≤ m → digits z f n a b ≡ digits z f m a b
  same_digits zero zero a b p q = refl
  same_digits (suc n) zero (suc a) b p q = absurd (omega arith)
  same_digits zero (suc m) (suc a) b p q = absurd (omega arith)
  same_digits (suc n) zero zero b p q = refl
  same_digits zero (suc m) zero b p q = refl
  same_digits (suc n) (suc m) zero b p q = refl
  same_digits (suc n) (suc m) (suc a) b p q =
      ap (λ (t : ℕ). t * 2 + f (suc a % 2) (b % 2))
        (same_digits n m (suc a / 2) (b / 2) (omega arith) (omega arith))

  lowest_digit :
      (a b : ℕ) → digits z f a a b ≡ digits z f (a / 2) (a / 2) (b / 2) * 2 + f (a % 2) (b % 2)
  lowest_digit zero b = runs_out b
  lowest_digit (suc a) b =
      ap (λ (t : ℕ). t * 2 + f (suc a % 2) (b % 2))
        (same_digits a (suc a / 2) (suc a / 2) (b / 2) (omega arith) (omega arith))

or_lowest : (a b : ℕ) → bit_or a b ≡ bit_or (a / 2) (b / 2) * 2 + max (a % 2) (b % 2)
or_lowest a b = omega (
  arith,
  bit_or-bitwise a b,
  bit_or-bitwise (a / 2) (b / 2),
  lowest_digit (λ b. b) max (λ b. omega arith) a b,
)

and_lowest : (a b : ℕ) → bit_and a b ≡ bit_and (a / 2) (b / 2) * 2 + min (a % 2) (b % 2)
and_lowest a b = omega (
  arith,
  bit_and-bitwise a b,
  bit_and-bitwise (a / 2) (b / 2),
  lowest_digit (λ b. zero) min (λ b. omega arith) a b,
)

zero_or : (b : ℕ) → bit_or 0 b ≡ b
zero_or b = bit_or-bitwise 0 b

-- `v | (b << s)` adds, where `v` has no bit from `s` on.
pub or_shifted : (s v b : ℕ) → v < 2 ^ s → bit_or v (b * 2 ^ s) ≡ v + b * 2 ^ s
or_shifted zero zero b h = omega (arith, zero_or (b * 2 ^ 0))
or_shifted zero (suc v) b h = absurd (omega arith)
or_shifted (suc s) v b h =
    let twice : b * 2 ^ suc s ≡ b * (2 ^ s * 2) = ap (λ (t : ℕ). b * t) (pow-suc 2 s) in
    let half : b * 2 ^ suc s / 2 ≡ b * 2 ^ s = omega arith in
    or_lowest v (b * 2 ^ suc s)
    ∙ rw half (omega (arith, or_shifted s (v / 2) b (omega (arith, pow-suc 2 s))))

pub set_top_bit : (v : ℕ) → v < 128 → bit_or v 0x80 ≡ v + 128
set_top_bit v h = or_shifted 7 v 1 h

and_zero : (n a : ℕ) → a ≤ n → bit_and a 0 ≡ 0
and_zero n zero h = bit_and-bitwise 0 0
and_zero zero (suc a) h = absurd (omega arith)
and_zero (suc n) (suc a) h =
    omega (arith, and_lowest (suc a) 0, and_zero n (suc a / 2) (omega arith))

-- The masks of one digit, of two, and so on.
low_1 : (v : ℕ) → bit_and v 1 ≡ v % 2
low_1 v = omega (arith, and_lowest v 1, and_zero (v / 2) (v / 2) (omega arith))

low_2 : (v : ℕ) → bit_and v 3 ≡ v % 4
low_2 v = omega (arith, and_lowest v 3, low_1 (v / 2))

low_3 : (v : ℕ) → bit_and v 7 ≡ v % 8
low_3 v = omega (arith, and_lowest v 7, low_2 (v / 2))

low_4 : (v : ℕ) → bit_and v 15 ≡ v % 16
low_4 v = omega (arith, and_lowest v 15, low_3 (v / 2))

low_5 : (v : ℕ) → bit_and v 31 ≡ v % 32
low_5 v = omega (arith, and_lowest v 31, low_4 (v / 2))

low_6 : (v : ℕ) → bit_and v 63 ≡ v % 64
low_6 v = omega (arith, and_lowest v 63, low_5 (v / 2))

-- `v & 0x7F`
pub low_bits : (v : ℕ) → bit_and v 0x7f ≡ v % 128
low_bits v = omega (arith, and_lowest v 127, low_6 (v / 2))
