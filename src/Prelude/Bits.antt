-- ===== src/Prelude/Bits.antt =====
-- Single bits of an `unsigned int`. `x | m`, `x & ~m` and `x & m` for a mask `m` of one bit are
-- written by arithmetic, which the tactics read.
use xf86_input_wacom.Prelude.{
  ℕ, zero, suc, ◌+◌, ◌-◌, ◌*◌, ◌/◌, ◌%◌, ◌^◌, ◌<◌, ◌≡◌, ◌≢◌, refl, ap, ◌∙◌, Bool, ◌==◌,
  if◌then◌else◌, arith,
}

-- `(x & m) != 0` for a mask of one bit.
abbrev pub has_mask : ℕ → ℕ → Bool
has_mask x m = x / m % 2 == 1

-- `x | m` for a mask of one bit.
abbrev pub or_mask : ℕ → ℕ → ℕ
or_mask x m = if has_mask x m then x else x + m

-- `x & ~m` for a mask of one bit.
abbrev pub clear_mask : ℕ → ℕ → ℕ
clear_mask x m = if has_mask x m then x - m else x

-- Bit `j` of x, and x with bit `j` set or cleared: `x & 1u << j`, `x | 1u << j`, `x & ~(1u << j)`.
unfoldable pub bit : ℕ → ℕ → Bool
bit x zero = x % 2 == 1
bit x (suc j) = bit (x / 2) j

unfoldable pub put_bit : Bool → ℕ → ℕ → ℕ
put_bit b x zero = x / 2 * 2 + (if b then 1 else 0)
put_bit b x (suc j) = put_bit b (x / 2) j * 2 + x % 2

low_bit : (b : Bool) (y : ℕ) → ((y * 2 + (if b then 1 else 0)) % 2 == 1) ≡ b
low_bit b y = ground arith

high_bits : (b : Bool) (y : ℕ) → (y * 2 + (if b then 1 else 0)) / 2 ≡ y
high_bits b y = ground arith

-- The bit that was put reads back, every other bit is as it was, and the word does not outgrow its width.
pub bit-put_bit_self : (b : Bool) (x j : ℕ) → bit (put_bit b x j) j ≡ b
unfolding bit put_bit
bit-put_bit_self b x zero = low_bit b (x / 2)
bit-put_bit_self b x (suc j) = ap (λ (y : ℕ). bit y j) (omega arith) ∙ bit-put_bit_self b (x / 2) j

pub bit-put_bit_ne : (b : Bool) (x i j : ℕ) → i ≢ j → bit (put_bit b x i) j ≡ bit x j
unfolding bit put_bit
bit-put_bit_ne b x zero zero h = absurd (h refl)
bit-put_bit_ne b x zero (suc j) h = ap (λ (y : ℕ). bit y j) (high_bits b (x / 2))
bit-put_bit_ne b x (suc i) zero h = ap (λ (y : ℕ). y == 1) (omega arith)
bit-put_bit_ne b x (suc i) (suc j) h =
    ap (λ (y : ℕ). bit y j) (omega arith) ∙ bit-put_bit_ne b (x / 2) i j (λ e. h (ap suc e))

pub put_bit_bounds : (b : Bool) (x j w : ℕ) → j < w → x < 2 ^ w → put_bit b x j < 2 ^ w
unfolding put_bit
put_bit_bounds b x zero zero h k = elim h [ ]
put_bit_bounds b x zero (suc w) h k = ground arith
put_bit_bounds b x (suc j) zero h k = elim h [ ]
put_bit_bounds b x (suc j) (suc w) h k =
    omega (arith, put_bit_bounds b (x / 2) j w (omega arith) (omega arith))
