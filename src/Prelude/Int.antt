-- ===== src/Prelude/Int.antt =====
-- C's `int`: signed integers over the native numbers, with division toward zero, and the
-- conversion of a wider value to 32 bits. Arithmetic on `int` is exact here: where C's would
-- overflow its result is undefined.
use xf86_input_wacom.Prelude.{
  ℕ, zero, suc, ◌+◌, ◌-◌, ◌*◌, ◌/◌, ◌%◌, ◌^◌, ◌≤◌, ◌<◌, ◌≡◌, refl, ap, Bool, true, false, not,
  arith, ltb, leb, ◌==◌, if◌then◌else◌,
}

-- `negsuc n` is -(n + 1).
pub data ℤ : Type 0 where
  pos : ℕ → ℤ
  negsuc : ℕ → ℤ

abbrev pub pos_part : ℤ → ℕ
pos_part (pos n) = n
pos_part (negsuc n) = 0

abbrev pub neg_part : ℤ → ℕ
neg_part (pos n) = 0
neg_part (negsuc n) = suc n

-- a - b, as an integer.
abbrev pub sub_ℕ : ℕ → ℕ → ℤ
sub_ℕ a b = if leb b a then pos (a - b) else negsuc (b - a - 1)

infixl 65 ◌+ℤ◌ ◌-ℤ◌
infixl 70 ◌*ℤ◌
infix 50 ◌≤ℤ◌ ◌<ℤ◌
unfoldable pub ◌+ℤ◌ : ℤ → ℤ → ℤ
a +ℤ b = sub_ℕ (pos_part a + pos_part b) (neg_part a + neg_part b)

unfoldable pub ◌-ℤ◌ : ℤ → ℤ → ℤ
a -ℤ b = sub_ℕ (pos_part a + neg_part b) (neg_part a + pos_part b)

unfoldable pub ◌*ℤ◌ : ℤ → ℤ → ℤ
a *ℤ b =
    sub_ℕ (pos_part a * pos_part b + neg_part a * neg_part b)
      (pos_part a * neg_part b + neg_part a * pos_part b)

-- |a|, a number.
abbrev pub abs : ℤ → ℕ
abs (pos n) = n
abs (negsuc n) = suc n

abbrev pub neg_ℕ : ℕ → ℤ
neg_ℕ n = sub_ℕ 0 n

abbrev pub neg : ℤ → ℤ
neg a = sub_ℕ (neg_part a) (pos_part a)

abbrev pub ◌≤ℤ◌ : ℤ → ℤ → Type 0
a ≤ℤ b = pos_part a + neg_part b ≤ pos_part b + neg_part a

abbrev pub ◌<ℤ◌ : ℤ → ℤ → Type 0
a <ℤ b = pos_part a + neg_part b < pos_part b + neg_part a

abbrev pub ltb_ℤ : ℤ → ℤ → Bool
ltb_ℤ a b = ltb (pos_part a + neg_part b) (pos_part b + neg_part a)

abbrev pub leb_ℤ : ℤ → ℤ → Bool
leb_ℤ a b = leb (pos_part a + neg_part b) (pos_part b + neg_part a)

infix 50 ◌==ℤ◌
abbrev pub ◌==ℤ◌ : ℤ → ℤ → Bool
a ==ℤ b = pos_part a + neg_part b == pos_part b + neg_part a

-- An `int` as a condition.
abbrev pub is_set : ℤ → Bool
is_set a = not (abs a == 0)

abbrev pub of_bool : Bool → ℤ
of_bool true = pos 1
of_bool false = pos 0

-- `a / b` and `a % b` of C, toward zero. Division by zero, which C leaves undefined, gives 0 here.
unfoldable pub tdiv : ℤ → ℤ → ℤ
tdiv (pos a) (pos b) = pos (a / b)
tdiv (pos a) (negsuc b) = neg_ℕ (a / suc b)
tdiv (negsuc a) (pos b) = neg_ℕ (suc a / b)
tdiv (negsuc a) (negsuc b) = pos (suc a / suc b)

unfoldable pub tmod : ℤ → ℤ → ℤ
tmod (pos a) b = pos (a % abs b)
tmod (negsuc a) b = neg_ℕ (suc a % abs b)

-- The 32 bits of an integer in two's complement, and the `int` that 32 bits stand for.
unfoldable pub bits32 : ℤ → ℕ
bits32 (pos n) = n % 2 ^ 32
bits32 (negsuc n) = 2 ^ 32 - 1 - n % 2 ^ 32

unfoldable pub signed32 : ℕ → ℤ
signed32 w = if ltb w (2 ^ 31) then pos w else negsuc (2 ^ 32 - 1 - w)

-- `(int)` of a 64-bit value.
unfoldable pub to_int32 : ℤ → ℤ
unfolding bits32 signed32
to_int32 a = signed32 (bits32 a)

abbrev pub int_max : ℤ
int_max = pos (2 ^ 31 - 1)

abbrev pub int_min : ℤ
int_min = negsuc (2 ^ 31 - 1)

pub to_int32_in_range : (a : ℤ) → int_min ≤ℤ a → a ≤ℤ int_max → to_int32 a ≡ a
unfolding to_int32
to_int32_in_range (pos n) lo hi = ground arith
to_int32_in_range (negsuc n) lo hi = ground arith

pub leb_ℤ→le : (a b : ℤ) → leb_ℤ a b ≡ true → a ≤ℤ b
leb_ℤ→le a b h = ground arith

pub leb_ℤ→lt : (a b : ℤ) → leb_ℤ a b ≡ false → b <ℤ a
leb_ℤ→lt a b h = ground arith

-- One lemma for each operation lets `omega` work with the operations shut, at any depth.
pub +ℤ_parts :
    (a b : ℤ)
    → pos_part (a +ℤ b) + neg_part a + neg_part b ≡ neg_part (a +ℤ b) + pos_part a + pos_part b
unfolding ◌+ℤ◌
+ℤ_parts a b = ground arith

pub -ℤ_parts :
    (a b : ℤ)
    → pos_part (a -ℤ b) + neg_part a + pos_part b ≡ neg_part (a -ℤ b) + pos_part a + neg_part b
unfolding ◌-ℤ◌
-ℤ_parts a b = ground arith

pub eq_of_parts : (a b : ℤ) → pos_part a + neg_part b ≡ pos_part b + neg_part a → a ≡ b
eq_of_parts a b h = ground arith

pub ruleset int_laws = (arith, +ℤ_parts, -ℤ_parts, eq_of_parts)

*ℤ_parts :
    (a b : ℤ)
    → pos_part (a *ℤ b) + (pos_part a * neg_part b + neg_part a * pos_part b)
      ≡ neg_part (a *ℤ b) + (pos_part a * pos_part b + neg_part a * neg_part b)
unfolding ◌*ℤ◌
*ℤ_parts a b = ground arith

sum_times :
    (p n a b c d k : ℕ) → p + a + b ≡ n + c + d → p * k + (a * k + b * k) ≡ n * k + (c * k + d * k)
sum_times p n a b c d k h = omega (arith, ap (λ (z : ℕ). z * k) h)

pub +ℤ_times : (a b c : ℤ) → (a +ℤ b) *ℤ c ≡ a *ℤ c +ℤ b *ℤ c
+ℤ_times a b c = omega (
  int_laws,
  *ℤ_parts (a +ℤ b) c,
  *ℤ_parts a c,
  *ℤ_parts b c,
  sum_times (pos_part (a +ℤ b)) (neg_part (a +ℤ b)) (neg_part a) (neg_part b) (pos_part a)
      (pos_part b) (pos_part c) (+ℤ_parts a b),
  sum_times (pos_part (a +ℤ b)) (neg_part (a +ℤ b)) (neg_part a) (neg_part b) (pos_part a)
      (pos_part b) (neg_part c) (+ℤ_parts a b),
)

-- The quotient and the remainder make up the dividend, and the remainder is the smaller.
pub tdiv-tmod : (a b : ℤ) → tdiv a b *ℤ b +ℤ tmod a b ≡ a
unfolding tdiv tmod ◌+ℤ◌ ◌*ℤ◌
tdiv-tmod (pos a) (pos b) = ground arith
tdiv-tmod (pos a) (negsuc b) = ground arith
tdiv-tmod (negsuc a) (pos b) = ground arith
tdiv-tmod (negsuc a) (negsuc b) = ground arith

pub tmod-lt : (a b : ℤ) → 0 < abs b → abs (tmod a b) < abs b
unfolding tmod
tmod-lt (pos a) b h = omega arith
tmod-lt (negsuc a) b h = ground arith
