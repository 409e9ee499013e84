-- ===== src/Filter/Average.antt =====
-- The average of the window lies among its samples.
use xf86_input_wacom.Prelude.{
  ℕ, zero, suc, ◌+◌, ◌*◌, ◌/◌, ◌≤◌, ◌<◌, ◌≡◌, List, [], ◌∷◌, All, take, replicate, length, arith,
}
use xf86_input_wacom.Prelude.Int.{ℤ, pos, negsuc, pos_part, neg_part, ◌≤ℤ◌, tdiv, int_laws}
use xf86_input_wacom.Filter.{sum, filter_average}

-- A sample between `lo` and `hi`.
abbrev pub Within : ℤ → ℤ → ℤ → Type 0
Within lo hi v = (lo ≤ℤ v) × (v ≤ℤ hi)

-- n * a <= s, for whole `n`
abbrev MulLe : ℕ → ℤ → ℤ → Type 0
MulLe n a s = n * pos_part a + neg_part s ≤ pos_part s + n * neg_part a

abbrev LeMul : ℕ → ℤ → ℤ → Type 0
LeMul n s b = pos_part s + n * neg_part b ≤ n * pos_part b + neg_part s

sum_bounds :
    (lo hi : ℤ) (xs : List ℤ)
    → All (Within lo hi) xs
    → MulLe (length xs) lo (sum xs) × LeMul (length xs) (sum xs) hi
sum_bounds lo hi [] h = (omega arith, omega arith)
sum_bounds lo hi (x ∷ xs) h =
    let (a, b) = sum_bounds lo hi xs h.1 in (omega int_laws, omega int_laws)

le-div : (n a s : ℕ) → 0 < n → n * a ≤ s → a ≤ s / n
le-div n a s p h = grind arith

div-le : (n b s : ℕ) → 0 < n → s ≤ n * b → s / n ≤ b
div-le n b s p h = grind arith

below-zero : (n b : ℕ) → 0 < n → ¬ (n * suc b ≤ 0)
below-zero n b p h = grind arith

tdiv_low : (n : ℕ) (lo s : ℤ) → 0 < n → MulLe n lo s → lo ≤ℤ tdiv s (pos n)
unfolding tdiv
tdiv_low n (pos a) (pos s) p h = omega (arith, le-div n a s p (omega arith))
tdiv_low n (negsuc a) (pos s) p h = omega arith
tdiv_low n (pos a) (negsuc t) p h = absurd (omega arith)
tdiv_low n (negsuc a) (negsuc t) p h = ground (arith, div-le n (suc a) (suc t) p (omega arith))

tdiv_high : (n : ℕ) (hi s : ℤ) → 0 < n → LeMul n s hi → tdiv s (pos n) ≤ℤ hi
unfolding tdiv
tdiv_high n (pos b) (pos s) p h = omega (arith, div-le n b s p (omega arith))
tdiv_high n (negsuc b) (pos s) p h = absurd (below-zero n b p (omega arith))
tdiv_high n (pos b) (negsuc t) p h = ground arith
tdiv_high n (negsuc b) (negsuc t) p h = ground (arith, le-div n (suc b) (suc t) p (omega arith))

-- If the window holds `n` > 0 samples, and all of them lie between `lo` and `hi`, so does the average.
pub filter_average_bounds :
    (lo hi : ℤ) (samples : List ℤ) (n : ℕ)
    → 0 < n
    → length (take n samples) ≡ n
    → All (Within lo hi) (take n samples)
    → Within lo hi (filter_average samples n)
unfolding filter_average
filter_average_bounds lo hi samples n p e h =
    let (a, b) = sum_bounds lo hi (take n samples) h in
    (
      tdiv_low n lo (sum (take n samples)) p (rw e at a),
      tdiv_high n hi (sum (take n samples)) p (rw e at b),
    )

pub All-replicate : (lo hi v : ℤ) (n : ℕ) → Within lo hi v → All (Within lo hi) (replicate n v)
All-replicate lo hi v zero h = tt
All-replicate lo hi v (suc n) h = (h, All-replicate lo hi v n h)
