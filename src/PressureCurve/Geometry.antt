-- ===== src/PressureCurve/Geometry.antt =====
-- The geometry of a line between two points of a table: which points lie on it, and the walk of
-- `filterLine` in these terms.
use xf86_input_wacom.Prelude.{
  ℕ, ◌+◌, ◌-◌, ◌*◌, ◌≤◌, ◌<◌, ◌≡◌, some, List, length, get_elem?, max, ltb, if◌then◌else◌, arith,
}
use xf86_input_wacom.Prelude.Int.{ℤ, pos, abs, ◌-ℤ◌, int_laws}
use xf86_input_wacom.PressureCurve.{sign}
use xf86_input_wacom.PressureCurve.Drawn.{Direction, up, down, Ahead}
use xf86_input_wacom.PressureCurve.Trace.{Line, IsNear, IsOn, step_of}

-- |a - b|
abbrev pub gap : ℕ → ℕ → ℕ
gap a b = (a - b) + (b - a)

-- `c` is `a`, `b` or between them.
abbrev pub Between : ℕ → ℕ → ℕ → Type 0
Between a b c = (gap a c + gap c b ≡ gap a b)

-- `(i, v)` is a point of the rectangle of the line's ends, and at most half a unit of the leading
-- coordinate's scale away from the line.
pub record IsOnLine (x0 y0 x1 y1 i v : ℕ) : Type 0 where
  pub in_columns : Between x0 x1 i
  pub in_rows : Between y0 y1 v
  pub not_above :
      2 * (gap y0 v * gap x0 x1) ≤ 2 * (gap x0 i * gap y0 y1) + max (gap x0 x1) (gap y0 y1)
  pub not_below :
      2 * (gap x0 i * gap y0 y1) ≤ 2 * (gap y0 v * gap x0 x1) + max (gap x0 x1) (gap y0 y1)

pub way : ℕ → ℕ → Direction
way a b = if ltb a b then up else down

pub Ahead-way : (a b : ℕ) → Ahead (way a b) a b (gap a b)
unfolding way
Ahead-way a b = ground arith

pub Ahead-gap : (w : Direction) (a b k : ℕ) → Ahead w a b k → gap a b ≡ k
Ahead-gap up a b k h = omega arith
Ahead-gap down a b k h = omega arith

pub Ahead-Between : (a b i k : ℕ) → Ahead (way a b) a i k → k ≤ gap a b → Between a b i
unfolding way
Ahead-Between a b i k h le = ground arith

pub Between-Ahead : (a b i : ℕ) → Between a b i → Ahead (way a b) a i (gap a i)
unfolding way
Between-Ahead a b i h = ground arith

pub step_of-way : (a b : ℕ) → sign (pos b -ℤ pos a) ≡ step_of (way a b)
unfolding way ◌-ℤ◌
step_of-way a b = ground arith

pub abs-gap : (a b : ℕ) → abs (pos b -ℤ pos a) ≡ gap a b
unfolding ◌-ℤ◌
abs-gap a b = ground arith

-- The line with x leading, and with y leading.
abbrev pub line_of : ℕ → ℕ → ℕ → ℕ → Line
line_of a0 b0 a1 b1 = record {
  major_way = way a0 a1;
  minor_way = way b0 b1;
  major_start = a0;
  minor_start = b0;
  long = gap a0 a1;
  short = gap b0 b1;
}

pub Ahead-self : (w : Direction) (a : ℕ) → Ahead w a a 0
Ahead-self up a = omega arith
Ahead-self down a = omega arith

pub IsOn-start :
    (a0 b0 a1 b1 : ℕ)
    → gap b0 b1 ≤ gap a0 a1
    → 0 < gap a0 a1
    → IsOn
        (line_of a0 b0 a1 b1)
        a1
        b1
        a0
        b0
        (gap a0 a1)
        (gap b0 b1)
        0
        0
        (pos (2 * gap b0 b1) -ℤ pos (gap a0 a1))
IsOn-start a0 b0 a1 b1 s p = record {
  major_at = Ahead-self (way a0 a1) a0;
  minor_at = Ahead-self (way b0 b1) b0;
  major_left = Ahead-way a0 a1;
  minor_left = Ahead-way b0 b1;
  major_sum = omega arith;
  minor_sum = omega arith;
  slope = s;
  moves = p;
  error = omega int_laws;
  error_low = omega int_laws;
  error_high = omega int_laws;
}

pub flat-IsOnLine :
    (x0 y0 x1 y1 i v : ℕ)
    → gap y0 y1 ≤ gap x0 x1
    → IsNear (line_of x0 y0 x1 y1) i v
    → IsOnLine x0 y0 x1 y1 i v
flat-IsOnLine x0 y0 x1 y1 i v s n = record {
  in_columns = Ahead-Between x0 x1 i n.k n.major_at n.k_le;
  in_rows = Ahead-Between y0 y1 v n.j n.minor_at n.j_le;
  not_above =
      rw (Ahead-gap (way x0 x1) x0 i n.k n.major_at, Ahead-gap (way y0 y1) y0 v n.j n.minor_at)
        (omega (arith, n.not_above));
  not_below =
      rw (Ahead-gap (way x0 x1) x0 i n.k n.major_at, Ahead-gap (way y0 y1) y0 v n.j n.minor_at)
        (omega (arith, n.not_below));
}

pub steep-IsOnLine :
    (x0 y0 x1 y1 i v : ℕ)
    → gap x0 x1 ≤ gap y0 y1
    → IsNear (line_of y0 x0 y1 x1) v i
    → IsOnLine x0 y0 x1 y1 i v
steep-IsOnLine x0 y0 x1 y1 i v s n = record {
  in_columns = Ahead-Between x0 x1 i n.j n.minor_at n.j_le;
  in_rows = Ahead-Between y0 y1 v n.k n.major_at n.k_le;
  not_above =
      rw (Ahead-gap (way x0 x1) x0 i n.j n.minor_at, Ahead-gap (way y0 y1) y0 v n.k n.major_at)
        (omega (arith, n.not_below));
  not_below =
      rw (Ahead-gap (way x0 x1) x0 i n.j n.minor_at, Ahead-gap (way y0 y1) y0 v n.k n.major_at)
        (omega (arith, n.not_above));
}

pub point-IsOnLine :
    (x0 y0 x1 y1 i : ℕ) → i ≡ x0 → gap x0 x1 ≡ 0 → gap y0 y1 ≡ 0 → IsOnLine x0 y0 x1 y1 i y0
point-IsOnLine x0 y0 x1 y1 i e ex ey = record {
  in_columns = omega arith;
  in_rows = omega arith;
  not_above = rw (ex, ey) (omega arith);
  not_below = rw (ex, ey) (omega arith);
}

-- What drawing from (x0, y0) to (x1, y1) does to a table.
pub record LineDrawn (x0 y0 x1 y1 : ℕ) (c t : List ℤ) : Type 0 where
  pub same_length : length t ≡ length c
  pub covered :
      (i : ℕ)
      → Between x0 x1 i
      → (v : ℕ) × (get_elem? t i ≡ some (pos v)) × IsOnLine x0 y0 x1 y1 i v
  pub kept : (i : ℕ) → ¬ Between x0 x1 i → get_elem? t i ≡ get_elem? c i
  pub ends : get_elem? t x1 ≡ some (pos y1)
