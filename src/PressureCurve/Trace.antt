-- ===== src/PressureCurve/Trace.antt =====
-- The loop of `filterLine`: it ends, stays in the table, and every point that it plots is as near to
-- the straight line as whole numbers allow.
use xf86_input_wacom.Prelude.{ℕ, suc, ◌+◌, ◌*◌, ◌≤◌, ◌<◌, ◌≡◌, Bool, true, false, some, List, arith}
use xf86_input_wacom.Prelude.Int.{
  ℤ, pos, negsuc, pos_part, neg_part, ◌+ℤ◌, ◌-ℤ◌, leb_ℤ, ◌==ℤ◌, leb_ℤ→le, leb_ℤ→lt, int_laws,
}
use xf86_input_wacom.PressureCurve.{done, plot, trace}
use xf86_input_wacom.PressureCurve.Drawn.{Direction, up, down, Ahead, move, Ahead-move, Ahead-moved}

-- A line of `long` steps of the leading coordinate and `short` of the other, from a start.
pub record Line : Type 0 where
  pub major_way : Direction
  pub minor_way : Direction
  pub major_start : ℕ
  pub minor_start : ℕ
  pub long : ℕ
  pub short : ℕ

-- After `k` of the `long` steps the ideal height is `k * short / long`; the point is within half.
pub record IsNear (l : Line) (major minor : ℕ) : Type 0 where
  pub k : ℕ
  pub j : ℕ
  pub major_at : Ahead l.major_way l.major_start major k
  pub minor_at : Ahead l.minor_way l.minor_start minor j
  pub k_le : k ≤ l.long
  pub j_le : j ≤ l.short
  pub not_above : 2 * (j * l.long) ≤ 2 * (k * l.short) + l.long
  pub not_below : 2 * (k * l.short) ≤ 2 * (j * l.long) + l.long

-- The state of the loop: `rm` and `rn` steps are left, and `d` is the error term.
pub record IsOn (l : Line) (m1 n1 major minor rm rn k j : ℕ) (d : ℤ) : Type 0 where
  pub major_at : Ahead l.major_way l.major_start major k
  pub minor_at : Ahead l.minor_way l.minor_start minor j
  pub major_left : Ahead l.major_way major m1 rm
  pub minor_left : Ahead l.minor_way minor n1 rn
  pub major_sum : k + rm ≡ l.long
  pub minor_sum : j + rn ≡ l.short
  pub slope : l.short ≤ l.long
  pub moves : 0 < l.long
  pub error : pos_part d + l.long + 2 * (j * l.long) ≡ neg_part d + 2 * (k * l.short) + 2 * l.short
  pub error_low : neg_part d + 2 * l.short ≤ pos_part d + 2 * l.long
  pub error_high : pos_part d < neg_part d + 2 * l.short

pub IsOn-IsNear :
    (l : Line) (m1 n1 major minor rm rn k j : ℕ) (d : ℤ)
    → IsOn l m1 n1 major minor rm rn k j d
    → IsNear l major minor
IsOn-IsNear l m1 n1 major minor rm rn k j d i = record {
  k = k;
  j = j;
  major_at = i.major_at;
  minor_at = i.minor_at;
  k_le = omega arith;
  j_le = omega arith;
  not_above = omega arith;
  not_below = omega arith;
}

-- With no leading step left, no other step is left.
pub minor_done :
    (l : Line) (m1 n1 major minor rn k j : ℕ) (d : ℤ) → IsOn l m1 n1 major minor 0 rn k j d → rn ≡ 0
minor_done l m1 n1 major minor rn k j d i = grind arith

-- A step with `d >= 0` has a step of the other coordinate to take.
pub minor_room :
    (l : Line) (m1 n1 major minor rm rn k j : ℕ) (d : ℤ)
    → IsOn l m1 n1 major minor (suc rm) rn k j d
    → leb_ℤ (pos 0) d ≡ true
    → 0 < rn
minor_room l m1 n1 major minor rm rn k j d i h = grind arith

abbrev pub step_of : Direction → ℤ
step_of up = pos 1
step_of down = negsuc 0

pub move-step :
    (w : Direction) (a b r : ℕ) → Ahead w a b (suc r) → pos a +ℤ step_of w ≡ pos (move w a)
unfolding move ◌+ℤ◌
move-step up a b r h = ground arith
move-step down a b r h = ground arith

-- The step that moves both coordinates.
pub IsOn-both :
    (l : Line) (m1 n1 major minor rm rn k j : ℕ) (d : ℤ)
    → IsOn l m1 n1 major minor (suc rm) (suc rn) k j d
    → leb_ℤ (pos 0) d ≡ true
    → IsOn l m1 n1
        (move l.major_way major)
        (move l.minor_way minor)
        rm
        rn
        (suc k)
        (suc j)
        (d -ℤ pos (2 * l.long) +ℤ pos (2 * l.short))
IsOn-both l m1 n1 major minor rm rn k j d i h = record {
  major_at = Ahead-moved l.major_way l.major_start major m1 k rm i.major_at i.major_left;
  minor_at = Ahead-moved l.minor_way l.minor_start minor n1 j rn i.minor_at i.minor_left;
  major_left = Ahead-move l.major_way major m1 rm i.major_left;
  minor_left = Ahead-move l.minor_way minor n1 rn i.minor_left;
  major_sum = omega arith;
  minor_sum = omega arith;
  slope = omega arith;
  moves = omega arith;
  error = omega (int_laws);
  error_low = omega (int_laws, leb_ℤ→le (pos 0) d h);
  error_high = omega int_laws;
}

-- The step that moves the leading coordinate alone.
pub IsOn-straight :
    (l : Line) (m1 n1 major minor rm rn k j : ℕ) (d : ℤ)
    → IsOn l m1 n1 major minor (suc rm) rn k j d
    → leb_ℤ (pos 0) d ≡ false
    → IsOn l m1 n1 (move l.major_way major) minor rm rn (suc k) j (d +ℤ pos (2 * l.short))
IsOn-straight l m1 n1 major minor rm rn k j d i h = record {
  major_at = Ahead-moved l.major_way l.major_start major m1 k rm i.major_at i.major_left;
  minor_at = i.minor_at;
  major_left = Ahead-move l.major_way major m1 rm i.major_left;
  minor_left = i.minor_left;
  major_sum = omega arith;
  minor_sum = omega arith;
  slope = omega arith;
  moves = omega arith;
  error = omega int_laws;
  error_low = omega int_laws;
  error_high = omega (int_laws, leb_ℤ→lt (pos 0) d h);
}

-- The value in the table of a point, and its cell, by which coordinate leads.
abbrev cell : Bool → ℕ → ℕ → ℕ
cell false major minor = major
cell true major minor = minor

abbrev pub Near : Bool → Line → ℕ → ℕ → Type 0
Near false l i v = IsNear l i v
Near true l i v = IsNear l v i

module _ (steep : Bool) (a_major a_minor s_major s_minor last : ℤ) where
  pub trace_last :
      (fuel : ℕ) (major minor d : ℤ) (c t : List ℤ)
      → plot steep c major minor ≡ some t
      → (major ==ℤ last) ≡ true
      → trace steep a_major a_minor s_major s_minor last (suc fuel) major minor d c ≡ done t
  unfolding trace
  trace_last fuel major minor d c t e eq = ground arith

  pub trace_both :
      (fuel : ℕ) (major minor d : ℤ) (c t : List ℤ)
      → plot steep c major minor ≡ some t
      → (major ==ℤ last) ≡ false
      → leb_ℤ (pos 0) d ≡ true
      → trace steep a_major a_minor s_major s_minor last (suc fuel) major minor d c
        ≡ trace steep a_major a_minor s_major s_minor last fuel
            (major +ℤ s_major)
            (minor +ℤ s_minor)
            (d -ℤ a_major +ℤ a_minor)
            t
  unfolding trace
  trace_both fuel major minor d c t e ne le = ground arith

  pub trace_straight :
      (fuel : ℕ) (major minor d : ℤ) (c t : List ℤ)
      → plot steep c major minor ≡ some t
      → (major ==ℤ last) ≡ false
      → leb_ℤ (pos 0) d ≡ false
      → trace steep a_major a_minor s_major s_minor last (suc fuel) major minor d c
        ≡ trace steep a_major a_minor s_major s_minor last fuel
            (major +ℤ s_major)
            minor
            (d +ℤ a_minor)
            t
  unfolding trace
  trace_straight fuel major minor d c t e ne le = ground arith

pub at_last : (w : Direction) (a b : ℕ) → Ahead w a b 0 → (pos a ==ℤ pos b) ≡ true
at_last up a b h = ground arith
at_last down a b h = ground arith

pub not_at_last : (w : Direction) (a b r : ℕ) → Ahead w a b (suc r) → (pos a ==ℤ pos b) ≡ false
not_at_last up a b r h = ground arith
not_at_last down a b r h = ground arith

-- The next cell lies before the last, or is it.
pub move-lt : (w : Direction) (a b r n : ℕ) → Ahead w a b (suc r) → a < n → b < n → move w a < n
unfolding move
move-lt up a b r n h p q = omega arith
move-lt down a b r n h p q = omega arith
