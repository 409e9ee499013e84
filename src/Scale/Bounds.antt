-- ===== src/Scale/Bounds.antt =====
-- The range, the end points and the order of `wcmScaleAxis`.
use xf86_input_wacom.Prelude.{ℕ, ◌+◌, ◌-◌, ◌*◌, ◌/◌, ◌≤◌, ◌<◌, ◌≡◌, refl, arith}
use xf86_input_wacom.Prelude.Int.{
  ℤ, pos, pos_part, neg_part, ◌+ℤ◌, ◌-ℤ◌, ◌*ℤ◌, ◌≤ℤ◌, ◌<ℤ◌, tdiv, to_int32_in_range, int_min,
  int_max, int_laws,
}
use xf86_input_wacom.Scale.{scale_raw, scale_axis, clamp_min, clamp_max}

-- Whatever is scaled, from whatever range, the result lies in the target range, if that is not
-- inverted.
pub scale_axis_bounds :
    (cx to_max to_min from_max from_min : ℤ)
    → to_min ≤ℤ to_max
    → (to_min ≤ℤ scale_axis cx to_max to_min from_max from_min)
      × (scale_axis cx to_max to_min from_max from_min ≤ℤ to_max)
unfolding scale_axis
scale_axis_bounds cx to_max to_min from_max from_min h = ground arith

pos-mul : (a b : ℕ) → pos a *ℤ pos b ≡ pos (a * b)
unfolding ◌*ℤ◌
pos-mul a b = ground arith

tdiv-pos : (a b : ℕ) → tdiv (pos a) (pos b) ≡ pos (a / b)
unfolding tdiv
tdiv-pos a b = refl

-- How far `a` is above `b`.
abbrev pub above : ℤ → ℤ → ℕ
above a b = pos_part a + neg_part b - (pos_part b + neg_part a)

mul-div-le : (t p w : ℕ) → p ≤ w → 0 < w → t * p / w ≤ t
mul-div-le t p w h k = grind arith

mul-div_mono : (t p p' w : ℕ) → p ≤ p' → t * p / w ≤ t * p' / w
mul-div_mono t p p' w h = grind arith

mul-div_left : (w p : ℕ) → 0 < w → w * p / w ≡ p
mul-div_left w p h = grind arith

mul-zero-div : (t w : ℕ) → t * 0 / w ≡ 0
mul-zero-div t w = grind arith

above_self : (a : ℤ) → above a a ≡ 0
above_self a = omega arith

mul-div_self : (t w : ℕ) → 0 < w → t * w / w ≡ t
mul-div_self t w h = grind arith

-- The `int` ranges of both axes: every bound is an `int`, and neither range is inverted.
pub record AreRanges (to_max to_min from_max from_min : ℤ) : Type 0 where
  pub from_lt : from_min <ℤ from_max
  pub to_le : to_min ≤ℤ to_max
  pub to_low : int_min ≤ℤ to_min
  pub to_high : to_max ≤ℤ int_max

sub-above : (a b : ℤ) → b ≤ℤ a → a -ℤ b ≡ pos (above a b)
sub-above a b h = omega int_laws

above_bounds : (a b c : ℤ) → b ≤ℤ a → a ≤ℤ c → above a b ≤ above c b
above_bounds a b c h k = omega arith

clamp_inside :
    (to_max to_min x : ℤ) → to_min ≤ℤ x → x ≤ℤ to_max → clamp_min to_min (clamp_max to_max x) ≡ x
clamp_inside to_max to_min x h k = ground arith

-- A sum of the lower bound and a number up to the width is in the `int` range and in the target.
sum_inside :
    (to_max to_min : ℤ) (q : ℕ)
    → to_min ≤ℤ to_max
    → q ≤ above to_max to_min
    → (to_min ≤ℤ pos q +ℤ to_min) × (pos q +ℤ to_min ≤ℤ to_max)
sum_inside to_max to_min q h k = omega int_laws

module _ {to_max to_min from_max from_min : ℤ} (r : AreRanges to_max to_min from_max from_min) where
  scaled : ℤ → ℕ
  scaled cx = above to_max to_min * above cx from_min / above from_max from_min

  scaled-le : (cx : ℤ) → from_min ≤ℤ cx → cx ≤ℤ from_max → scaled cx ≤ above to_max to_min
  unfolding scaled
  scaled-le cx lo hi =
      mul-div-le (above to_max to_min) (above cx from_min) (above from_max from_min)
        (above_bounds cx from_min from_max lo hi) (omega (arith, r.from_lt))

  scale_raw_inside :
      (cx : ℤ)
      → from_min ≤ℤ cx
      → cx ≤ℤ from_max
      → scale_raw cx to_max to_min from_max from_min ≡ pos (scaled cx) +ℤ to_min
  unfolding scale_raw scaled
  scale_raw_inside cx lo hi =
      let lt = r.from_lt in
      let s = sum_inside to_max to_min (scaled cx) r.to_le (scaled-le cx lo hi) in
      let low = r.to_low in
      let high = r.to_high in
      rw
        (
          sub-above from_max from_min (omega arith),
          sub-above to_max to_min r.to_le,
          sub-above cx from_min lo,
          pos-mul,
          tdiv-pos,
        )
        (ground (arith, to_int32_in_range (pos (scaled cx) +ℤ to_min) (omega arith) (omega arith)))

  -- For `int` ranges that are not inverted and a source range that is not empty, a value inside the source
  -- range goes to the lower bound plus the scaled distance, rounded down.
  pub scale_axis_inside :
      (cx : ℤ)
      → from_min ≤ℤ cx
      → cx ≤ℤ from_max
      → scale_axis cx to_max to_min from_max from_min
        ≡ pos (above to_max to_min * above cx from_min / above from_max from_min) +ℤ to_min
  unfolding scale_axis scaled
  scale_axis_inside cx lo hi =
      let s = sum_inside to_max to_min (scaled cx) r.to_le (scaled-le cx lo hi) in
      rw (scale_raw_inside cx lo hi) (clamp_inside to_max to_min _ s.0 s.1)

  -- For `int` ranges that are not inverted and a source range that is not empty, the ends of the source
  -- range go to the ends of the target range.
  pub scale_axis_ends :
      (scale_axis from_min to_max to_min from_max from_min ≡ to_min)
      × (scale_axis from_max to_max to_min from_max from_min ≡ to_max)
  scale_axis_ends =
      let lt = r.from_lt in
      let le = r.to_le in
      (
        rw (scale_axis_inside from_min (omega arith) (omega arith))
            (rw (above_self from_min, mul-zero-div) (omega int_laws)),
        rw (scale_axis_inside from_max (omega arith) (omega arith)) (
            rw (mul-div_self (above to_max to_min) (above from_max from_min) (omega arith))
              (omega int_laws)),
      )

  -- For `int` ranges that are not inverted and a source range that is not empty, scaling keeps the order of
  -- values inside the source range.
  pub scale_axis_mono :
      (cx cx' : ℤ)
      → from_min ≤ℤ cx
      → cx ≤ℤ cx'
      → cx' ≤ℤ from_max
      → scale_axis cx to_max to_min from_max from_min
        ≤ℤ scale_axis cx' to_max to_min from_max from_min
  scale_axis_mono cx cx' lo le hi =
      rw (scale_axis_inside cx lo (omega arith), scale_axis_inside cx' (omega arith) hi)
        (omega (
          int_laws,
          mul-div_mono (above to_max to_min) (above cx from_min) (above cx' from_min)
              (above from_max from_min) (omega arith),
        ))

  -- Between ranges of one width, scaling is a shift.
  pub scale_axis_shift :
      (cx : ℤ)
      → above to_max to_min ≡ above from_max from_min
      → from_min ≤ℤ cx
      → cx ≤ℤ from_max
      → scale_axis cx to_max to_min from_max from_min ≡ cx -ℤ from_min +ℤ to_min
  scale_axis_shift cx e lo hi =
      let lt = r.from_lt in
      rw (
        scale_axis_inside cx lo hi,
        e,
        mul-div_left (above from_max from_min) (above cx from_min) (omega arith),
        sub-above cx from_min lo,
      )
