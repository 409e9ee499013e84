-- ===== src/PressureCurve.antt =====
-- The curve of pen pressures: `filterLine` of src/wcmPressureCurve.c, which draws a straight piece
-- of the curve into its table, and the checks of src/wcmFilter.c on the control points.
-- `filterCurveToLine` is floating point and is not modelled.
pub mod Drawn
pub mod Trace
pub mod Flat
pub mod Steep
pub mod Geometry
pub mod Line
pub mod Setting
mod Tests
use xf86_input_wacom.Prelude.{
  ℕ, zero, suc, Bool, true, false, not, ◌||◌, Option, none, some, List, length, set, ltb, ◌*◌, ◌/◌,
  if◌then◌else◌,
}
use xf86_input_wacom.Prelude.Int.{ℤ, pos, negsuc, abs, pos_part, ◌+ℤ◌, ◌-ℤ◌, ltb_ℤ, leb_ℤ, ◌==ℤ◌}

-- `pCurve[i] = v`; `none` is a write outside of the table.
abbrev pub store : List ℤ → ℤ → ℤ → Option (List ℤ)
store curve (pos i) v = if ltb i (length curve) then some (set curve i v) else none
store curve (negsuc i) v = none

pub data Outcome : Type 0 where
  done : List ℤ → Outcome
  fault : Outcome
  out_of_fuel : Outcome

-- The two loops of `filterLine` differ in which coordinate leads: `steep` is the second, in which
-- y does. A plot is `pCurve[x] = y` in both.
pub plot : Bool → List ℤ → ℤ → ℤ → Option (List ℤ)
plot false curve x y = store curve x y
plot true curve y x = store curve x y

module _ (steep : Bool) (a_major a_minor s_major s_minor last : ℤ) where
  -- `while (1)`, on the leading coordinate, the other one and the error term.
  pub trace : ℕ → ℤ → ℤ → ℤ → List ℤ → Outcome
  unfolding plot
  trace zero major minor d curve = out_of_fuel
  trace (suc fuel) major minor d curve =
      let minor' = if leb_ℤ (pos 0) d then minor +ℤ s_minor else minor in
      let d' = (if leb_ℤ (pos 0) d then d -ℤ a_major else d) +ℤ a_minor in
      let rest = λ (c : List ℤ). trace fuel (major +ℤ s_major) minor' d' c in
      elim (plot steep curve major minor) [
        | none ↦ fault
        | some c ↦ if major ==ℤ last then done c else rest c
      ]

abbrev pub out_of_range : ℤ → ℤ → Bool
out_of_range n_max a = ltb_ℤ a (pos 0) || ltb_ℤ n_max a

-- `(d > 0) ? 1 : -1`
abbrev pub sign : ℤ → ℤ
sign d = if ltb_ℤ (pos 0) d then pos 1 else negsuc 0

pub filter_line : List ℤ → ℤ → ℤ → ℤ → ℤ → ℤ → Outcome
filter_line curve n_max x0 y0 x1 y1 =
    if out_of_range n_max x0
      || (out_of_range n_max y0 || (out_of_range n_max x1 || out_of_range n_max y1))
    then done curve
    else let dx = x1 -ℤ x0 in
      let dy = y1 -ℤ y0 in
      let ax = abs dx * 2 in
      let ay = abs dy * 2 in
      let fuel = suc (pos_part n_max) in
      if ltb ay ax
      then trace false (pos ax) (pos ay) (sign dx) (sign dy) x1 fuel x0 y0 (pos ay -ℤ pos (ax / 2))
          curve
      else trace true (pos ay) (pos ax) (sign dy) (sign dx) y1 fuel y0 x0 (pos ax -ℤ pos (ay / 2))
          curve

-- `wcmCheckPressureCurveValues`
unfoldable pub check_pressure_curve_values : ℤ → ℤ → ℤ → ℤ → Bool
check_pressure_curve_values x0 y0 x1 y1 = not (
    ltb_ℤ x0 (pos 0)
    || (ltb_ℤ (pos 100) x0
        || (ltb_ℤ y0 (pos 0)
            || (ltb_ℤ (pos 100) y0
                || (ltb_ℤ x1 (pos 0)
                    || (ltb_ℤ (pos 100) x1 || (ltb_ℤ y1 (pos 0) || ltb_ℤ (pos 100) y1)))))))
