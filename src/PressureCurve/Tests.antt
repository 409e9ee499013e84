-- ===== src/PressureCurve/Tests.antt =====
-- A run of `filterLine` on a table of six pressures.
use xf86_input_wacom.Prelude.{◌≡◌, refl, arith, List, [], ◌∷◌, replicate}
use xf86_input_wacom.Prelude.Int.{ℤ, pos, negsuc, ◌+ℤ◌, ◌-ℤ◌}
use xf86_input_wacom.PressureCurve.{done, trace, filter_line}
use xf86_input_wacom.PressureCurve.Geometry.{LineDrawn}
use xf86_input_wacom.PressureCurve.Line.{filter_line_draws}

abbrev blank : List ℤ
blank = replicate 6 (negsuc 0)

flat_line :
    filter_line blank (pos 5) (pos 1) (pos 1) (pos 5) (pos 3)
    ≡ done (negsuc 0 ∷ pos 1 ∷ pos 2 ∷ pos 2 ∷ pos 3 ∷ pos 3 ∷ [])
unfolding filter_line trace ◌+ℤ◌ ◌-ℤ◌
flat_line = refl

filter_line_draws_example :
    (t : List ℤ) × (filter_line blank (pos 5) (pos 0) (pos 5) (pos 2) (pos 0) ≡ done t)
    × LineDrawn 0 5 2 0 blank t
filter_line_draws_example =
    filter_line_draws 5 0 5 2 0 blank (omega arith) (omega arith) (omega arith) (omega arith)
      (omega arith)
