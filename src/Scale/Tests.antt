-- ===== src/Scale/Tests.antt =====
-- Runs of the scaling and the rotation on a small tablet.
use xf86_input_wacom.Prelude.{◌≡◌, refl, arith}
use xf86_input_wacom.Prelude.Int.{pos, negsuc, ◌≤ℤ◌, ◌+ℤ◌, ◌-ℤ◌, ◌*ℤ◌, tdiv, to_int32}
use xf86_input_wacom.State.{Device, cw, ccw}
use xf86_input_wacom.State.Zero.{zero_device}
use xf86_input_wacom.Scale.{
  scale_axis, scale_raw, scale_coordinates, rotate_coordinates, rotate_and_scale,
}
use xf86_input_wacom.Scale.Bounds.{AreRanges, scale_axis_mono}
use xf86_input_wacom.Scale.Rotate.{
  HasRanges, IsInside, IsSquare, rotate_and_scale-IsInside, ccw_undoes_cw,
}

-- A square tablet of 100 by 100 whose area is the right upper quarter of what it can report.
abbrev tablet : Device
tablet = record zero_device {
  top_x = pos 1000;
  top_y = negsuc 999;
  bottom_x = pos 2000;
  bottom_y = pos 0;
  valuator_max_x = pos 100;
  valuator_max_y = pos 100;
}

halved : scale_axis (pos 1501) (pos 100) (pos 0) (pos 2000) (pos 1000) ≡ pos 50
unfolding scale_axis scale_raw to_int32 tdiv ◌+ℤ◌ ◌-ℤ◌ ◌*ℤ◌
halved = refl

turned : rotate_and_scale cw tablet (pos 1250) (pos 0) ≡ (pos 100, pos 75)
unfolding rotate_and_scale rotate_coordinates scale_coordinates scale_axis scale_raw to_int32 tdiv
    ◌+ℤ◌ ◌-ℤ◌ ◌*ℤ◌
turned = refl

ranges : AreRanges (pos 100) (pos 0) (pos 2000) (pos 1000)
ranges = omega arith

scale_axis_mono_example :
    scale_axis (pos 1200) (pos 100) (pos 0) (pos 2000) (pos 1000)
    ≤ℤ scale_axis (pos 1700) (pos 100) (pos 0) (pos 2000) (pos 1000)
scale_axis_mono_example =
    scale_axis_mono ranges (pos 1200) (pos 1700) (omega arith) (omega arith) (omega arith)

has_ranges : HasRanges tablet
has_ranges = omega arith

rotate_and_scale-IsInside_example : IsInside tablet (rotate_and_scale ccw tablet (pos 9) (pos 9))
rotate_and_scale-IsInside_example = rotate_and_scale-IsInside ccw tablet (pos 9) (pos 9) has_ranges

is_square : IsSquare tablet
is_square = ground arith

ccw_undoes_cw_example :
    let (x', y') = rotate_coordinates cw tablet (pos 3) (pos 4) in
    rotate_coordinates ccw tablet x' y' ≡ (pos 3, pos 4)
ccw_undoes_cw_example = ccw_undoes_cw tablet is_square (pos 3) (pos 4) (omega arith)
