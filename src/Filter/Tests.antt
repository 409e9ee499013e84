-- ===== src/Filter/Tests.antt =====
-- Runs of the noise filter with a window of three samples.
use xf86_input_wacom.Prelude.{◌≡◌, refl, arith, [], ◌∷◌}
use xf86_input_wacom.Prelude.Int.{pos, negsuc, ◌+ℤ◌, tdiv}
use xf86_input_wacom.State.{DeviceState, Common, zero_state}
use xf86_input_wacom.State.Zero.{zero_common, zero_channel, zero_filter}
use xf86_input_wacom.Filter.{shift, store_next, filter_average, filter_coord}
use xf86_input_wacom.Filter.Average.{Within}
use xf86_input_wacom.Filter.Coord.{IsWindow, filter_coord_bounds}

abbrev tablet : Common
tablet = record zero_common {
  raw_sample = 3;
  wcm_flags = 2;
  tilt_min_x = negsuc 63;
  tilt_max_x = pos 63;
  tilt_min_y = negsuc 63;
  tilt_max_y = pos 63;
}

abbrev pen : DeviceState
pen = record zero_state { device_type = 1; x = pos 10; y = pos 20; tiltx = pos 90 }

rounded_toward_zero : filter_average (negsuc 0 ∷ negsuc 1 ∷ negsuc 1 ∷ []) 3 ≡ negsuc 0
unfolding filter_average tdiv ◌+ℤ◌
rounded_toward_zero = refl

shifted :
    store_next 3 (pos 9) (pos 1 ∷ pos 2 ∷ pos 3 ∷ pos 4 ∷ []) ≡ pos 9 ∷ pos 1 ∷ pos 2 ∷ pos 4 ∷ []
unfolding store_next shift
shifted = refl

window : IsWindow tablet zero_filter
window = record {
  some_sample = omega arith;
  fits = omega arith;
  xs_length = refl;
  ys_length = refl;
  tiltxs_length = refl;
  tiltys_length = refl;
  counted = omega arith;
}

filter_coord_bounds_example :
    Within (pos 0) (pos 10) (filter_coord tablet zero_channel pen).1.x
    × Within (pos 0) (pos 20) (filter_coord tablet zero_channel pen).1.y
filter_coord_bounds_example =
    filter_coord_bounds (pos 0) (pos 10) (pos 0) (pos 20) tablet zero_channel pen window
      (omega arith) (ground arith) (omega arith) (ground arith)
