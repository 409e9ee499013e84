-- ===== src/Session/Scroll/Tests.antt =====
-- Runs of the scrolling functions on a pad.
use xf86_input_wacom.Prelude.{◌+◌, ◌*◌, ◌≤◌, ◌<◌, ◌≡◌, refl, arith, false, true, [], ◌∷◌}
use xf86_input_wacom.Prelude.Int.{pos, negsuc, abs, ◌+ℤ◌, ◌-ℤ◌, ◌*ℤ◌, tdiv, tmod}
use xf86_input_wacom.Axes.{no_axes}
use xf86_input_wacom.State.Zero.{zero_device, zero_common}
use xf86_input_wacom.Session.{Session, emit, button}
use xf86_input_wacom.Session.Scroll.{clicks, button_per_notch, get_scroll_delta}
use xf86_input_wacom.Session.Scroll.Notches.{notches_sent, button_per_notch_conserves}
use xf86_input_wacom.Session.Scroll.Delta.{LeadsTo, get_scroll_delta_wraps}

abbrev start : Session
start = record { dev = zero_device; common = zero_common; calls = [] }

-- 25 units at 10 a notch: two clicks, and 5 units kept.
two_notches :
    let (s, rest) = button_per_notch (pos 25) (pos 10) 6 7 start in
    (s.calls
      ≡ button false 6 false no_axes
        ∷ button false 6 true no_axes
        ∷ button false 6 false no_axes
        ∷ button false 6 true no_axes
        ∷ [])
    × (rest ≡ pos 5)
unfolding button_per_notch clicks emit tdiv tmod
two_notches = (refl, refl)

strip_up : get_scroll_delta (pos 4) (pos 1) (pos 0) true true ≡ negsuc 1
unfolding get_scroll_delta ◌-ℤ◌
strip_up = refl

button_per_notch_conserves_example :
    let (s', rest) = button_per_notch (negsuc 24) (pos 10) 6 7 start in
    (notches_sent 6 7 s' *ℤ pos 10 +ℤ rest ≡ notches_sent 6 7 start *ℤ pos 10 +ℤ negsuc 24)
    × (abs rest < abs (pos 10))
button_per_notch_conserves_example =
    button_per_notch_conserves (negsuc 24) (pos 10) 6 7 start (omega arith) (omega arith)

get_scroll_delta_wraps_example :
    LeadsTo 71 70 2 (get_scroll_delta (pos 2) (pos 70) (pos 71) false false)
    × (2 * abs (get_scroll_delta (pos 2) (pos 70) (pos 71) false false) ≤ 71 + 1)
get_scroll_delta_wraps_example =
    get_scroll_delta_wraps 2 70 71 (omega arith) (omega arith) (omega arith)
