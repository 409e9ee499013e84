-- ===== src/Gesture/FilterKeeps.antt =====
-- What `wcmGestureFilter` of src/wcmTouchFilter.c leaves alone: as for its parts.
use xf86_input_wacom.Prelude.{ℕ, ◌≡◌, refl, Bool, List, [], ◌∷◌}
use xf86_input_wacom.State.{Channel}
use xf86_input_wacom.Session.{Session}
use xf86_input_wacom.Gesture.{Fingers}
use xf86_input_wacom.Gesture.Scroll.{Floats}
use xf86_input_wacom.Gesture.Multitouch.{send_touch_event, send_touches, finger_multitouch}
use xf86_input_wacom.Gesture.Filter.{
  multitouch_from_none, multitouch_step, note_second, note_first, finish_filter, end_gesture,
  two_finger_step, tap_step, gesture_step, filter_from, filter_touches, gesture_filter,
}
use xf86_input_wacom.Gesture.Keeps.{
  look, looks, look-emit, look-click, look-tap_to_click, look-single_tap, look-single_press,
  look-cancel, look-finger_scroll, look-finger_zoom,
}

look-touch_event :
    (ch : Channel) (no_update : Bool) (s : Session)
    → look (send_touch_event ch no_update s) ≡ look s
unfolding send_touch_event
look-touch_event ch no_update s = look-emit s _

look-touches :
    (lagging : Bool) (contact : ℕ) (chs : List Channel) (s : Session)
    → look (send_touches lagging contact chs s) ≡ look s
unfolding send_touches
look-touches lagging contact [] s = refl
look-touches lagging contact (ch ∷ chs) s =
    simp (looks, look-touches lagging contact chs, look-touch_event)

look-multitouch : (contact : ℕ) (s : Session) → look (finger_multitouch contact s) ≡ look s
unfolding finger_multitouch
look-multitouch contact s = simp (looks, look-touches)

look-from_none :
    (contact : ℕ) (f : Fingers) (s : Session) → look (multitouch_from_none contact f s) ≡ look s
unfolding multitouch_from_none
look-from_none contact f s = simp (looks, look-multitouch)

look-multitouch_step :
    (contact : ℕ) (f : Fingers) (s : Session) → look (multitouch_step contact f s) ≡ look s
unfolding multitouch_step
look-multitouch_step contact f s = simp (looks, look-from_none, look-multitouch, look-cancel)

look-note_second : (f : Fingers) (s : Session) → look (note_second f s) ≡ look s
unfolding note_second
look-note_second f s = simp looks

look-note_first : (f : Fingers) (s : Session) → look (note_first f s) ≡ look s
unfolding note_first
look-note_first f s = simp looks

look-finish : (contact : ℕ) (s : Session) → look (finish_filter contact s) ≡ look s
unfolding finish_filter
look-finish contact s = simp (looks, look-single_press, look-single_tap)

look-end : (f : Fingers) (s : Session) → look (end_gesture f s) ≡ look s
unfolding end_gesture
look-end f s = simp (looks, look-click)

look-two_finger : (fl : Floats) (f : Fingers) (s : Session) → look (two_finger_step fl f s) ≡ look s
unfolding two_finger_step
look-two_finger fl f s = simp (looks, look-finger_zoom, look-finger_scroll)

look-tap_step : (now contact : ℕ) (s : Session) → look (tap_step now contact s) ≡ look s
unfolding tap_step
look-tap_step now contact s = simp (looks, look-tap_to_click)

look-gesture_step :
    (fl : Floats) (now contact : ℕ) (f : Fingers) (s : Session)
    → look (gesture_step fl now contact f s) ≡ look s
unfolding gesture_step
look-gesture_step fl now contact f s =
    simp (looks, look-click, look-end, look-two_finger, look-tap_step)

look-filter_from :
    (fl : Floats) (now contact : ℕ) (f : Fingers) (s : Session)
    → look (filter_from fl now contact f s) ≡ look s
unfolding filter_from
look-filter_from fl now contact f s =
    simp (looks, look-finish, look-gesture_step, look-note_first, look-note_second)

look-filter_touches :
    (fl : Floats) (now contact : ℕ) (f : Fingers) (s : Session)
    → look (filter_touches fl now contact f s) ≡ look s
unfolding filter_touches
look-filter_touches fl now contact f s = simp (looks, look-filter_from)

pub look-gesture_filter :
    (fl : Floats) (now contact : ℕ) (s : Session) → look (gesture_filter fl now contact s) ≡ look s
unfolding gesture_filter
look-gesture_filter fl now contact s = simp (looks, look-filter_touches, look-multitouch_step)
