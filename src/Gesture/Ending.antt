-- ===== src/Gesture/Ending.antt =====
-- The end of a gesture: what `wcmGestureFilter` of src/wcmTouchFilter.c does once all fingers are up.
use xf86_input_wacom.Prelude.{
  ℕ, ◌≡◌, ◌≢◌, ◌⊎◌, refl, sym, ap, ◌∙◌, inl, inr, Bool, true, false, not, ◌&&◌, Option, none, some,
  List, ◌==◌, if◌then◌else◌, arith,
}
use xf86_input_wacom.State.{Channel, Common, is_type, touch_id, has_feature}
use xf86_input_wacom.Session.{Session, emit, tap_timer}
use xf86_input_wacom.Session.Events.{soft_out_event}
use xf86_input_wacom.Session.Events.Tablet.{soft_out_event-common, ites}
use mathlib.Core.Path.{subst}
use xf86_input_wacom.Gesture.{
  none_mode, predrag_mode, drag_mode, cancel_mode, multitouch_mode, set_mode, lcd, history, Fingers,
  get_state_history, is_in, send_button_click, press_first, single_finger_tap, is_first_tap,
  single_finger_press, get_contact_number, history_at,
}
use xf86_input_wacom.Gesture.Scroll.{Floats}
use xf86_input_wacom.Gesture.Filter.{
  both_out, multitouch_step, next_mode, note_first, note_second, end_gesture, gesture_step,
  finish_filter, filter_from, filter_touches, gesture_filter,
}

abbrev mode : Session → ℕ
mode s = s.common.gesture_mode

-- No gesture goes on, or a tap waits for a drag.
abbrev pub IsOver : ℕ → Type 0
IsOver m = (m ≡ none_mode) ⊎ (m ≡ predrag_mode)

pub click-common : (b : ℕ) (p : Bool) (s : Session) → (send_button_click b p s).common ≡ s.common
unfolding send_button_click emit
click-common b p s = ground arith

-- The record before the mode and the direction are reset.
ended-common :
    (f : Fingers) (s : Session)
    → (let s1 =
          if not (is_in f.last0) && not (s.common.gesture_mode == none_mode)
          then soft_out_event s
          else s in
        if s1.common.gesture_mode == drag_mode then send_button_click 1 false s1 else s1).common
      ≡ s.common
ended-common f s = simp (ites, click-common, soft_out_event-common)

end_gesture-channels :
    (f : Fingers) (s : Session) → (end_gesture f s).common.channels ≡ s.common.channels
unfolding end_gesture
end_gesture-channels f s = ap (λ (c : Common). c.channels) (ended-common f s)

-- A session at rest: its gesture is over, and the first finger is up.
record Rest (s : Session) : Type 0 where
  over : IsOver (mode s)
  out : is_in (history s.common 0 0) ≡ false

if_false : (b : Bool) (s t : Session) → b ≡ false → (if b then s else t) ≡ t
if_false true s t e = absurd (ground arith)
if_false false s t e = refl

if_true : (b : Bool) (s t : Session) → b ≡ true → (if b then s else t) ≡ s
if_true true s t e = refl
if_true false s t e = absurd (ground arith)

if-Rest : (b : Bool) (s t : Session) → Rest s → Rest t → Rest (if b then s else t)
if-Rest true s t h k = h
if-Rest false s t h k = k

predrag-Rest : (s : Session) (n : ℕ) → Rest s → Rest (emit (set_mode predrag_mode s) (tap_timer n))
unfolding emit history_at get_contact_number
predrag-Rest s n h = record { over = inr refl; out = h.out }

tap-Rest : (s : Session) → Rest s → Rest (single_finger_tap s)
unfolding single_finger_tap
tap-Rest s h =
    let time = s.common.gesture_parameters.tap_time in
    let tapped = emit (set_mode predrag_mode s) (tap_timer time) in
    let tap = is_first_tap (get_state_history s.common) time in
    if-Rest (has_feature s.common lcd) s (if tap then tapped else s) h
      (if-Rest tap tapped s (predrag-Rest s time h) h)

press_first-IsOver :
    (k : Option ℕ) (down : Bool) (s : Session)
    → down ≡ false
    → IsOver (mode s)
    → IsOver (mode (press_first k down s))
unfolding press_first
press_first-IsOver none down s e h = h
press_first-IsOver (some k) true s e h = absurd (ground arith)
press_first-IsOver (some k) false s e h = inl refl

if-IsOver :
    (b : Bool) (s t : Session)
    → IsOver (mode s)
    → IsOver (mode t)
    → IsOver (mode (if b then s else t))
if-IsOver true s t h k = h
if-IsOver false s t h k = k

press-IsOver : (s : Session) → Rest s → IsOver (mode (single_finger_press s))
unfolding single_finger_press
press-IsOver s h =
    if-IsOver (has_feature s.common lcd) _ s (press_first-IsOver _ _ s (up _ _ h.out) h.over) h.over
  where
    up : (a b : Bool) → a ≡ false → (a && b) ≡ false
    up a b e = ground arith

finish-IsOver : (contact : ℕ) (s : Session) → Rest s → IsOver (mode (finish_filter contact s))
unfolding finish_filter
finish-IsOver contact s h = if-IsOver _ _ s (press-IsOver _ (tap-Rest s h)) h.over

-- The fingers are read from the channels alone.
same_history :
    (t s : Session)
    → t.common.channels ≡ s.common.channels
    → is_in (history s.common 0 0) ≡ false
    → is_in (history t.common 0 0) ≡ false
unfolding history_at get_contact_number
same_history t s e out =
    subst (λ (l : List Channel). is_in (history (record (s.common) { channels = l }) 0 0) ≡ false)
      (sym e) out

end_gesture-Rest :
    (f : Fingers) (s : Session) → is_in (history s.common 0 0) ≡ false → Rest (end_gesture f s)
unfolding end_gesture
end_gesture-Rest f s out = record {
  over = inl refl;
  out = same_history (end_gesture f s) s (end_gesture-channels f s) out;
}

first_stays : (f : Fingers) → both_out f ≡ true → (is_in f.ds0 && not (is_in f.last0)) ≡ false
first_stays f h = ground arith

second_stays : (f : Fingers) → both_out f ≡ true → (is_in f.ds1 && not (is_in f.last1)) ≡ false
second_stays f h = ground arith

no_second : (f : Fingers) (s : Session) → both_out f ≡ true → note_second f s ≡ s
unfolding note_second
no_second f s h = rw (second_stays f h) refl

no_first : (f : Fingers) (s : Session) → both_out f ≡ true → note_first f s ≡ s
unfolding note_first
no_first f s h = rw (first_stays f h) refl

step_ends :
    (fl : Floats) (now contact : ℕ) (f : Fingers) (s : Session)
    → both_out f ≡ true
    → gesture_step fl now contact f s ≡ end_gesture f s
unfolding gesture_step
step_ends fl now contact f s h = rw (first_stays f h, h) refl

filter_from-IsOver :
    (fl : Floats) (now contact : ℕ) (f : Fingers) (s : Session)
    → both_out f ≡ true
    → is_in (history s.common 0 0) ≡ false
    → IsOver (mode (filter_from fl now contact f s))
unfolding filter_from
filter_from-IsOver fl now contact f s h out =
    let s1 = set_mode (next_mode now f s.common.gesture_mode) s in
    subst (λ (t : Session). IsOver (mode (finish_filter contact t)))
      (sym (
        ap (λ (t : Session). gesture_step fl now contact f (note_first f t)) (no_second f s1 h)
        ∙ ap (λ (t : Session). gesture_step fl now contact f t) (no_first f s1 h)
        ∙ step_ends fl now contact f s1 h))
      (finish-IsOver contact (end_gesture f s1)
        (end_gesture-Rest f s1 (same_history s1 s refl out)))

filter_touches-IsOver :
    (fl : Floats) (now contact : ℕ) (f : Fingers) (s : Session)
    → mode s ≢ multitouch_mode
    → both_out f ≡ true
    → is_in (history s.common 0 0) ≡ false
    → IsOver (mode (filter_touches fl now contact f s))
unfolding filter_touches
filter_touches-IsOver fl now contact f s no_multi h out =
    rw (no_multitouch, up)
      (if-IsOver _ (filter_from fl now contact f (set_mode none_mode s))
        (filter_from fl now contact f s)
        (filter_from-IsOver fl now contact f (set_mode none_mode s) h
          (same_history (set_mode none_mode s) s refl out))
        (filter_from-IsOver fl now contact f s h out))
  where
    no_multitouch : (mode s == multitouch_mode) ≡ false
    no_multitouch = ground arith

    up : ((mode s == cancel_mode) && not (both_out f)) ≡ false
    up = ground arith

no_touches :
    (contact : ℕ) (f : Fingers) (s : Session)
    → s.common.gesture ≡ true
    → multitouch_step contact f s ≡ s
unfolding multitouch_step
no_touches contact f s on = rw on refl

-- Gestures are on, the tablet does not send single touches, and the first two fingers are up. Then, whatever
-- gesture went on, none goes on after the filter, or the mode waits for a second touch after a tap.
pub gesture_filter_ends :
    (fl : Floats) (now contact : ℕ) (s : Session)
    → is_type touch_id s.dev ≡ true
    → s.common.gesture ≡ true
    → s.common.gesture_mode ≢ multitouch_mode
    → both_out (get_state_history s.common) ≡ true
    → IsOver (gesture_filter fl now contact s).common.gesture_mode
unfolding gesture_filter get_state_history
gesture_filter_ends fl now contact s touch on no_multi up =
    let f = get_state_history s.common in
    over_of (is_type touch_id s.dev) (filter_touches fl now contact f (multitouch_step contact f s))
      s touch
      (subst (λ (t : Session). IsOver (mode (filter_touches fl now contact f t)))
        (sym (no_touches contact f s on))
        (filter_touches-IsOver fl now contact f s no_multi up (ground arith)))
  where
    over_of :
        (b : Bool) (t u : Session) → b ≡ true → IsOver (mode t) → IsOver (mode (if b then t else u))
    over_of true t u e h = h
    over_of false t u e h = absurd (ground arith)
