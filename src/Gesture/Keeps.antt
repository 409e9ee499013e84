-- ===== src/Gesture/Keeps.antt =====
-- What gestures leave alone in the tablet's record: the states that the protocol fills in, their marks, and
-- the switch of touch. They are in src/wcmTouchFilter.c.
use xf86_input_wacom.Prelude.{
  ℕ, zero, suc, ◌≡◌, refl, ap, ◌∙◌, Bool, true, false, Option, none, some, List, [], ◌∷◌, set,
  get_or, if◌then◌else◌,
}
use xf86_input_wacom.Prelude.Int.{ℤ}
use xf86_input_wacom.State.{DeviceState, Channel, Common, GestureParameters}
use xf86_input_wacom.State.Zero.{zero_channel}
use xf86_input_wacom.Session.{Session, Emit, emit, set_old_state}
use xf86_input_wacom.Session.Events.{soft_out_event}
use xf86_input_wacom.Session.Events.Tablet.{soft_out_event-common}
use xf86_input_wacom.Gesture.{
  set_mode, set_parameters, set_gesture_state, put_buttons, update_session_channel, press_first,
  send_button_click, finger_tap_to_click, single_finger_tap, single_finger_press, cancel_gesture,
}
use xf86_input_wacom.Gesture.Scroll.{
  Floats, find_direction, points_in_line, restart, click_button, send_scroll_event, scroll_axis,
  scroll_on, in_line_step, scroll_starts, enter_scroll, finger_scroll, zoom_clicks, zoom_by,
  finger_zoom,
}

-- The next states and marks of the channels.
abbrev pub mark_of : Channel → DeviceState × Bool
mark_of ch = (ch.work, ch.dirty)

abbrev pub marks : List Channel → List (DeviceState × Bool)
marks [] = []
marks (ch ∷ chs) = mark_of ch ∷ marks chs

pub record Sight : Type 0 where
  pub channel_marks : List (DeviceState × Bool)
  pub touch_on : Bool

abbrev pub sight : Common → Sight
sight c = record { channel_marks = marks c.channels; touch_on = c.touch }

unfoldable pub look : Session → Sight
look s = sight s.common

-- A write of a channel with the same next state and mark.
pub marks-put :
    (k : ℕ) (chs : List Channel) (new : Channel)
    → mark_of new ≡ mark_of (get_or chs k zero_channel)
    → marks (set chs k new) ≡ marks chs
marks-put k [] new h = refl
marks-put zero (ch ∷ chs) new h = ap (λ (p : DeviceState × Bool). p ∷ marks chs) h
marks-put (suc k) (ch ∷ chs) new h =
    ap (λ (l : List (DeviceState × Bool)). mark_of ch ∷ l) (marks-put k chs new h)

pub look-ite :
    (b : Bool) (s t : Session) → look (if b then s else t) ≡ (if b then look s else look t)
look-ite true s t = refl
look-ite false s t = refl

pub look_same : (b : Bool) (v : Sight) → (if b then v else v) ≡ v
look_same true v = refl
look_same false v = refl

pub look-set_mode : (m : ℕ) (s : Session) → look (set_mode m s) ≡ look s
unfolding look
look-set_mode m s = refl

pub look-set_parameters : (p : GestureParameters) (s : Session) → look (set_parameters p s) ≡ look s
unfolding look
look-set_parameters p s = refl

pub look-set_gesture_state :
    (i : ℕ) (ds : DeviceState) (s : Session) → look (set_gesture_state i ds s) ≡ look s
unfolding look
look-set_gesture_state i ds s = refl

pub look-set_old_state : (s : Session) (ds : DeviceState) → look (set_old_state s ds) ≡ look s
unfolding look
look-set_old_state s ds = refl

pub look-emit : (s : Session) (e : Emit) → look (emit s e) ≡ look s
unfolding look emit
look-emit s e = refl

pub look-put_buttons :
    (k : ℕ) (f : ℕ → ℕ) (s : Session) → look (update_session_channel k (put_buttons f) s) ≡ look s
unfolding look
look-put_buttons k f s =
    ap (λ (l : List (DeviceState × Bool)). record { channel_marks = l; touch_on = s.common.touch })
      (marks-put k s.common.channels _ refl)

pub look-soft_out : (s : Session) → look (soft_out_event s) ≡ look s
unfolding look
look-soft_out s = ap (λ (c : Common). sight c) (soft_out_event-common s)

pub ruleset looks = (
  look-ite, look_same, look-set_mode, look-set_parameters, look-set_gesture_state,
  look-set_old_state, look-emit, look-soft_out,
)

pub look-click : (b : ℕ) (press : Bool) (s : Session) → look (send_button_click b press s) ≡ look s
unfolding send_button_click
look-click b press s = simp looks

pub look-tap_to_click : (now : ℕ) (s : Session) → look (finger_tap_to_click now s) ≡ look s
unfolding finger_tap_to_click
look-tap_to_click now s = simp (looks, look-click)

pub look-single_tap : (s : Session) → look (single_finger_tap s) ≡ look s
unfolding single_finger_tap
look-single_tap s = simp looks

pub look-press_first :
    (k : Option ℕ) (down : Bool) (s : Session) → look (press_first k down s) ≡ look s
unfolding press_first
look-press_first none down s = refl
look-press_first (some k) true s = simp (looks, look-put_buttons)
look-press_first (some k) false s = simp (looks, look-put_buttons)

pub look-single_press : (s : Session) → look (single_finger_press s) ≡ look s
unfolding single_finger_press
look-single_press s = simp (looks, look-press_first)

pub look-cancel : (s : Session) → look (cancel_gesture s) ≡ look s
unfolding cancel_gesture
look-cancel s = simp (looks, look-click)

pub first-ite :
    (b : Bool) (p q : Session × Bool) → (if b then p else q).0 ≡ (if b then p.0 else q.0)
first-ite true p q = refl
first-ite false p q = refl

pub look-find_direction :
    (threshold dx dy : ℕ) (s : Session) → look (find_direction threshold dx dy s).0 ≡ look s
unfolding find_direction
look-find_direction threshold dx dy s = simp (first-ite, looks)

pub look-points_in_line :
    (ds0 ds1 : DeviceState) (s : Session) → look (points_in_line ds0 ds1 s).0 ≡ look s
unfolding points_in_line
look-points_in_line ds0 ds1 s = simp (first-ite, looks, look-find_direction)

pub look-in_line_step :
    (ds start : DeviceState) (p : Session × Bool) → look (in_line_step ds start p).0 ≡ look p.0
unfolding in_line_step
look-in_line_step ds start (s, true) = look-points_in_line ds start s
look-in_line_step ds start (s, false) = refl

pub look-scroll_starts : (fl : Floats) (s : Session) → look (scroll_starts fl s).0 ≡ look s
unfolding scroll_starts
look-scroll_starts fl s = look-in_line_step _ _ _ ∙ look-in_line_step _ _ (s, true)

pub look-enter_scroll : (p : Session × Bool) → look (enter_scroll p) ≡ look p.0
unfolding enter_scroll
look-enter_scroll (s, true) = simp (looks, look-click)
look-enter_scroll (s, false) = refl

pub look-restart : (s : Session) → look (restart s) ≡ look s
unfolding restart
look-restart s = simp looks

pub look-click_button : (n b : ℕ) (s : Session) → look (click_button n b s) ≡ look s
unfolding click_button
look-click_button zero b s = refl
look-click_button (suc n) b s = simp (look-click_button n b, look-click)

pub look-send_scroll :
    (dist : ℤ) (up down : ℕ) (s : Session) → look (send_scroll_event dist up down s) ≡ look s
unfolding send_scroll_event
look-send_scroll dist up down s = simp (looks, look-restart, look-click_button)

pub look-scroll_axis :
    (axis : ℤ × ℤ → ℤ) (up down : ℕ) (s : Session) → look (scroll_axis axis up down s) ≡ look s
unfolding scroll_axis
look-scroll_axis axis up down s = look-send_scroll _ up down s

pub look-scroll_on : (s : Session) → look (scroll_on s) ≡ look s
unfolding scroll_on
look-scroll_on s = simp (looks, look-scroll_axis)

pub look-finger_scroll : (fl : Floats) (s : Session) → look (finger_scroll fl s) ≡ look s
unfolding finger_scroll
look-finger_scroll fl s = simp (looks, look-scroll_on, look-enter_scroll, look-scroll_starts)

pub look-zoom_clicks : (n b : ℕ) (s : Session) → look (zoom_clicks n b s) ≡ look s
unfolding zoom_clicks
look-zoom_clicks zero b s = refl
look-zoom_clicks (suc n) b s = simp (look-zoom_clicks n b, look-click, look-emit)

pub look-zoom_by : (dist : ℤ) (s : Session) → look (zoom_by dist s) ≡ look s
unfolding zoom_by
look-zoom_by dist s = simp (looks, look-restart, look-zoom_clicks)

pub look-finger_zoom : (fl : Floats) (s : Session) → look (finger_zoom fl s) ≡ look s
unfolding finger_zoom
look-finger_zoom fl s = simp (looks, look-zoom_by, look-click)
