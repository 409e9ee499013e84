-- ===== src/Session/Frame.antt =====
-- What buttons, keys, wheels and panscroll leave alone: the proximity events of the calls, the
-- device's last proximity, and the tablet.
use xf86_input_wacom.Prelude.{
  ℕ, zero, suc, ◌+◌, ◌≡◌, refl, ◌∙◌, Bool, true, false, Option, none, some, List, [], ◌∷◌, take,
  get_or, if◌then◌else◌, arith,
}
use xf86_input_wacom.Prelude.Int.{ℤ}
use xf86_input_wacom.State.{DeviceState, Device, Common, Action}
use xf86_input_wacom.Axes.{AxisData}
use xf86_input_wacom.Session.{
  Session, Emit, emit, motion, button, keycode, prog_key, proximity_event, serial_update,
  touch_event, tap_timer, set_old_state, set_flags, set_panscroll_state,
}
use xf86_input_wacom.Session.Mode.{switch_mode_call, no_action}
use xf86_input_wacom.Session.Action.{
  press_as, press_actions, release_as, release_actions, send_action, send_a_button, ac_type, ac_key,
  ac_button_type, ac_modetoggle, ac_panscroll, other, ActionType,
}
use xf86_input_wacom.Session.Scroll.{
  clicks, button_per_notch, panscroll_by, panscroll, send_wheel_strip_event, scroll_part,
  send_wheel_strip_events,
}
use xf86_input_wacom.Session.Buttons.{
  send_changed, send_buttons, send_changed_keys, send_keys, prog_of,
}

-- The proximity events of the calls, the last one first.
abbrev pub proximity_log : List Emit → List Bool
proximity_log [] = []
proximity_log (motion a axes ∷ calls) = proximity_log calls
proximity_log (button a b p axes ∷ calls) = proximity_log calls
proximity_log (keycode k p ∷ calls) = proximity_log calls
proximity_log (prog_key k p ∷ calls) = proximity_log calls
proximity_log (proximity_event p axes ∷ calls) = p ∷ proximity_log calls
proximity_log (serial_update ∷ calls) = proximity_log calls
proximity_log (touch_event k n x y ∷ calls) = proximity_log calls
proximity_log (tap_timer n ∷ calls) = proximity_log calls

-- What the functions of this module leave alone.
pub record View : Type 0 where
  pub log : List Bool
  pub proximity : ℤ
  pub common : Common

unfoldable pub view : Session → View
view s = record {
  log = proximity_log s.calls;
  proximity = s.dev.old_state.proximity;
  common = s.common;
}

pub view-if :
    (b : Bool) (s t u : Session)
    → view s ≡ view u
    → view t ≡ view u
    → view (if b then s else t) ≡ view u
view-if true s t u h k = h
view-if false s t u h k = k

pub view-set_flags : (s : Session) (f : ℕ) → view (set_flags s f) ≡ view s
unfolding view
view-set_flags s f = refl

view-scroll_start :
    (s : Session) (f : ℕ) (st : DeviceState)
    → view (set_panscroll_state (set_flags s f) st) ≡ view s
unfolding view
view-scroll_start s f st = refl

pub view-ite :
    (b : Bool) (s t : Session) → view (if b then s else t) ≡ (if b then view s else view t)
view-ite true s t = refl
view-ite false s t = refl

pub if_same : (b : Bool) (v : View) → (if b then v else v) ≡ v
if_same true v = refl
if_same false v = refl

view-emit_button :
    (s : Session) (a : Bool) (b : ℕ) (p : Bool) (axes : AxisData)
    → view (emit s (button a b p axes)) ≡ view s
unfolding view emit
view-emit_button s a b p axes = refl

view-emit_keycode : (s : Session) (k : ℕ) (p : Bool) → view (emit s (keycode k p)) ≡ view s
unfolding view emit
view-emit_keycode s k p = refl

view-switch_mode_call :
    (s : Session) (absolute : Bool)
    → view (record s { dev = (switch_mode_call s.dev absolute).0 }) ≡ view s
unfolding view switch_mode_call
view-switch_mode_call s true = ground arith
view-switch_mode_call s false = ground arith

view-press_as :
    (t : ActionType) (ds : DeviceState) (axes : AxisData) (action : ℕ) (s : Session)
    → view (press_as t ds axes action s) ≡ view s
unfolding press_as
view-press_as ac_button_type ds axes action s = simp (view-ite, view-emit_button, if_same)
view-press_as ac_key ds axes action s = view-emit_keycode s _ _
view-press_as ac_modetoggle ds axes action s = view-switch_mode_call s _
view-press_as ac_panscroll ds axes action s = view-scroll_start s _ _
view-press_as other ds axes action s = refl

view-press_actions :
    (ds : DeviceState) (axes : AxisData) (keys : List ℕ) (s : Session)
    → view (press_actions ds axes keys s) ≡ view s
unfolding press_actions
view-press_actions ds axes [] s = refl
view-press_actions ds axes (a ∷ keys) s = view-if _ s _ s refl (
    view-press_actions ds axes keys (press_as (ac_type a) ds axes a s)
    ∙ view-press_as (ac_type a) ds axes a s)

view-release_as :
    (t : ActionType) (axes : AxisData) (action : ℕ) (keys : List ℕ) (s : Session)
    → view (release_as t axes action keys s) ≡ view s
unfolding release_as
view-release_as ac_button_type axes action keys s = simp (view-ite, view-emit_button, if_same)
view-release_as ac_key axes action keys s = simp (view-ite, view-emit_keycode, if_same)
view-release_as ac_modetoggle axes action keys s = refl
view-release_as ac_panscroll axes action keys s = view-set_flags s _
view-release_as other axes action keys s = refl

view-release_actions :
    (axes : AxisData) (keys : List ℕ) (s : Session) → view (release_actions axes keys s) ≡ view s
unfolding release_actions
view-release_actions axes [] s = refl
view-release_actions axes (a ∷ keys) s =
    view-release_actions axes keys _ ∙ view-release_as (ac_type a) axes a (a ∷ keys) s

pub view-send_action :
    (ds : DeviceState) (press : Bool) (act : Action) (axes : AxisData) (s : Session)
    → view (send_action ds press act axes s) ≡ view s
unfolding send_action
view-send_action ds true act axes s = view-press_actions ds axes (take act.nactions act.action) s
view-send_action ds false act axes s = view-release_actions axes (take act.nactions act.action) s

view-send_a_button :
    (ds : DeviceState) (b : ℕ) (mask : Bool) (axes : AxisData) (s : Session)
    → view (send_a_button ds b mask axes s) ≡ view s
unfolding send_a_button
view-send_a_button ds b mask axes s =
    view-if _ s _ s refl (view-send_action ds mask (get_or s.dev.key_actions b no_action) axes s)

view-clicks : (n : ℕ) (mode : Bool) (b : ℕ) (s : Session) → view (clicks n mode b s) ≡ view s
unfolding clicks emit view
view-clicks zero mode b s = refl
view-clicks (suc n) mode b s = view-clicks n mode b _

pub view-emit_motion :
    (s : Session) (a : Bool) (axes : AxisData) → view (emit s (motion a axes)) ≡ view s
unfolding view emit
view-emit_motion s a axes = refl

view-emit_prog : (s : Session) (p : ℕ) (on : Bool) → view (emit s (prog_key p on)) ≡ view s
unfolding view emit
view-emit_prog s p on = refl

view-set_panscroll_state :
    (s : Session) (st : DeviceState) → view (set_panscroll_state s st) ≡ view s
unfolding view
view-set_panscroll_state s st = refl

view-panscroll_by : (dx dy : ℤ) (s : Session) → view (panscroll_by dx dy s) ≡ view s
unfolding panscroll_by button_per_notch
view-panscroll_by dx dy s =
    simp (view-ite, view-clicks, view-emit_motion, view-set_panscroll_state, if_same)

pub view-panscroll : (ds : DeviceState) (x y : ℤ) (s : Session) → view (panscroll ds x y s) ≡ view s
unfolding panscroll
view-panscroll ds x y s = simp (view-ite, view-panscroll_by, view-set_panscroll_state, if_same)

view-send_changed :
    (ds : DeviceState) (axes : AxisData) (buttons n b : ℕ) (s : Session)
    → view (send_changed ds axes buttons n b s) ≡ view s
unfolding send_changed
view-send_changed ds axes buttons zero b s = refl
view-send_changed ds axes buttons (suc n) b s =
    view-send_changed ds axes buttons n (b + 1) _
    ∙ view-if _ s _ s refl (view-send_a_button ds b _ axes s)

view-set_buttons :
    (s : Session) (b : ℕ)
    → view (set_old_state s (record (s.dev.old_state) { buttons = b })) ≡ view s
unfolding view
view-set_buttons s b = refl

pub view-send_buttons :
    (ds : DeviceState) (buttons : ℕ) (axes : AxisData) (s : Session)
    → view (send_buttons ds buttons axes s) ≡ view s
unfolding send_buttons
view-send_buttons ds buttons axes s = simp (view-send_changed, view-set_buttons)

view-key :
    (p : Option ℕ) (on : Bool) (s : Session)
    → view (elim p [ none ↦ s | some k ↦ emit s (prog_key k on) ]) ≡ view s
view-key none on s = refl
view-key (some k) on s = view-emit_prog s k on

view-send_changed_keys :
    (current previous n idx : ℕ) (s : Session)
    → view (send_changed_keys current previous n idx s) ≡ view s
unfolding send_changed_keys
view-send_changed_keys current previous zero idx s = refl
view-send_changed_keys current previous (suc n) idx s =
    view-if _ _ s s
      (view-send_changed_keys current previous n (idx + 1) _
        ∙ view-if _ s _ s refl (view-key (prog_of idx) _ s))
      refl

pub view-send_keys :
    (current previous : ℕ) (s : Session) → view (send_keys current previous s) ≡ view s
unfolding send_keys
view-send_keys current previous s = view-send_changed_keys current previous 32 0 s

view-scroll_part :
    (o : Option ℕ) (has_axis : Bool) (actions : Device → List Action) (ds : DeviceState)
    (axes : AxisData) (s : Session)
    → view (scroll_part o has_axis actions ds axes s) ≡ view s
unfolding send_wheel_strip_event
view-scroll_part none has_axis actions ds axes s = refl
view-scroll_part (some idx) has_axis actions ds axes s =
    view-if _ _ s s (view-send_action ds false _ axes _ ∙ view-send_action ds true _ axes s) refl

pub view-send_wheel_strip_events :
    (ds : DeviceState) (axes : AxisData) (s : Session)
    → view (send_wheel_strip_events ds axes s) ≡ view s
unfolding send_wheel_strip_events
view-send_wheel_strip_events ds axes s = simp (view-scroll_part)
