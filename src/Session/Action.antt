-- ===== src/Session/Action.antt =====
-- Sending the actions bound to a button: `countPresses`, `sendAction` and `sendAButton` of
-- src/wcmCommon.c.
pub mod Balance
mod Tests
use xf86_input_wacom.Prelude.{
  ℕ, ◌/◌, ◌%◌, Bool, false, not, ◌&&◌, List, [], ◌∷◌, get_or, take, ◌==◌, if◌then◌else◌,
}
use xf86_input_wacom.Prelude.Int.{ℤ, pos, negsuc, ◌+ℤ◌, is_set}
use xf86_input_wacom.Prelude.Bits.{has_mask, or_mask, clear_mask}
use xf86_input_wacom.State.{DeviceState, Device, Action, scrollmode_flag}
use xf86_input_wacom.Axes.{AxisData}
use xf86_input_wacom.Session.{Session, emit, button, keycode, set_flags, set_panscroll_state}
use xf86_input_wacom.Session.Mode.{is_absolute, switch_mode_call, ac_keybtnpress, no_action}

-- `action & AC_CODE`, `action & AC_KEYBTNPRESS`
abbrev pub ac_code : ℕ → ℕ
ac_code a = a % 0x10000

abbrev pub is_press : ℕ → Bool
is_press a = has_mask a ac_keybtnpress

-- `action & AC_TYPE`; `other` is every value without a case in the switch.
pub data ActionType : Type 0 where
  ac_key ac_button_type ac_modetoggle ac_panscroll other : ActionType

abbrev pub ac_type : ℕ → ActionType
ac_type a =
    let t = a / 0x10000 % 16 in
    if t == 8
    then ac_button_type
    else if t == 1
    then ac_key
    else if t == 2
    then ac_modetoggle
    else if t == 5
    then ac_panscroll
    else other

-- `countPresses`: a release counts -1, whatever it releases.
unfoldable pub count_presses : ℕ → List ℕ → ℤ
count_presses keybtn [] = pos 0
count_presses keybtn (act ∷ keys) =
    let count = count_presses keybtn keys in
    if ac_code act == keybtn then (if is_press act then pos 1 else negsuc 0) +ℤ count else count

abbrev pub in_scrollmode : Device → Bool
in_scrollmode d = has_mask d.flags scrollmode_flag

-- The tip's state when panscroll starts or waits.
abbrev pub panscroll_start : DeviceState → DeviceState
panscroll_start ds = record ds { x = pos 0; y = pos 0 }

-- One action of the first loop, on a press, by its type.
unfoldable pub press_as : ActionType → DeviceState → AxisData → ℕ → Session → Session
press_as ac_button_type ds axes action s =
    if (ac_code action == 1) && in_scrollmode s.dev
    then s
    else emit s (button (is_absolute s.dev) (ac_code action) (is_press action) axes)
press_as ac_key ds axes action s = emit s (keycode (ac_code action) (is_press action))
press_as ac_modetoggle ds axes action s = record s {
  dev = (switch_mode_call s.dev (not (is_absolute s.dev))).0;
}
press_as ac_panscroll ds axes action s =
    set_panscroll_state (set_flags s (or_mask s.dev.flags scrollmode_flag)) (panscroll_start ds)
press_as other ds axes action s = s

-- The first loop stops at an action that is zero.
unfoldable pub press_actions : DeviceState → AxisData → List ℕ → Session → Session
press_actions ds axes [] s = s
press_actions ds axes (action ∷ keys) s =
    let rest = press_actions ds axes keys (press_as (ac_type action) ds axes action s) in
    if action == 0 then s else rest

-- A button or a key that is pressed more often than released from here on.
abbrev pub unreleased : ℕ → List ℕ → Bool
unreleased action keys = is_press action && is_set (count_presses (ac_code action) keys)

-- One action of the second loop, on a release; `keys` begins with it.
unfoldable pub release_as : ActionType → AxisData → ℕ → List ℕ → Session → Session
release_as ac_button_type axes action keys s =
    if unreleased action keys
    then emit s (button (is_absolute s.dev) (ac_code action) false axes)
    else s
release_as ac_key axes action keys s =
    if unreleased action keys then emit s (keycode (ac_code action) false) else s
release_as ac_modetoggle axes action keys s = s
release_as ac_panscroll axes action keys s = set_flags s (clear_mask s.dev.flags scrollmode_flag)
release_as other axes action keys s = s

unfoldable pub release_actions : AxisData → List ℕ → Session → Session
release_actions axes [] s = s
release_actions axes (action ∷ keys) s =
    release_actions axes keys (release_as (ac_type action) axes action (action ∷ keys) s)

-- `sendAction`
unfoldable pub send_action : DeviceState → Bool → Action → AxisData → Session → Session
send_action ds press act axes s =
    if press
    then press_actions ds axes (take act.nactions act.action) s
    else release_actions axes (take act.nactions act.action) s

-- `sendAButton`
unfoldable pub send_a_button : DeviceState → ℕ → Bool → AxisData → Session → Session
send_a_button ds b mask axes s =
    let act = get_or s.dev.key_actions b no_action in
    if act.nactions == 0 then s else send_action ds mask act axes s
