-- ===== src/Session/Mode.antt =====
-- The mode of a subdevice and the actions bound to its buttons, strips and wheels: `is_absolute` to
-- `wcmDevSwitchModeCall` and `wcmReset*Action` of src/wcmCommon.c, `wcmAction*` of src/xf86Wacom.h.
use xf86_input_wacom.Prelude.{ℕ, ◌+◌, Bool, true, false, set, get_or, replicate, ltb, if◌then◌else◌}
use xf86_input_wacom.Prelude.Bits.{has_mask, or_mask, clear_mask}
use xf86_input_wacom.State.{Device, Action, is_type, pad_id, absolute_flag}

abbrev pub is_absolute : Device → Bool
is_absolute d = has_mask d.flags absolute_flag

abbrev pub set_absolute : Device → Bool → Device
set_absolute d true = record d { flags = or_mask d.flags absolute_flag }
set_absolute d false = record d { flags = clear_mask d.flags absolute_flag }

-- `wcmDevSwitchModeCall`: the device, and whether the mode was accepted.
unfoldable pub switch_mode_call : Device → Bool → Device × Bool
switch_mode_call d absolute =
    if is_type pad_id d then (d, absolute) else (set_absolute d absolute, true)

abbrev pub ac_keybtnpress : ℕ
ac_keybtnpress = 0x100000

abbrev pub ac_button : ℕ
ac_button = 0x80000

-- `wcmActionSet`; an index out of range changes nothing.
unfoldable pub action_set : Action → ℕ → ℕ → Action
action_set a idx act =
    if ltb idx 256 then record a { action = set a.action idx act; nactions = idx + 1 } else a

-- `WacomAction new_action = {}`
abbrev pub no_action : Action
no_action = record { action = replicate 256 0; nactions = 0 }

-- AC_BUTTON | AC_KEYBTNPRESS | button, for a button below 2 ^ 16
abbrev pub button_press : ℕ → ℕ
button_press b = ac_button + ac_keybtnpress + b

abbrev pub button_release : ℕ → ℕ
button_release b = ac_button + b

abbrev press_and_release : ℕ → Action
press_and_release b = action_set (action_set no_action 0 (button_press b)) 1 (button_release b)

-- `wcmResetButtonAction`
unfoldable pub reset_button_action : Device → ℕ → Device
reset_button_action d b = record d {
  key_actions =
      set d.key_actions b (action_set no_action 0 (button_press (get_or d.button_default b 0)));
}

-- `wcmResetStripAction`
unfoldable pub reset_strip_action : Device → ℕ → Device
reset_strip_action d i = record d {
  strip_actions = set d.strip_actions i (press_and_release (get_or d.strip_default i 0));
}

-- `wcmResetWheelAction`
unfoldable pub reset_wheel_action : Device → ℕ → Device
reset_wheel_action d i = record d {
  wheel_actions = set d.wheel_actions i (press_and_release (get_or d.wheel_default i 0));
}
