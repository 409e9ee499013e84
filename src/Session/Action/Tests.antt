-- ===== src/Session/Action/Tests.antt =====
-- A run of an action that presses and releases keys.
use xf86_input_wacom.Prelude.{◌≡◌, refl, false, true, [], ◌∷◌}
use xf86_input_wacom.State.{Action, zero_state}
use xf86_input_wacom.State.Zero.{zero_device, zero_common}
use xf86_input_wacom.Prelude.Int.{◌+ℤ◌}
use xf86_input_wacom.Axes.{no_axes}
use xf86_input_wacom.Session.{Session, emit, keycode}
use xf86_input_wacom.Session.Action.{
  press_as, press_actions, count_presses, release_as, release_actions, send_action,
}
use xf86_input_wacom.Session.Action.Balance.{is_down, keys_only, send_action_balances}

abbrev start : Session
start = record { dev = zero_device; common = zero_common; calls = [] }

-- The key 37 is held while the key 54 is struck.
abbrev shortcut : Action
shortcut = record { action = 0x110025 ∷ 0x110036 ∷ 0x010036 ∷ []; nactions = 3 }

-- The key that is held is released with the button, the other one before.
shortcut_calls :
    (send_action zero_state false shortcut no_axes
      (send_action zero_state true shortcut no_axes start)).calls
    ≡ keycode 37 false ∷ keycode 54 false ∷ keycode 54 true ∷ keycode 37 true ∷ []
unfolding send_action press_actions press_as release_actions release_as emit count_presses ◌+ℤ◌
shortcut_calls = refl

shortcut_keys : keys_only 37 shortcut.action ≡ true
unfolding keys_only
shortcut_keys = refl

start_up : is_down 37 start.calls ≡ false
unfolding is_down
start_up = refl

send_action_balances_example :
    is_down 37
      (send_action zero_state false shortcut no_axes
        (send_action zero_state true shortcut no_axes start)).calls
    ≡ false
send_action_balances_example =
    send_action_balances 37 zero_state zero_state shortcut no_axes no_axes start shortcut_keys
      start_up
