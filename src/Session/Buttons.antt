-- ===== src/Session/Buttons.antt =====
-- Comparing the buttons and the keys with the last ones: `wcmSendButtons` and `wcmSendKeys` of
-- src/wcmCommon.c.
pub mod Tpc
use xf86_input_wacom.Prelude.{
  ℕ, zero, suc, ◌+◌, ◌-◌, ◌^◌, Bool, true, false, not, ◌&&◌, ◌||◌, Option, none, some, leb, ◌==◌,
  if◌then◌else◌,
}
use xf86_input_wacom.Prelude.Bits.{has_mask}
use xf86_input_wacom.State.{DeviceState, is_type, stylus_id}
use xf86_input_wacom.Axes.{AxisData}
use xf86_input_wacom.Session.{Session, emit, prog_key, set_old_state}
use xf86_input_wacom.Session.Action.{send_a_button}

abbrev pub same : Bool → Bool → Bool
same true b = b
same false b = not b

-- The first button to compare, the new buttons, and the old ones.
pub record ButtonPlan : Type 0 where
  pub first_button : ℕ
  pub new_buttons : ℕ
  pub old_buttons : ℕ

-- The TPC button rules, for the new and the old buttons.
unfoldable pub tpc_plan : ℕ → ℕ → ButtonPlan
tpc_plan buttons old =
    let first = if leb buttons 1 then 0 else 1 in
    if not (has_mask buttons 1)
    then record { first_button = first; new_buttons = 0; old_buttons = old }
    else if not (has_mask old 1)
    then record { first_button = first; new_buttons = buttons; old_buttons = 0 }
    else if not (buttons == old)
    then record { first_button = 0; new_buttons = buttons - 1; old_buttons = old }
    else record { first_button = first; new_buttons = buttons; old_buttons = old }

unfoldable pub button_plan : Bool → ℕ → ℕ → ButtonPlan
button_plan tpc buttons old =
    if tpc
    then tpc_plan buttons old
    else record { first_button = 0; new_buttons = buttons; old_buttons = old }

-- The loop over the buttons, `n` of them from `b` on.
unfoldable pub send_changed : DeviceState → AxisData → ℕ → ℕ → ℕ → Session → Session
send_changed ds axes buttons zero b s = s
send_changed ds axes buttons (suc n) b s =
    let s' =
      if same (has_mask s.dev.old_state.buttons (2 ^ b)) (has_mask buttons (2 ^ b))
      then s
      else send_a_button ds b (has_mask buttons (2 ^ b)) axes s in
    send_changed ds axes buttons n (b + 1) s'

-- `wcmSendButtons`; there are WCM_MAX_BUTTONS = 32 buttons.
unfoldable pub send_buttons : DeviceState → ℕ → AxisData → Session → Session
send_buttons ds buttons axes s =
    let plan =
      button_plan (s.common.tpc_button && is_type stylus_id s.dev) buttons
        s.dev.old_state.buttons in
    let s' = set_old_state s (record (s.dev.old_state) { buttons = plan.old_buttons }) in
    send_changed ds axes plan.new_buttons (32 - plan.first_button) plan.first_button s'

-- `KEY_PROGn` for the key's index: the control panel, the keyboard, the button configuration, info.
abbrev pub prog_of : ℕ → Option ℕ
prog_of idx =
    if idx == 1
    then some 1
    else if idx == 2
    then some 2
    else if idx == 3
    then some 3
    else if idx == 4
    then some 4
    else none

-- The loop over the masks, `n` bits from `idx` on; it ends when the mask is above both words.
unfoldable pub send_changed_keys : ℕ → ℕ → ℕ → ℕ → Session → Session
send_changed_keys current previous zero idx s = s
send_changed_keys current previous (suc n) idx s =
    let mask = 2 ^ idx in
    let s' =
      if same (has_mask previous mask) (has_mask current mask)
      then s
      else elim (prog_of idx) [ none ↦ s | some p ↦ emit s (prog_key p (has_mask current mask)) ] in
    let rest = send_changed_keys current previous n (idx + 1) s' in
    if leb mask current || leb mask previous then rest else s

-- `wcmSendKeys`
unfoldable pub send_keys : ℕ → ℕ → Session → Session
send_keys current previous s = send_changed_keys current previous 32 0 s
