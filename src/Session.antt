-- ===== src/Session.antt =====
-- What the event code of src/wcmCommon.c works on: a subdevice, its tablet, and the calls into the
-- front end (src/x11/xf86Wacom.c) so far. Its children model the functions that send events.
pub mod Mode
pub mod Action
pub mod Scroll
pub mod Buttons
pub mod Frame
pub mod EventAxes
pub mod Events
use xf86_input_wacom.Prelude.{ℕ, Bool, List, ◌∷◌}
use xf86_input_wacom.Prelude.Int.{ℤ}
use xf86_input_wacom.State.{DeviceState, Device, Common}
use xf86_input_wacom.Axes.{AxisData}

-- XI_TouchBegin, XI_TouchUpdate and XI_TouchEnd
pub data TouchType : Type 0 where
  touch_begin touch_update touch_end : TouchType

-- A call: `wcmEmitMotion`, `wcmEmitButton`, `wcmEmitKeycode`, `wcmEmitProximity`, `wcmEmitTouch`, each with
-- its arguments, `wcmUpdateSerialProperty`, and `wcmTimerSet` for the tap timer with its time. `prog_key n` is `wcmEmitKeycode` with KEY_PROGn + 8.
pub data Emit : Type 0 where
  motion : Bool → AxisData → Emit
  button : Bool → ℕ → Bool → AxisData → Emit
  keycode : ℕ → Bool → Emit
  prog_key : ℕ → Bool → Emit
  proximity_event : Bool → AxisData → Emit
  serial_update : Emit
  touch_event : TouchType → ℕ → ℤ → ℤ → Emit
  tap_timer : ℕ → Emit

-- `calls` holds the last call first.
pub record Session : Type 0 where
  pub dev : Device
  pub common : Common
  pub calls : List Emit

unfoldable pub emit : Session → Emit → Session
emit s e = record s { calls = e ∷ s.calls }

abbrev pub set_old_state : Session → DeviceState → Session
set_old_state s old = record s { dev = record (s.dev) { old_state = old } }

abbrev pub set_panscroll_state : Session → DeviceState → Session
set_panscroll_state s st = record s { dev = record (s.dev) { panscroll_state = st } }

abbrev pub set_flags : Session → ℕ → Session
set_flags s f = record s { dev = record (s.dev) { flags = f } }
