-- ===== src/Arbiter.antt =====
-- A state on its way from a protocol to a subdevice: `wcmEvent` of src/wcmCommon.c, with the tool it is for,
-- the pointer's arbitration and the gestures.
pub mod Keeps
pub mod Pointer
mod Tests
use xf86_input_wacom.Prelude.{
  ℕ, ◌+◌, ◌-◌, ◌%◌, ◌^◌, Bool, true, false, not, ◌&&◌, ◌||◌, Option, none, some, List, [], set,
  get_or, leb, ◌==◌, if◌then◌else◌,
}
use xf86_input_wacom.Prelude.Int.{ℤ, pos, is_set}
use xf86_input_wacom.State.{
  DeviceState, Channel, Device, Common, Tool, is_type, touch_id, cursor_id, pad_id, has_feature,
}
use xf86_input_wacom.State.Zero.{zero_channel, zero_device}
use xf86_input_wacom.Session.{Session, Emit}
use xf86_input_wacom.Session.Events.{soft_out_event}
use xf86_input_wacom.Dispatch.{dispatch_device}
use xf86_input_wacom.Dispatch.Tools.{find_tool, check_arbitrated_control, save_state}
use xf86_input_wacom.Usb.Channels.{max_channels}
use xf86_input_wacom.Gesture.{cancel_gesture, lcd}
use xf86_input_wacom.Gesture.Scroll.{Floats}
use xf86_input_wacom.Gesture.Filter.{gesture_filter}

-- A tablet's subdevices, the number of the one that has the pointer (`WACOM_DRIVER.active`), and the calls
-- into the front end, the last call first. The subdevices are those of one tablet.
pub record Front : Type 0 where
  pub devices : List Device
  pub active : Option ℕ
  pub calls : List Emit

-- C's floating point: on the states of fingers, and `wcmTilt2R` with the offset of an Intuos4 mouse.
pub record Maths : Type 0 where
  pub floats : Floats
  pub tilt_to_rotation : ℤ → ℤ → ℤ

-- WCM_ROTATION and WCM_RING
abbrev pub wcm_rotation : ℕ
wcm_rotation = 0x80

abbrev pub wcm_ring : ℕ
wcm_ring = 0x20

abbrev pub device_at : Front → ℕ → Device
device_at f k = get_or f.devices k zero_device

-- Subdevice `k` at work.
abbrev pub session_of : ℕ → Common × Front → Session
session_of k r = record { dev = device_at r.1 k; common = r.0; calls = r.1.calls }

abbrev pub put_session : ℕ → Front → Session → Common × Front
put_session k f s = (s.common, record f { devices = set f.devices k s.dev; calls = s.calls })

unfoldable pub run_on : ℕ → (Session → Session) → Common × Front → Common × Front
run_on k f r = put_session k r.1 (f (session_of k r))

-- The tilt of an Intuos4 mouse is its rotation.
unfoldable pub mouse_rotation : Maths → Common → DeviceState → DeviceState
mouse_rotation m c ds =
    if has_feature c wcm_rotation && (has_feature c wcm_ring && (ds.device_type == cursor_id))
    then record ds { rotation = m.tilt_to_rotation ds.tiltx ds.tilty; tiltx = pos 0; tilty = pos 0 }
    else ds

abbrev pub update_common_channel : ℕ → (Channel → Channel) → Common → Common
update_common_channel c f common = record common {
  channels = set common.channels c (f (get_or common.channels c zero_channel));
}

unfoldable pub save_on : ℕ → DeviceState → Common × Front → Common × Front
save_on c ds r = (update_common_channel c (λ (ch : Channel). save_state r.0 ch ds) r.0, r.1)

-- The subdevice that loses the pointer goes out of proximity, and its gesture ends.
unfoldable pub take_pointer : Option ℕ → ℕ → Common × Front → Common × Front
take_pointer none k r = r
take_pointer (some a) k r =
    if a == k then r else run_on a (λ (s : Session). cancel_gesture (soft_out_event s)) r

unfoldable pub set_active : Option ℕ → Common × Front → Common × Front
set_active a r = (r.0, record (r.1) { active = a })

-- The subdevice that has the pointer.
unfoldable pub active_device : Front → Option ℕ → Option Device
active_device f none = none
active_device f (some a) = some (device_at f a)

-- The arbitration, and whether the state goes on to subdevice `k`.
unfoldable pub arbitrate : ℕ → DeviceState → Common × Front → (Common × Front) × Bool
arbitrate k ds r =
    let priv = device_at r.1 k in
    if check_arbitrated_control (active_device r.1 r.1.active) priv ds
    then (
      set_active (if is_set ds.proximity then some k else none) (take_pointer r.1.active k r),
      true,
    )
    else (r, is_type pad_id priv)

abbrev pub is_on_touch : Common → DeviceState → Bool
is_on_touch c ds = (ds.device_type == touch_id) && c.touch

-- Gestures, for a state of a touch while touch is on.
unfoldable pub gesture_on : Maths → ℕ → ℕ → DeviceState → Common × Front → Common × Front
gesture_on m now k ds r =
    if is_on_touch r.0 ds
    then run_on k
        (λ (s : Session). gesture_filter m.floats now ((ds.serial_num + 2 ^ 32 - 1) % 2 ^ 32) s) r
    else r

-- The common dispatch of a channel's last state.
unfoldable pub dispatch_to : ℕ → ℕ → Common × Front → Common × Front
dispatch_to c k r =
    let (s, ch) = dispatch_device (get_or r.0.channels c zero_channel) (session_of k r) in
    let (common, front) = put_session k r.1 s in
    (record common { channels = set common.channels c ch }, front)

-- A touch screen without gestures is done; of touches only the first finger moves the pointer.
unfoldable pub dispatch_last : ℕ → ℕ → DeviceState → Common × Front → Common × Front
dispatch_last c k ds r =
    if is_on_touch r.0 ds && (not r.0.gesture && has_feature r.0 lcd)
    then r
    else if (is_on_touch r.0 ds && (ds.serial_num == 1)) || not (ds.device_type == touch_id)
    then dispatch_to c k r
    else r

unfoldable pub send_on : Maths → ℕ → ℕ → ℕ → DeviceState → (Common × Front) × Bool → Common × Front
send_on m now c k ds (r, false) = r
send_on m now c k ds (r, true) = dispatch_last c k ds (gesture_on m now k ds r)

-- From the tool's subdevice on.
unfoldable pub event_on : Maths → ℕ → ℕ → ℕ → DeviceState → Common × Front → Common × Front
event_on m now c k state r =
    let ds = mouse_rotation m r.0 state in send_on m now c k ds (arbitrate k ds (save_on c ds r))

-- The tool that the state is for: it has a subdevice and is enabled, or the state is dropped.
unfoldable pub tool_device : Option Tool → Option ℕ
tool_device none = none
tool_device (some tool) = if tool.enabled then tool.device else none

unfoldable pub event_for : Maths → ℕ → ℕ → Option ℕ → DeviceState → Common × Front → Common × Front
event_for m now c none ds r = r
event_for m now c (some k) ds r = event_on m now c k ds r

-- `wcmEvent` at the time `now`, for the state of channel `c`.
unfoldable pub wcm_event : Maths → ℕ → ℕ → DeviceState → Common × Front → Common × Front
wcm_event m now c ds r =
    if leb max_channels c then r else event_for m now c (tool_device (find_tool r.0 ds)) ds r
