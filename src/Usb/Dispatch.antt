-- ===== src/Usb/Dispatch.antt =====
-- A frame of events, from its tool to the states it sends: `usbFilterEvent`, `usbParseAbsMTEvent` and
-- `usbDispatchEvents` of src/wcmUSB.c.
pub mod Sending
mod Tests
pub mod Replay
pub mod Delivery
pub mod Marks
pub mod Priority
pub mod Errors
pub mod Handler
pub mod Place
use xf86_input_wacom.Prelude.{
  ℕ, zero, suc, ◌+◌, Bool, true, false, not, ◌&&◌, ◌||◌, Option, none, some, List, [], ◌∷◌, ◌==◌,
  if◌then◌else◌,
}
use xf86_input_wacom.Prelude.Int.{ℤ, pos, negsuc, abs, is_set, of_bool, ltb_ℤ, ◌==ℤ◌}
use xf86_input_wacom.State.{DeviceState, Channel, Common, touch_id, cursor_id, eraser_id, pad_id}
use xf86_input_wacom.Usb.Event.{
  Key, Abs, Rel, Event, btn_touch, btn_tool_finger, btn_tool_doubletap, btn_tool_tripletap, abs_x,
  abs_y, abs_pressure, abs_mt_slot, abs_mt_tracking_id, abs_mt_position_x, abs_mt_position_y,
  abs_mt_pressure, rel_wheel, rel_hwheel, key_event, abs_event, rel_event, mute_switch, other_event,
}
use xf86_input_wacom.Usb.Channels.{protocol5_serial, max_channels, pad_channel}
use xf86_input_wacom.Usb.ToolType.{
  is_generic, init_tool_type, is_tablet_tool_in_prox, touch_device_id,
}
use xf86_input_wacom.Usb.Fields.{
  Change, same, to, put_change, parse_abs_event, parse_key_event, parse_btn_event,
}
use xf86_input_wacom.Usb.Tablet.{
  Usb, Tablet, Host, set_usb, channel_at, state_at, update_channel, update_work, deliver,
  take_channel,
}

-- The keys and the axes that `usbFilterEvent` drops: the copies of one finger's data.
unfoldable pub is_finger_key : Key → Bool
is_finger_key btn_touch = true
is_finger_key btn_tool_finger = true
is_finger_key btn_tool_doubletap = true
is_finger_key btn_tool_tripletap = true
is_finger_key _ = false

unfoldable pub is_tap_key : Key → Bool
is_tap_key btn_tool_doubletap = true
is_tap_key btn_tool_tripletap = true
is_tap_key _ = false

unfoldable pub is_single_axis : Abs → Bool
is_single_axis abs_x = true
is_single_axis abs_y = true
is_single_axis abs_pressure = true
is_single_axis _ = false

unfoldable pub is_mt_axis : Abs → Bool
is_mt_axis abs_mt_slot = true
is_mt_axis abs_mt_tracking_id = true
is_mt_axis abs_mt_position_x = true
is_mt_axis abs_mt_position_y = true
is_mt_axis abs_mt_pressure = true
is_mt_axis _ = false

-- `usbFilterEvent`
unfoldable pub filter_event : Tablet → Event → Bool
filter_event t (key_event k n v) =
    (t.usb.use_mt && is_finger_key k) || (is_generic t.common.protocol_level && is_tap_key k)
filter_event t (abs_event a v) =
    t.usb.use_mt && (if t.usb.device_type == touch_id then is_single_axis a else is_mt_axis a)
filter_event t (rel_event r v) = false
filter_event t (mute_switch v) = false
filter_event t other_event = false

-- ABS_MT_TRACKING_ID
abbrev pub track_touch : ℕ → ℤ → DeviceState → DeviceState
track_touch now v ds = record ds {
  proximity = of_bool (not (v ==ℤ negsuc 0));
  device_type = touch_id;
  device_id = pos touch_device_id;
  sample = now;
}

-- The cases of `usbParseAbsMTEvent` but ABS_MT_SLOT.
unfoldable pub parse_mt_axis : ℕ → Abs → ℤ → DeviceState → Change
parse_mt_axis now abs_mt_tracking_id v ds = to (track_touch now v ds)
parse_mt_axis now abs_mt_position_x v ds = to (record ds { x = v })
parse_mt_axis now abs_mt_position_y v ds = to (record ds { y = v })
parse_mt_axis now abs_mt_pressure v ds = to (record ds { pressure = v })
parse_mt_axis now _ v ds = same ds

-- An event for the channel of the touch. Without one, where C writes before the array, nothing is written.
unfoldable pub parse_on_mt : Option ℕ → ℕ → Abs → ℤ → Tablet → Tablet
parse_on_mt none now a v t = t
parse_on_mt (some m) now a v t =
    update_channel m (λ (ch : Channel). put_change now (parse_mt_axis now a v ch.work) ch) t

abbrev pub start_touch : ℕ → ℕ → Channel → Channel
start_touch now serial ch = put_change now (to (record (ch.work) { serial_num = serial })) ch

-- ABS_MT_SLOT, once its channel is chosen.
unfoldable pub put_slot : ℕ → ℕ → Tablet × Option ℕ → Tablet
put_slot now serial (t, none) = set_usb t (record (t.usb) { mt_channel = none })
put_slot now serial (t, some m) =
    update_channel m (λ (ch : Channel). start_touch now serial ch)
      (set_usb t (record (t.usb) { mt_channel = some m }))

-- The channel of a touch is dirty even when the slot is negative, which leaves it otherwise as it is.
unfoldable pub keep_slot : Option ℕ → ℕ → Tablet → Tablet
keep_slot none now t = t
keep_slot (some m) now t = update_channel m (λ (ch : Channel). put_change now (to ch.work) ch) t

-- `usbParseAbsMTEvent`
unfoldable pub parse_abs_mt_event : Host → ℕ → Abs → ℤ → Tablet → Tablet
parse_abs_mt_event h now abs_mt_slot v t =
    if ltb_ℤ v (pos 0)
    then keep_slot t.usb.mt_channel now t
    else put_slot now (abs v + 1) (take_channel h touch_id (abs v + 1) t)
parse_abs_mt_event h now a v t = parse_on_mt t.usb.mt_channel now a v t

-- The case of EV_REL.
unfoldable pub parse_rel : Rel → ℤ → DeviceState → DeviceState
parse_rel rel_wheel v ds = record ds { relwheel = v }
parse_rel rel_hwheel v ds = record ds { relwheel2 = v }
parse_rel _ v ds = ds

unfoldable pub is_wheel : Rel → Bool
is_wheel rel_wheel = true
is_wheel rel_hwheel = true
is_wheel _ = false

unfoldable pub parse_rel_event : ℕ → Rel → ℤ → Channel → Channel
parse_rel_event now r v ch =
    if is_wheel r then put_change now (to (parse_rel r v ch.work)) ch else ch

-- SW_MUTE_DEVICE; the property of the touch device is updated too.
abbrev pub mute_touch : ℤ → Tablet → Tablet
mute_touch v t =
    if t.common.has_hw_touch_switch
    then record t {
      common = record (t.common) { hw_touch_switch_state = of_bool (not (is_set v)) };
    }
    else t

-- The channel of a frame's buttons.
abbrev pub btn_channel : ℕ → DeviceState → ℕ
btn_channel c ds = if ds.device_type == cursor_id then c else pad_channel

-- The body of the loop on an event that is not filtered; `c` is the frame's channel.
unfoldable pub parse_one : Host → ℕ → ℕ → Event → Tablet → Tablet
parse_one h c now (abs_event a v) t =
    parse_abs_mt_event h now a v
      (update_channel c (λ (ch : Channel). parse_abs_event h.tilt_x h.tilt_y t.common now a v ch) t)
parse_one h c now (rel_event r v) t =
    update_channel c (λ (ch : Channel). parse_rel_event now r v ch) t
parse_one h c now (key_event k n v) t =
    update_channel (btn_channel c (channel_at t c).work)
      (λ (ch : Channel). parse_btn_event t.usb.padkeys now k n v ch)
      (update_channel c (λ (ch : Channel). parse_key_event t.common now k v ch) t)
parse_one h c now (mute_switch v) t = mute_touch v t
parse_one h c now other_event t = t

unfoldable pub parse_unfiltered : Host → ℕ → ℕ × Event → Tablet → Tablet
parse_unfiltered h c (now, e) t = if filter_event t e then t else parse_one h c now e t

-- The loop; an event comes with the time it is handled at.
unfoldable pub parse_all : Host → ℕ → List (ℕ × Event) → Tablet → Tablet
parse_all h c [] t = t
parse_all h c (e ∷ es) t = parse_all h c es (parse_unfiltered h c e t)

-- The channel's state before the loop.
abbrev pub start_state : ℕ → ℕ → DeviceState → DeviceState
start_state device_type serial ds =
    let fresh = (ds.device_type == 0) && not (device_type == 0) in
    record ds {
      device_type = if fresh then device_type else ds.device_type;
      proximity = if fresh then pos 1 else ds.proximity;
      relwheel = pos 0;
      relwheel2 = pos 0;
      serial_num = serial;
    }

-- One round of the last loop: a dirty channel is clean, and its state is sent.
unfoldable pub send_channel : Host → ℕ → Tablet → Tablet
send_channel h c t =
    let ch = channel_at t c in
    let clean = update_channel c (λ (x : Channel). record x { dirty = false }) t in
    if ch.dirty
    then (if not (ch.work.device_type == touch_id) || t.common.touch
        then deliver h c ch.work clean
        else clean)
    else t

-- The last loop, for `n` channels from `c` on.
unfoldable pub send_dirty : Host → ℕ → ℕ → Tablet → Tablet
send_dirty h zero c t = t
send_dirty h (suc n) c t = send_dirty h n (suc c) (send_channel h c t)

-- The end of a frame: the serial is forgotten out of proximity, and the dirty channels are sent.
unfoldable pub end_frame : Host → ℕ → Tablet → Tablet
end_frame h c t =
    let serial = if is_set (channel_at t c).work.proximity then t.usb.last_tool_serial else 0 in
    send_dirty h max_channels 0
      (set_usb t (record (t.usb) { last_tool_serial = serial; last_channel = c }))

-- An axis that is 0 is asked for; `none` if the call fails.
abbrev pub asked : ℤ → Option ℤ → Option ℤ
asked v current = if is_set v then some v else current

-- The position of a tool that comes into proximity. A failure in y leaves x as asked, and the frame ends.
unfoldable pub put_position : Option ℤ → Option ℤ → DeviceState → DeviceState × Bool
put_position none y ds = (ds, false)
put_position (some x) none ds = (record ds { x = x }, false)
put_position (some x) (some y) ds = (record ds { x = x; y = y }, true)

abbrev pub ask_position : Host → DeviceState → DeviceState × Bool
ask_position h ds = put_position (asked ds.x h.current_x) (asked ds.y h.current_y) ds

-- DTF720 and DTF720a have no eraser.
abbrev pub is_bad_eraser : Common → DeviceState → Bool
is_bad_eraser c ds =
    ((c.tablet_id == 0xc0) || (c.tablet_id == 0xc2)) && (ds.device_type == eraser_id)

-- After the loop; `last` is the channel's state before the frame.
unfoldable pub finish_frame : Host → ℕ → DeviceState → Tablet → Tablet
finish_frame h c last t =
    let ds = (channel_at t c).work in
    let asked_for = ask_position h ds in
    let placed = update_channel c (update_work (λ (_ : DeviceState). asked_for.0)) t in
    if is_bad_eraser t.common ds
    then t
    else if is_set ds.proximity && (not (is_set last.proximity) && not (ds.device_type == pad_id))
    then (if asked_for.1 then end_frame h c placed else placed)
    else end_frame h c t

-- From the choice of a channel on.
unfoldable pub dispatch_on : Host → List (ℕ × Event) → Tablet × Option ℕ → Tablet
dispatch_on h es (t, none) = t
dispatch_on h es (t, some c) = finish_frame h c (state_at t c) (
    parse_all h c es (
      update_channel c
        (update_work
          (λ (ds : DeviceState). start_state t.usb.device_type t.usb.last_tool_serial ds))
        t))

unfoldable pub dispatch_tool : Host → List (ℕ × Event) → Tablet → Tablet
dispatch_tool h es t =
    let serial = protocol5_serial t.usb.device_type t.usb.last_tool_serial in
    dispatch_on h es (
      take_channel h t.usb.device_type serial
        (set_usb t (record (t.usb) { last_tool_serial = serial })))

-- The events of a frame without their times.
abbrev pub events_of : List (ℕ × Event) → List Event
events_of [] = []
events_of (e ∷ es) = e.1 ∷ events_of es

-- `usbDispatchEvents`
unfoldable pub dispatch_events : Host → List (ℕ × Event) → Tablet → Tablet
dispatch_events h es t =
    let last = state_at t t.usb.last_channel in
    let device_type =
      init_tool_type t.common t.usb.use_mt t.usb.padkeys h.keys_down (events_of es)
        last.device_type in
    let typed = set_usb t (record (t.usb) { device_type = device_type }) in
    if t.usb.pen_touch
      && ((device_type == touch_id) && is_tablet_tool_in_prox last.device_type last.proximity)
    then typed
    else dispatch_tool h es typed
