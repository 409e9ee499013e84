-- ===== src/Usb/Fields.antt =====
-- What one event changes in the state of a channel: `usbParseGenericAbsEvent`, `usbParseWacomAbsEvent`,
-- `usbParseAbsEvent`, `mod_buttons`, `usbParseKeyEvent` and `usbParseBTNEvent` of src/wcmUSB.c.
pub mod Buttons
use xf86_input_wacom.Prelude.{
  ℕ, suc, Bool, true, false, not, ◌&&◌, ◌||◌, Option, none, some, List, [], ◌∷◌, get_or, leb, ◌==◌,
  if◌then◌else◌,
}
use xf86_input_wacom.Prelude.Int.{ℤ, pos, is_set, of_bool, bits32}
use xf86_input_wacom.Prelude.Bits.{put_bit}
use xf86_input_wacom.State.{DeviceState, zero_state, Channel, Common}
use xf86_input_wacom.Usb.Event.{
  Key, Abs, btn_tool_pen, btn_tool_pencil, btn_tool_brush, btn_tool_airbrush, btn_tool_rubber,
  btn_tool_mouse, btn_tool_lens, btn_touch, btn_tool_finger, btn_tool_doubletap, btn_tool_tripletap,
  btn_stylus, btn_stylus2, btn_stylus3, btn_left, btn_middle, btn_right, btn_side, btn_back,
  btn_extra, btn_forward, key_controlpanel, key_onscreen_keyboard, key_buttonconfig, key_info,
  abs_x, abs_y, abs_z, abs_rx, abs_ry, abs_rz, abs_tilt_x, abs_tilt_y, abs_pressure, abs_distance,
  abs_wheel, abs_throttle, abs_misc,
}
use xf86_input_wacom.Usb.ToolType.{
  is_generic, is_protocol_5, is_1fg_screen, stylus_device_id, touch_device_id, cursor_device_id,
  eraser_device_id, pad_device_id,
}

-- A state after an event, and whether it changed (`change`).
abbrev pub Change : Type 0
Change = DeviceState × Bool

abbrev pub same : DeviceState → Change
same ds = (ds, false)

abbrev pub to : DeviceState → Change
to ds = (ds, true)

-- The tilt, `round((value + wcmTiltOffX) * wcmTiltFactX)` and its like in y, is C's floating point: two
-- functions of the value.
module _ (tilt_x tilt_y : ℤ → ℤ) where
  -- `usbParseGenericAbsEvent`
  unfoldable pub parse_generic_abs : Abs → ℤ → DeviceState → Change
  parse_generic_abs abs_x v ds = to (record ds { x = v })
  parse_generic_abs abs_y v ds = to (record ds { y = v })
  parse_generic_abs abs_rz v ds = to (record ds { rotation = v })
  parse_generic_abs abs_tilt_x v ds = to (record ds { tiltx = tilt_x v })
  parse_generic_abs abs_tilt_y v ds = to (record ds { tilty = tilt_y v })
  parse_generic_abs abs_pressure v ds = to (record ds { pressure = v })
  parse_generic_abs abs_distance v ds = to (record ds { distance = v })
  parse_generic_abs abs_wheel v ds = to (record ds { abswheel = v })
  parse_generic_abs abs_throttle v ds = to (record ds { throttle = v })
  parse_generic_abs _ v ds = same ds

-- A tablet with its second ring on ABS_THROTTLE.
abbrev pub has_second_ring : Common → Bool
has_second_ring c = (c.vendor_id == 0x56a) && ((c.tablet_id == 0xf4) || (c.tablet_id == 0xf8))

-- ABS_MISC: the tool's id, or that it is gone.
abbrev pub note_tool_id : ℤ → DeviceState → DeviceState
note_tool_id v ds = record ds {
  proximity = of_bool (is_set v);
  device_id = if is_set v then v else ds.device_id;
}

-- `usbParseWacomAbsEvent`
unfoldable pub parse_wacom_abs : Common → Abs → ℤ → DeviceState → Change
parse_wacom_abs c abs_rx v ds = to (record ds { stripx = v })
parse_wacom_abs c abs_ry v ds = to (record ds { stripy = v })
parse_wacom_abs c abs_z v ds = to (record ds { abswheel = v })
parse_wacom_abs c abs_throttle v ds =
    to (if has_second_ring c then record ds { abswheel2 = v } else ds)
parse_wacom_abs c abs_misc v ds = to (note_tool_id v ds)
parse_wacom_abs c _ v ds = same ds

-- A channel after an event at the time `now`.
abbrev pub put_change : ℕ → Change → Channel → Channel
put_change now (ds, change) ch = record ch {
  work = record ds { time = now };
  dirty = ch.dirty || change;
}

-- The second of two parsers, after the first.
abbrev pub and_then : Change → (DeviceState → Change) → Change
and_then (ds, change) f = ((f ds).0, change || (f ds).1)

-- `usbParseAbsEvent`
unfoldable pub parse_abs_event : (ℤ → ℤ) → (ℤ → ℤ) → Common → ℕ → Abs → ℤ → Channel → Channel
parse_abs_event tilt_x tilt_y c now a v ch =
    let generic_change = parse_generic_abs tilt_x tilt_y a v ch.work in
    put_change now
      (if is_generic c.protocol_level
        then generic_change
        else and_then generic_change (λ (ds : DeviceState). parse_wacom_abs c a v ds))
      ch

-- `mod_buttons`: a button that the word has no bit for changes nothing.
unfoldable pub mod_buttons : ℕ → ℕ → Bool → ℕ
mod_buttons buttons btn state = if leb 32 btn then buttons else put_bit state buttons btn

-- A tool's BTN_TOOL_ event; a tool of protocol 5 has its id from ABS_MISC.
abbrev pub tool_seen : Common → ℕ → ℤ → DeviceState → DeviceState
tool_seen c id v ds = record ds {
  device_id = if is_protocol_5 c.protocol_level then ds.device_id else pos id;
  proximity = of_bool (is_set v);
}

-- A finger comes or goes: the time is kept for gestures. `last` is the channel's last state.
abbrev pub finger_seen : ℕ → DeviceState → ℤ → DeviceState → DeviceState
finger_seen now last v ds = record ds {
  device_id = pos touch_device_id;
  proximity = v;
  sample =
      if (is_set v && not (is_set last.proximity)) || (not (is_set v) && is_set last.proximity)
      then now
      else ds.sample;
}

-- The first switch of `usbParseKeyEvent`.
unfoldable pub parse_tool_key : Common → ℕ → DeviceState → Key → ℤ → DeviceState → Change
parse_tool_key c now last btn_tool_pen v ds = to (tool_seen c stylus_device_id v ds)
parse_tool_key c now last btn_tool_pencil v ds = to (tool_seen c stylus_device_id v ds)
parse_tool_key c now last btn_tool_brush v ds = to (tool_seen c stylus_device_id v ds)
parse_tool_key c now last btn_tool_airbrush v ds = to (tool_seen c stylus_device_id v ds)
parse_tool_key c now last btn_tool_rubber v ds = to (tool_seen c eraser_device_id v ds)
parse_tool_key c now last btn_tool_mouse v ds = to (tool_seen c cursor_device_id v ds)
parse_tool_key c now last btn_tool_lens v ds = to (tool_seen c cursor_device_id v ds)
parse_tool_key c now last btn_touch v ds =
    to
      (if is_1fg_screen c then record ds { device_id = pos touch_device_id; proximity = v } else ds)
parse_tool_key c now last btn_tool_finger v ds = to (
    if not (is_generic c.protocol_level)
    then record ds { device_id = pos pad_device_id; proximity = of_bool (is_set v) }
    else finger_seen now last v ds)
parse_tool_key c now last btn_tool_doubletap v ds = to (finger_seen now last v ds)
parse_tool_key c now last btn_tool_tripletap v ds = to (finger_seen now last v ds)
parse_tool_key c now last _ v ds = same ds

-- A button of the state takes the value of its event.
abbrev pub put_button : ℕ → ℤ → DeviceState → DeviceState
put_button n v ds = record ds { buttons = mod_buttons ds.buttons n (is_set v) }

abbrev pub put_key : ℕ → ℤ → DeviceState → DeviceState
put_key n v ds = record ds { keys = mod_buttons ds.keys n (is_set v) }

-- The second switch of `usbParseKeyEvent`.
unfoldable pub parse_stylus_button : Key → ℤ → DeviceState → Change
parse_stylus_button btn_stylus v ds = to (put_button 1 v ds)
parse_stylus_button btn_stylus2 v ds = to (put_button 2 v ds)
parse_stylus_button btn_stylus3 v ds = to (put_button 3 v ds)
parse_stylus_button _ v ds = same ds

-- `usbParseKeyEvent`
unfoldable pub parse_key_event : Common → ℕ → Key → ℤ → Channel → Channel
parse_key_event c now k v ch =
    let tool = parse_tool_key c now (get_or ch.states 0 zero_state) k v ch.work in
    put_change now (if tool.1 then tool else parse_stylus_button k v ch.work) ch

-- The loop over the pad's keys; `n` is the number of the first in the list.
unfoldable pub find_pad_key : ℕ → ℕ → List ℕ → Option ℕ
find_pad_key code n [] = none
find_pad_key code n (k ∷ ks) =
    let rest = find_pad_key code (suc n) ks in if code == k then some n else rest

unfoldable pub put_pad_button : Option ℕ → ℤ → DeviceState → Change
put_pad_button none v ds = same ds
put_pad_button (some n) v ds = to (put_button n v ds)

-- The switch of `usbParseBTNEvent`; `code` is the key's number.
unfoldable pub parse_button : List ℕ → Key → ℕ → ℤ → DeviceState → Change
parse_button padkeys btn_left code v ds = to (put_button 0 v ds)
parse_button padkeys btn_middle code v ds = to (put_button 1 v ds)
parse_button padkeys btn_right code v ds = to (put_button 2 v ds)
parse_button padkeys btn_side code v ds = to (put_button 3 v ds)
parse_button padkeys btn_back code v ds = to (put_button 3 v ds)
parse_button padkeys btn_extra code v ds = to (put_button 4 v ds)
parse_button padkeys btn_forward code v ds = to (put_button 4 v ds)
parse_button padkeys key_controlpanel code v ds = to (put_key 1 v ds)
parse_button padkeys key_onscreen_keyboard code v ds = to (put_key 2 v ds)
parse_button padkeys key_buttonconfig code v ds = to (put_key 3 v ds)
parse_button padkeys key_info code v ds = to (put_key 4 v ds)
parse_button padkeys _ code v ds = put_pad_button (find_pad_key code 0 padkeys) v ds

-- `usbParseBTNEvent`
unfoldable pub parse_btn_event : List ℕ → ℕ → Key → ℕ → ℤ → Channel → Channel
parse_btn_event padkeys now k code v ch = put_change now (parse_button padkeys k code v ch.work) ch
