-- ===== src/Usb/Init.antt =====
-- The start of a USB tablet: `usbInitialize` and `usbWcmInitPadState` of src/wcmUSB.c.
pub mod Ends
pub mod Positive
pub mod PadChannel
mod Tests
use xf86_input_wacom.Prelude.{
  ℕ, ◌*◌, Bool, true, false, not, ◌&&◌, ◌||◌, Option, none, some, List, [], ◌∷◌, map, get_or, set,
  length, replicate, ◌==◌, if◌then◌else◌,
}
use xf86_input_wacom.Prelude.Int.{ℤ, pos, ◌+ℤ◌, ◌*ℤ◌, neg, tdiv, leb_ℤ, is_set, ◌==ℤ◌, of_bool}
use xf86_input_wacom.Prelude.Bits.{or_mask, clear_mask}
use xf86_input_wacom.State.{
  DeviceState, ToolSize, Ranges, Channel, Device, Common, Protocol, generic, protocol_4, protocol_5,
  is_type, stylus_id, touch_id, pad_id,
}
use xf86_input_wacom.State.Zero.{zero_channel}
use xf86_input_wacom.Usb.Keys.{
  KeyName, Keys, set_feature, find_padkeys, btn_0, btn_forward, btn_tool_doubletap, btn_tool_mouse,
  btn_tool_pen,
}
use xf86_input_wacom.Usb.AxisRanges.{AbsInfo, Answers, Reals, put_x, put_y, put_axes, info_of}
use xf86_input_wacom.Usb.Setup.{put_ranges, init_protocol}
use xf86_input_wacom.Usb.Event.{
  Abs, abs_x, abs_y, abs_rx, abs_ry, abs_wheel, abs_tilt_x, abs_tilt_y, abs_pressure, abs_distance,
  abs_mt_slot, abs_misc,
}
use xf86_input_wacom.Usb.ToolType.{pad_device_id}
use xf86_input_wacom.Usb.Channels.{pad_channel}
use xf86_input_wacom.Usb.Tablet.{Usb}
use xf86_input_wacom.Usb.Models.{
  Model, ModelDesc, find_model, model_protocol, unknown, intuos, intuos2, intuos3, intuos4,
}
use xf86_input_wacom.Usb.Models.Descs.{model_descs}

-- An interface with express keys alone.
abbrev pub is_pad_only : Keys → Bool
is_pad_only keys = keys btn_forward || keys btn_0

abbrev pub acts_as_touch : Keys → Device → Bool
acts_as_touch keys d = is_type touch_id d || (keys btn_tool_doubletap && keys btn_forward)

abbrev pub put_contacts : Option AbsInfo → Common → Common
put_contacts none c = c
put_contacts (some i) c =
    put_ranges (λ (r : Ranges). record r { max_contacts = i.maximum +ℤ pos 1 }) c

abbrev pub pad_in_proximity : Channel → Channel
pad_in_proximity ch = record ch {
  work = record (ch.work) {
    proximity = pos 1;
    device_type = pad_id;
    device_id = pos pad_device_id;
    serial_num = pad_channel;
  };
}

-- `usbWcmInitPadState`
unfoldable pub init_pad_state : Common → Common
init_pad_state c = record c {
  channels =
      set c.channels pad_channel (pad_in_proximity (get_or c.channels pad_channel zero_channel));
}

-- ABS_MT_SLOT
unfoldable pub put_slots : Keys → (Abs → Bool) → Option AbsInfo → Common × Usb → Common × Usb
put_slots keys abs i (c, u) =
    if abs abs_mt_slot
    then (
      put_contacts i c,
      record u { use_mt = true; pen_touch = if keys btn_tool_pen then true else u.pen_touch },
    )
    else (c, u)

unfoldable pub put_protocol : (Abs → Bool) → Common → Common
put_protocol abs c =
    if not (c.vendor_id == 0x56a) || not (abs abs_misc)
    then record c { protocol_level = generic }
    else c

-- SW_MUTE_DEVICE: the switch, and its state, which stays cleared when the call for it fails.
unfoldable pub put_switch : Bool → Option Bool → Common → Common
put_switch false state c = c
put_switch true none c = record c { has_hw_touch_switch = true; hw_touch_switch_state = pos 1 }
put_switch true (some muted) c = record c {
  has_hw_touch_switch = true;
  hw_touch_switch_state = of_bool (not muted);
}

-- The end: a tablet whose switches cannot be asked for is done before the pad's channel is made.
unfoldable pub finish_init : Answers → Common → Common
finish_init a c = elim a.switch_bits [
  | none ↦ c
  | some has_mute ↦ init_pad_state (put_switch has_mute a.switch_state c)
]

-- From the axis y on.
unfoldable pub init_axes :
    Reals
    → Answers
    → Keys
    → Bool
    → Bool
    → (Abs → Bool)
    → AbsInfo
    → AbsInfo
    → Common
    → Usb
    → Common × Usb
init_axes reals a keys has_msc is_touch abs x y c u =
    let sized = put_y is_touch y (put_x is_touch x c) in
    let (c1, u1) =
      put_slots keys abs (a.abs_info abs_mt_slot)
        (put_axes reals a has_msc is_touch abs sized, u) in
    (finish_init a (put_protocol abs c1), u1)

abbrev pub is_positive : AbsInfo → Bool
is_positive i = not (leb_ℤ i.maximum (pos 0))

abbrev pub pad_alone : Keys → Common → Usb → Option (Common × Usb)
pad_alone keys c u = if is_pad_only keys then some (init_pad_state c, u) else none

module _ (reals : Reals) (a : Answers) (keys : Keys) (d : Device) (c : Common) (u : Usb) where
  -- From the answer for the axis y on, with whether EV_MSC is there.
  unfoldable pub start_y : Bool → (Abs → Bool) → AbsInfo → Option AbsInfo → Option (Common × Usb)
  start_y has_msc abs x none = none
  start_y has_msc abs x (some y) =
      if is_positive x && is_positive y
      then some (init_axes reals a keys has_msc (acts_as_touch keys d) abs x y c u)
      else none

  -- From the answer for the axis x on.
  unfoldable pub start_x : Bool → (Abs → Bool) → Option AbsInfo → Option (Common × Usb)
  start_x has_msc abs none = pad_alone keys c u
  start_x has_msc abs (some x) = start_y has_msc abs x (a.abs_info abs_y)

  unfoldable pub start_abs : Bool → Option (Abs → Bool) → Option (Common × Usb)
  start_abs has_msc none = none
  start_abs has_msc (some abs) = start_x has_msc abs (a.abs_info abs_x)

  unfoldable pub start_events : Option (Bool × Bool) → Option (Common × Usb)
  start_events none = none
  start_events (some (false, has_msc)) = pad_alone keys c u
  start_events (some (true, has_msc)) = start_abs has_msc a.abs_bits

  -- `usbInitialize`; `none` is its failure.
  unfoldable pub usb_initialize : Option (Common × Usb)
  usb_initialize = start_events a.event_bits

-- `Initialize` of a model.
unfoldable pub initialize_model :
    Reals → Answers → Keys → Device → Model → Common → Usb → Option (Common × Usb)
initialize_model reals a keys d m c u =
    usb_initialize reals a keys d (init_protocol (model_protocol m) c) u
