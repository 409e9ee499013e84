-- ===== src/Usb/Keys.antt =====
-- The keys of a USB tablet: `padkey_codes`, `mouse_codes`, the tables of the pad's keys, `usbGenericTouchscreenQuirks`
-- and `usbProbeKeys` of src/wcmUSB.c. What the kernel answers to `ioctl` is a parameter, and the names of
-- linux/input.h stand for their numbers.
pub mod Touchscreen
use xf86_input_wacom.Prelude.{
  ℕ, ◌*◌, Bool, true, false, not, ◌&&◌, ◌||◌, Option, none, some, List, [], ◌∷◌, map, get_or, set,
  length, replicate, ◌==◌, if◌then◌else◌,
}
use xf86_input_wacom.Prelude.Int.{ℤ, pos, ◌+ℤ◌, ◌*ℤ◌, neg, tdiv, leb_ℤ, is_set, ◌==ℤ◌, of_bool}
use xf86_input_wacom.Prelude.Bits.{or_mask, clear_mask}
use xf86_input_wacom.State.{
  DeviceState, ToolSize, Ranges, Channel, Device, Common, Protocol, generic, protocol_4, protocol_5,
  is_type, stylus_id, touch_id, pad_id,
}
use xf86_input_wacom.State.Zero.{zero_channel}
use xf86_input_wacom.Usb.Event.{
  Abs, abs_x, abs_y, abs_rx, abs_ry, abs_wheel, abs_tilt_x, abs_tilt_y, abs_pressure, abs_distance,
  abs_mt_slot, abs_misc,
}
use xf86_input_wacom.Usb.ToolType.{pad_device_id}
use xf86_input_wacom.Usb.Channels.{pad_channel}
use xf86_input_wacom.Usb.Tablet.{Usb}
use xf86_input_wacom.Usb.Models.{
  Model, ModelDesc, find_model, model_protocol, unknown, intuos, intuos2, intuos3, intuos4,
}
use xf86_input_wacom.Usb.Models.Descs.{model_descs}

-- The keys that the start of a tablet asks for.
pub data KeyName : Type 0 where
  btn_0 btn_1 btn_2 btn_3 btn_4 btn_5 btn_6 btn_7 btn_8 btn_9 : KeyName
  btn_a btn_b btn_c btn_x btn_y btn_z : KeyName
  btn_base btn_base2 btn_base3 btn_base4 btn_base5 btn_base6 : KeyName
  btn_tl btn_tr btn_tl2 btn_tr2 btn_select : KeyName
  btn_left btn_middle btn_right btn_back btn_forward btn_side btn_extra : KeyName
  btn_tool_pen btn_tool_rubber btn_tool_mouse btn_tool_finger btn_tool_doubletap btn_tool_tripletap
        btn_touch :
      KeyName
  key_controlpanel key_onscreen_keyboard other_key : KeyName

-- `wcmKeys`, `wcmInputProps` and the like: ISBITSET of a name.
abbrev pub Keys : Type 0
Keys = KeyName → Bool

-- `padkey_codes`
abbrev pub padkey_codes : List KeyName
padkey_codes =
    btn_0 ∷ btn_1 ∷ btn_2 ∷ btn_3 ∷ btn_4 ∷ btn_5 ∷ btn_6 ∷ btn_7 ∷ btn_8 ∷ btn_9 ∷ btn_a ∷ btn_b
    ∷ btn_c ∷ btn_x ∷ btn_y ∷ btn_z ∷ btn_base ∷ btn_base2 ∷ btn_base3 ∷ btn_base4 ∷ btn_base5
    ∷ btn_base6 ∷ btn_tl ∷ btn_tr ∷ btn_tl2 ∷ btn_tr2 ∷ btn_select ∷ []

-- `mouse_codes` without the first, BTN_LEFT, which the loop does not come to.
abbrev pub mouse_codes : List KeyName
mouse_codes = btn_middle ∷ btn_right ∷ btn_back ∷ btn_forward ∷ btn_side ∷ btn_extra ∷ []

unfoldable pub supported : Keys → List KeyName → List KeyName
supported keys [] = []
supported keys (k ∷ ks) = if keys k then k ∷ supported keys ks else supported keys ks

unfoldable pub some_key : Keys → List KeyName → Bool
some_key keys [] = false
some_key keys (k ∷ ks) = keys k || some_key keys ks

-- The table `padkey_code`. Mouse buttons that may be the pad's are counted, and have no codes.
unfoldable pub find_padkeys : (KeyName → ℕ) → Keys → List ℕ
find_padkeys code keys = elim (supported keys padkey_codes) [
  | [] ↦ if some_key keys mouse_codes then replicate 5 0 else []
  | k ∷ ks ↦ code k ∷ map code ks
]

abbrev pub set_feature : ℕ → Common → Common
set_feature m c = record c { tablet_type = or_mask c.tablet_type m }

-- `SETBIT` on the keys, and TabletSetFeature of WCM_TPC, which are two bits.
abbrev pub set_finger : Keys → Keys
set_finger keys btn_tool_finger = true
set_finger keys k = keys k

abbrev pub set_doubletap : Keys → Keys
set_doubletap keys btn_tool_doubletap = true
set_doubletap keys k = keys k

abbrev pub set_tpc : Common → Common
set_tpc c = set_feature 0x200 (set_feature 0x100 c)

-- `usbGenericTouchscreenQuirks`, on the keys and the tablet's features.
unfoldable pub touchscreen_quirks : (Abs → Bool) → Keys × Common → Keys × Common
touchscreen_quirks abs (keys, c) =
    let is_screen = keys btn_touch && (not (keys btn_tool_finger) && not (keys btn_tool_pen)) in
    let keys1 = if is_screen then set_finger keys else keys in
    let c1 = if is_screen then set_tpc c else c in
    (if abs abs_mt_slot && not (keys btn_tool_doubletap) then set_doubletap keys1 else keys1, c1)

-- `usbProbeKeys`: the keys, the record, and the product, 0 when a call fails. Its first arguments are the answers
-- to EVIOCGBIT of EV_KEY, EVIOCGPROP (only whether it succeeds), EVIOCGID and EVIOCGBIT of EV_ABS.
unfoldable pub probe_keys :
    Option Keys → Bool → Option (ℕ × ℕ) → Option (Abs → Bool) → Keys × Common → Keys × Common × ℕ
probe_keys none props id abs (keys, c) = (keys, c, 0)
probe_keys (some keys') false id abs (keys, c) = (keys', c, 0)
probe_keys (some keys') true none abs (keys, c) = (keys', c, 0)
probe_keys (some keys') true (some id) none (keys, c) = (keys', c, 0)
probe_keys (some keys') true (some (vendor, product)) (some abs) (keys, c) =
    let (keys1, c1) =
      if abs abs_misc
      then (keys', c)
      else touchscreen_quirks abs (keys', record c { protocol_level = generic }) in
    (keys1, record c1 { vendor_id = vendor; tablet_id = product }, product)
