-- ===== src/Usb/ToolType.antt =====
-- The type of the tool that a frame of events is from: `usbInitToolType` of src/wcmUSB.c and what it calls.
pub mod Kinds
use xf86_input_wacom.Prelude.{
  ℕ, ◌/◌, ◌%◌, Bool, true, false, not, ◌&&◌, ◌||◌, Option, none, some, List, [], ◌∷◌, ◌==◌,
  if◌then◌else◌,
}
use xf86_input_wacom.Prelude.Int.{ℤ, bits32, is_set}
use xf86_input_wacom.Prelude.Bits.{has_mask}
use xf86_input_wacom.State.{
  Common, Protocol, generic, protocol_4, protocol_5, has_feature, stylus_id, touch_id, cursor_id,
  eraser_id, pad_id,
}
use xf86_input_wacom.Usb.Event.{
  Key, Abs, Event, btn_tool_pen, btn_tool_pencil, btn_tool_brush, btn_tool_airbrush,
  btn_tool_rubber, btn_tool_mouse, btn_tool_lens, btn_touch, btn_tool_finger, btn_tool_doubletap,
  btn_tool_tripletap, btn_left, btn_middle, btn_right, btn_side, btn_back, btn_extra, btn_forward,
  abs_wheel, abs_throttle, abs_misc, abs_mt_slot, abs_mt_tracking_id, other_rel, key_event,
  abs_event, rel_event, mute_switch, other_event,
}

-- Features of a tablet, and the kernel's ids of the tools of protocol 4.
abbrev pub wcm_pen : ℕ
wcm_pen = 1

abbrev pub wcm_1fgt : ℕ
wcm_1fgt = 4

abbrev pub wcm_lcd : ℕ
wcm_lcd = 0x100

abbrev pub wcm_legacy_ids : ℕ
wcm_legacy_ids = 0x1000

abbrev pub stylus_device_id : ℕ
stylus_device_id = 2

abbrev pub touch_device_id : ℕ
touch_device_id = 3

abbrev pub cursor_device_id : ℕ
cursor_device_id = 6

abbrev pub eraser_device_id : ℕ
eraser_device_id = 10

abbrev pub pad_device_id : ℕ
pad_device_id = 15

-- `wcmProtocolLevel == WCM_PROTOCOL_GENERIC`, and `== WCM_PROTOCOL_5`
abbrev pub is_generic : Protocol → Bool
is_generic generic = true
is_generic protocol_4 = false
is_generic protocol_5 = false

abbrev pub is_protocol_5 : Protocol → Bool
is_protocol_5 generic = false
is_protocol_5 protocol_4 = false
is_protocol_5 protocol_5 = true

-- `toolIdIsAes`, for the 32 bits of an id.
unfoldable pub tool_id_is_aes : Common → ℕ → Bool
tool_id_is_aes c id = if has_feature c wcm_legacy_ids then false else has_mask id 1

-- `usbIdToType`, for the 32 bits of an id.
unfoldable pub id_to_type : Common → ℕ → ℕ
id_to_type c id =
    if id == 0
    then 0
    else if tool_id_is_aes c id
    then 0
    else if has_mask id 8
    then eraser_id
    else if (id / 0x100 % 16 == 0) || (id == 0x806)
    then cursor_id
    else stylus_id

-- `usbFindDeviceTypeById`
unfoldable pub find_device_type_by_id : Common → ℕ → ℕ
find_device_type_by_id c id =
    if id == stylus_device_id
    then stylus_id
    else if id == eraser_device_id
    then eraser_id
    else if id == cursor_device_id
    then cursor_id
    else if id == touch_device_id
    then touch_id
    else if id == pad_device_id
    then pad_id
    else id_to_type c id

-- A touch screen for one finger: its BTN_TOUCH stands for the tool.
abbrev pub is_1fg_screen : Common → Bool
is_1fg_screen c =
    is_generic c.protocol_level
    && (not (has_feature c wcm_pen) && (has_feature c wcm_1fgt && has_feature c wcm_lcd))

-- `deviceTypeFromEvent` on a key; `use_mt` is `wcmUseMT`.
unfoldable pub device_type_from_key : Common → Bool → Key → ℕ
device_type_from_key c use_mt btn_tool_pen = stylus_id
device_type_from_key c use_mt btn_tool_pencil = stylus_id
device_type_from_key c use_mt btn_tool_brush = stylus_id
device_type_from_key c use_mt btn_tool_airbrush = stylus_id
device_type_from_key c use_mt btn_tool_mouse = cursor_id
device_type_from_key c use_mt btn_tool_lens = cursor_id
device_type_from_key c use_mt btn_tool_finger =
    if not (is_generic c.protocol_level) && not use_mt then pad_id else touch_id
device_type_from_key c use_mt btn_tool_rubber = eraser_id
device_type_from_key c use_mt btn_tool_doubletap = touch_id
device_type_from_key c use_mt btn_tool_tripletap = touch_id
device_type_from_key c use_mt btn_touch = if is_1fg_screen c then touch_id else 0
device_type_from_key c use_mt _ = 0

unfoldable pub device_type_from_abs : Common → Abs → ℤ → ℕ
device_type_from_abs c abs_mt_slot value = touch_id
device_type_from_abs c abs_mt_tracking_id value = touch_id
device_type_from_abs c abs_misc value =
    if not (is_generic c.protocol_level) then find_device_type_by_id c (bits32 value) else 0
device_type_from_abs c _ value = 0

-- `deviceTypeFromEvent`
unfoldable pub device_type_from_event : Common → Bool → Event → ℕ
device_type_from_event c use_mt (key_event k n value) = device_type_from_key c use_mt k
device_type_from_event c use_mt (abs_event a value) = device_type_from_abs c a value
device_type_from_event c use_mt (rel_event r value) = 0
device_type_from_event c use_mt (mute_switch value) = 0
device_type_from_event c use_mt other_event = 0

-- The loop of `refreshDeviceType` over the keys that are down, in the order of their codes.
unfoldable pub refresh_from : Common → Bool → List Key → ℕ
refresh_from c use_mt [] = 0
refresh_from c use_mt (k ∷ ks) =
    let t = device_type_from_key c use_mt k in
    let rest = refresh_from c use_mt ks in if t == 0 then rest else t

-- `refreshDeviceType`, with the answer of EVIOCGKEY: the keys that are down, or `none` if it fails.
unfoldable pub refresh_device_type : Common → Bool → Option (List Key) → ℕ
refresh_device_type c use_mt none = 0
refresh_device_type c use_mt (some ks) = refresh_from c use_mt ks

-- The number is in the table of the pad's keys.
unfoldable pub has_key : ℕ → List ℕ → Bool
has_key n [] = false
has_key n (k ∷ ks) = (n == k) || has_key n ks

-- `eventCouldBeFromPad`
unfoldable pub pad_key : List ℕ → Key → ℕ → Bool
pad_key padkeys btn_left n = true
pad_key padkeys btn_middle n = true
pad_key padkeys btn_right n = true
pad_key padkeys btn_side n = true
pad_key padkeys btn_back n = true
pad_key padkeys btn_extra n = true
pad_key padkeys btn_forward n = true
pad_key padkeys _ n = has_key n padkeys

unfoldable pub event_could_be_from_pad : List ℕ → Event → Bool
event_could_be_from_pad padkeys (key_event k n value) = pad_key padkeys k n
event_could_be_from_pad padkeys (rel_event other_rel value) = false
event_could_be_from_pad padkeys (rel_event _ value) = true
event_could_be_from_pad padkeys (abs_event abs_wheel value) = true
event_could_be_from_pad padkeys (abs_event abs_throttle value) = true
event_could_be_from_pad padkeys (abs_event _ value) = false
event_could_be_from_pad padkeys (mute_switch value) = false
event_could_be_from_pad padkeys other_event = false

-- The first loop of `usbInitToolType`: the first event that names a tool.
unfoldable pub named_type : Common → Bool → List Event → ℕ
named_type c use_mt [] = 0
named_type c use_mt (e ∷ es) =
    let t = device_type_from_event c use_mt e in
    let rest = named_type c use_mt es in if t == 0 then rest else t

-- The last loop.
unfoldable pub pad_type : List ℕ → List Event → ℕ
pad_type padkeys [] = 0
pad_type padkeys (e ∷ es) =
    let rest = pad_type padkeys es in if event_could_be_from_pad padkeys e then pad_id else rest

-- `if (!device_type) device_type = other`
abbrev pub or_else : ℕ → ℕ → ℕ
or_else t other = if t == 0 then other else t

-- `usbInitToolType`
unfoldable pub init_tool_type : Common → Bool → List ℕ → Option (List Key) → List Event → ℕ → ℕ
init_tool_type c use_mt padkeys down es last =
    or_else (named_type c use_mt es)
      (or_else last (or_else (refresh_device_type c use_mt down) (pad_type padkeys es)))

-- `usbIsTabletToolInProx`
unfoldable pub is_tablet_tool_in_prox : ℕ → ℤ → Bool
is_tablet_tool_in_prox t proximity =
    ((t == stylus_id) || ((t == cursor_id) || (t == eraser_id))) && is_set proximity
