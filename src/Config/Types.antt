-- ===== src/Config/Types.antt =====
-- The type of a device and what follows from it: `wcmAllocate`, `wcmSetFlags`, `getType`, `wcmGetPhyDeviceID`,
-- `wcmInitialToolSize` and `wcmInitActions` of src/wcmConfig.c.
use xf86_input_wacom.Prelude.{
  ℕ, zero, suc, ◌+◌, ◌%◌, ◌||◌, Bool, true, false, Option, none, some, [], ◌∷◌, replicate,
  if◌then◌else◌,
}
use xf86_input_wacom.Prelude.Int.{ℤ, pos, ◌==ℤ◌}
use xf86_input_wacom.Prelude.Text.{Text, codes, same_word}
use xf86_input_wacom.State.{
  Device, Common, Tool, ToolSize, is_type, stylus_id, touch_id, cursor_id, eraser_id, pad_id,
  absolute_flag, has_feature,
}
use xf86_input_wacom.State.Zero.{zero_device}
use xf86_input_wacom.Gesture.{lcd}
use xf86_input_wacom.Session.Mode.{
  no_action, reset_button_action, reset_strip_action, reset_wheel_action,
}
use xf86_input_wacom.Usb.ToolType.{
  stylus_device_id, touch_device_id, cursor_device_id, eraser_device_id, pad_device_id,
}

-- What `wcmAllocate` puts into a new device.
abbrev pub new_device : Device
new_device = record zero_device {
  max_curve = pos 65536;
  press_ctrl = pos 0 ∷ pos 0 ∷ pos 100 ∷ pos 100 ∷ [];
  button_default =
      1 ∷ 2 ∷ 3 ∷ 8 ∷ 9 ∷ 10 ∷ 11 ∷ 12 ∷ 13 ∷ 14 ∷ 15 ∷ 16 ∷ 17 ∷ 18 ∷ 19 ∷ 20 ∷ 21 ∷ 22 ∷ 23 ∷ 24
      ∷ 25 ∷ 26 ∷ 27 ∷ 28 ∷ 29 ∷ 30 ∷ 31 ∷ 32 ∷ 33 ∷ 34 ∷ 35 ∷ 36 ∷ [];
  nbuttons = 32;
  naxes = 6;
  wheel_default = 4 ∷ 5 ∷ 0 ∷ 0 ∷ 0 ∷ 0 ∷ 7 ∷ 6 ∷ [];
  strip_default = 4 ∷ 5 ∷ 4 ∷ 5 ∷ [];
  key_actions = replicate 32 no_action;
  strip_actions = replicate 4 no_action;
  wheel_actions = replicate 8 no_action;
  action_props = record { btn = replicate 32 0; strip = replicate 4 0; wheel = replicate 8 0 };
}

-- `WacomType`
pub data WacomType : Type 0 where
  invalid stylus eraser cursor pad touch : WacomType

-- `getType`
unfoldable pub get_type : Text → WacomType
get_type s =
    if same_word s (codes "stylus")
    then stylus
    else if same_word s (codes "touch")
    then touch
    else if same_word s (codes "cursor")
    then cursor
    else if same_word s (codes "eraser")
    then eraser
    else if same_word s (codes "pad")
    then pad
    else invalid

-- `wcmGetPhyDeviceID`
unfoldable pub phy_device_id : Device → ℕ
phy_device_id d =
    if is_type stylus_id d
    then stylus_device_id
    else if is_type eraser_id d
    then eraser_device_id
    else if is_type cursor_id d
    then cursor_device_id
    else if is_type touch_id d
    then touch_device_id
    else pad_device_id

-- The flags of a type; a display's touch device is absolute.
unfoldable pub type_flags : Common → WacomType → Option ℕ
type_flags c stylus = some (absolute_flag + stylus_id)
type_flags c touch = some (if has_feature c lcd then touch_id + absolute_flag else touch_id)
type_flags c cursor = some cursor_id
type_flags c eraser = some (absolute_flag + eraser_id)
type_flags c pad = some (absolute_flag + pad_id)
type_flags c invalid = none

-- `DEVICE_ID`
abbrev pub device_id_of : ℕ → ℕ
device_id_of flags = flags % 256

-- What `wcmSetFlags` leaves: the device and its tool, which may be missing, and whether it succeeded.
abbrev pub Flagged : Type 0
Flagged = Device × Option Tool × Bool

abbrev pub give_flags : ℕ → Device → Device
give_flags fl d =
    let d1 = record d { flags = fl } in
    record d1 { old_state = record (d.old_state) { device_id = pos (phy_device_id d1) } }

-- The tool's type, from the flags.
unfoldable pub give_typeid : ℕ → Device → Option Tool → Flagged
give_typeid fl d none = (d, none, false)
give_typeid fl d (some tool) = (d, some (record tool { typeid = device_id_of fl }), true)

-- `wcmSetFlags`
unfoldable pub set_flags : Common → WacomType → Device → Option Tool → Flagged
set_flags c t d tool = elim (type_flags c t) [
  | none ↦ (d, tool, false)
  | some fl ↦ give_typeid fl (give_flags fl d) tool
]

abbrev or_else : ℤ → ℤ → ℤ
or_else a b = if a ==ℤ pos 0 then b else a

-- The size of the device's kind of tool; a touch device's ranges begin where they did.
abbrev tool_size : Common → Device → ToolSize
tool_size c d =
    if is_type touch_id d
    then record (c.ranges.touch) { min_x = d.size.min_x; min_y = d.size.min_y }
    else c.ranges.pen

-- `wcmInitialToolSize`
unfoldable pub initial_tool_size : Common → Device → Device
initial_tool_size c d =
    let s = tool_size c d in
    record d {
      size = s;
      top_x = or_else d.top_x s.min_x;
      top_y = or_else d.top_y s.min_y;
      bottom_x = or_else d.bottom_x s.max_x;
      bottom_y = or_else d.bottom_y s.max_y;
    }

-- `for (i = 0; i < n; i++)`, from `i` on.
unfoldable pub reset_each : (Device → ℕ → Device) → ℕ → ℕ → Device → Device
reset_each reset i zero d = d
reset_each reset i (suc n) d = reset_each reset (suc i) n (reset d i)

-- `wcmInitActions`
unfoldable pub init_actions : Device → Device
init_actions d =
    let buttons = reset_each reset_button_action 0 d.nbuttons d in
    let strips = if is_type pad_id d then reset_each reset_strip_action 0 4 buttons else buttons in
    if is_type pad_id d || is_type cursor_id d
    then reset_each reset_wheel_action 0 8 strips
    else strips
