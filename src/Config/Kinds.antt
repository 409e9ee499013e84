-- ===== src/Config/Kinds.antt =====
-- A device has the type that it was given: `wcmSetFlags` of src/wcmConfig.c.
use xf86_input_wacom.Prelude.{ℕ, ◌%◌, ◌≡◌, Bool, true, false, some}
use xf86_input_wacom.Prelude.Int.{pos}
use xf86_input_wacom.State.{
  Device, Common, Tool, has_feature, stylus_id, touch_id, cursor_id, eraser_id, pad_id,
}
use xf86_input_wacom.Gesture.{lcd}
use xf86_input_wacom.Session.Mode.{is_absolute}
use xf86_input_wacom.Config.Types.{WacomType, invalid, stylus, eraser, cursor, pad, touch, Flagged}

-- A type's bit in the flags.
abbrev pub kind_of : WacomType → ℕ
kind_of stylus = stylus_id
kind_of touch = touch_id
kind_of cursor = cursor_id
kind_of eraser = eraser_id
kind_of pad = pad_id
kind_of invalid = 0

-- Whether the type's devices are absolute.
abbrev pub absolute_type : Common → WacomType → Bool
absolute_type c stylus = true
absolute_type c eraser = true
absolute_type c pad = true
absolute_type c cursor = false
absolute_type c touch = has_feature c lcd
absolute_type c invalid = false

-- The kernel's ids of the types.
abbrev pub id_of : WacomType → ℕ
id_of stylus = 2
id_of eraser = 0xa
id_of cursor = 6
id_of touch = 3
id_of pad = 0xf
id_of invalid = 0xf

-- The mark of a device with a type, and of its tool.
pub record IsOfType (c : Common) (t : WacomType) (d : Device) (tool : Tool) : Type 0 where
  pub kind : d.flags % 256 ≡ kind_of t
  pub mode : is_absolute d ≡ absolute_type c t
  pub same_kind : tool.typeid ≡ kind_of t
  pub last_seen : d.old_state.device_id ≡ pos (id_of t)

-- A call with a type that there is, and one with a device's tool that there is.
pub record IsFlagged (c : Common) (t : WacomType) (tool : Tool) (r : Flagged) : Type 0 where
  pub tool' : Tool
  pub has_tool : r.1 ≡ some tool'
  pub succeeds : r.2 ≡ true
  pub of_type : IsOfType c t r.0 tool'
  pub same_serial : tool'.serial ≡ tool.serial
