-- ===== src/State.antt =====
-- The records of src/xf86WacomDefs.h. A field that only logging, allocation or the X server's
-- property tables use is left out; fields keep the source's words without its prefixes.
pub mod Zero
use xf86_input_wacom.Prelude.{
  ℕ, ◌+◌, ◌-◌, ◌*◌, ◌%◌, ◌^◌, Bool, false, true, Option, none, List, [], ◌==◌,
}
use xf86_input_wacom.Prelude.Int.{ℤ, pos, int_max}
use xf86_input_wacom.Prelude.Bits.{has_mask}

-- `struct _WacomDeviceState`
pub record DeviceState : Type 0 where
  pub device_id : ℤ
  pub device_type : ℕ
  pub serial_num : ℕ
  pub x : ℤ
  pub y : ℤ
  pub buttons : ℕ
  pub pressure : ℤ
  pub tiltx : ℤ
  pub tilty : ℤ
  pub stripx : ℤ
  pub stripy : ℤ
  pub rotation : ℤ
  pub abswheel : ℤ
  pub abswheel2 : ℤ
  pub relwheel : ℤ
  pub relwheel2 : ℤ
  pub distance : ℤ
  pub throttle : ℤ
  pub proximity : ℤ
  pub sample : ℕ
  pub time : ℕ
  pub keys : ℕ

-- A state with every field zero, as `memset` leaves it.
abbrev pub zero_state : DeviceState
zero_state = record {
  device_id = pos 0;
  device_type = 0;
  serial_num = 0;
  x = pos 0;
  y = pos 0;
  buttons = 0;
  pressure = pos 0;
  tiltx = pos 0;
  tilty = pos 0;
  stripx = pos 0;
  stripy = pos 0;
  rotation = pos 0;
  abswheel = pos 0;
  abswheel2 = pos 0;
  relwheel = pos 0;
  relwheel2 = pos 0;
  distance = pos 0;
  throttle = pos 0;
  proximity = pos 0;
  sample = 0;
  time = 0;
  keys = 0;
}

-- `OUTPROX_STATE`
abbrev pub outprox_state : DeviceState
outprox_state = record zero_state { abswheel = int_max; abswheel2 = int_max }

-- The values of `device_type`, and the kernel's device ids.
abbrev pub stylus_id : ℕ
stylus_id = 1

abbrev pub touch_id : ℕ
touch_id = 2

abbrev pub cursor_id : ℕ
cursor_id = 4

abbrev pub eraser_id : ℕ
eraser_id = 8

abbrev pub pad_id : ℕ
pad_id = 16

-- `WacomAction`
pub record Action : Type 0 where
  pub action : List ℕ
  pub nactions : ℕ

-- The size of a tool: minX ... maxY, resolX and resolY of `struct _WacomDeviceRec`.
pub record ToolSize : Type 0 where
  pub min_x : ℤ
  pub min_y : ℤ
  pub max_x : ℤ
  pub max_y : ℤ
  pub resol_x : ℤ
  pub resol_y : ℤ

-- The atoms of the properties of actions, `*_action_props` of `struct _WacomDeviceRec`.
pub record ActionProps : Type 0 where
  pub btn : List ℕ
  pub strip : List ℕ
  pub wheel : List ℕ

-- `struct _WacomDeviceRec`, a subdevice of a tablet.
pub record Device : Type 0 where
  pub flags : ℕ
  pub top_x : ℤ
  pub top_y : ℤ
  pub bottom_x : ℤ
  pub bottom_y : ℤ
  pub valuator_min_x : ℤ
  pub valuator_max_x : ℤ
  pub valuator_min_y : ℤ
  pub valuator_max_y : ℤ
  pub serial : ℕ
  pub cur_serial : ℕ
  pub cur_device_id : ℤ
  pub button_default : List ℕ
  pub strip_default : List ℕ
  pub wheel_default : List ℕ
  pub key_actions : List Action
  pub strip_actions : List Action
  pub wheel_actions : List Action
  pub panscroll_state : DeviceState
  pub old_state : DeviceState
  pub old_cursor_hw_prox : ℤ
  pub max_curve : ℤ
  pub press_curve : Option (List ℤ)
  pub press_ctrl : List ℤ
  pub min_pressure : ℤ
  pub old_min_pressure : ℤ
  pub surface_dist : ℤ
  pub proxout_dist : ℤ
  pub event_cnt : ℕ
  pub max_raw_pressure : ℤ
  pub size : ToolSize
  pub action_props : ActionProps
  pub nbuttons : ℕ
  pub naxes : ℕ

-- `IsCursor`, `IsStylus`, ... of a device.
abbrev pub is_type : ℕ → Device → Bool
is_type t d = d.flags % 256 == t

abbrev pub absolute_flag : ℕ
absolute_flag = 0x100

abbrev pub buttons_only_flag : ℕ
buttons_only_flag = 0x800

abbrev pub scrollmode_flag : ℕ
scrollmode_flag = 0x1000

-- `struct _WacomFilterState`
pub record FilterState : Type 0 where
  pub npoints : ℕ
  pub xs : List ℤ
  pub ys : List ℤ
  pub tiltxs : List ℤ
  pub tiltys : List ℤ

-- `struct _WacomChannel`; `states` is the union `valid`, the current state first.
pub record Channel : Type 0 where
  pub work : DeviceState
  pub dirty : Bool
  pub states : List DeviceState
  pub nsamples : ℕ
  pub raw_filter : FilterState

pub data Protocol : Type 0 where
  generic protocol_4 protocol_5 : Protocol

-- `struct _WacomTool`; `device` is the subdevice's number, if it is linked.
pub record Tool : Type 0 where
  pub typeid : ℕ
  pub serial : ℕ
  pub enabled : Bool
  pub device : Option ℕ

-- `ROTATE_NONE` ... `ROTATE_HALF`
pub data Rotation : Type 0 where
  upright cw ccw half : Rotation

-- `WacomGesturesParameters`
pub record GestureParameters : Type 0 where
  pub zoom_distance : ℕ
  pub scroll_distance : ℕ
  pub scroll_direction : ℕ
  pub gesture_used : ℕ
  pub tap_time : ℕ

-- What the hardware tells of its ranges, in `struct _WacomCommonRec`: wcmMinX to wcmMaxContacts, and the default
-- of the proximity distance.
pub record Ranges : Type 0 where
  pub pen : ToolSize
  pub touch : ToolSize
  pub max_dist : ℤ
  pub min_ring : ℤ
  pub max_strip_x : ℤ
  pub max_strip_y : ℤ
  pub max_contacts : ℤ
  pub proxout_dist_default : ℤ

-- `struct _WacomCommonRec`, shared by the subdevices of one tablet.
pub record Common : Type 0 where
  pub wcm_flags : ℕ
  pub vendor_id : ℕ
  pub tablet_id : ℕ
  pub tablet_type : ℕ
  pub has_hw_touch_switch : Bool
  pub hw_touch_switch_state : ℤ
  pub max_z : ℤ
  pub tilt_min_x : ℤ
  pub tilt_min_y : ℤ
  pub tilt_max_x : ℤ
  pub tilt_max_y : ℤ
  pub max_ring : ℤ
  pub protocol_level : Protocol
  pub rotate : Rotation
  pub threshold : ℤ
  pub channels : List Channel
  pub tpc_button : Bool
  pub touch : Bool
  pub gesture : Bool
  pub gesture_mode : ℕ
  pub gesture_state : List DeviceState
  pub gesture_parameters : GestureParameters
  pub suppress : ℤ
  pub raw_sample : ℕ
  pub pressure_recalibration : Bool
  pub panscroll_threshold : ℤ
  pub panscroll_is_smooth : Bool
  pub tools : List Tool
  pub ranges : Ranges

-- `HANDLE_TILT`, and `TabletHasFeature` for a feature of one bit.
abbrev pub handle_tilt : Common → Bool
handle_tilt c = has_mask c.wcm_flags 2

abbrev pub has_feature : Common → ℕ → Bool
has_feature c m = has_mask c.tablet_type m
