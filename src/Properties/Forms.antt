-- ===== src/Properties/Forms.antt =====
-- What the properties that hold numbers are given and answer, for `wcmSetProperty` of
-- src/x11/xf86WacomProperties.c.
use xf86_input_wacom.Prelude.{ℕ, Bool, ◌&&◌, ◌||◌, get_or, ◌==◌}
use xf86_input_wacom.Prelude.Int.{ℤ, negsuc, ◌==ℤ◌, signed32}
use xf86_input_wacom.State.{Device, Common}
use xf86_input_wacom.Properties.{Status, success, PropertyValue}

-- The atoms `prop_*` of these properties.
pub data ValueProperty : Type 0 where
  tablet_area pressurecurve suppress rotation serials serial_binding proxout : ValueProperty
  threshold touch hardware_touch gesture gesture_param hover pressure_recal : ValueProperty
  panscroll_threshold : ValueProperty

-- What a branch leaves: the status, the device, its tablet's record, and the value, which some branches write to.
pub record Answer : Type 0 where
  pub status : Status
  pub device : Device
  pub common : Common
  pub value : PropertyValue

-- A setter reads the value, and whether it is only to be checked.
abbrev pub Setter : Type 0
Setter = PropertyValue → Bool → Device → Common → Answer

abbrev pub refuse : Status → PropertyValue → Device → Common → Answer
refuse st p d c = record { status = st; device = d; common = c; value = p }

abbrev pub accept : PropertyValue → Device → Common → Answer
accept p d c = refuse success p d c

abbrev pub has_shape : PropertyValue → ℕ → ℕ → Bool
has_shape p size format = p.size == size && p.format == format

-- The `i`th value as CARD8 or CARD32, and as INT32.
abbrev pub card : PropertyValue → ℕ → ℕ
card p i = get_or p.values i 0

abbrev pub int : PropertyValue → ℕ → ℤ
int p i = signed32 (card p i)

abbrev pub is_flag : PropertyValue → Bool
is_flag p = card p 0 == 0 || card p 0 == 1

abbrev pub flag : PropertyValue → Bool
flag p = card p 0 == 1

abbrev pub is_unset : PropertyValue → Bool
is_unset p =
    int p 0 ==ℤ negsuc 0 && (int p 1 ==ℤ negsuc 0 && (int p 2 ==ℤ negsuc 0 && int p 3 ==ℤ negsuc 0))
