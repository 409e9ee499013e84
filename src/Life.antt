-- ===== src/Life.antt =====
-- The life of a tablet's record: `wcmNewCommon`, `wcmRefCommon`, `wcmFreeCommon`, `wcmInitTablet`,
-- `wcmRotateTablet` and `wcmRemoveActive` of src/wcmCommon.c.
pub mod References
mod Tests
use xf86_input_wacom.Prelude.{
  ℕ, suc, ◌-◌, ◌*◌, ◌/◌, ◌^◌, Bool, true, false, ◌&&◌, Option, none, some, [], replicate, ◌==◌,
  if◌then◌else◌,
}
use xf86_input_wacom.Prelude.Int.{ℤ, pos, ◌*ℤ◌, tdiv, leb_ℤ, ◌==ℤ◌}
use xf86_input_wacom.State.{Device, Common, Rotation, upright, protocol_4}
use xf86_input_wacom.State.Zero.{zero_common, zero_channel}
use xf86_input_wacom.Dispatch.Pressure.{is_pen}
use xf86_input_wacom.Arbiter.{Front, set_active}

-- A record that its subdevices share: in use with its `refcnt`, or given back. `refcnt` is 1 at least.
pub data Shared : Type 0 where
  live : ℕ → Common → Shared
  freed : Shared

-- The record that `wcmNewCommon` makes, once it is allocated.
abbrev pub fresh_common : Common
fresh_common = record zero_common {
  protocol_level = protocol_4;
  channels = replicate 18 zero_channel;
  gesture_parameters = record (zero_common.gesture_parameters) { tap_time = 250 };
  rotate = upright;
  suppress = pos 2;
  raw_sample = 4;
  pressure_recalibration = true;
  ranges = record (zero_common.ranges) {
    touch = record (zero_common.ranges.touch) { max_x = pos 1024; max_y = pos 1024 };
    max_strip_x = pos 4096;
    max_strip_y = pos 4096;
    proxout_dist_default = pos 10;
  };
}

-- `wcmNewCommon`
abbrev pub new_common : Shared
new_common = live 1 fresh_common

-- `wcmRefCommon`, on a pointer that may be null. A record that was given back is no longer there: `none`.
unfoldable pub ref_common : Option Shared → Option Shared
ref_common none = some new_common
ref_common (some (live n c)) = some (live (suc n) c)
ref_common (some freed) = none

-- `wcmFreeCommon`, on a pointer to a record; with a null one it does nothing.
unfoldable pub free_common : Shared → Option Shared
free_common (live n c) = some (if n - 1 == 0 then freed else live (n - 1) c)
free_common freed = none

-- The default threshold, `maxCurve * 0.013f` as an `int`. The product is exact when `maxCurve` is a power of
-- two, as it is here.
abbrev pub default_threshold : Device → ℤ
default_threshold d = tdiv (d.max_curve *ℤ pos 13958644) (pos (2 ^ 30))

unfoldable pub init_threshold : Device → Common → Common
init_threshold d c =
    if leb_ℤ c.threshold (pos 0) && is_pen d
    then record c { threshold = default_threshold d }
    else c

-- The default panscroll threshold: 13 mm by the resolution `wcmResolY`, or 1000.
unfoldable pub init_panscroll : ℤ → Common → Common
init_panscroll resol_y c =
    let by_resolution =
      if c.panscroll_threshold ==ℤ pos 0
      then tdiv (resol_y *ℤ pos 13) (pos 1000)
      else c.panscroll_threshold in
    record c { panscroll_threshold = if by_resolution ==ℤ pos 0 then pos 1000 else by_resolution }

-- `wcmInitTablet`, with the model's `Initialize`: the record and the resolution, or `none` if it fails.
unfoldable pub init_tablet : (Common → Option (Common × ℤ)) → Device → Common → Option Common
init_tablet initialize d c = elim (initialize c) [
  | none ↦ none
  | some (c1, resol_y) ↦ some (init_panscroll resol_y (init_threshold d c1))
]

-- `wcmRotateTablet`; an enabled device's property is updated too.
abbrev pub rotate_tablet : Rotation → Common → Common
rotate_tablet value c = record c { rotate = value }

-- `wcmRemoveActive`
unfoldable pub remove_active : ℕ → Common × Front → Common × Front
remove_active k r = elim r.1.active [ none ↦ r | some a ↦ if a == k then set_active none r else r ]
