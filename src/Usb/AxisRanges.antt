-- ===== src/Usb/AxisRanges.antt =====
-- The ranges of a USB tablet's axes, as `usbInitialize` of src/wcmUSB.c takes them from the kernel. The kernel's answers
-- to `ioctl` and floating point are parameters.
use xf86_input_wacom.Prelude.{Bool, Option, none, some, if◌then◌else◌}
use xf86_input_wacom.Prelude.Int.{ℤ, pos, ◌+ℤ◌, ◌*ℤ◌, neg, tdiv, leb_ℤ}
use xf86_input_wacom.State.{Ranges, Common}
use xf86_input_wacom.Usb.Setup.{put_ranges}
use xf86_input_wacom.Usb.Event.{
  Abs, abs_rx, abs_ry, abs_wheel, abs_tilt_x, abs_tilt_y, abs_pressure, abs_distance,
}

-- `struct input_absinfo`
pub record AbsInfo : Type 0 where
  pub minimum : ℤ
  pub maximum : ℤ
  pub resolution : ℤ

-- The answers to `ioctl`, `none` where it fails: EVIOCGBIT of 0 (whether EV_ABS and EV_MSC are there) and of
-- EV_ABS, EVIOCGABS, EVIOCGBIT of EV_SW and EVIOCGSW (whether SW_MUTE_DEVICE is there).
pub record Answers : Type 0 where
  pub event_bits : Option (Bool × Bool)
  pub abs_bits : Option (Abs → Bool)
  pub abs_info : Abs → Option AbsInfo
  pub switch_bits : Option Bool
  pub switch_state : Option Bool

-- An axis with its range, if it is there.
abbrev pub info_of : Answers → (Abs → Bool) → Abs → Option AbsInfo
info_of a abs x = if abs x then a.abs_info x else none

unfoldable pub put_x : Bool → AbsInfo → Common → Common
put_x is_touch i c =
    put_ranges
      (λ (r : Ranges).
        if is_touch
        then record r {
          touch = record (r.touch) { max_x = i.maximum; resol_x = i.resolution *ℤ pos 1000 };
        }
        else record r {
          pen = record (r.pen) {
            min_x = i.minimum;
            max_x = i.maximum;
            resol_x = i.resolution *ℤ pos 1000;
          };
        })
      c

unfoldable pub put_y : Bool → AbsInfo → Common → Common
put_y is_touch i c =
    put_ranges
      (λ (r : Ranges).
        if is_touch
        then record r {
          touch = record (r.touch) { max_y = i.maximum; resol_y = i.resolution *ℤ pos 1000 };
        }
        else record r {
          pen = record (r.pen) {
            min_y = i.minimum;
            max_y = i.maximum;
            resol_y = i.resolution *ℤ pos 1000;
          };
        })
      c

-- Floating point: the resolution of a touch device with the physical size `maximum`, the multiple of TILT_RES over
-- the axis' resolution, and `round` of a tilt times its factor.
pub record Reals : Type 1 where
  pub Factor : Type 0
  pub touch_resol : ℤ → ℤ → ℤ
  pub tilt_factor : ℤ → Factor
  pub one : Factor
  pub round_by : Factor → ℤ → ℤ

-- `wcmTiltOffX` and `wcmTiltFactX`, or their like in y: of the range, and whether the resolution is known.
unfoldable pub tilt_offset : AbsInfo → ℤ
tilt_offset i =
    if leb_ℤ i.resolution (pos 0) then tdiv (neg (i.minimum +ℤ i.maximum)) (pos 2) else pos 0

-- The range of the ring, 0 to 71 where nothing else is known.
unfoldable pub put_ring : Option AbsInfo → Common → Common
put_ring none c =
    put_ranges (λ (r : Ranges). record r { min_ring = pos 0 }) (record c { max_ring = pos 71 })
put_ring (some i) c =
    put_ranges (λ (r : Ranges). record r { min_ring = i.minimum })
      (record c { max_ring = i.maximum })

unfoldable pub put_pressure : Option AbsInfo → Common → Common
put_pressure none c = c
put_pressure (some i) c = record c { max_z = i.maximum }

unfoldable pub put_distance : Option AbsInfo → Common → Common
put_distance none c = c
put_distance (some i) c = put_ranges (λ (r : Ranges). record r { max_dist = i.maximum }) c

module _ (reals : Reals) where
  open reals use {Factor, touch_resol, tilt_factor, one, round_by}

  abbrev factor_of : AbsInfo → Factor
  factor_of i = if leb_ℤ i.resolution (pos 0) then one else tilt_factor i.resolution

  -- `wcmTiltMinX` or `wcmTiltMaxX`, of the range's end.
  unfoldable pub tilt_end : AbsInfo → ℤ → ℤ
  tilt_end i e = round_by (factor_of i) (e +ℤ tilt_offset i)

  unfoldable pub put_tilt_x : Option AbsInfo → Common → Common
  put_tilt_x none c = c
  put_tilt_x (some i) c = record c {
    tilt_min_x = tilt_end i i.minimum;
    tilt_max_x = tilt_end i i.maximum;
  }

  unfoldable pub put_tilt_y : Option AbsInfo → Common → Common
  put_tilt_y none c = c
  put_tilt_y (some i) c = record c {
    tilt_min_y = tilt_end i i.minimum;
    tilt_max_y = tilt_end i i.maximum;
  }

  -- ABS_RX: the strip's range, or a touch device's size in hundredths of a millimetre.
  unfoldable pub put_strip_x : Bool → Option AbsInfo → Common → Common
  put_strip_x is_touch none c = c
  put_strip_x is_touch (some i) c =
      put_ranges
        (λ (r : Ranges).
          if is_touch
          then record r {
            touch = record (r.touch) { resol_x = touch_resol r.touch.max_x i.maximum };
          }
          else record r { max_strip_x = i.maximum })
        c

  unfoldable pub put_strip_y : Bool → Option AbsInfo → Common → Common
  put_strip_y is_touch none c = c
  put_strip_y is_touch (some i) c =
      put_ranges
        (λ (r : Ranges).
          if is_touch
          then record r {
            touch = record (r.touch) { resol_y = touch_resol r.touch.max_y i.maximum };
          }
          else record r { max_strip_y = i.maximum })
        c

  -- The rest of the axes, in the order of the code.
  unfoldable pub put_axes : Answers → Bool → Bool → (Abs → Bool) → Common → Common
  put_axes a has_msc is_touch abs c =
      let strips = put_strip_x is_touch (info_of a abs abs_rx) c in
      let ring = put_ring (if has_msc then none else info_of a abs abs_wheel) strips in
      let tilts =
        put_tilt_y (info_of a abs abs_tilt_y) (put_tilt_x (info_of a abs abs_tilt_x) ring) in
      put_distance (info_of a abs abs_distance) (
        put_pressure (info_of a abs abs_pressure)
          (put_strip_y is_touch (info_of a abs abs_ry) tilts))
