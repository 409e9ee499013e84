-- ===== src/Dispatch/Pressure.antt =====
-- The pressure of a pen: `rebasePressure` to `detectPressureIssue`, `applyPressureCurve`, and the
-- part of `commonDispatchDevice` that uses them (src/wcmCommon.c).
pub mod Bounds
use xf86_input_wacom.Prelude.{
  ℕ, ◌+◌, ◌*◌, ◌^◌, Bool, true, false, not, ◌&&◌, ◌||◌, Option, none, some, List, get_or, ltb, ◌==◌,
  if◌then◌else◌,
}
use xf86_input_wacom.Prelude.Int.{
  ℤ, pos, negsuc, pos_part, ◌-ℤ◌, ◌*ℤ◌, tdiv, leb_ℤ, ltb_ℤ, is_set, ◌==ℤ◌,
}
use xf86_input_wacom.Prelude.Bits.{has_mask, or_mask, clear_mask}
use xf86_input_wacom.State.{DeviceState, Device, Common, is_type, stylus_id, eraser_id}
use xf86_input_wacom.Scale.{scale_axis}

-- `IsPen`
abbrev pub is_pen : Device → Bool
is_pen d = is_type stylus_id d || is_type eraser_id d

abbrev pub min_ℤ : ℤ → ℤ → ℤ
min_ℤ a b = if ltb_ℤ b a then b else a

abbrev pub max_ℤ : ℤ → ℤ → ℤ
max_ℤ a b = if ltb_ℤ a b then b else a

-- `rebasePressure`
unfoldable pub rebase_pressure : Device → DeviceState → ℤ
rebase_pressure d ds =
    if is_set d.old_state.proximity then min_ℤ d.min_pressure ds.pressure else ds.pressure

-- `normalizePressure`
unfoldable pub normalize_pressure : Common → Device → ℤ → ℤ
normalize_pressure c d raw_pressure =
    let base = if c.pressure_recalibration then d.min_pressure else pos 0 in
    let range_left = c.max_z -ℤ base in
    if leb_ℤ (pos 1) range_left
    then scale_axis (raw_pressure -ℤ base) d.max_curve (pos 0) range_left (pos 0)
    else d.max_curve

-- `a * THRESHOLD_TOLERANCE`, in units of 2 ^ -30: the float 0.008f is 8589935 / 2 ^ 30. For the
-- `maxCurve` of 2 ^ 16, the only one in use, the float product and the comparisons are exact.
abbrev pub tolerance : Device → ℤ
tolerance d = d.max_curve *ℤ pos 8589935

abbrev pub in_tolerance_units : ℤ → ℤ
in_tolerance_units a = a *ℤ pos (2 ^ 30)

-- The button stays on below the threshold, within the tolerance.
unfoldable pub within_tolerance : Common → Device → ℤ → Bool
within_tolerance c d pressure =
    ltb_ℤ (tolerance d) (in_tolerance_units c.threshold)
    && ltb_ℤ (in_tolerance_units c.threshold -ℤ tolerance d) (in_tolerance_units pressure)

-- `setPressureButton`
unfoldable pub set_pressure_button : Common → Device → ℕ → ℤ → ℕ
set_pressure_button c d buttons pressure =
    if ltb_ℤ pressure c.threshold
    then (if has_mask d.old_state.buttons 1 && within_tolerance c d pressure
        then or_mask (clear_mask buttons 1) 1
        else clear_mask buttons 1)
    else or_mask buttons 1

-- `detectPressureIssue`: the device, and whether the pen is reported as worn.
unfoldable pub detect_pressure_issue : Common → Device → DeviceState → Device × Bool
detect_pressure_issue c d ds =
    let leaving = is_set d.old_state.proximity && not (is_set ds.proximity) in
    let pressure_threshold = tdiv (c.max_z *ℤ pos 20) (pos 100) in
    let warns = leaving && (ltb_ℤ pressure_threshold d.old_min_pressure && ltb 15 d.event_cnt) in
    let cnt =
      if leaving then d.event_cnt else if is_set d.old_state.proximity then d.event_cnt else 0 in
    (record d { event_cnt = cnt + 1; old_min_pressure = d.min_pressure }, warns)

-- Stands for what a read outside of the table of the curve gives, which C leaves open: no table holds it.
abbrev pub no_pressure : ℤ
no_pressure = negsuc 0

abbrev pub read_curve : List ℤ → ℤ → ℤ
read_curve curve p = if ltb_ℤ p (pos 0) then no_pressure else get_or curve (pos_part p) no_pressure

-- `applyPressureCurve`, on a pressure.
unfoldable pub apply_pressure_curve : Device → ℤ → ℤ
apply_pressure_curve d pressure =
    let p = min_ℤ d.max_curve (max_ℤ (pos 0) pressure) in
    elim d.press_curve [ none ↦ p | some curve ↦ read_curve curve p ]

-- The button of a pen that did not press it: the largest pressure so far may press it, taken with
-- the base pressure of now. `prev_min_pressure` is the base pressure of before.
unfoldable pub late_button : Common → Device → ℤ → ℤ → ℕ → Device × ℕ
late_button c d raw_pressure prev_min_pressure buttons =
    let most = max_ℤ d.max_raw_pressure raw_pressure in
    let b = set_pressure_button c d buttons (normalize_pressure c d most) in
    let settled = has_mask b 1 && (d.min_pressure ==ℤ prev_min_pressure) in
    let most' = if settled || not (is_set d.min_pressure) then pos 0 else most in
    (record d { max_raw_pressure = most' }, b)

-- The pen's button 1, from the normalized pressure.
unfoldable pub pen_button : Common → Device → ℤ → ℤ → DeviceState → Device × DeviceState
pen_button c d raw_pressure prev_min_pressure ds =
    let b = set_pressure_button c d ds.buttons ds.pressure in
    if has_mask b 1
    then (record d { max_raw_pressure = pos 0 }, record ds { buttons = b })
    else if is_set d.max_raw_pressure
    then (let (d', b') = late_button c d raw_pressure prev_min_pressure b in
        (d', record ds { buttons = b' }))
    else (d, record ds { buttons = b })

-- The device once the raw pressure is known: its largest and its base pressure.
unfoldable pub track_pressure : Common → Device → DeviceState → Device
track_pressure c d ds =
    let d1 = (detect_pressure_issue c d ds).0 in
    let d2 =
      if is_set d.old_state.proximity then d1 else record d1 { max_raw_pressure = ds.pressure } in
    record d2 { min_pressure = rebase_pressure d2 ds }

-- The pressure part of `commonDispatchDevice`.
unfoldable pub pressure_step : Common → Device → DeviceState → Device × DeviceState
pressure_step c d ds =
    let prev_min_pressure = if is_set d.old_state.proximity then d.min_pressure else pos 0 in
    let d1 = track_pressure c d ds in
    let ds1 = record ds { pressure = normalize_pressure c d1 ds.pressure } in
    let (d2, ds2) =
      if is_pen d then pen_button c d1 ds.pressure prev_min_pressure ds1 else (d1, ds1) in
    (d2, record ds2 { pressure = apply_pressure_curve d2 ds2.pressure })
