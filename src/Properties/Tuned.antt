-- ===== src/Properties/Tuned.antt =====
-- The bounds that the settings of a device keep, whatever a client asks for: `wcmSetProperty` of
-- src/x11/xf86WacomProperties.c, at the properties that hold numbers.
use xf86_input_wacom.Prelude.{
  ℕ, ◌*◌, ◌/◌, ◌≤◌, ◌≡◌, Bool-cases, inl, inr, Bool, true, false, List, [], ◌∷◌, All, Option, none,
  some, arith,
}
use xf86_input_wacom.Prelude.Int.{ℤ, pos, negsuc, ◌≤ℤ◌, ltb_ℤ, tdiv, ◌*ℤ◌}
use xf86_input_wacom.State.{Device, Common}
use xf86_input_wacom.PressureCurve.{check_pressure_curve_values}
use xf86_input_wacom.PressureCurve.Setting.{Drawing, set_pressure_curve, curve_table, is_linear}
use xf86_input_wacom.Life.{default_threshold}
use xf86_input_wacom.Properties.{
  PropertyValue, success, internal_to_user_pressure, user_to_internal_pressure,
}
use xf86_input_wacom.Properties.Forms.{ValueProperty, tablet_area, pressurecurve, int}
use xf86_input_wacom.Properties.Values.{
  set_value, set_tablet_area, set_pressurecurve, set_suppress, set_rotation, set_serials,
  set_serial_binding, set_proxout, set_threshold, set_touch, set_hardware_touch, set_gesture,
  set_gesture_param, set_hover, set_pressure_recal, set_panscroll_threshold,
}

-- A control point of the pressure curve.
abbrev pub IsPercent : ℤ → Type 0
IsPercent a = (pos 0 ≤ℤ a) × (a ≤ℤ pos 100)

-- The filter has between 1 and 20 samples, the suppression is at most 100, the proximity distance is within the
-- hardware's, and the control points of the pressure curve are percentages.
pub record IsTuned (d : Device) (c : Common) : Type 0 where
  pub some_samples : 1 ≤ c.raw_sample
  pub few_samples : c.raw_sample ≤ 20
  pub suppress_low : pos 0 ≤ℤ c.suppress
  pub suppress_high : c.suppress ≤ℤ pos 100
  pub proxout_low : pos 0 ≤ℤ d.proxout_dist
  pub proxout_high : d.proxout_dist ≤ℤ c.ranges.max_dist
  pub points : All IsPercent d.press_ctrl

check-IsPercent :
    (x0 y0 x1 y1 : ℤ)
    → check_pressure_curve_values x0 y0 x1 y1 ≡ true
    → All IsPercent (x0 ∷ y0 ∷ x1 ∷ y1 ∷ [])
unfolding check_pressure_curve_values
check-IsPercent x0 y0 x1 y1 h = ground arith

curve_table-points :
    (g : Drawing) (is_linear : Bool) (old : Option (List ℤ)) (points : List ℤ)
    → All IsPercent points
    → All IsPercent (curve_table g is_linear old points).1
curve_table-points g true old points h = h
curve_table-points g false (some table) points h = h
curve_table-points g false none points h = elim (Bool-cases g.can_allocate) [
  | inl room ↦ rw room h
  | inr full ↦ rw full (omega arith)
]

set_pressure_curve-points :
    (g : Drawing) (d : Device) (x0 y0 x1 y1 : ℤ)
    → All IsPercent d.press_ctrl
    → All IsPercent (set_pressure_curve g d x0 y0 x1 y1).press_ctrl
unfolding set_pressure_curve
set_pressure_curve-points g d x0 y0 x1 y1 h =
    elim (Bool-cases (check_pressure_curve_values x0 y0 x1 y1)) [
      | inl good ↦ rw good (
          curve_table-points g (is_linear x0 y0 x1 y1) d.press_curve (x0 ∷ y0 ∷ x1 ∷ y1 ∷ [])
            (check-IsPercent x0 y0 x1 y1 good))
      | inr bad ↦ rw bad h
    ]

set_pressure_curve-proxout :
    (g : Drawing) (d : Device) (x0 y0 x1 y1 : ℤ)
    → (set_pressure_curve g d x0 y0 x1 y1).proxout_dist ≡ d.proxout_dist
unfolding set_pressure_curve
set_pressure_curve-proxout g d x0 y0 x1 y1 = ground arith

drawn-IsTuned :
    (g : Drawing) (d : Device) (c : Common) (x0 y0 x1 y1 : ℤ)
    → IsTuned d c
    → IsTuned (set_pressure_curve g d x0 y0 x1 y1) c
drawn-IsTuned g d c x0 y0 x1 y1 t = record {
  some_samples = t.some_samples;
  few_samples = t.few_samples;
  suppress_low = t.suppress_low;
  suppress_high = t.suppress_high;
  proxout_low = rw (set_pressure_curve-proxout g d x0 y0 x1 y1) (t.proxout_low);
  proxout_high = rw (set_pressure_curve-proxout g d x0 y0 x1 y1) (t.proxout_high);
  points = set_pressure_curve-points g d x0 y0 x1 y1 t.points;
}

set_pressurecurve-IsTuned :
    (g : Drawing) (p : PropertyValue) (checkonly : Bool) (d : Device) (c : Common)
    → IsTuned d c
    → IsTuned
        (set_pressurecurve g p checkonly d c).device
        (set_pressurecurve g p checkonly d c).common
unfolding set_pressurecurve
set_pressurecurve-IsTuned g p checkonly d c t =
    ground (arith, drawn-IsTuned g d c (int p 0) (int p 1) (int p 2) (int p 3) t)

-- Whatever property of numbers a client sets to whatever value, the bounds stay kept.
pub set_value-IsTuned :
    (g : Drawing) (prop : ValueProperty) (p : PropertyValue) (checkonly : Bool) (d : Device)
    (c : Common)
    → IsTuned d c
    → IsTuned (set_value g prop p checkonly d c).device (set_value g prop p checkonly d c).common
unfolding set_value set_tablet_area set_suppress set_rotation set_serials set_serial_binding
    set_proxout set_threshold set_touch set_hardware_touch set_gesture set_gesture_param set_hover
    set_pressure_recal set_panscroll_threshold
set_value-IsTuned g tablet_area p checkonly d c t = ground arith
set_value-IsTuned g pressurecurve p checkonly d c t = set_pressurecurve-IsTuned g p checkonly d c t
set_value-IsTuned g prop p checkonly d c t = ground arith

share_bounds : (v k m : ℕ) → 1 ≤ v → 1 ≤ k → v ≤ m / k → (1 ≤ v * k) × (v * k ≤ m)
share_bounds v k m hv hk h = grind arith

-- A threshold between 1 and a device's maximum.
abbrev pub IsThreshold : ℤ → ℤ → Type 0
IsThreshold maximum a = (pos 1 ≤ℤ a) × (a ≤ℤ maximum)

default-IsThreshold :
    (d : Device) (m : ℕ)
    → d.max_curve ≡ pos m
    → 2048 ≤ m
    → IsThreshold (pos m) (default_threshold d)
unfolding tdiv ◌*ℤ◌
default-IsThreshold d m hm big = rw hm (ground arith)

user-IsThreshold :
    (d : Device) (m : ℕ) (v : ℤ)
    → d.max_curve ≡ pos m
    → 2048 ≤ m
    → ltb_ℤ v (pos 1) ≡ false
    → ltb_ℤ (internal_to_user_pressure d d.max_curve) v ≡ false
    → IsThreshold (pos m) (user_to_internal_pressure d v)
unfolding internal_to_user_pressure user_to_internal_pressure tdiv ◌*ℤ◌
user-IsThreshold d m (pos v) hm big = rw hm (λ lo hi. ground (arith, share_bounds v (m / 2048) m))
user-IsThreshold d m (negsuc v) hm big = λ lo hi. ground arith

-- For a device whose maximum of the curve is at least 2048, a threshold that is stored is between 1 and the
-- maximum, the default one too.
pub set_threshold-IsThreshold :
    (p : PropertyValue) (d : Device) (c : Common) (m : ℕ)
    → d.max_curve ≡ pos m
    → 2048 ≤ m
    → (set_threshold p false d c).status ≡ success
    → IsThreshold (pos m) (set_threshold p false d c).common.threshold
unfolding set_threshold
set_threshold-IsThreshold p d c m hm big ok =
    ground (arith, default-IsThreshold d m hm big, user-IsThreshold d m (int p 0) hm big)
