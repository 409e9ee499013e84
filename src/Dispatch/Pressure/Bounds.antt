-- ===== src/Dispatch/Pressure/Bounds.antt =====
-- The range of the pressure that is sent, and what the pressure does to the buttons.
use xf86_input_wacom.Prelude.{
  ◌<◌, ◌^◌, ◌↔◌, ◌⊎◌, length, ℕ, ◌/◌, ◌≡◌, refl, inl, inr, Bool, true, false, zero, suc, Option,
  none, some, List, [], ◌∷◌, All, get_or, Bool-cases, if◌then◌else◌, arith,
}
use xf86_input_wacom.Prelude.Int.{ℤ, pos, pos_part, ◌≤ℤ◌, ◌<ℤ◌, ◌*ℤ◌, ◌-ℤ◌, ltb_ℤ, is_set}
use xf86_input_wacom.Prelude.Bits.{has_mask}
use xf86_input_wacom.State.{DeviceState, Device, Common}
use xf86_input_wacom.Scale.Bounds.{scale_axis_bounds}
use xf86_input_wacom.Dispatch.Pressure.{
  normalize_pressure, set_pressure_button, apply_pressure_curve, read_curve, no_pressure,
  pressure_step, within_tolerance, min_ℤ, max_ℤ, track_pressure, pen_button, is_pen, late_button,
  detect_pressure_issue,
}

-- A pressure of the device.
abbrev pub IsPressure : ℤ → ℤ → Type 0
IsPressure max_curve v = (pos 0 ≤ℤ v) × (v ≤ℤ max_curve)

IsPressure-if :
    (hi a b : ℤ) (t : Bool) → IsPressure hi a → IsPressure hi b → IsPressure hi (if t then a else b)
IsPressure-if hi a b true h k = h
IsPressure-if hi a b false h k = k

-- Whatever the tablet reports, the normalized pressure lies between 0 and the curve's maximum, if that is
-- not negative.
pub normalize_pressure_bounds :
    (c : Common) (d : Device) (raw : ℤ)
    → pos 0 ≤ℤ d.max_curve
    → IsPressure d.max_curve (normalize_pressure c d raw)
unfolding normalize_pressure
normalize_pressure_bounds c d raw h =
    IsPressure-if d.max_curve _ _ _ (scale_axis_bounds _ d.max_curve (pos 0) _ (pos 0) h)
      (h, omega arith)

-- If the device has a curve, its table has an entry for each pressure, and every entry is a pressure.
abbrev pub HasCurve : ℤ → Option (List ℤ) → Type 0
HasCurve max_curve none = Unit
HasCurve max_curve (some curve) =
    (pos_part max_curve < length curve) × All (IsPressure max_curve) curve

get_or-All :
    (hi : ℤ) (xs : List ℤ) (i : ℕ)
    → i < length xs
    → All (IsPressure hi) xs
    → IsPressure hi (get_or xs i no_pressure)
get_or-All hi [] i h all = absurd (omega arith)
get_or-All hi (x ∷ xs) zero h all = all.0
get_or-All hi (x ∷ xs) (suc i) h all = get_or-All hi xs i (omega arith) all.1

clip_bounds : (hi p : ℤ) → pos 0 ≤ℤ hi → IsPressure hi (min_ℤ hi (max_ℤ (pos 0) p))
clip_bounds hi p h = ground arith

-- The tip presses button 1: with 2 ^ 30 parts to a unit of pressure.
abbrev pub IsPressed : Common → Device → ℤ → Type 0
IsPressed c d pressure =
    (c.threshold ≤ℤ pressure)
    ⊎ ((has_mask d.old_state.buttons 1 ≡ true)
        × (d.max_curve *ℤ pos 8589935 <ℤ c.threshold *ℤ pos (2 ^ 30))
        × (c.threshold *ℤ pos (2 ^ 30) -ℤ d.max_curve *ℤ pos 8589935 <ℤ pressure *ℤ pos (2 ^ 30)))

within_tolerance_iff :
    (c : Common) (d : Device) (pressure : ℤ)
    → (within_tolerance c d pressure ≡ true) ↔ (
        (d.max_curve *ℤ pos 8589935 <ℤ c.threshold *ℤ pos (2 ^ 30))
        × (c.threshold *ℤ pos (2 ^ 30) -ℤ d.max_curve *ℤ pos 8589935 <ℤ pressure *ℤ pos (2 ^ 30)))
unfolding within_tolerance
within_tolerance_iff c d pressure = (λ h. (ground arith, ground arith), λ h. ground arith)

pressed_iff :
    (c : Common) (d : Device) (buttons : ℕ) (pressure : ℤ)
    → (has_mask (set_pressure_button c d buttons pressure) 1 ≡ true) ↔ (
        (c.threshold ≤ℤ pressure)
        ⊎ ((has_mask d.old_state.buttons 1 ≡ true) × (within_tolerance c d pressure ≡ true)))
unfolding set_pressure_button
pressed_iff c d buttons pressure = (λ h. ground arith, λ h. ground arith)

-- The button's bit follows the threshold with a hysteresis, and no other bit changes. The bit is on exactly when
-- the pressure is not below the threshold, or when the button was on, the threshold is above the tolerance, which
-- is 8589935 / 2 ^ 30 of the curve's maximum, and the pressure is above the threshold less the tolerance.
pub set_pressure_button_lem :
    (c : Common) (d : Device) (buttons : ℕ) (pressure : ℤ)
    → (set_pressure_button c d buttons pressure / 2 ≡ buttons / 2)
      × ((has_mask (set_pressure_button c d buttons pressure) 1 ≡ true) ↔ IsPressed c d pressure)
unfolding set_pressure_button
set_pressure_button_lem c d buttons pressure =
    let tip = pressed_iff c d buttons pressure in
    let near = within_tolerance_iff c d pressure in
    (
      ground arith,
      (
        λ on. elim (tip.0 on) [
          | inl above ↦ inl above
          | inr (was, h) ↦ inr (was, (near.0 h).0, (near.0 h).1)
        ],
        λ on. tip.1 (elim on [
          | inl above ↦ inl above
          | inr (was, far, close) ↦ inr (was, near.1 (far, close))
        ]),
      ),
    )

curve_bounds :
    (hi p : ℤ) (o : Option (List ℤ))
    → IsPressure hi p
    → HasCurve hi o
    → IsPressure hi (elim o [ none ↦ p | some curve ↦ read_curve curve p ])
curve_bounds hi p none h k = h
curve_bounds hi p (some curve) h k =
    let inside : ltb_ℤ p (pos 0) ≡ false = ground arith in
    let room : pos_part p < length curve = ground arith in
    rw inside (get_or-All hi curve (pos_part p) room k.1)

-- The device's curve is the same.
record SameCurve (d d' : Device) : Type 0 where
  same_max : d'.max_curve ≡ d.max_curve
  same_curve : d'.press_curve ≡ d.press_curve

SameCurve-if :
    (d a b : Device) (t : Bool) → SameCurve d a → SameCurve d b → SameCurve d (if t then a else b)
SameCurve-if d a b true h k = h
SameCurve-if d a b false h k = k

apply_pressure_curve_bounds :
    (d d' : Device) (p : ℤ)
    → SameCurve d d'
    → pos 0 ≤ℤ d.max_curve
    → HasCurve d.max_curve d.press_curve
    → IsPressure d.max_curve (apply_pressure_curve d' p)
unfolding apply_pressure_curve
apply_pressure_curve_bounds d d' p same h curve =
    rw (same.same_max, same.same_curve)
      (curve_bounds d.max_curve _ d.press_curve (clip_bounds d.max_curve p h) curve)

track_pressure-SameCurve :
    (c : Common) (d : Device) (ds : DeviceState) → SameCurve d (track_pressure c d ds)
unfolding track_pressure detect_pressure_issue
track_pressure-SameCurve c d ds =
    let d1 = (detect_pressure_issue c d ds).0 in
    let k =
      SameCurve-if d d1 (record d1 { max_raw_pressure = ds.pressure })
        (is_set d.old_state.proximity) record { same_max = refl; same_curve = refl }
        record { same_max = refl; same_curve = refl } in
    record { same_max = k.same_max; same_curve = k.same_curve }

SameCurve-either :
    (d : Device) (a b : Device × DeviceState) (t : Bool)
    → SameCurve d a.0
    → SameCurve d b.0
    → SameCurve d (if t then a else b).0
SameCurve-either d a b true h k = h
SameCurve-either d a b false h k = k

pen_button-SameCurve :
    (c : Common) (d d1 : Device) (raw prev : ℤ) (ds : DeviceState)
    → SameCurve d d1
    → SameCurve d (pen_button c d1 raw prev ds).0
unfolding pen_button late_button
pen_button-SameCurve c d d1 raw prev ds same =
    elim (Bool-cases (has_mask (set_pressure_button c d1 ds.buttons ds.pressure) 1)) [
      | inl on ↦ rw on record { same_max = same.same_max; same_curve = same.same_curve }
      | inr off ↦ elim (Bool-cases (is_set d1.max_raw_pressure)) [
        | inl late ↦
            rw (off, late) record { same_max = same.same_max; same_curve = same.same_curve }
        | inr never ↦ rw (off, never) same
      ]
    ]

-- For a maximum of the curve that is not negative, the pressure step reads nothing outside of the table of the
-- curve, and leaves a pressure between 0 and the maximum, when the device's table has an entry for each pressure
-- up to the maximum and every entry is one, or when it has no curve.
pub pressure_step_bounds :
    (c : Common) (d : Device) (ds : DeviceState)
    → pos 0 ≤ℤ d.max_curve
    → HasCurve d.max_curve d.press_curve
    → IsPressure d.max_curve (pressure_step c d ds).1.pressure
unfolding pressure_step
pressure_step_bounds c d ds h curve =
    let d1 = track_pressure c d ds in
    let same = track_pressure-SameCurve c d ds in
    let chosen =
      SameCurve-either d _ _ (is_pen d) (pen_button-SameCurve c d d1 ds.pressure _ _ same) same in
    apply_pressure_curve_bounds d _ _ chosen h curve
