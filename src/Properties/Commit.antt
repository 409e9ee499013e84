-- ===== src/Properties/Commit.antt =====
-- The two phases of setting a property: the server lets the driver check a value first, and then calls it again to
-- store it. `wcmSetProperty` of src/x11/xf86WacomProperties.c, at the properties that hold numbers.
use xf86_input_wacom.Prelude.{◌≡◌, ◌≢◌, Bool, true, false, arith}
use xf86_input_wacom.State.{Device, Common}
use xf86_input_wacom.PressureCurve.Setting.{Drawing}
use xf86_input_wacom.Properties.{success, PropertyValue}
use xf86_input_wacom.Properties.Forms.{ValueProperty, tablet_area, Answer}
use xf86_input_wacom.Properties.Values.{
  set_value, set_tablet_area, set_pressurecurve, set_suppress, set_rotation, set_serials,
  set_serial_binding, set_proxout, set_threshold, set_touch, set_hardware_touch, set_gesture,
  set_gesture_param, set_hover, set_pressure_recal, set_panscroll_threshold,
}

-- The device and the record of an answer are those that there were.
record Keeps (d : Device) (c : Common) (a : Answer) : Type 0 where
  pub device : a.device ≡ d
  pub common : a.common ≡ c

set_value-Keeps_check :
    (g : Drawing) (prop : ValueProperty) (p : PropertyValue) (d : Device) (c : Common)
    → Keeps d c (set_value g prop p true d c)
unfolding set_value set_tablet_area set_pressurecurve set_suppress set_rotation set_serials
    set_serial_binding set_proxout set_threshold set_touch set_hardware_touch set_gesture
    set_gesture_param set_hover set_pressure_recal set_panscroll_threshold
set_value-Keeps_check g tablet_area p d c = ground arith
set_value-Keeps_check g prop p d c = ground arith

set_value_again :
    (g : Drawing) (prop : ValueProperty) (p : PropertyValue) (d : Device) (c : Common)
    → (set_value g prop (set_value g prop p true d c).value false d c).status
      ≡ (set_value g prop p true d c).status
unfolding set_value set_tablet_area set_pressurecurve set_suppress set_rotation set_serials
    set_serial_binding set_proxout set_threshold set_touch set_hardware_touch set_gesture
    set_gesture_param set_hover set_pressure_recal set_panscroll_threshold
set_value_again g tablet_area p d c = ground arith
set_value_again g prop p d c = ground arith

-- Checking a value changes neither the device nor its tablet's record, and tells the truth: the call that stores
-- the value that was checked has the status that the check had.
pub set_value_checks :
    (g : Drawing) (prop : ValueProperty) (p : PropertyValue) (d : Device) (c : Common)
    → let check = set_value g prop p true d c in
      let commit = set_value g prop check.value false d c in
      (check.device ≡ d) × (check.common ≡ c) × (commit.status ≡ check.status)
set_value_checks g prop p d c =
    let kept = set_value-Keeps_check g prop p d c in
    (kept.device, kept.common, set_value_again g prop p d c)

-- A value that is refused, in either phase, leaves the device and its tablet's record as they were.
pub set_value_refuses :
    (g : Drawing) (prop : ValueProperty) (p : PropertyValue) (checkonly : Bool) (d : Device)
    (c : Common)
    → (set_value g prop p checkonly d c).status ≢ success
    → ((set_value g prop p checkonly d c).device ≡ d)
      × ((set_value g prop p checkonly d c).common ≡ c)
unfolding set_value set_tablet_area set_pressurecurve set_suppress set_rotation set_serials
    set_serial_binding set_proxout set_threshold set_touch set_hardware_touch set_gesture
    set_gesture_param set_hover set_pressure_recal set_panscroll_threshold
set_value_refuses g tablet_area p checkonly d c h = ground arith
set_value_refuses g prop p checkonly d c h = ground arith
