-- ===== src/Dispatch/Tablet.antt =====
-- The common dispatch leaves the tablet's record as it is, and of its channel the next state and the mark:
-- `commonDispatchDevice` of src/wcmCommon.c.
use xf86_input_wacom.Prelude.{◌≡◌, refl, Bool, true, false, if◌then◌else◌, arith}
use xf86_input_wacom.Prelude.Int.{ℤ}
use xf86_input_wacom.State.{DeviceState, Device, Channel, Common}
use xf86_input_wacom.Filter.{reset_sample_counter, filter_coord}
use xf86_input_wacom.Session.{Session}
use xf86_input_wacom.Session.Events.Tablet.{ites, send_events-common}
use xf86_input_wacom.Dispatch.Suppress.{Suppression}
use xf86_input_wacom.Dispatch.{
  distance_step, motion_step, suppress_step, filter_step, dispatch_device,
}
use xf86_input_wacom.Gesture.Keeps.{mark_of}

distance-common :
    (hard : ℤ) (ds : DeviceState) (s : Session) → (distance_step hard ds s).common ≡ s.common
unfolding distance_step
distance-common hard ds s = grind (arith, send_events-common)

motion-common :
    (hard : ℤ) (u : Suppression) (ds : DeviceState) (s : Session)
    → (motion_step hard u ds s).common ≡ s.common
unfolding motion_step
motion-common hard u ds s = grind (arith, distance-common)

suppress-common :
    (hard : ℤ) (ds : DeviceState) (s : Session) → (suppress_step hard ds s).common ≡ s.common
unfolding suppress_step
suppress-common hard ds s = grind (arith, motion-common)

mark_of-reset : (ch : Channel) → mark_of (reset_sample_counter ch) ≡ mark_of ch
unfolding reset_sample_counter
mark_of-reset ch = refl

mark_of-filter :
    (c : Common) (ch : Channel) (ds : DeviceState) → mark_of (filter_coord c ch ds).0 ≡ mark_of ch
unfolding filter_coord
mark_of-filter c ch ds = refl

mark_of-filter_step :
    (c : Common) (d : Device) (ch : Channel) (ds : DeviceState)
    → mark_of (filter_step c d ch ds).0 ≡ mark_of ch
unfolding filter_step
mark_of-filter_step c d ch ds = grind (arith, mark_of-reset, mark_of-filter)

first-ite : (b : Bool) (p q : Session × Channel) → (if b then p else q).0 ≡ (if b then p.0 else q.0)
first-ite true p q = refl
first-ite false p q = refl

second-ite :
    (b : Bool) (p q : Session × Channel)
    → mark_of (if b then p else q).1 ≡ (if b then mark_of p.1 else mark_of q.1)
second-ite true p q = refl
second-ite false p q = refl

mark_same : (b : Bool) (m : DeviceState × Bool) → (if b then m else m) ≡ m
mark_same true m = refl
mark_same false m = refl

pub dispatch_device-common :
    (ch : Channel) (s : Session) → (dispatch_device ch s).0.common ≡ s.common
unfolding dispatch_device
dispatch_device-common ch s = simp (first-ite, ites, suppress-common)

pub dispatch_device-mark :
    (ch : Channel) (s : Session) → mark_of (dispatch_device ch s).1 ≡ mark_of ch
unfolding dispatch_device
dispatch_device-mark ch s = simp (second-ite, mark_same, mark_of-filter_step)
