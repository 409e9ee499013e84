-- ===== src/Usb/Dispatch/Handler.antt =====
-- `wcmEvent` of src/wcmCommon.c, as src/wcmUSB.c relies on it.
use xf86_input_wacom.Prelude.{ℕ, zero, suc, ◌≡◌, refl, sym, ap, ◌∙◌, Bool, List, [], ◌∷◌, get_or}
use xf86_input_wacom.State.{DeviceState, Channel, Common}
use xf86_input_wacom.State.Zero.{zero_channel}
use xf86_input_wacom.Gesture.Keeps.{mark_of, marks, Sight, sight}
use xf86_input_wacom.Arbiter.{Front, Maths, wcm_event}
use xf86_input_wacom.Arbiter.Keeps.{seen, seen-wcm_event}
use xf86_input_wacom.Usb.Tablet.{Handler}
use xf86_input_wacom.Usb.Dispatch.Sending.{IsHandler}

get_or-marks :
    (chs : List Channel) (i : ℕ)
    → get_or (marks chs) i (mark_of zero_channel) ≡ mark_of (get_or chs i zero_channel)
get_or-marks [] i = refl
get_or-marks (ch ∷ chs) zero = refl
get_or-marks (ch ∷ chs) (suc i) = get_or-marks chs i

-- Lists with equal marks have channels with equal marks.
mark_at :
    (xs ys : List Channel) (i : ℕ)
    → marks xs ≡ marks ys
    → mark_of (get_or xs i zero_channel) ≡ mark_of (get_or ys i zero_channel)
mark_at xs ys i e =
    sym (get_or-marks xs i)
    ∙ ap (λ (l : List (DeviceState × Bool)). get_or l i (mark_of zero_channel)) e
    ∙ get_or-marks ys i

-- `wcmEvent` at a time.
abbrev pub event_handler : Maths → ℕ → Handler
event_handler m now c ds r = wcm_event m now c ds r

sight-event :
    (m : Maths) (now c : ℕ) (ds : DeviceState) (r : Common × Front)
    → sight (event_handler m now c ds r).0 ≡ sight r.0
unfolding seen
sight-event m now c ds r = seen-wcm_event m now c ds r

-- Whatever state of whatever channel `wcmEvent` handles, with its gestures, arbitration and events: it leaves
-- the states that the protocol fills in, their marks, and the switch of touch as they are.
pub wcm_event-IsHandler : (m : Maths) (now : ℕ) → IsHandler (event_handler m now)
wcm_event-IsHandler m now = record {
  keeps_work = λ c ds r i.
      ap (λ (p : DeviceState × Bool). p.0)
        (mark_at _ r.0.channels i (ap (λ (v : Sight). v.channel_marks) (sight-event m now c ds r)));
  keeps_dirty = λ c ds r i.
      ap (λ (p : DeviceState × Bool). p.1)
        (mark_at _ r.0.channels i (ap (λ (v : Sight). v.channel_marks) (sight-event m now c ds r)));
  keeps_touch = λ c ds r. ap (λ (v : Sight). v.touch_on) (sight-event m now c ds r);
}
