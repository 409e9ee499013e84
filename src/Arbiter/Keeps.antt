-- ===== src/Arbiter/Keeps.antt =====
-- `wcmEvent` of src/wcmCommon.c is a handler that the protocols can rely on: it leaves the states that they
-- fill in, their marks and the switch of touch.
use xf86_input_wacom.Prelude.{
  ℕ, ◌+◌, ◌-◌, ◌%◌, ◌^◌, ◌≡◌, refl, ap, ◌∙◌, Bool, true, false, Option, none, some, List, get_or,
  set, if◌then◌else◌,
}
use xf86_input_wacom.State.{DeviceState, Channel, Common}
use xf86_input_wacom.State.Zero.{zero_channel}
use xf86_input_wacom.Session.{Session}
use xf86_input_wacom.Session.Events.{soft_out_event}
use xf86_input_wacom.Dispatch.{dispatch_device}
use xf86_input_wacom.Dispatch.Tablet.{dispatch_device-common, dispatch_device-mark}
use xf86_input_wacom.Dispatch.Tools.{save_state}
use xf86_input_wacom.Gesture.{cancel_gesture}
use xf86_input_wacom.Gesture.Filter.{gesture_filter}
use xf86_input_wacom.Gesture.Keeps.{mark_of, marks-put, Sight, sight, look, looks, look-cancel}
use xf86_input_wacom.Gesture.FilterKeeps.{look-gesture_filter}
use xf86_input_wacom.Arbiter.{
  Front, Maths, run_on, session_of, save_on, take_pointer, set_active, arbitrate, gesture_on,
  dispatch_to, dispatch_last, send_on, event_on, event_for, wcm_event,
}

unfoldable pub seen : Common × Front → Sight
seen r = sight r.0

seen-ite :
    (b : Bool) (r q : Common × Front) → seen (if b then r else q) ≡ (if b then seen r else seen q)
seen-ite true r q = refl
seen-ite false r q = refl

seen_same : (b : Bool) (v : Sight) → (if b then v else v) ≡ v
seen_same true v = refl
seen_same false v = refl

abbrev with_marks : Bool → List (DeviceState × Bool) → Sight
with_marks t l = record { channel_marks = l; touch_on = t }

seen-run_on :
    (k : ℕ) (f : Session → Session) (r : Common × Front)
    → ((s : Session) → look (f s) ≡ look s)
    → seen (run_on k f r) ≡ seen r
unfolding run_on seen look
seen-run_on k f r h = h (session_of k r)

mark_of-save :
    (c : Common) (ch : Channel) (ds : DeviceState) → mark_of (save_state c ch ds) ≡ mark_of ch
unfolding save_state
mark_of-save c ch ds = refl

seen-save : (c : ℕ) (ds : DeviceState) (r : Common × Front) → seen (save_on c ds r) ≡ seen r
unfolding save_on seen
seen-save c ds r =
    ap (with_marks r.0.touch)
      (marks-put c r.0.channels _ (mark_of-save r.0 (get_or r.0.channels c zero_channel) ds))

look-lose : (s : Session) → look (cancel_gesture (soft_out_event s)) ≡ look s
look-lose s = simp (looks, look-cancel)

seen-take_pointer : (a : Option ℕ) (k : ℕ) (r : Common × Front) → seen (take_pointer a k r) ≡ seen r
unfolding take_pointer
seen-take_pointer none k r = refl
seen-take_pointer (some a) k r = simp (
  seen-ite,
  seen-run_on a (λ (s : Session). cancel_gesture (soft_out_event s)) r look-lose,
  seen_same,
)

seen-set_active : (a : Option ℕ) (r : Common × Front) → seen (set_active a r) ≡ seen r
unfolding set_active seen
seen-set_active a r = refl

first-ite :
    (b : Bool) (p q : (Common × Front) × Bool) → (if b then p else q).0 ≡ (if b then p.0 else q.0)
first-ite true p q = refl
first-ite false p q = refl

seen-arbitrate :
    (k : ℕ) (ds : DeviceState) (r : Common × Front) → seen (arbitrate k ds r).0 ≡ seen r
unfolding arbitrate
seen-arbitrate k ds r = simp (first-ite, seen-ite, seen-set_active, seen-take_pointer, seen_same)

seen-gesture_on :
    (m : Maths) (now k : ℕ) (ds : DeviceState) (r : Common × Front)
    → seen (gesture_on m now k ds r) ≡ seen r
unfolding gesture_on
seen-gesture_on m now k ds r =
    let contact = (ds.serial_num + 2 ^ 32 - 1) % 2 ^ 32 in
    simp (
      seen-ite,
      seen-run_on k (λ (s : Session). gesture_filter m.floats now contact s) r
          (λ s. look-gesture_filter m.floats now contact s),
      seen_same,
    )

seen-dispatch_to : (c k : ℕ) (r : Common × Front) → seen (dispatch_to c k r) ≡ seen r
unfolding dispatch_to seen
seen-dispatch_to c k r =
    let ch = get_or r.0.channels c zero_channel in
    let new = (dispatch_device ch (session_of k r)).1 in
    ap (λ (common : Common). sight (record common { channels = set common.channels c new }))
      (dispatch_device-common ch (session_of k r))
    ∙ ap (with_marks r.0.touch)
        (marks-put c r.0.channels new (dispatch_device-mark ch (session_of k r)))

seen-dispatch_last :
    (c k : ℕ) (ds : DeviceState) (r : Common × Front) → seen (dispatch_last c k ds r) ≡ seen r
unfolding dispatch_last
seen-dispatch_last c k ds r = simp (seen-ite, seen-dispatch_to, seen_same)

seen-send_on :
    (m : Maths) (now c k : ℕ) (ds : DeviceState) (p : (Common × Front) × Bool)
    → seen (send_on m now c k ds p) ≡ seen p.0
unfolding send_on
seen-send_on m now c k ds (r, false) = refl
seen-send_on m now c k ds (r, true) = simp (seen-dispatch_last, seen-gesture_on)

seen-event_on :
    (m : Maths) (now c k : ℕ) (ds : DeviceState) (r : Common × Front)
    → seen (event_on m now c k ds r) ≡ seen r
unfolding event_on
seen-event_on m now c k ds r = seen-send_on m now c k _ _ ∙ seen-arbitrate k _ _ ∙ seen-save c _ r

seen-event_for :
    (m : Maths) (now c : ℕ) (k : Option ℕ) (ds : DeviceState) (r : Common × Front)
    → seen (event_for m now c k ds r) ≡ seen r
unfolding event_for
seen-event_for m now c none ds r = refl
seen-event_for m now c (some k) ds r = seen-event_on m now c k ds r

pub seen-wcm_event :
    (m : Maths) (now c : ℕ) (ds : DeviceState) (r : Common × Front)
    → seen (wcm_event m now c ds r) ≡ seen r
unfolding wcm_event
seen-wcm_event m now c ds r = simp (seen-ite, seen-event_for, seen_same)
