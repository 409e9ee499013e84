-- ===== src/Session/Events/Tablet.antt =====
-- Sending events leaves the tablet's record as it is: `wcmSendEvents` and `wcmSoftOutEvent` of
-- src/wcmCommon.c.
use xf86_input_wacom.Prelude.{ℕ, ◌≡◌, refl, ap, ◌∙◌, Bool, true, false, if◌then◌else◌, arith}
use xf86_input_wacom.Prelude.Int.{ℤ}
use xf86_input_wacom.State.{DeviceState, Common}
use xf86_input_wacom.Axes.{AxisData}
use xf86_input_wacom.Session.{Session}
use xf86_input_wacom.Session.Frame.{View, view}
use xf86_input_wacom.Session.Events.{
  send_pad_events, send_non_pad_events, send_by_type, update_serial, cancel_panscroll, finish,
  send_at, send_accepted, send_events, soft_out_event,
}
use xf86_input_wacom.Session.Events.Proximity.{
  enter, leave, view-send_pad_events, view-send_tool_events, view-update_serial,
  view-cancel_panscroll, same_common, prepare_old_state-common,
}

pub common-ite :
    (b : Bool) (s t : Session) → (if b then s else t).common ≡ (if b then s.common else t.common)
common-ite true s t = refl
common-ite false s t = refl

pub common_same : (b : Bool) (c : Common) → (if b then c else c) ≡ c
common_same true c = refl
common_same false c = refl

pub ruleset ites = (common-ite, common_same)

pass-common : (near : Bool) (v : View) → (leave near (enter near v)).common ≡ v.common
pass-common near v = ground arith

pad-common :
    (ds : DeviceState) (axes : AxisData) (s : Session)
    → (send_pad_events ds axes s).common ≡ s.common
unfolding view
pad-common ds axes s =
    ap (λ (v : View). v.common) (view-send_pad_events ds axes s) ∙ pass-common _ (view s)

non_pad-common :
    (ds : DeviceState) (axes : AxisData) (s : Session)
    → (send_non_pad_events ds axes s).common ≡ s.common
unfolding send_non_pad_events view
non_pad-common ds axes s =
    ap (λ (v : View). v.common) (view-send_tool_events ds _ s) ∙ pass-common _ (view s)

by_type-common :
    (ds : DeviceState) (axes : AxisData) (s : Session) → (send_by_type ds axes s).common ≡ s.common
unfolding send_by_type
by_type-common ds axes s = simp (ites, pad-common, non_pad-common)

serial-common : (serial : ℕ) (id : ℤ) (s : Session) → (update_serial serial id s).common ≡ s.common
serial-common serial id s = same_common s _ (view-update_serial serial id s)

panscroll-common : (ds : DeviceState) (s : Session) → (cancel_panscroll ds s).common ≡ s.common
panscroll-common ds s = same_common s _ (view-cancel_panscroll ds s)

finish-common : (ds : DeviceState) (x y : ℤ) (s : Session) → (finish ds x y s).common ≡ s.common
unfolding finish
finish-common ds x y s = simp (ites, serial-common)

send_at-common : (ds : DeviceState) (x y : ℤ) (s : Session) → (send_at ds x y s).common ≡ s.common
unfolding send_at
send_at-common ds x y s =
    simp (finish-common, by_type-common, prepare_old_state-common, panscroll-common)

pub send_events-common : (ds : DeviceState) (s : Session) → (send_events ds s).common ≡ s.common
unfolding send_events send_accepted
send_events-common ds s = simp (ites, send_at-common, serial-common)

pub soft_out_event-common : (s : Session) → (soft_out_event s).common ≡ s.common
unfolding soft_out_event
soft_out_event-common s = send_events-common _ s
