-- ===== src/Session/Events/Proximity.antt =====
-- The proximity events that `wcmSendEvents` sends: in and out by turns, and the last one says where
-- the device's old state is.
use xf86_input_wacom.Prelude.{
  ℕ, ◌≡◌, refl, ap, ◌∙◌, inl, inr, Bool, true, false, not, ◌&&◌, ◌||◌, Bool-cases, List, [], ◌∷◌,
  ◌==◌, if◌then◌else◌, arith,
}
use xf86_input_wacom.Prelude.Int.{ℤ, is_set}
use xf86_input_wacom.State.{DeviceState, Common, touch_id, pad_id}
use xf86_input_wacom.Axes.{AxisData}
use xf86_input_wacom.Session.{Session, emit}
use xf86_input_wacom.Session.Frame.{
  View, view, proximity_log, view-ite, if_same, view-emit_motion, view-panscroll, view-send_buttons,
  view-send_wheel_strip_events, view-send_keys, view-set_flags,
}
use xf86_input_wacom.Session.Events.{
  send_common_events, enter_proximity, leave_proximity, pad_body, changed_keys, send_pad_events,
  send_near, send_far, send_tool_events, send_non_pad_events, cancel_panscroll, prepare_old_state,
  send_by_type, finish, send_at, send_accepted, send_events, is_refused, update_serial,
  touch_need_send_events, event_coordinates,
}

-- A log with one more proximity event.
abbrev push : Bool → View → View
push p v = record v { log = p ∷ v.log }

-- What entering and leaving do, for a state that is near the tablet or not.
abbrev pub enter : Bool → View → View
enter near v = if not (is_set v.proximity) && near then push true v else v

abbrev pub leave : Bool → View → View
leave near v = if is_set v.proximity && not near then push false v else v

view-enter_proximity :
    (ds : DeviceState) (axes : AxisData) (s : Session)
    → view (enter_proximity ds axes s) ≡ enter (is_set ds.proximity) (view s)
unfolding enter_proximity view emit
view-enter_proximity ds axes s = ground arith

view-leave_proximity :
    (ds : DeviceState) (axes : AxisData) (s : Session)
    → view (leave_proximity ds axes s) ≡ leave (is_set ds.proximity) (view s)
unfolding leave_proximity view emit
view-leave_proximity ds axes s = ground arith

view-send_common_events :
    (ds : DeviceState) (axes : AxisData) (s : Session)
    → view (send_common_events ds axes s) ≡ view s
unfolding send_common_events
view-send_common_events ds axes s =
    simp (view-ite, view-send_wheel_strip_events, view-send_buttons, view-panscroll, if_same)

view-pad_body :
    (ds : DeviceState) (axes : AxisData) (s : Session) → view (pad_body ds axes s) ≡ view s
unfolding pad_body
view-pad_body ds axes s =
    simp (view-ite, view-send_common_events, view-emit_motion, view-send_buttons, if_same)

view-changed_keys : (ds : DeviceState) (s : Session) → view (changed_keys ds s) ≡ view s
view-changed_keys ds s = view-send_keys ds.keys s.dev.old_state.keys s

pub view-send_pad_events :
    (ds : DeviceState) (axes : AxisData) (s : Session)
    → view (send_pad_events ds axes s)
      ≡ leave (is_set ds.proximity) (enter (is_set ds.proximity) (view s))
unfolding send_pad_events
view-send_pad_events ds axes s =
    rw (view-leave_proximity, view-changed_keys, view-pad_body, view-enter_proximity)

view-send_near :
    (ds : DeviceState) (axes : AxisData) (s : Session) → view (send_near ds axes s) ≡ view s
unfolding send_near
view-send_near ds axes s = simp (view-ite, view-send_common_events, view-emit_motion, if_same)

view-send_far :
    (ds : DeviceState) (axes : AxisData) (s : Session) → view (send_far ds axes s) ≡ view s
unfolding send_far
view-send_far ds axes s = simp (view-ite, view-send_buttons, if_same)

near_only : (v : View) → enter true v ≡ leave true (enter true v)
near_only v = ground arith

far_only : (v : View) → leave false v ≡ leave false (enter false v)
far_only v = ground arith

pub view-send_tool_events :
    (ds : DeviceState) (axes : AxisData) (s : Session)
    → view (send_tool_events ds axes s)
      ≡ leave (is_set ds.proximity) (enter (is_set ds.proximity) (view s))
unfolding send_tool_events
view-send_tool_events ds axes s = elim (Bool-cases (is_set ds.proximity)) [
  | inl near ↦ rw (near, view-send_near, view-enter_proximity, near) (near_only (view s))
  | inr far ↦ rw (far, view-leave_proximity, view-send_far, far) (far_only (view s))
]

-- The events that follow each other differ, and the first one is "in".
abbrev pub last_event : List Bool → Bool
last_event [] = false
last_event (p ∷ log) = p

abbrev pub Alternates : List Bool → Type 0
Alternates [] = Unit
Alternates (p ∷ log) = (p ≡ not (last_event log)) × Alternates log

-- The calls' proximity events alternate, and the last one agrees with the old state.
pub record IsTracked (s : Session) : Type 0 where
  pub alternates : Alternates (proximity_log s.calls)
  pub agrees : last_event (proximity_log s.calls) ≡ is_set s.dev.old_state.proximity

record Tracks (v : View) : Type 0 where
  alternates : Alternates v.log
  agrees : last_event v.log ≡ is_set v.proximity

-- The log of `v` is right for a device that is near or not.
record TracksAs (near : Bool) (v : View) : Type 0 where
  alternates : Alternates v.log
  agrees : last_event v.log ≡ near

leave_far : (v : View) → Tracks v → TracksAs false (leave false v)
leave_far v t = elim (Bool-cases (is_set v.proximity)) [
  | inl near ↦
      rw near record { alternates = (rw (t.agrees, near) refl, t.alternates); agrees = refl }
  | inr out ↦ rw out record { alternates = t.alternates; agrees = t.agrees ∙ out }
]

enter_near : (v : View) → Tracks v → TracksAs true (enter true v)
enter_near v t = elim (Bool-cases (is_set v.proximity)) [
  | inl near ↦ rw near record { alternates = t.alternates; agrees = t.agrees ∙ near }
  | inr far ↦ rw far record { alternates = (rw (t.agrees, far) refl, t.alternates); agrees = refl }
]

leave-TracksAs : (near : Bool) (v : View) → Tracks v → TracksAs near (leave near (enter near v))
leave-TracksAs true v t = rw (← near_only v) (enter_near v t)
leave-TracksAs false v t = rw (← far_only v) (leave_far v t)

pub view-update_serial :
    (serial : ℕ) (id : ℤ) (s : Session) → view (update_serial serial id s) ≡ view s
unfolding update_serial view emit
view-update_serial serial id s = ground arith

pub view-cancel_panscroll : (ds : DeviceState) (s : Session) → view (cancel_panscroll ds s) ≡ view s
unfolding cancel_panscroll
view-cancel_panscroll ds s = simp (view-ite, view-set_flags, if_same)

prepare_old_state-Tracks :
    (ds : DeviceState) (x y : ℤ) (s : Session)
    → Tracks (view s)
    → Tracks (view (prepare_old_state ds x y s))
unfolding prepare_old_state view
prepare_old_state-Tracks ds x y s t = elim (Bool-cases (is_set s.dev.old_state.proximity)) [
  | inl near ↦ rw near t
  | inr far ↦ rw far record { alternates = t.alternates; agrees = t.agrees ∙ far }
]

pub prepare_old_state-common :
    (ds : DeviceState) (x y : ℤ) (s : Session) → (prepare_old_state ds x y s).common ≡ s.common
unfolding prepare_old_state
prepare_old_state-common ds x y s = ground arith

-- The tool is not touch, or no gesture keeps touch silent.
abbrev pub Sends : DeviceState → Common → Type 0
Sends ds c = (not (ds.device_type == touch_id) || touch_need_send_events c) ≡ true

send_by_type-TracksAs :
    (ds : DeviceState) (axes : AxisData) (s : Session)
    → Sends ds s.common
    → Tracks (view s)
    → TracksAs (is_set ds.proximity) (view (send_by_type ds axes s))
unfolding send_by_type send_non_pad_events
send_by_type-TracksAs ds axes s sends t = elim (Bool-cases (ds.device_type == pad_id)) [
  | inl pad ↦ rw (pad, view-send_pad_events) (leave-TracksAs _ _ t)
  | inr tool ↦ rw (tool, sends, view-send_tool_events) (leave-TracksAs _ _ t)
]

finish-Tracks :
    (ds : DeviceState) (x y : ℤ) (s : Session)
    → TracksAs (is_set ds.proximity) (view s)
    → Tracks (view (finish ds x y s))
unfolding finish view
finish-Tracks ds x y s t = elim (Bool-cases (is_set ds.proximity)) [
  | inl near ↦ rw near record { alternates = t.alternates; agrees = t.agrees }
  | inr far ↦
      rw (far, view-update_serial) record { alternates = t.alternates; agrees = t.agrees ∙ far }
]

pub same_common : (s t : Session) → view t ≡ view s → t.common ≡ s.common
unfolding view
same_common s t e = ap (λ (v : View). v.common) e

Sends-view :
    (ds : DeviceState) (s t : Session) → view t ≡ view s → Sends ds s.common → Sends ds t.common
Sends-view ds s t e sends = rw (same_common s t e) sends

send_at-Tracks :
    (ds : DeviceState) (x y : ℤ) (s : Session)
    → Sends ds s.common
    → Tracks (view s)
    → Tracks (view (send_at ds x y s))
unfolding send_at
send_at-Tracks ds x y s sends t =
    let s' = cancel_panscroll ds s in
    finish-Tracks ds x y _ (
      send_by_type-TracksAs ds _ (prepare_old_state ds x y s')
        (rw (prepare_old_state-common ds x y s')
          (Sends-view ds s s' (view-cancel_panscroll ds s) sends))
        (prepare_old_state-Tracks ds x y s' (rw (view-cancel_panscroll ds s) t)))

-- If the calls' proximity events alternate between in and out, and the last one agrees with the device's
-- old state, both hold again after the events of a state are sent, unless the state is of a touch during a
-- gesture.
pub send_events-IsTracked :
    (ds : DeviceState) (s : Session)
    → Sends ds s.common
    → IsTracked s
    → IsTracked (send_events ds s)
unfolding send_events send_accepted view
send_events-IsTracked ds s sends t = elim (Bool-cases (is_refused ds s.dev)) [
  | inl refused ↦ rw refused t
  | inr accepted ↦ rw accepted record { alternates = sent.alternates; agrees = sent.agrees }
]
  where
    s1 : Session
    s1 = update_serial ds.serial_num ds.device_id s

    same_view : view s1 ≡ view s
    same_view = view-update_serial ds.serial_num ds.device_id s

    start : Tracks (view s)
    start = record { alternates = t.alternates; agrees = t.agrees }

    sent : Tracks (view (send_at ds (event_coordinates ds s1).0 (event_coordinates ds s1).1 s1))
    sent = send_at-Tracks ds _ _ s1 (Sends-view ds s s1 same_view sends) (rw same_view start)
