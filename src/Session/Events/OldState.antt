-- ===== src/Session/Events/OldState.antt =====
-- The state that `wcmSendEvents` leaves behind.
use xf86_input_wacom.Prelude.{
  ℕ, ◌≡◌, refl, inl, inr, Bool, true, false, ◌&&◌, Bool-cases, ◌==◌, arith,
}
use xf86_input_wacom.Prelude.Int.{ℤ, pos, is_set, eq_of_parts, ◌==ℤ◌}
use xf86_input_wacom.State.{DeviceState, Device, Rotation, upright, cw, ccw, half}
use xf86_input_wacom.Scale.{rotate_and_scale, rotate_coordinates, scale_coordinates}
use xf86_input_wacom.Session.{Session, emit}
use xf86_input_wacom.Session.Events.{
  send_events, send_accepted, send_at, finish, is_refused, update_serial, left_state,
}

update_serial_current :
    (serial : ℕ) (id : ℤ) (s : Session)
    → ((update_serial serial id s).dev.old_state ≡ s.dev.old_state)
      × ((update_serial serial id s).dev.cur_serial ≡ serial)
      × ((update_serial serial id s).dev.cur_device_id ≡ id)
unfolding update_serial emit
update_serial_current serial id s =
    elim (Bool-cases ((s.dev.cur_serial == serial) && (s.dev.cur_device_id ==ℤ id))) [
      | inl same ↦ rw same (refl, ground arith, eq_of_parts _ _ (ground arith))
      | inr other ↦ rw other (refl, refl, refl)
    ]

rotate_and_scale-serial :
    (r : Rotation) (d : Device) (serial : ℕ) (id x y : ℤ)
    → rotate_and_scale r (record d { cur_serial = serial; cur_device_id = id }) x y
      ≡ rotate_and_scale r d x y
unfolding rotate_and_scale rotate_coordinates scale_coordinates
rotate_and_scale-serial upright d serial id x y = refl
rotate_and_scale-serial cw d serial id x y = refl
rotate_and_scale-serial ccw d serial id x y = refl
rotate_and_scale-serial half d serial id x y = refl

rotate_and_scale-update_serial :
    (serial : ℕ) (id : ℤ) (s : Session) (x y : ℤ)
    → let s1 = update_serial serial id s in
      rotate_and_scale s1.common.rotate s1.dev x y ≡ rotate_and_scale s.common.rotate s.dev x y
unfolding update_serial emit
rotate_and_scale-update_serial serial id s x y =
    elim (Bool-cases ((s.dev.cur_serial == serial) && (s.dev.cur_device_id ==ℤ id))) [
      | inl same ↦ rw same refl
      | inr other ↦ rw other (rotate_and_scale-serial s.common.rotate s.dev serial id x y)
    ]

-- What a device `s'` has after it sent the events of `ds` as `s`: near the tablet the state itself,
-- at its turned and scaled position; away from it the state of a tool that left, and no serial
-- number.
abbrev pub Holds : Bool → DeviceState → Session → Session → Type 0
Holds true ds s s' =
    let (x, y) = rotate_and_scale s.common.rotate s.dev ds.x ds.y in
    s'.dev.old_state ≡ record ds { x = x; y = y }
Holds false ds s s' =
    (s'.dev.old_state ≡ left_state ds.serial_num ds.device_id)
    × (s'.dev.cur_serial ≡ 0)
    × (s'.dev.cur_device_id ≡ pos 0)

-- Once the events of an accepted state are sent, the device holds that state: near the tablet at the
-- turned and scaled position, away from it as a tool that has left, with no serial number.
pub send_events-Holds :
    (ds : DeviceState) (s : Session)
    → is_refused ds s.dev ≡ false
    → Holds (is_set ds.proximity) ds s (send_events ds s)
unfolding send_events send_accepted send_at finish
send_events-Holds ds s accepted = elim (Bool-cases (is_set ds.proximity)) [
  | inl near ↦
      rw (accepted, near, rotate_and_scale-update_serial ds.serial_num ds.device_id s ds.x ds.y)
        refl
  | inr far ↦ rw (accepted, far) (update_serial_current 0 (pos 0) _)
]
