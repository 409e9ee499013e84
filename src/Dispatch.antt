-- ===== src/Dispatch.antt =====
-- What happens to a state between the tablet's protocol and its events: `commonDispatchDevice` of
-- src/wcmCommon.c.
pub mod Suppress
pub mod Pressure
mod Tests
pub mod Tools
pub mod Tablet
use xf86_input_wacom.Prelude.{
  ℕ, Bool, true, false, not, ◌&&◌, ◌||◌, List, get_or, ltb, ◌==◌, if◌then◌else◌,
}
use xf86_input_wacom.Prelude.Int.{ℤ, pos, abs, ◌-ℤ◌, leb_ℤ, ltb_ℤ, is_set, ◌==ℤ◌}
use xf86_input_wacom.State.{
  DeviceState, zero_state, Device, Channel, Common, is_type, stylus_id, touch_id, cursor_id,
  eraser_id, pad_id,
}
use xf86_input_wacom.Filter.{reset_sample_counter, filter_coord}
use xf86_input_wacom.Session.{Session}
use xf86_input_wacom.Session.Mode.{is_absolute}
use xf86_input_wacom.Session.Scroll.{tip_down}
use xf86_input_wacom.Session.Events.{send_events, is_refused}
use xf86_input_wacom.Dispatch.Suppress.{
  Suppression, suppress_none, suppress_all, suppress_non_motion, check_suppress,
}
use xf86_input_wacom.Dispatch.Pressure.{is_pen, pressure_step}

abbrev pub set_dev : Session → Device → Session
set_dev s d = record s { dev = d }

-- The filter runs in proximity, and starts afresh there and when the tip goes down.
unfoldable pub filter_step : Common → Device → Channel → DeviceState → Channel × DeviceState
filter_step c d ch ds =
    if is_set ds.proximity && not (ds.device_type == pad_id)
    then (let ch1 = if is_set d.old_state.proximity then ch else reset_sample_counter ch in
        let ch2 =
          if tip_down ds && not (tip_down d.old_state) then reset_sample_counter ch1 else ch1 in
        filter_coord c ch2 ds)
    else (ch, ds)

-- What is left to do with a state: nothing, or to send it.
pub data Verdict : Type 0 where
  ignored : Verdict
  sent : DeviceState → Verdict

-- A relative tool that moves by no coordinate: without other news the state is ignored.
unfoldable pub still_check : Device → Suppression → DeviceState → Verdict
still_check d suppress ds =
    if not (is_absolute d) && not (is_type pad_id d)
    then (if (ds.x ==ℤ d.old_state.x) && (ds.y ==ℤ d.old_state.y)
        then (elim suppress [
          | suppress_non_motion ↦ ignored
          | _ ↦ sent (record ds { x = d.old_state.x; y = d.old_state.y })
        ])
        else sent ds)
    else sent ds

-- `IsTablet`
abbrev pub is_tablet : Device → Bool
is_tablet d = is_pen d || is_type cursor_id d

-- The distance at which the tool is taken to rest on the surface.
abbrev pub note_surface : Device → DeviceState → Device
note_surface d ds =
    if (is_type cursor_id d && not (ds.buttons == 0)) || (is_type stylus_id d && tip_down ds)
    then record d { surface_dist = ds.distance }
    else d

-- The state of a relative tool too far above the surface goes out of proximity, and stays out;
-- `hard_prox` is the proximity that the tablet reported.
unfoldable pub proxout_check : Device → ℤ → DeviceState → Verdict
proxout_check d hard_prox ds =
    if leb_ℤ (pos 0) d.surface_dist
    then (let far = ltb_ℤ d.proxout_dist (pos (abs (ds.distance -ℤ d.surface_dist))) in
        if is_set d.old_state.proximity
        then sent (if far then record ds { proximity = pos 0 } else ds)
        else if far && is_set hard_prox
        then ignored
        else if not (is_set hard_prox)
        then ignored
        else sent ds)
    else sent ds

-- The last part, from the distance check on.
unfoldable pub distance_step : ℤ → DeviceState → Session → Session
distance_step hard_prox ds s =
    if is_tablet s.dev && not (is_absolute s.dev)
    then (let d = note_surface s.dev ds in
        elim (proxout_check d hard_prox ds) [
          | ignored ↦ set_dev s d
          | sent ds' ↦ send_events ds' (set_dev s d)
        ])
    else send_events ds s

-- What follows the suppression, for a state that is not suppressed.
unfoldable pub motion_step : ℤ → Suppression → DeviceState → Session → Session
motion_step hard_prox suppress ds s =
    let s1 =
      if is_type cursor_id s.dev
      then set_dev s (record (s.dev) { old_cursor_hw_prox = hard_prox })
      else s in
    elim (still_check s1.dev suppress ds) [
      | ignored ↦ s1
      | sent ds' ↦ distance_step hard_prox ds' s1
    ]

unfoldable pub suppress_step : ℤ → DeviceState → Session → Session
suppress_step hard_prox ds s =
    let (suppress, ds') = check_suppress s.common s.dev.old_state ds in
    elim suppress [
      | suppress_none ↦ motion_step hard_prox suppress_none ds' s
      | suppress_all ↦ s
      | suppress_non_motion ↦ motion_step hard_prox suppress_non_motion ds' s
    ]

-- The pressure is used for pens and touch, on a tablet that has it.
abbrev pub has_pressure : Common → Device → Bool
has_pressure c d = (is_pen d || is_type touch_id d) && is_set c.max_z

unfoldable pub pressed_state : Common → Device → DeviceState → Device × DeviceState
pressed_state c d ds = if has_pressure c d then pressure_step c d ds else (d, ds)

-- `commonDispatchDevice`, on the device's channel.
unfoldable pub dispatch_device : Channel → Session → Session × Channel
dispatch_device ch s =
    let ds = get_or ch.states 0 zero_state in
    if ds.device_type == 0
    then (s, ch)
    else if is_refused ds s.dev
    then (s, ch)
    else let (d1, ds1) = pressed_state s.common s.dev ds in
      let (ch1, ds2) = filter_step s.common d1 ch ds1 in
      (suppress_step ds.proximity ds2 (set_dev s d1), ch1)
