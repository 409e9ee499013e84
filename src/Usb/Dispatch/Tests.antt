-- ===== src/Usb/Dispatch/Tests.antt =====
-- Frames of a pen on an idle tablet, with the tablet's own `wcmEvent`.
use xf86_input_wacom.Prelude.{
  ℕ, ◌≡◌, ◌≢◌, refl, arith, true, false, none, some, List, [], ◌∷◌, ◌++◌, All, inl, inr, replicate,
}
use xf86_input_wacom.Prelude.Int.{pos}
use xf86_input_wacom.State.{DeviceState, zero_state, Channel, stylus_id, protocol_5}
use xf86_input_wacom.State.Zero.{zero_channel, zero_common}
use xf86_input_wacom.Arbiter.{Maths}
use xf86_input_wacom.Usb.Dispatch.Handler.{event_handler, wcm_event-IsHandler}
use mathlib.Core.List.{Memᴰ}
use xf86_input_wacom.Usb.Event.{
  Event, btn_tool_pen, abs_x, abs_pressure, abs_mt_slot, key_event, abs_event,
}
use xf86_input_wacom.Usb.Channels.{max_channels}
use xf86_input_wacom.Usb.ToolType.{
  device_type_from_event, device_type_from_key, device_type_from_abs, is_tablet_tool_in_prox,
}
use xf86_input_wacom.Usb.Tablet.{Usb, Tablet, Host, channel_at, set_usb}
use xf86_input_wacom.Usb.Dispatch.{
  is_mt_axis, finish_frame, parse_all, end_frame, dispatch_on, dispatch_events,
}
use xf86_input_wacom.Usb.Dispatch.Place.{is_plain, place_of, place_at}
use xf86_input_wacom.Usb.Dispatch.Replay.{replay, parse_all_replays}
use xf86_input_wacom.Usb.Dispatch.Sending.{IsHandler, due_from, end_frame_sends}
use xf86_input_wacom.Usb.Dispatch.Delivery.{dispatch_on_delivers}
use xf86_input_wacom.Usb.Dispatch.Errors.{IsHeld, finish_frame_holds}
use xf86_input_wacom.Usb.Dispatch.Priority.{dispatch_events_pen_first}

abbrev near_pen : DeviceState
near_pen = record zero_state {
  device_type = stylus_id;
  proximity = pos 1;
  x = pos 100;
  y = pos 200;
  serial_num = 77;
}

abbrev pen_channel : Channel
pen_channel = record zero_channel { work = near_pen; states = replicate 20 near_pen }

abbrev usb : Usb
usb = record {
  last_tool_serial = 77;
  device_type = stylus_id;
  pen_touch = true;
  use_mt = true;
  mt_channel = none;
  padkeys = [];
  nbuttons = 4;
  last_channel = 0;
}

abbrev tablet : Tablet
tablet = record {
  common = record zero_common {
    channels = pen_channel ∷ replicate 17 zero_channel;
    protocol_level = protocol_5;
    raw_sample = 4;
  };
  usb = usb;
  front = record { devices = []; active = none; calls = [] };
  sent = [];
}

abbrev maths : Maths
maths = record {
  floats = record {
    spread = λ a b c d. pos 0;
    distance = λ a b. pos 0;
    distance_over = λ a b d. pos 0;
    same_direction = λ a b c d. true;
  };
  tilt_to_rotation = λ x y. x;
}

abbrev host : Host
host = record {
  tilt_x = λ v. v;
  tilt_y = λ v. v;
  keys_down = none;
  current_x = none;
  current_y = none;
  handle = event_handler maths 9;
}

abbrev frame : List (ℕ × Event)
frame =
    (5, abs_event abs_x (pos 300))
    ∷ (5, abs_event abs_pressure (pos 40))
    ∷ (6, abs_event abs_x (pos 310))
    ∷ []

frame_plain : All (λ (e : ℕ × Event). is_plain e ≡ true) frame
unfolding is_mt_axis
frame_plain = (refl, (refl, (refl, tt)))

abbrev pen_comes : Event
pen_comes = key_event btn_tool_pen 0x140 (pos 1)

names_pen : device_type_from_event tablet.common true pen_comes ≢ 0
unfolding device_type_from_event device_type_from_key
names_pen = omega arith

abbrev changed_tablet : Tablet
changed_tablet = record tablet {
  common = record (tablet.common) {
    channels = record pen_channel { dirty = true } ∷ replicate 17 zero_channel;
  };
}

wcm_event-IsHandler_example : IsHandler (event_handler maths 9)
wcm_event-IsHandler_example = wcm_event-IsHandler maths 9

end_frame_sends_example :
    ((end_frame host 0 changed_tablet).sent
      ≡ changed_tablet.sent
        ++ due_from changed_tablet.common.touch max_channels 0 changed_tablet.common.channels)
    × ((channel_at (end_frame host 0 changed_tablet) 0).dirty ≡ false)
end_frame_sends_example =
    end_frame_sends host 0 0 changed_tablet (wcm_event-IsHandler maths 9) (omega arith)

parse_all_replays_example :
    place_at 0 (parse_all host 0 frame tablet) ≡ replay frame (place_at 0 tablet)
parse_all_replays_example = parse_all_replays host 0 frame tablet (omega arith) refl frame_plain

dispatch_on_delivers_example :
    (ds : DeviceState) × Memᴰ (0, ds) (dispatch_on host frame (tablet, some 0)).sent
    × (place_of ds ≡ replay frame (place_at 0 tablet))
dispatch_on_delivers_example =
    dispatch_on_delivers host 0 frame tablet (wcm_event-IsHandler maths 9) (omega arith)
      (omega arith) refl (omega arith) (omega arith) (omega arith) refl frame_plain refl

abbrev finger : Event
finger = abs_event abs_mt_slot (pos 0)

names_touch : device_type_from_event tablet.common true finger ≡ 2
unfolding device_type_from_event device_type_from_abs
names_touch = refl

pen_in_prox : is_tablet_tool_in_prox 1 (pos 1) ≡ true
unfolding is_tablet_tool_in_prox
pen_in_prox = refl

dispatch_events_pen_first_example :
    dispatch_events host ((5, finger) ∷ []) tablet
    ≡ set_usb tablet (record (tablet.usb) { device_type = 2 })
dispatch_events_pen_first_example =
    dispatch_events_pen_first host ((5, finger) ∷ []) [] [] finger tablet refl tt names_touch refl
      pen_in_prox

-- A pen that comes near, of which only the pressure is known.
abbrev unplaced : Tablet
unplaced = record tablet {
  common = record (tablet.common) {
    channels =
        record zero_channel {
          work = record zero_state { device_type = stylus_id; proximity = pos 1; pressure = pos 9 };
          dirty = true;
        }
        ∷ replicate 17 zero_channel;
  };
}

finish_frame_holds_example : IsHeld unplaced (finish_frame host 0 zero_state unplaced)
finish_frame_holds_example =
    finish_frame_holds host 0 zero_state unplaced (inr ((refl, refl, cc), inl (refl, refl)))
