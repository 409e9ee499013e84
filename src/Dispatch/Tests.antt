-- ===== src/Dispatch/Tests.antt =====
-- Runs of the checks between the protocol and the events, on a pen.
use xf86_input_wacom.Prelude.{◌/◌, ◌↔◌, ◌≡◌, refl, arith, inl, inr, true, some, [], ◌∷◌}
use xf86_input_wacom.Prelude.Int.{pos}
use xf86_input_wacom.Prelude.Bits.{has_mask}
use xf86_input_wacom.State.{DeviceState, zero_state, Device, Common, Tool, stylus_id}
use xf86_input_wacom.State.Zero.{zero_device, zero_common}
use xf86_input_wacom.Dispatch.Suppress.{check_suppress, suppress_none}
use xf86_input_wacom.Dispatch.Suppress.Motion.{check_suppress_news}
use xf86_input_wacom.Dispatch.Pressure.{set_pressure_button, pressure_step}
use xf86_input_wacom.Dispatch.Pressure.Bounds.{
  IsPressure, IsPressed, set_pressure_button_lem, pressure_step_bounds,
}
use xf86_input_wacom.Dispatch.Tools.{find_tool}
use xf86_input_wacom.Dispatch.Tools.Find.{find_tool_lem}

abbrev any_pen : Tool
any_pen = record { typeid = 1; serial = 0; enabled = true; device = some 0 }

abbrev tablet : Common
tablet = record zero_common {
  suppress = pos 2;
  max_z = pos 2047;
  threshold = pos 851;
  pressure_recalibration = true;
  tools = any_pen ∷ [];
}

abbrev pen : Device
pen = record zero_device { flags = stylus_id; max_curve = pos 65536 }

abbrev hover : DeviceState
hover = record zero_state {
  device_type = stylus_id;
  proximity = pos 1;
  x = pos 7;
  pressure = pos 300;
}

abbrev away : DeviceState
away = record hover { proximity = pos 0 }

check_suppress_news_example : (check_suppress tablet hover away).0 ≡ suppress_none
check_suppress_news_example = check_suppress_news tablet hover away (inr refl) (inl refl)

set_pressure_button_lem_example :
    (set_pressure_button tablet pen 6 (pos 900) / 2 ≡ 6 / 2)
    × ((has_mask (set_pressure_button tablet pen 6 (pos 900)) 1 ≡ true)
        ↔ IsPressed tablet pen (pos 900))
set_pressure_button_lem_example = set_pressure_button_lem tablet pen 6 (pos 900)

-- A pen with a short curve that rises late.
abbrev curved_pen : Device
curved_pen = record pen {
  max_curve = pos 4;
  press_curve = some (pos 0 ∷ pos 0 ∷ pos 1 ∷ pos 2 ∷ pos 4 ∷ []);
}

pressure_step_bounds_example : IsPressure (pos 4) (pressure_step tablet curved_pen hover).1.pressure
pressure_step_bounds_example = pressure_step_bounds tablet curved_pen hover (omega arith) (
  omega arith,
  (
    (omega arith, omega arith),
    (
      (omega arith, omega arith),
      ((omega arith, omega arith), ((omega arith, omega arith), ((omega arith, omega arith), tt))),
    ),
  ),
)

find_tool_lem_example : find_tool tablet hover ≡ some any_pen
find_tool_lem_example = find_tool_lem tablet hover
