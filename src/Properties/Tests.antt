-- ===== src/Properties/Tests.antt =====
-- A button that presses and releases button 3, and a stylus whose properties are set.
use xf86_input_wacom.Prelude.{
  ◌+◌, ◌≡◌, ◌≢◌, refl, true, false, some, [], ◌∷◌, replicate, get_or, arith,
}
use xf86_input_wacom.Prelude.Int.{pos}
use xf86_input_wacom.State.{Device, Common}
use xf86_input_wacom.State.Zero.{zero_device, zero_common}
use xf86_input_wacom.PressureCurve.Setting.{Drawing}
use xf86_input_wacom.Properties.{
  PropertyValue, xa_integer, xa_atom, success, check_action_property, check_value, check_actions,
  check_action, set_action_property, set_checked, set_actions,
}
use xf86_input_wacom.Properties.Forms.{suppress}
use xf86_input_wacom.Properties.Values.{set_value, set_suppress}
use xf86_input_wacom.Properties.Commit.{set_value_checks, set_value_refuses}
use xf86_input_wacom.Properties.Tuned.{IsTuned, set_value-IsTuned}
use xf86_input_wacom.Properties.Lists.{
  Server, strip_buttons, place, set_at, put_setting, set_atom, set_atoms, init_action_prop,
  check_atom, check_atoms, check_actions_property, set_actions_property, get_actions_property,
}
use xf86_input_wacom.Properties.Buttons.{read_back, set_actions_property_shows}

abbrev click : PropertyValue
click = record { size = 2; format = 32; value_type = xa_integer; values = 0x180003 ∷ 0x80003 ∷ [] }

good : check_action_property 70 (some click) ≡ success
unfolding check_action_property check_value check_actions check_action
good = refl

abbrev no_drawing : Drawing
no_drawing = record { can_allocate = false; draw = λ table max points. table }

abbrev tuned : Common
tuned = record zero_common { suppress = pos 2; raw_sample = 4 }

abbrev two_values : PropertyValue
two_values = record { size = 2; format = 32; value_type = xa_integer; values = 9 ∷ 30 ∷ [] }

-- 30 samples are too many.
too_many : (set_value no_drawing suppress two_values false zero_device tuned).status ≢ success
unfolding set_value set_suppress
too_many = cc

set_value_checks_example :
    let check = set_value no_drawing suppress two_values true zero_device tuned in
    let commit = set_value no_drawing suppress check.value false zero_device tuned in
    (check.device ≡ zero_device) × (check.common ≡ tuned) × (commit.status ≡ check.status)
set_value_checks_example = set_value_checks no_drawing suppress two_values zero_device tuned

set_value_refuses_example :
    ((set_value no_drawing suppress two_values false zero_device tuned).device ≡ zero_device)
    × ((set_value no_drawing suppress two_values false zero_device tuned).common ≡ tuned)
set_value_refuses_example =
    set_value_refuses no_drawing suppress two_values false zero_device tuned too_many

start_IsTuned : IsTuned zero_device tuned
start_IsTuned = record {
  some_samples = omega arith;
  few_samples = omega arith;
  suppress_low = omega arith;
  suppress_high = omega arith;
  proxout_low = omega arith;
  proxout_high = omega arith;
  points = tt;
}

abbrev nine_and_ten : PropertyValue
nine_and_ten = record two_values { values = 9 ∷ 10 ∷ [] }

set_value-IsTuned_example :
    IsTuned
      (set_value no_drawing suppress nine_and_ten false zero_device tuned).device
      (set_value no_drawing suppress nine_and_ten false zero_device tuned).common
set_value-IsTuned_example =
    set_value-IsTuned no_drawing suppress nine_and_ten false zero_device tuned start_IsTuned

-- A server that knows one property of a click, whatever its atom.
abbrev one_click : Server
one_click = record {
  Properties = Unit {0};
  get = λ x a. some click;
  valid_atom = λ x a. true;
  change = λ x a p. x;
  button_atom = λ i. 500 + i;
  strip_atom = λ i. 600 + i;
  wheel_atom = λ i. 700 + i;
}

abbrev strips : Device
strips = record zero_device {
  strip_actions = replicate 4 (record { action = replicate 256 0; nactions = 0 });
  action_props = record { btn = []; strip = replicate 4 0; wheel = [] };
}

abbrev four_atoms : PropertyValue
four_atoms = record { size = 4; format = 32; value_type = xa_atom; values = 81 ∷ 0 ∷ 83 ∷ 84 ∷ [] }

strips_set :
    (set_actions_property one_click strip_buttons 90 four_atoms false (strips, tt)).0 ≡ success
unfolding set_actions_property check_actions_property check_atoms check_atom set_atoms place
    set_atom set_at put_setting init_action_prop set_action_property check_action_property
    check_value check_actions check_action set_checked set_actions
strips_set = refl

set_actions_property_shows_example :
    get_or
      (get_actions_property strip_buttons
        (set_actions_property one_click strip_buttons 90 four_atoms false (strips, tt)).1.0)
      1
      0
    ≡ read_back one_click strip_buttons 1 0
set_actions_property_shows_example =
    set_actions_property_shows one_click strip_buttons 90 four_atoms (strips, tt) 1 refl
      (omega arith) refl strips_set (omega arith)
