-- ===== src/Config/Tests.antt =====
-- A stylus whose options are parsed, and a pen and a touch device that are linked.
use xf86_input_wacom.Prelude.{ℕ, ◌≡◌, refl, true, false, none, some, [], ◌∷◌, arith}
use xf86_input_wacom.Prelude.Int.{pos, bits32}
use xf86_input_wacom.Prelude.Text.{
  codes, span, scan_set, value_of, skip_space, scan_int, split, tokens,
}
use xf86_input_wacom.State.{Tool, stylus_id, touch_id}
use xf86_input_wacom.State.Zero.{zero_common}
use xf86_input_wacom.PressureCurve.Setting.{Drawing}
use xf86_input_wacom.Config.Types.{new_device}
use xf86_input_wacom.Config.Serials.{serial_type, parse_serial, parse_tokens, parse_serials}
use xf86_input_wacom.Config.Options.{
  failed, raw_sample, Options, Config, Parsed, ok, has_same, parse_mode, parse_rotate,
  parse_serial_list, name_tool, add_tool,
}
use xf86_input_wacom.Config.PreInit.{
  parse_first, parse_settings, parse_place, pre_init_parse_options,
}
use xf86_input_wacom.Config.Bounds.{IsBounded, ArePlaced, distinct}
use xf86_input_wacom.Config.Parsing.{
  pre_init_parse_options-IsBounded, pre_init_parse_options-distinct,
}
use xf86_input_wacom.Config.Linking.{
  same_tablet, Devices, Port, common_of, update_common, is_sibling_device, put_touch, put_pentouch,
  link_device, unlink_device, split_name, words, split_back, strip_subdevices, join_back,
}
use xf86_input_wacom.Config.Linking.Links.{AreFree}
use xf86_input_wacom.Config.Linking.Undo.{unlink_device_undoes}

-- The example of the manual: a pen, an art pen with a name, a cursor.
serials_read : parse_serials [] (some (codes "123,airbrush;456,artpen,My Pen;7,cursor")) ≡ (
  record { serial = 123; typeid = 9; name = [] }
      ∷ record { serial = 456; typeid = 1; name = codes "My Pen" }
      ∷ record { serial = 7; typeid = 4; name = [] }
      ∷ [],
  true,
)
unfolding parse_serials parse_tokens parse_serial serial_type tokens split scan_int scan_set span
    value_of skip_space bits32
serials_read = refl

abbrev new_tool : Tool
new_tool = record { typeid = 0; serial = 77; enabled = false; device = none }

abbrev no_drawing : Drawing
no_drawing = record { can_allocate = false; draw = λ table max points. table }

-- 99 samples.
abbrev options : Options
options = record {
  text = λ n. none;
  int = λ n. elim n [ raw_sample ↦ some (pos 99) | _ ↦ none ];
  bool = λ n. none;
}

abbrev pen_tool : Tool
pen_tool = record { typeid = stylus_id; serial = 0; enabled = false; device = some 0 }

abbrev start : Config
start = record {
  device = record new_device { flags = 0x101 };
  common = record zero_common { tools = pen_tool ∷ [] };
  serials = [];
  tool = pen_tool;
  is_first = true;
}

abbrev config_of : Parsed → Config
config_of (ok s) = s
config_of (failed s) = s

abbrev finished : Config
finished = config_of (pre_init_parse_options no_drawing true options true false start)

parsed : pre_init_parse_options no_drawing true options true false start ≡ ok finished
unfolding pre_init_parse_options parse_first parse_mode parse_rotate parse_settings
    parse_serial_list parse_serials parse_place add_tool name_tool
parsed = refl

pre_init_parse_options-IsBounded_example :
    IsBounded finished.common.raw_sample finished.common.suppress
pre_init_parse_options-IsBounded_example =
    pre_init_parse_options-IsBounded no_drawing true options true false start finished parsed

start-ArePlaced : ArePlaced start
unfolding has_same
start-ArePlaced = record { apart = refl; alone = λ first. refl }

pre_init_parse_options-distinct_example : distinct finished.common.tools ≡ true
pre_init_parse_options-distinct_example =
    pre_init_parse_options-distinct no_drawing true options true false start finished parsed
      start-ArePlaced

abbrev own_port : ℕ → Port
own_port n = record { path = n ∷ []; tablet_id = 0x314; tablet_type = 0; touch_device = none }

abbrev two_devices : Devices
two_devices = record {
  entries =
      record { kind = stylus_id; name = codes "Wacom Intuos Pro S Pen stylus"; port = 0 }
      ∷ record { kind = touch_id; name = codes "Wacom Intuos Pro S Finger touch"; port = 1 }
      ∷ [];
  ports = own_port 0 ∷ own_port 1 ∷ [];
}

abbrev linked : Devices
linked = (link_device 0 1 two_devices).0

links : link_device 0 1 two_devices ≡ (linked, true)
unfolding link_device is_sibling_device same_tablet split_name words split_back strip_subdevices
    join_back put_touch put_pentouch update_common
links = refl

are_free : AreFree 0 1 two_devices
are_free = record {
  apart = record {
    different = (omega arith);
    first_there = omega arith;
    second_there = omega arith;
  };
  first_free = refl;
  second_free = refl;
  first_clear = refl;
  second_clear = refl;
  same_id = refl;
}

unlink_device_undoes_example :
    let (back, done) = unlink_device 0 1 linked in
    (done ≡ true)
    × (common_of back 0 ≡ common_of two_devices 0)
    × (common_of back 1 ≡ common_of two_devices 1)
unlink_device_undoes_example = unlink_device_undoes 0 1 two_devices linked are_free links
