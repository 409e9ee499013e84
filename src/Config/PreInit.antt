-- ===== src/Config/PreInit.antt =====
-- The rest of `wcmPreInitParseOptions` of src/wcmValidateDevice.c, and the whole of it; `wcmPostInitParseOptions`.
use xf86_input_wacom.Prelude.{
  ℕ, zero, suc, Bool, true, false, not, ◌&&◌, ◌||◌, List, get_or, set, if◌then◌else◌,
}
use xf86_input_wacom.Prelude.Int.{ℤ, pos, ◌*ℤ◌, tdiv, bits32, signed32, is_set}
use xf86_input_wacom.Prelude.Bits.{or_mask}
use xf86_input_wacom.State.{
  Device, Common, GestureParameters, is_type, stylus_id, touch_id, eraser_id, buttons_only_flag,
  has_feature,
}
use xf86_input_wacom.Gesture.{lcd}
use xf86_input_wacom.PressureCurve.Setting.{Drawing}
use xf86_input_wacom.Config.Features.{wcm_1fgt, wcm_2fgt}
use xf86_input_wacom.Config.Options.{
  threshold, buttons_only, tpc_button, touch, gesture, tap_time, pressure_recalibration, button,
  max_z, zoom_distance, scroll_distance, Options, or_default, Config, Parsed, ok, failed, and_then,
  on_device, on_common, parse_mode, parse_rotate, parse_samples, parse_suppress, parse_curve,
  parse_serial_list, parse_proxout, parse_area, name_tool, parse_panscroll, add_tool,
}

-- WCM_TPC, which is two bits.
abbrev pub has_tpc : Common → Bool
has_tpc c = has_feature c 0x200 && has_feature c 0x100

unfoldable pub parse_threshold : Options → Common → Common
parse_threshold o c = record c { threshold = or_default (o.int threshold) c.threshold }

unfoldable pub parse_buttons_only : Options → Device → Device
parse_buttons_only o d =
    if or_default (o.bool buttons_only) false
    then record d { flags = or_mask d.flags buttons_only_flag }
    else d

-- Only the first device or a stylus sets the mode of the tip.
unfoldable pub parse_tpc_button : Bool → Options → Device → Common → Common
parse_tpc_button is_primary o d c =
    if is_primary || is_type stylus_id d
    then record c { tpc_button = or_default (o.bool tpc_button) (has_tpc c) }
    else c

-- Only the first device or a touch device sets touch, which is on by default.
unfoldable pub parse_touch : Bool → Options → Device → Common → Common
parse_touch is_primary o d c =
    if has_feature c wcm_1fgt || has_feature c wcm_2fgt
    then record c {
      touch = if is_primary || is_type touch_id d then or_default (o.bool touch) true else c.touch;
      ranges = record (c.ranges) { max_contacts = if has_feature c wcm_1fgt then pos 1 else pos 2 };
    }
    else c

abbrev put_tap_time : Options → GestureParameters → GestureParameters
put_tap_time o g = record g {
  tap_time = bits32 (or_default (o.int tap_time) (signed32 g.tap_time));
}

unfoldable pub parse_gesture : Bool → Options → Device → Common → Common
parse_gesture is_primary o d c =
    if has_feature c wcm_2fgt
    then record c {
      gesture =
          if is_primary || is_type touch_id d
          then or_default (o.bool gesture) (not (has_feature c lcd))
          else c.gesture;
      gesture_parameters = put_tap_time o c.gesture_parameters;
    }
    else c

unfoldable pub parse_recalibration : Options → Device → Common → Common
parse_recalibration o d c =
    if is_type stylus_id d || is_type eraser_id d
    then record c { pressure_recalibration = or_default (o.bool pressure_recalibration) true }
    else c

-- The stylus of a tablet PC has its buttons 2 and 3 the other way round.
unfoldable pub swap_buttons : Common → Device → Device
swap_buttons c d =
    if has_tpc c && is_type stylus_id d
    then record d { button_default = set (set d.button_default 1 3) 2 2 }
    else d

-- The options for the buttons, from the `i`th on, with `n` to go.
unfoldable pub parse_buttons : Options → ℕ → ℕ → List ℕ → List ℕ
parse_buttons o i zero buttons = buttons
parse_buttons o i (suc n) buttons =
    parse_buttons o (suc i) n
      (set buttons i (bits32 (or_default (o.int (button i)) (signed32 (get_or buttons i 0)))))

-- The part after the tool has its place.
unfoldable pub parse_rest : Bool → Options → Config → Config
parse_rest is_primary o s =
    let d = parse_buttons_only o s.device in
    let c1 = parse_tpc_button is_primary o d (parse_threshold o s.common) in
    let c2 = parse_gesture is_primary o d (parse_touch is_primary o d c1) in
    let c3 = parse_recalibration o d c2 in
    let d1 = swap_buttons c3 d in
    record s {
      device = record d1 { button_default = parse_buttons o 0 32 d1.button_default };
      common = c3;
    }

unfoldable pub parse_first : Bool → Options → Config → Parsed
parse_first is_dependent o s = parse_rotate is_dependent o (on_device (λ d. parse_mode o d) s)

-- From the samples to the serial numbers.
unfoldable pub parse_settings : Drawing → Options → Config → Parsed
parse_settings g o s =
    parse_serial_list o
      (on_device (λ d. parse_curve g o d) (on_common (λ c. parse_suppress o (parse_samples o c)) s))

-- From the distance to the tool.
unfoldable pub parse_place : Options → Config → Parsed
parse_place o s = add_tool (
    on_common (λ c. parse_panscroll o c)
      (name_tool (on_device (λ d. parse_area o (parse_proxout o d)) s)))

-- `wcmPreInitParseOptions`; the class's own options, for which there may be no room, come last.
unfoldable pub pre_init_parse_options : Drawing → Bool → Options → Bool → Bool → Config → Parsed
pre_init_parse_options g has_room o is_primary is_dependent s =
    and_then (parse_first is_dependent o s) (λ s1. and_then (parse_settings g o s1) (λ s2.
      and_then (parse_place o s2)
        (λ s3. let s4 = parse_rest is_primary o s3 in if has_room then ok s4 else failed s4)))

abbrev or_resolution : ℤ → ℤ → ℤ
or_resolution r default = if is_set r then r else default

-- The distances, 6.5 mm and 1.8 mm by the resolution. The doubles of the code come to the same `int`.
abbrev put_distances : Options → ℤ → ℤ → GestureParameters → GestureParameters
put_distances o x y g = record g {
  zoom_distance = bits32 (or_default (o.int zoom_distance) (tdiv (x *ℤ pos 65) (pos 10000)));
  scroll_distance = bits32 (or_default (o.int scroll_distance) (tdiv (y *ℤ pos 18) (pos 10000)));
}

-- `wcmPostInitParseOptions`
unfoldable pub post_init_parse_options : Options → Device → Common → Common
post_init_parse_options o d c =
    let c1 = record c { max_z = or_default (o.int max_z) c.max_z } in
    let x = or_resolution c.ranges.touch.resol_x (pos 27800) in
    let y = or_resolution c.ranges.touch.resol_y (pos 44500) in
    if has_feature c wcm_2fgt && is_type touch_id d
    then record c1 { gesture_parameters = put_distances o x y c1.gesture_parameters }
    else c1
