-- ===== src/Config/Options.antt =====
-- The options of a device before its tablet is started: `wcmPreInitParseOptions` of src/wcmValidateDevice.c.
use xf86_input_wacom.Prelude.{
  ℕ, Bool, true, false, not, ◌&&◌, ◌||◌, Option, none, some, List, [], ◌∷◌, ◌++◌, set, ◌==◌,
  if◌then◌else◌,
}
use xf86_input_wacom.Prelude.Int.{ℤ, pos, negsuc, pos_part, bits32, ltb_ℤ, ◌==ℤ◌}
use xf86_input_wacom.Prelude.Text.{Text, codes, same_word, scan_int}
use xf86_input_wacom.State.{
  Device, Common, Tool, Rotation, upright, cw, ccw, half, is_type, touch_id, cursor_id, pad_id,
}
use xf86_input_wacom.Dispatch.Pressure.{is_pen}
use xf86_input_wacom.Life.{rotate_tablet}
use xf86_input_wacom.PressureCurve.{check_pressure_curve_values}
use xf86_input_wacom.PressureCurve.Setting.{Drawing, set_pressure_curve}
use xf86_input_wacom.Session.Mode.{set_absolute}
use xf86_input_wacom.Config.Serials.{SerialTool, parse_serials}

-- The names of the options; `button` has the number that "Button%d" shows, less one.
pub data OptionName : Type 0 where
  mode rotate raw_sample suppress press_curve pressure2k tool_serials : OptionName
  cursor_prox stylus_prox top_x top_y bottom_x bottom_y serial : OptionName
  panscroll_threshold smooth_panscrolling threshold buttons_only tpc_button : OptionName
  touch gesture tap_time pressure_recalibration : OptionName
  max_z zoom_distance scroll_distance : OptionName
  button : ℕ → OptionName

-- The front end's options: `wcmOptGetStr`, `wcmOptGetInt` and `wcmOptGetBool`, `none` for one that is not there.
pub record Options : Type 0 where
  pub text : OptionName → Option Text
  pub int : OptionName → Option ℤ
  pub bool : OptionName → Option Bool

abbrev pub or_default {ℓ} : {A : Type ℓ} → Option A → A → A
or_default none d = d
or_default (some a) d = a

-- What the options change: the device, its tablet's record and its list of serial numbers, and the device's tool.
-- `is_first` tells that this tool is the first of the tablet's.
pub record Config : Type 0 where
  pub device : Device
  pub common : Common
  pub serials : List SerialTool
  pub tool : Tool
  pub is_first : Bool

pub data Parsed : Type 0 where
  ok failed : Config → Parsed

-- What follows a step, unless it failed.
abbrev pub and_then : Parsed → (Config → Parsed) → Parsed
and_then (ok s) next = next s
and_then (failed s) next = failed s

abbrev pub on_device : (Device → Device) → Config → Config
on_device f s = record s { device = f s.device }

abbrev pub on_common : (Common → Common) → Config → Config
on_common f s = record s { common = f s.common }

abbrev mode_by : Option Text → Device → Device
mode_by none d = d
mode_by (some s) d =
    if same_word s (codes "absolute")
    then set_absolute d true
    else if same_word s (codes "relative")
    then set_absolute d false
    else d

-- The pad is absolute, and its rings scroll.
abbrev pad_wheels : List ℕ → List ℕ
pad_wheels w = set (set (set (set w 2 4) 4 4) 3 5) 5 5

unfoldable pub parse_mode : Options → Device → Device
parse_mode o d =
    let d1 = mode_by (o.text mode) d in
    if is_type pad_id d1
    then set_absolute (record d1 { wheel_default = pad_wheels d1.wheel_default }) true
    else d1

-- The rotation of a word, `none` for an invalid one.
unfoldable pub rotation_word : Text → Option Rotation
rotation_word s =
    if same_word s (codes "CW")
    then some cw
    else if same_word s (codes "CCW")
    then some ccw
    else if same_word s (codes "HALF")
    then some half
    else if same_word s (codes "NONE")
    then some upright
    else none

abbrev pub rotation_number : Rotation → ℕ
rotation_number upright = 0
rotation_number cw = 1
rotation_number ccw = 2
rotation_number half = 3

-- A dependent device does not turn its tablet another way.
abbrev pub rotate_to : Bool → Option Rotation → Config → Parsed
rotate_to is_dependent none s = failed s
rotate_to is_dependent (some r) s =
    if is_dependent && not (rotation_number r == rotation_number s.common.rotate)
    then ok s
    else ok (on_common (λ c. rotate_tablet r c) s)

abbrev pub rotate_by : Bool → Option Text → Config → Parsed
rotate_by is_dependent none s = ok s
rotate_by is_dependent (some w) s = rotate_to is_dependent (rotation_word w) s

unfoldable pub parse_rotate : Bool → Options → Config → Parsed
parse_rotate is_dependent o s = rotate_by is_dependent (o.text rotate) s

abbrev pub sample_of : ℤ → ℕ
sample_of n = if ltb_ℤ n (pos 1) || ltb_ℤ (pos 20) n then 4 else pos_part n

unfoldable pub parse_samples : Options → Common → Common
parse_samples o c = record c {
  raw_sample = sample_of (or_default (o.int raw_sample) (pos c.raw_sample));
}

-- 0 disables the suppression, and any other value comes between 2 and 100.
abbrev pub suppress_of : ℤ → ℤ
suppress_of n =
    if n ==ℤ pos 0
    then n
    else if ltb_ℤ (pos 100) n
    then pos 100
    else if ltb_ℤ n (pos 2)
    then pos 2
    else n

unfoldable pub parse_suppress : Options → Common → Common
parse_suppress o c = record c { suppress = suppress_of (or_default (o.int suppress) c.suppress) }

-- `sscanf` with "%d,%d,%d,%d": a number after a comma, and four numbers.
abbrev pub comma_int : Option (ℤ × Text) → Option (ℤ × Text)
comma_int none = none
comma_int (some (n, [])) = none
comma_int (some (n, c ∷ cs)) = if c == b',' then scan_int cs else none

abbrev four :
    Option (ℤ × Text) → Option (ℤ × Text) → Option (ℤ × Text) → Option (ℤ × Text) → Option (List ℤ)
four (some (a, _)) (some (b, _)) (some (c, _)) (some (d, _)) = some (a ∷ b ∷ c ∷ d ∷ [])
four _ _ _ _ = none

unfoldable pub scan_points : Text → Option (List ℤ)
scan_points s =
    let a = scan_int s in let b = comma_int a in let c = comma_int b in four a b c (comma_int c)

abbrev curve_by : Drawing → Option (List ℤ) → Device → Device
curve_by g (some (a ∷ b ∷ c ∷ e ∷ [])) d =
    if check_pressure_curve_values a b c e then set_pressure_curve g d a b c e else d
curve_by g _ d = d

unfoldable pub parse_curve : Drawing → Options → Device → Device
parse_curve g o d =
    let points = scan_points (or_default (o.text press_curve) (codes "0,0,100,100")) in
    let d1 = if is_pen d || is_type touch_id d then curve_by g points d else d in
    if or_default (o.bool pressure2k) false then record d1 { max_curve = pos 2048 } else d1

unfoldable pub parse_serial_list : Options → Config → Parsed
parse_serial_list o s =
    let (found, good) = parse_serials s.serials (o.text tool_serials) in
    let s1 = record s { serials = found } in if good then ok s1 else failed s1

-- A distance out of the hardware's range is only told of.
unfoldable pub parse_proxout : Options → Device → Device
parse_proxout o d =
    let name = if is_type cursor_id d then cursor_prox else stylus_prox in
    if is_pen d || is_type cursor_id d
    then record d { proxout_dist = or_default (o.int name) (pos 0); surface_dist = negsuc 0 }
    else d

unfoldable pub parse_area : Options → Device → Device
parse_area o d = record d {
  top_x = or_default (o.int top_x) (pos 0);
  top_y = or_default (o.int top_y) (pos 0);
  bottom_x = or_default (o.int bottom_x) (pos 0);
  bottom_y = or_default (o.int bottom_y) (pos 0);
  serial = bits32 (or_default (o.int serial) (pos 0));
}

-- The device's serial number is its tool's, in the tablet's list too if the tool is there.
unfoldable pub name_tool : Config → Config
name_tool s =
    let t = record (s.tool) { serial = s.device.serial } in
    let s1 = record s { tool = t } in
    if s.is_first then on_common (λ (c : Common). record c { tools = set c.tools 0 t }) s1 else s1

unfoldable pub parse_panscroll : Options → Common → Common
parse_panscroll o c = record c {
  panscroll_threshold = or_default (o.int panscroll_threshold) c.panscroll_threshold;
  panscroll_is_smooth = or_default (o.bool smooth_panscrolling) true;
}

abbrev pub same_tool : Tool → Tool → Bool
same_tool t u = t.typeid == u.typeid && t.serial == u.serial

unfoldable pub has_same : Tool → List Tool → Bool
has_same t [] = false
has_same t (u ∷ us) = same_tool t u || has_same t us

-- Another tool than the first is put at the end of the list, unless there is one of its type and serial number.
unfoldable pub add_tool : Config → Parsed
add_tool s =
    if s.is_first
    then ok s
    else if has_same s.tool s.common.tools
    then failed s
    else ok (on_common (λ (c : Common). record c { tools = c.tools ++ s.tool ∷ [] }) s)
