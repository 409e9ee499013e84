-- ===== src/Usb/Setup.antt =====
-- The model of a USB tablet and what follows from it: `usbWcmInit`, `usbInitProtocol4` and `usbInitProtocol5` but for
-- the ranges, and `usbDetectConfig` of src/wcmUSB.c.
use xf86_input_wacom.Prelude.{
  ℕ, Bool, true, false, ◌&&◌, ◌||◌, Option, none, some, length, ◌==◌, if◌then◌else◌,
}
use xf86_input_wacom.Prelude.Int.{ℤ, pos, is_set}
use xf86_input_wacom.Prelude.Bits.{or_mask, clear_mask}
use xf86_input_wacom.State.{
  Ranges, Device, Common, Protocol, generic, protocol_4, protocol_5, is_type, stylus_id, pad_id,
}
use xf86_input_wacom.Usb.Keys.{KeyName, Keys, set_feature, find_padkeys, btn_tool_mouse}
use xf86_input_wacom.Usb.Tablet.{Usb}
use xf86_input_wacom.Usb.Models.{
  Model, ModelDesc, find_model, unknown, intuos, intuos2, intuos3, intuos4,
}
use xf86_input_wacom.Usb.Models.Descs.{model_descs}

abbrev pub is_intuos : Model → Bool
is_intuos intuos = true
is_intuos intuos2 = true
is_intuos intuos3 = true
is_intuos intuos4 = true
is_intuos _ = false

-- The tablets whose ids of tools are of the old format.
unfoldable pub has_legacy_ids : Model → ℕ → ℕ → Bool
has_legacy_ids m vendor product =
    is_intuos m
    || (vendor == 0x56a
        && (product == 0x3f || (product == 0xc5 || (product == 0xc6 || product == 0xcc))))

abbrev pub wcm_legacy_ids : ℕ
wcm_legacy_ids = 0x1000

abbrev pub put_resolution : ℤ → ℤ → Common → Common
put_resolution x y c = record c {
  ranges = record (c.ranges) { pen = record (c.ranges.pen) { resol_x = x; resol_y = y } };
}

-- The tablet's record, its model and the protocol's data.
pub record Setup : Type 0 where
  pub common : Common
  pub model : Model
  pub usb : Usb

-- The row that was found, and the model that the record has already.
abbrev found_model : Option ModelDesc → Option Model → Common → Common × Model
found_model (some r) old c = (put_resolution (pos r.x_res) (pos r.y_res) c, r.model)
found_model none (some m) c = (c, m)
found_model none none c = (put_resolution (pos 1016) (pos 1016) c, unknown)

-- `usbWcmInit`, with the answer to EVIOCGID: vendor and product.
unfoldable pub usb_wcm_init :
    (KeyName → ℕ) → Keys → Option (ℕ × ℕ) → Option Model → Common → Usb → Option Setup
usb_wcm_init code keys none old c u = none
usb_wcm_init code keys (some (vendor, product)) old c u =
    let (c1, m) = found_model (find_model vendor product model_descs none) old c in
    some record {
      common = if has_legacy_ids m vendor product then set_feature wcm_legacy_ids c1 else c1;
      model = m;
      usb = record u {
        padkeys = find_padkeys code keys;
        nbuttons = if keys btn_tool_mouse then 5 else 4;
      };
    }

abbrev pub put_ranges : (Ranges → Ranges) → Common → Common
put_ranges f c = record c { ranges = f c.ranges }

abbrev put_default_proxout : ℤ → Common → Common
put_default_proxout n c = put_ranges (λ (r : Ranges). record r { proxout_dist_default = n }) c

-- `usbInitProtocol5` and `usbInitProtocol4`, before they call `usbInitialize`.
unfoldable pub init_protocol : Protocol → Common → Common
init_protocol protocol_5 c =
    put_default_proxout (pos 10)
      (record c { protocol_level = protocol_5; wcm_flags = or_mask c.wcm_flags 2 })
init_protocol protocol_4 c =
    put_default_proxout (pos 42)
      (record c { protocol_level = protocol_4; wcm_flags = clear_mask c.wcm_flags 2 })
init_protocol generic c = c

-- `usbDetectConfig`
unfoldable pub detect_config : Common → Usb → Device → Device
detect_config c u d =
    let dist =
      if is_set d.proxout_dist
      then d.proxout_dist
      else if is_type stylus_id d
      then pos 30
      else c.ranges.proxout_dist_default in
    record d {
      nbuttons = if is_type pad_id d then length u.padkeys else u.nbuttons;
      proxout_dist = dist;
    }
