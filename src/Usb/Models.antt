-- ===== src/Usb/Models.antt =====
-- The models of USB tablets: `DEFINE_MODEL` and `WacomModelDesc` of src/wcmUSB.c, without the names that are shown.
pub mod Descs
pub mod Unique
use xf86_input_wacom.Prelude.{ℕ, Bool, ◌&&◌, Option, none, some, List, [], ◌∷◌, ◌==◌, if◌then◌else◌}
use xf86_input_wacom.State.{Protocol, protocol_4, protocol_5}

-- The models, `usbUnknown` to `usbTabletPC`.
pub data Model : Type 0 where
  unknown pen_partner graphire graphire2 graphire3 graphire4 : Model
  bamboo bamboo1 bamboo_fun cintiq cintiq_partner intuos : Model
  intuos2 intuos3 intuos4 intuos5 intuos_pro volito : Model
  volito2 cintiq_v5 tablet_pc : Model

-- The protocol in a model's definition.
unfoldable pub model_protocol : Model → Protocol
model_protocol unknown = protocol_5
model_protocol pen_partner = protocol_4
model_protocol graphire = protocol_4
model_protocol graphire2 = protocol_4
model_protocol graphire3 = protocol_4
model_protocol graphire4 = protocol_4
model_protocol bamboo = protocol_4
model_protocol bamboo1 = protocol_4
model_protocol bamboo_fun = protocol_4
model_protocol cintiq = protocol_4
model_protocol cintiq_partner = protocol_4
model_protocol intuos = protocol_5
model_protocol intuos2 = protocol_5
model_protocol intuos3 = protocol_5
model_protocol intuos4 = protocol_5
model_protocol intuos5 = protocol_5
model_protocol intuos_pro = protocol_5
model_protocol volito = protocol_4
model_protocol volito2 = protocol_4
model_protocol cintiq_v5 = protocol_5
model_protocol tablet_pc = protocol_4

pub data Vendor : Type 0 where
  wacom waltop hanwang lenovo ntrig : Vendor

-- WACOM_VENDOR_ID and the others.
unfoldable pub vendor_id : Vendor → ℕ
vendor_id wacom = 0x56a
vendor_id waltop = 0x172f
vendor_id hanwang = 0xb57
vendor_id lenovo = 0x17ef
vendor_id ntrig = 0x1b96

-- `struct WacomModelDesc`
pub record ModelDesc : Type 0 where
  pub vendor : Vendor
  pub model_id : ℕ
  pub y_res : ℕ
  pub x_res : ℕ
  pub model : Model

abbrev pub row : Vendor → ℕ → ℕ → ℕ → Model → ModelDesc
row v id y x m = record { vendor = v; model_id = id; y_res = y; x_res = x; model = m }

unfoldable pub matches : ℕ → ℕ → ModelDesc → Bool
matches vendor product r = vendor == vendor_id r.vendor && product == r.model_id

-- The loop of `usbWcmInit` over the table. It goes on after a match, so that the last one counts.
unfoldable pub find_model : ℕ → ℕ → List ModelDesc → Option ModelDesc → Option ModelDesc
find_model vendor product [] found = found
find_model vendor product (r ∷ rs) found =
    find_model vendor product rs (if matches vendor product r then some r else found)
