-- ===== src/Usb/Fields/Buttons.antt =====
-- What a press or a release does to the word of the buttons: `mod_buttons` of src/wcmUSB.c.
use xf86_input_wacom.Prelude.{ℕ, ◌^◌, ◌<◌, ◌≡◌, ◌≢◌, Bool, false, leb, arith}
use xf86_input_wacom.Prelude.Bits.{bit, bit-put_bit_self, bit-put_bit_ne, put_bit_bounds}
use xf86_input_wacom.Usb.Fields.{mod_buttons}

-- A button below 32 takes the value of its event, another button keeps its own, and the word stays within
-- 32 bits.
pub mod_buttons_lem :
    (buttons btn other : ℕ) (state : Bool)
    → buttons < 2 ^ 32
    → btn < 32
    → btn ≢ other
    → (bit (mod_buttons buttons btn state) btn ≡ state)
      × (bit (mod_buttons buttons btn state) other ≡ bit buttons other)
      × (mod_buttons buttons btn state < 2 ^ 32)
unfolding mod_buttons
mod_buttons_lem buttons btn other state word known ne = rw inside (
  bit-put_bit_self state buttons btn,
  bit-put_bit_ne state buttons btn other ne,
  put_bit_bounds state buttons btn 32 known word,
)
  where
    inside : leb 32 btn ≡ false
    inside = ground arith
