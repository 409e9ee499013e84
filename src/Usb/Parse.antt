-- ===== src/Usb/Parse.antt =====
-- `usbParse` of src/wcmUSB.c, the parser that `wcmReadPacket` calls.
use xf86_input_wacom.Prelude.{ℕ, ◌≤◌, List, take, length, ltb, if◌then◌else◌, arith}
use xf86_input_wacom.Prelude.Int.{ℤ, pos}
use xf86_input_wacom.Packet.{IsHonest}

-- The size of the kernel's `struct input_event`, the tablet's packet length, and `usbParseEvent` on the bytes of
-- an event.
module _ {ℓ} {S : Type ℓ} (event_size pkt_length : ℕ) (parse_bytes : S → List ℕ → S) where
  unfoldable pub usb_parse : S → List ℕ → ℤ × S
  usb_parse s bytes =
      if ltb (length bytes) event_size
      then (pos 0, s)
      else (pos pkt_length, parse_bytes s (take event_size bytes))

  pub usb_parse-IsHonest : pkt_length ≤ event_size → IsHonest usb_parse
  unfolding usb_parse
  usb_parse-IsHonest h s bytes = ground arith
