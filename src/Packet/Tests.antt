-- ===== src/Packet/Tests.antt =====
-- Packets of two bytes, of which the parser counts the packets.
use xf86_input_wacom.Prelude.{ℕ, suc, ◌≡◌, refl, arith, List, [], ◌∷◌}
use xf86_input_wacom.Packet.{parsed, parse_loop, read_packet, Reads, read_packet-Reads}
use xf86_input_wacom.Usb.Parse.{usb_parse, usb_parse-IsHonest}

abbrev count_packet : ℕ → List ℕ → ℕ
count_packet n bytes = suc n

two_packets :
    read_packet (usb_parse 2 2 count_packet) 0 (1 ∷ []) (2 ∷ 3 ∷ 4 ∷ 5 ∷ []) ≡ parsed 2 4 (5 ∷ [])
unfolding read_packet parse_loop usb_parse
two_packets = refl

read_packet-Reads_example :
    Reads
      (usb_parse 2 2 count_packet)
      0
      (1 ∷ 2 ∷ 3 ∷ [])
      (read_packet (usb_parse 2 2 count_packet) 0 (1 ∷ []) (2 ∷ 3 ∷ []))
read_packet-Reads_example =
    read_packet-Reads (usb_parse 2 2 count_packet)
      (usb_parse-IsHonest 2 2 count_packet (omega arith)) 0 (1 ∷ []) (2 ∷ 3 ∷ [])
