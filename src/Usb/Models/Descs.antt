-- ===== src/Usb/Models/Descs.antt =====
-- The table `WacomModelDesc` of src/wcmUSB.c, in three parts.
use xf86_input_wacom.Prelude.{List, [], ◌∷◌, ◌++◌}
use xf86_input_wacom.Usb.Models.{
  ModelDesc, row, wacom, waltop, lenovo, ntrig, pen_partner, graphire, graphire2, graphire3,
  graphire4, bamboo, bamboo1, bamboo_fun, cintiq, cintiq_partner, intuos, intuos2, intuos3, intuos4,
  intuos5, intuos_pro, volito, volito2, cintiq_v5, tablet_pc,
}

-- From the PenPartner to the Bamboo1.
unfoldable pub early_descs : List ModelDesc
early_descs =
    row wacom 0x00 39370 39370 pen_partner
    ∷ row wacom 0x10 80000 80000 graphire
    ∷ row wacom 0x11 80000 80000 graphire2
    ∷ row wacom 0x12 80000 80000 graphire2
    ∷ row wacom 0x13 80000 80000 graphire3
    ∷ row wacom 0x14 80000 80000 graphire3
    ∷ row wacom 0x15 80000 80000 graphire4
    ∷ row wacom 0x16 80000 80000 graphire4
    ∷ row wacom 0x17 100000 100000 bamboo_fun
    ∷ row wacom 0x18 100000 100000 bamboo_fun
    ∷ row wacom 0x19 80000 80000 bamboo1
    ∷ row wacom 0x81 80000 80000 graphire4
    ∷ row wacom 0xD1 100000 100000 bamboo
    ∷ row wacom 0xD4 100000 100000 bamboo
    ∷ row wacom 0xD3 100000 100000 bamboo
    ∷ row wacom 0xD2 100000 100000 bamboo
    ∷ row wacom 0xD0 100000 100000 bamboo
    ∷ row wacom 0xD6 100000 100000 bamboo
    ∷ row wacom 0xD7 100000 100000 bamboo
    ∷ row wacom 0xD8 100000 100000 bamboo
    ∷ row wacom 0xDA 100000 100000 bamboo
    ∷ row wacom 0xDB 100000 100000 bamboo
    ∷ row wacom 0x20 100000 100000 intuos
    ∷ row wacom 0x21 100000 100000 intuos
    ∷ row wacom 0x22 100000 100000 intuos
    ∷ row wacom 0x23 100000 100000 intuos
    ∷ row wacom 0x24 100000 100000 intuos
    ∷ row wacom 0x03 20000 20000 cintiq_partner
    ∷ row wacom 0x30 20000 20000 cintiq
    ∷ row wacom 0x31 20000 20000 cintiq
    ∷ row wacom 0x32 20000 20000 cintiq
    ∷ row wacom 0x33 20000 20000 cintiq
    ∷ row wacom 0x34 20000 20000 cintiq
    ∷ row wacom 0x35 20000 20000 cintiq
    ∷ row wacom 0x37 20000 20000 cintiq
    ∷ row wacom 0x38 20000 20000 cintiq
    ∷ row wacom 0x39 20000 20000 cintiq
    ∷ row wacom 0x3A 20000 20000 cintiq
    ∷ row wacom 0xC0 20000 20000 cintiq
    ∷ row wacom 0xC2 20000 20000 cintiq
    ∷ row wacom 0xC4 20000 20000 cintiq
    ∷ row wacom 0xC7 100000 100000 cintiq
    ∷ row wacom 0xCE 100000 100000 cintiq
    ∷ row wacom 0xF0 100000 100000 cintiq
    ∷ row wacom 0x35a 100000 100000 cintiq
    ∷ row wacom 0x368 100000 100000 cintiq
    ∷ row wacom 0x382 100000 100000 cintiq
    ∷ row wacom 0x37D 100000 100000 cintiq
    ∷ row wacom 0x37E 100000 100000 cintiq
    ∷ row wacom 0x3A6 100000 100000 cintiq
    ∷ row wacom 0x41 100000 100000 intuos2
    ∷ row wacom 0x42 100000 100000 intuos2
    ∷ row wacom 0x43 100000 100000 intuos2
    ∷ row wacom 0x44 100000 100000 intuos2
    ∷ row wacom 0x45 100000 100000 intuos2
    ∷ row wacom 0x47 100000 100000 intuos2
    ∷ row wacom 0x60 50000 50000 volito
    ∷ row wacom 0x61 50000 50000 volito2
    ∷ row wacom 0x62 50000 50000 volito2
    ∷ row wacom 0x63 50000 50000 volito2
    ∷ row wacom 0x64 50000 50000 volito2
    ∷ row wacom 0x65 100000 100000 bamboo
    ∷ row wacom 0x69 39842 39842 bamboo1
    ∷ row wacom 0x6A 100000 100000 bamboo1
    ∷ row wacom 0x6B 100000 100000 bamboo1
    ∷ []

-- From the Intuos3 to the tablet PCs.
unfoldable pub late_descs : List ModelDesc
late_descs =
    row wacom 0xB0 200000 200000 intuos3
    ∷ row wacom 0xB1 200000 200000 intuos3
    ∷ row wacom 0xB2 200000 200000 intuos3
    ∷ row wacom 0xB3 200000 200000 intuos3
    ∷ row wacom 0xB4 200000 200000 intuos3
    ∷ row wacom 0xB5 200000 200000 intuos3
    ∷ row wacom 0xB7 200000 200000 intuos3
    ∷ row wacom 0xB8 200000 200000 intuos4
    ∷ row wacom 0xB9 200000 200000 intuos4
    ∷ row wacom 0xBA 200000 200000 intuos4
    ∷ row wacom 0xBB 200000 200000 intuos4
    ∷ row wacom 0xBC 200000 200000 intuos4
    ∷ row wacom 0xBD 200000 200000 intuos4
    ∷ row wacom 0x26 200000 200000 intuos5
    ∷ row wacom 0x27 200000 200000 intuos5
    ∷ row wacom 0x28 200000 200000 intuos5
    ∷ row wacom 0x29 200000 200000 intuos5
    ∷ row wacom 0x2A 200000 200000 intuos5
    ∷ row wacom 0x314 200000 200000 intuos_pro
    ∷ row wacom 0x315 200000 200000 intuos_pro
    ∷ row wacom 0x317 200000 200000 intuos_pro
    ∷ row wacom 0x3F 200000 200000 cintiq_v5
    ∷ row wacom 0xC5 200000 200000 cintiq_v5
    ∷ row wacom 0xC6 200000 200000 cintiq_v5
    ∷ row wacom 0xCC 200000 200000 cintiq_v5
    ∷ row wacom 0xF4 200000 200000 cintiq_v5
    ∷ row wacom 0xFA 200000 200000 cintiq_v5
    ∷ row wacom 0xF8 200000 200000 cintiq_v5
    ∷ row wacom 0x304 200000 200000 cintiq_v5
    ∷ row wacom 0x57 200000 200000 cintiq_v5
    ∷ row wacom 0x59 200000 200000 cintiq_v5
    ∷ row wacom 0x5B 200000 200000 cintiq_v5
    ∷ row wacom 0x32B 200000 200000 cintiq_v5
    ∷ row wacom 0x32C 200000 200000 cintiq_v5
    ∷ row wacom 0x34A 200000 200000 cintiq_v5
    ∷ row wacom 0x34B 200000 200000 cintiq_v5
    ∷ row wacom 0x34D 200000 200000 cintiq_v5
    ∷ row wacom 0x34E 200000 200000 cintiq_v5
    ∷ row wacom 0x34F 200000 200000 cintiq_v5
    ∷ row wacom 0x350 200000 200000 cintiq_v5
    ∷ row wacom 0x351 200000 200000 cintiq_v5
    ∷ row wacom 0x352 200000 200000 cintiq_v5
    ∷ row wacom 0x353 200000 200000 cintiq_v5
    ∷ row wacom 0x354 200000 200000 cintiq_v5
    ∷ row wacom 0x355 200000 200000 cintiq_v5
    ∷ row wacom 0x356 200000 200000 cintiq_v5
    ∷ row wacom 0x37C 200000 200000 cintiq_v5
    ∷ row wacom 0x398 200000 200000 cintiq_v5
    ∷ row wacom 0x399 200000 200000 cintiq_v5
    ∷ row wacom 0x39A 200000 200000 cintiq_v5
    ∷ row wacom 0x39B 200000 200000 cintiq_v5
    ∷ row wacom 0x3AA 200000 200000 cintiq_v5
    ∷ row wacom 0x3AC 200000 200000 cintiq_v5
    ∷ row wacom 0x90 100000 100000 tablet_pc
    ∷ row wacom 0x93 100000 100000 tablet_pc
    ∷ row wacom 0x97 100000 100000 tablet_pc
    ∷ row wacom 0x9A 100000 100000 tablet_pc
    ∷ row wacom 0x9F 100000 100000 tablet_pc
    ∷ row wacom 0xE2 100000 100000 tablet_pc
    ∷ row wacom 0xE3 100000 100000 tablet_pc
    ∷ row wacom 0xE5 100000 100000 tablet_pc
    ∷ row wacom 0xE6 100000 100000 tablet_pc
    ∷ row wacom 0xEC 100000 100000 tablet_pc
    ∷ row wacom 0xED 100000 100000 tablet_pc
    ∷ row wacom 0xEF 100000 100000 tablet_pc
    ∷ row wacom 0x100 100000 100000 tablet_pc
    ∷ row wacom 0x101 100000 100000 tablet_pc
    ∷ row wacom 0x10D 100000 100000 tablet_pc
    ∷ row wacom 0x116 100000 100000 tablet_pc
    ∷ row wacom 0x12C 100000 100000 tablet_pc
    ∷ row wacom 0x4001 100000 100000 tablet_pc
    ∷ row wacom 0x4004 100000 100000 tablet_pc
    ∷ row wacom 0x5000 100000 100000 tablet_pc
    ∷ row wacom 0x5002 100000 100000 tablet_pc
    ∷ []

-- The tablets of other vendors.
unfoldable pub other_descs : List ModelDesc
other_descs =
    row waltop 0x24 80000 80000 graphire
    ∷ row waltop 0x25 80000 80000 graphire2
    ∷ row waltop 0x26 80000 80000 graphire2
    ∷ row waltop 0x27 80000 80000 graphire3
    ∷ row waltop 0x28 80000 80000 graphire3
    ∷ row waltop 0x30 80000 80000 graphire4
    ∷ row waltop 0x31 80000 80000 graphire4
    ∷ row waltop 0x32 100000 100000 bamboo_fun
    ∷ row waltop 0x33 100000 100000 bamboo_fun
    ∷ row waltop 0x34 80000 80000 bamboo1
    ∷ row waltop 0x35 80000 80000 graphire4
    ∷ row waltop 0x36 80000 80000 graphire4
    ∷ row waltop 0x37 80000 80000 graphire4
    ∷ row waltop 0x38 100000 100000 bamboo_fun
    ∷ row waltop 0x39 100000 100000 bamboo_fun
    ∷ row waltop 0x51 100000 100000 bamboo
    ∷ row waltop 0x52 100000 100000 bamboo
    ∷ row waltop 0x53 100000 100000 bamboo
    ∷ row waltop 0x54 100000 100000 bamboo
    ∷ row waltop 0x55 100000 100000 bamboo
    ∷ row waltop 0x56 100000 100000 bamboo
    ∷ row waltop 0x57 100000 100000 bamboo
    ∷ row waltop 0x58 100000 100000 bamboo
    ∷ row waltop 0x500 100000 100000 bamboo
    ∷ row waltop 0x501 100000 100000 bamboo
    ∷ row waltop 0x502 200000 200000 intuos4
    ∷ row waltop 0x503 200000 200000 intuos4
    ∷ row ntrig 0x01 44173 36772 tablet_pc
    ∷ row lenovo 0x6004 100000 100000 tablet_pc
    ∷ []

unfoldable pub model_descs : List ModelDesc
unfolding early_descs late_descs other_descs
model_descs = early_descs ++ (late_descs ++ other_descs)
