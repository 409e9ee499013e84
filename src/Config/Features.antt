-- ===== src/Config/Features.antt =====
-- What is known of a tablet by its id and its keys: `wcmSpecialTypeKeys` and `wcmDeviceTypeKeys` of src/wcmConfig.c.
use xf86_input_wacom.Prelude.{ℕ, Bool, false, ◌||◌, List, [], ◌∷◌, ◌==◌, if◌then◌else◌}
use xf86_input_wacom.State.{Common, Protocol, generic, protocol_4, protocol_5}
use xf86_input_wacom.Gesture.{lcd}
use xf86_input_wacom.Arbiter.{wcm_rotation, wcm_ring}
use xf86_input_wacom.Usb.Keys.{
  Keys, set_feature, set_tpc, btn_tool_pen, btn_tool_doubletap, btn_tool_tripletap, btn_tool_finger,
}

-- WCM_PEN ... WCM_DUALRING
abbrev pub wcm_pen : ℕ
wcm_pen = 0x1

abbrev pub wcm_1fgt : ℕ
wcm_1fgt = 0x4

abbrev pub wcm_2fgt : ℕ
wcm_2fgt = 0x8

abbrev pub wcm_strip : ℕ
wcm_strip = 0x10

abbrev pub wcm_dualinput : ℕ
wcm_dualinput = 0x40

abbrev pub wcm_dualring : ℕ
wcm_dualring = 0x800

unfoldable pub is_one_of : ℕ → List ℕ → Bool
is_one_of id [] = false
is_one_of id (i ∷ is) = id == i || is_one_of id is

-- The two tablets with two rings, whose case falls through.
abbrev pub dual_ring_ids : List ℕ
dual_ring_ids = 0xF8 ∷ 0xF4 ∷ []

-- Tablets with a ring that turn the mouse's tilt, whose case falls through.
abbrev pub pro_ids : List ℕ
pro_ids =
    0x34D ∷ 0x34E ∷ 0x398 ∷ 0x399 ∷ 0x3AA ∷ 0x357 ∷ 0x358 ∷ 0x360 ∷ 0x36a ∷ 0x392 ∷ 0x393 ∷ 0x314
    ∷ 0x315 ∷ 0x317 ∷ 0x26 ∷ 0x27 ∷ 0x28 ∷ 0x29 ∷ 0x2A ∷ 0xB8 ∷ 0xB9 ∷ 0xBA ∷ 0xBB ∷ 0xBC ∷ 0xBD
    ∷ []

-- Tablets with a ring.
abbrev pub ring_ids : List ℕ
ring_ids = 0x17 ∷ 0x18 ∷ []

-- Tablets that support two tools at once.
abbrev pub dual_input_ids : List ℕ
dual_input_ids = 0x20 ∷ 0x21 ∷ 0x22 ∷ 0x23 ∷ 0x24 ∷ 0x41 ∷ 0x42 ∷ 0x43 ∷ 0x44 ∷ 0x45 ∷ 0x47 ∷ []

-- Tablets with menu strips.
abbrev pub strip_ids : List ℕ
strip_ids =
    0x3F ∷ 0xC5 ∷ 0xC6 ∷ 0xCC ∷ 0xFA ∷ 0x5B ∷ 0xB0 ∷ 0xB1 ∷ 0xB2 ∷ 0xB3 ∷ 0xB4 ∷ 0xB5 ∷ 0xB7 ∷ []

-- Tablet PCs.
abbrev pub tablet_pc_ids : List ℕ
tablet_pc_ids =
    0x100 ∷ 0x101 ∷ 0x10D ∷ 0x116 ∷ 0x12C ∷ 0x4001 ∷ 0x4004 ∷ 0x5000 ∷ 0x5002 ∷ 0xE2 ∷ 0xE3 ∷ 0xE5
    ∷ 0xE6 ∷ 0x93 ∷ 0x9A ∷ 0xEC ∷ 0xED ∷ 0x90 ∷ 0x97 ∷ 0x9F ∷ 0xEF ∷ []

-- Displays that turn the mouse's tilt.
abbrev pub rotation_ids : List ℕ
rotation_ids =
    0x304 ∷ 0x307 ∷ 0x30A ∷ 0x325 ∷ 0x32A ∷ 0x32B ∷ 0x333 ∷ 0x34F ∷ 0x350 ∷ 0x351 ∷ 0x352 ∷ 0x37C
    ∷ 0x390 ∷ 0x391 ∷ 0x396 ∷ 0x3AE ∷ 0x3B0 ∷ []

abbrev pub set_ring : Common → Common
set_ring c = set_feature wcm_ring c

abbrev pub set_rotation_ring : Common → Common
set_rotation_ring c = set_ring (set_feature wcm_rotation c)

-- `wcmSpecialTypeKeys`
unfoldable pub special_type_keys : Common → Common
special_type_keys c =
    let id = c.tablet_id in
    if is_one_of id dual_ring_ids
    then set_rotation_ring (set_feature wcm_dualring c)
    else if is_one_of id pro_ids
    then set_rotation_ring c
    else if is_one_of id ring_ids
    then set_ring c
    else if is_one_of id dual_input_ids
    then set_feature wcm_dualinput c
    else if is_one_of id strip_ids
    then set_feature wcm_rotation (set_feature wcm_strip c)
    else if is_one_of id tablet_pc_ids
    then set_tpc c
    else if is_one_of id rotation_ids
    then set_feature wcm_rotation c
    else c

-- The number of fingers, by the meaning that the protocol gives to the keys.
unfoldable pub touch_keys : Protocol → Keys → Common → Common
touch_keys protocol_4 keys c =
    if keys btn_tool_tripletap
    then set_feature wcm_2fgt c
    else if keys btn_tool_doubletap
    then set_feature wcm_1fgt c
    else c
touch_keys generic keys c =
    if keys btn_tool_doubletap
    then set_feature wcm_2fgt c
    else if keys btn_tool_finger
    then set_feature wcm_1fgt c
    else c
touch_keys protocol_5 keys c = c

-- `wcmDeviceTypeKeys` after the keys are probed; `direct` is INPUT_PROP_DIRECT.
unfoldable pub device_type_keys : Bool → Keys × Common × ℕ → Common
device_type_keys direct (keys, c, id) =
    let c0 = record c { tablet_id = id } in
    let c1 = if c0.vendor_id == 0x56a then special_type_keys c0 else c0 in
    let c2 = if direct then set_feature lcd c1 else c1 in
    let c3 = if keys btn_tool_pen then set_feature wcm_pen c2 else c2 in
    touch_keys c3.protocol_level keys c3
