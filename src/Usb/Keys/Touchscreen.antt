-- ===== src/Usb/Keys/Touchscreen.antt =====
-- A touch screen of the generic protocol is usable as a touch device: `usbProbeKeys` and `usbGenericTouchscreenQuirks`
-- of src/wcmUSB.c, together with the check of a type in src/wcmValidateDevice.c.
use xf86_input_wacom.Prelude.{
  ℕ, ◌≡◌, refl, Bool, true, false, not, ◌&&◌, some, if◌then◌else◌, arith, Bool-cases, inl, inr, ap,
  ◌∙◌,
}
use xf86_input_wacom.State.{Common, generic}
use xf86_input_wacom.Usb.Event.{Abs, abs_misc, abs_mt_slot}
use xf86_input_wacom.Usb.ToolType.{is_generic}
use xf86_input_wacom.Hotplug.{
  Source, Claims, TypeKey, tool_pen, tool_rubber, tool_mouse, tool_doubletap, tool_finger, forward,
  button_0, controlpanel, onscreen_keyboard, touch, is_a_valid_type, has_tool,
}
use xf86_input_wacom.Usb.Keys.{
  KeyName, Keys, btn_tool_pen, btn_tool_rubber, btn_tool_mouse, btn_tool_doubletap, btn_tool_finger,
  btn_forward, btn_0, key_controlpanel, key_onscreen_keyboard, btn_touch, probe_keys,
  touchscreen_quirks, set_finger, set_doubletap,
}

-- The keys of the table of types by their names.
abbrev pub key_name : TypeKey → KeyName
key_name tool_pen = btn_tool_pen
key_name tool_rubber = btn_tool_rubber
key_name tool_mouse = btn_tool_mouse
key_name tool_doubletap = btn_tool_doubletap
key_name tool_finger = btn_tool_finger
key_name forward = btn_forward
key_name button_0 = btn_0
key_name controlpanel = key_controlpanel
key_name onscreen_keyboard = key_onscreen_keyboard

-- What the check of a type reads of a device.
abbrev pub claims_of : Keys → Common → Source → Claims
claims_of keys c source = record {
  keys = λ k. keys (key_name k);
  is_generic = is_generic c.protocol_level;
  source = source;
}

is_a_valid_type_finger :
    (c : Claims)
    → c.keys tool_finger ≡ true
    → c.is_generic ≡ true
    → (is_a_valid_type c (some touch)).1 ≡ true
unfolding is_a_valid_type has_tool
is_a_valid_type_finger c h g = elim (Bool-cases (c.keys tool_doubletap)) [
  | inl tap ↦ ground arith
  | inr no_tap ↦ ground arith
]

doubletap-finger :
    (b : Bool) (keys : Keys)
    → (if b then set_doubletap keys else keys) btn_tool_finger ≡ keys btn_tool_finger
doubletap-finger true keys = refl
doubletap-finger false keys = refl

quirks-finger :
    (abs : Abs → Bool) (keys : Keys) (c : Common)
    → keys btn_touch ≡ true
    → keys btn_tool_pen ≡ false
    → (touchscreen_quirks abs (keys, c)).0 btn_tool_finger ≡ true
unfolding touchscreen_quirks
quirks-finger abs keys c touched no_pen =
    let more = abs abs_mt_slot && not (keys btn_tool_doubletap) in
    let screen = keys btn_touch && (not (keys btn_tool_finger) && not (keys btn_tool_pen)) in
    doubletap-finger more (if screen then set_finger keys else keys)
    ∙ elim (Bool-cases (keys btn_tool_finger)) [
      | inl finger ↦ rw (touched, no_pen, finger) finger
      | inr none_yet ↦ rw (touched, no_pen, none_yet) refl
    ]

quirks-protocol :
    (abs : Abs → Bool) (keys : Keys) (c : Common)
    → (touchscreen_quirks abs (keys, c)).1.protocol_level ≡ c.protocol_level
unfolding touchscreen_quirks
quirks-protocol abs keys c =
    elim (Bool-cases (keys btn_touch && (not (keys btn_tool_finger) && not (keys btn_tool_pen)))) [
      | inl screen ↦ rw screen refl
      | inr other ↦ rw other refl
    ]

-- A device of the generic protocol that knows a touch and no pen passes for a touch device once its keys are
-- probed, and it has the product that the kernel told.
pub probe_keys_touch :
    (keys old : Keys) (vendor product : ℕ) (abs : Abs → Bool) (c : Common) (source : Source)
    → abs abs_misc ≡ false
    → keys btn_touch ≡ true
    → keys btn_tool_pen ≡ false
    → let (keys', c', id) =
        probe_keys (some keys) true (some (vendor, product)) (some abs) (old, c) in
      ((is_a_valid_type (claims_of keys' c' source) (some touch)).1 ≡ true) × (id ≡ product)
unfolding probe_keys
probe_keys_touch keys old vendor product abs c source misc touched no_pen =
    let c0 = record c { protocol_level = generic } in
    let (keys1, c1) = touchscreen_quirks abs (keys, c0) in
    rw misc (
      is_a_valid_type_finger
          (claims_of keys1 (record c1 { vendor_id = vendor; tablet_id = product }) source)
          (quirks-finger abs keys c0 touched no_pen)
          (ap (λ p. is_generic p) (quirks-protocol abs keys c0)),
      refl,
    )
