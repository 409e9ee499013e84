-- ===== src/Config/Parsing.antt =====
-- What a device's options leave once they are parsed without an error: `wcmPreInitParseOptions` of src/wcmValidateDevice.c.
use xf86_input_wacom.Prelude.{
  ℕ, ◌≡◌, sym, ap, ◌∙◌, Bool, true, not, ◌&&◌, ◌==◌, Option, none, some, List, if◌then◌else◌,
  Bool-cases, inl, inr,
}
use mathlib.Core.Path.{subst}
use xf86_input_wacom.Prelude.Int.{ℤ}
use xf86_input_wacom.Prelude.Text.{Text}
use xf86_input_wacom.State.{Common, Rotation, Tool}
use xf86_input_wacom.PressureCurve.Setting.{Drawing}
use xf86_input_wacom.Config.Options.{
  Options, rotate, tool_serials, Config, ok, failed, on_device, on_common, parse_mode, parse_rotate,
  rotate_by, rotate_to, rotation_word, rotation_number, parse_samples, parse_suppress, parse_curve,
  parse_serial_list,
}
use xf86_input_wacom.Config.Serials.{parse_serials}
use xf86_input_wacom.Life.{rotate_tablet}
use xf86_input_wacom.Config.PreInit.{
  parse_first, parse_settings, parse_place, parse_rest, pre_init_parse_options,
}
use xf86_input_wacom.Config.Bounds.{
  IsBounded, Bounded, tuning, tuning-parse_rest, and_then-ok, settings-Bounded,
  common-parse_serial_list, ArePlaced, distinct, distinct-parse_place, samples-parse_place,
  ok_common, failed_ok,
}

module _ (g : Drawing) (has_room : Bool) (o : Options) (is_primary is_dependent : Bool)
    (s s' : Config) where
  -- The configurations between the parts of a parse that went well.
  record Parts : Type 0 where
    s1 : Config
    s2 : Config
    s3 : Config
    first : parse_first is_dependent o s ≡ ok s1
    settings : parse_settings g o s1 ≡ ok s2
    place : parse_place o s2 ≡ ok s3
    rest : tuning s'.common ≡ tuning s3.common

  last_part :
      (s3 : Config)
      → (if has_room then ok (parse_rest is_primary o s3) else failed (parse_rest is_primary o s3))
        ≡ ok s'
      → tuning s'.common ≡ tuning s3.common
  last_part s3 h = elim (Bool-cases has_room) [
    | inl room ↦
        ap (λ (c : Common). tuning c) (ok_common (parse_rest is_primary o s3) s' (rw room at h))
        ∙ tuning-parse_rest is_primary o s3
    | inr full ↦ absurd (failed_ok (parse_rest is_primary o s3) s' (rw full at h))
  ]

  parts : pre_init_parse_options g has_room o is_primary is_dependent s ≡ ok s' → Parts
  unfolding pre_init_parse_options
  parts h =
      let (s1, first, h1) = and_then-ok (parse_first is_dependent o s) _ s' h in
      let (s2, settings, h2) = and_then-ok (parse_settings g o s1) _ s' h1 in
      let (s3, place, h3) = and_then-ok (parse_place o s2) _ s' h2 in
      record {
        s1 = s1;
        s2 = s2;
        s3 = s3;
        first = first;
        settings = settings;
        place = place;
        rest = last_part s3 h3;
      }

settings-IsBounded :
    (g : Drawing) (o : Options) (s s' : Config) → parse_settings g o s ≡ ok s' → Bounded s'.common
unfolding parse_settings
settings-IsBounded g o s s' h =
    subst (λ (c : Common). Bounded c) (sym (common-parse_serial_list o _ s' h))
      (settings-Bounded o s.common)

ok_eq : (s s' : Config) → ok s ≡ ok s' → s ≡ s'
ok_eq s s' e = cc

rotate_to-ArePlaced :
    (is_dependent : Bool) (r : Option Rotation) (s s' : Config)
    → ArePlaced s
    → rotate_to is_dependent r s ≡ ok s'
    → ArePlaced s'
rotate_to-ArePlaced is_dependent none s s' p h = absurd (failed_ok s s' h)
rotate_to-ArePlaced is_dependent (some r) s s' p h =
    elim (Bool-cases (is_dependent && not (rotation_number r == rotation_number s.common.rotate))) [
      | inl other ↦ subst (λ t. ArePlaced t) (ok_eq s s' (simp other at h)) p
      | inr fits ↦
          subst (λ t. ArePlaced t)
            (ok_eq (on_common (λ (c : Common). rotate_tablet r c) s) s' (simp fits at h))
            (record { apart = p.apart; alone = p.alone })
    ]

rotate_by-ArePlaced :
    (is_dependent : Bool) (w : Option Text) (s s' : Config)
    → ArePlaced s
    → rotate_by is_dependent w s ≡ ok s'
    → ArePlaced s'
rotate_by-ArePlaced is_dependent none s s' p h = subst (λ t. ArePlaced t) (ok_eq s s' h) p
rotate_by-ArePlaced is_dependent (some w) s s' p h =
    rotate_to-ArePlaced is_dependent (rotation_word w) s s' p h

first-ArePlaced :
    (is_dependent : Bool) (o : Options) (s s' : Config)
    → ArePlaced s
    → parse_first is_dependent o s ≡ ok s'
    → ArePlaced s'
unfolding parse_first parse_rotate
first-ArePlaced is_dependent o s s' p h =
    rotate_by-ArePlaced is_dependent (o.text rotate) (on_device (λ d. parse_mode o d) s) s'
      (record { apart = p.apart; alone = p.alone }) h

serial_list-ArePlaced :
    (o : Options) (s s' : Config) → ArePlaced s → parse_serial_list o s ≡ ok s' → ArePlaced s'
unfolding parse_serial_list
serial_list-ArePlaced o s s' p h =
    let found = parse_serials s.serials (o.text tool_serials) in
    elim (Bool-cases (found.1)) [
      | inl good ↦
          subst (λ t. ArePlaced t) (ok_eq (record s { serials = found.0 }) s' (simp good at h))
            (record { apart = p.apart; alone = p.alone })
      | inr bad ↦ absurd (failed_ok (record s { serials = found.0 }) s' (simp bad at h))
    ]

settings-ArePlaced :
    (g : Drawing) (o : Options) (s s' : Config)
    → ArePlaced s
    → parse_settings g o s ≡ ok s'
    → ArePlaced s'
unfolding parse_settings parse_suppress parse_samples
settings-ArePlaced g o s s' p h =
    serial_list-ArePlaced o
      (on_device (λ d. parse_curve g o d) (on_common (λ c. parse_suppress o (parse_samples o c)) s))
      s' (record { apart = p.apart; alone = p.alone }) h

module _ (g : Drawing) (has_room : Bool) (o : Options) (is_primary is_dependent : Bool)
    (s s' : Config)
    (parsed : pre_init_parse_options g has_room o is_primary is_dependent s ≡ ok s') where
  -- Whatever the options say, once they are parsed without an error the filter has between 1 and 20 samples, and the
  -- suppression is off or between 2 and 100.
  pub pre_init_parse_options-IsBounded : IsBounded s'.common.raw_sample s'.common.suppress
  pre_init_parse_options-IsBounded =
      let p = parts g has_room o is_primary is_dependent s s' parsed in
      let b = settings-IsBounded g o p.s1 p.s2 p.settings in
      let placed = samples-parse_place o p.s2 p.s3 p.place in
      let samples = ap (λ (t : ℕ × ℤ × List Tool). t.0) p.rest ∙ placed.0 in
      let suppressed = ap (λ (t : ℕ × ℤ × List Tool). t.1) p.rest ∙ placed.1 in
      rw (samples, suppressed) b

  -- When a device's options are parsed without an error, no two tools of its tablet have the same type and serial
  -- number, if no two had before and the device's own tool was either the only one or not among them.
  pub pre_init_parse_options-distinct : ArePlaced s → distinct s'.common.tools ≡ true
  pre_init_parse_options-distinct placed =
      let p = parts g has_room o is_primary is_dependent s s' parsed in
      ap (λ (t : ℕ × ℤ × List Tool). distinct t.2) p.rest
      ∙ distinct-parse_place o p.s2 p.s3
          (settings-ArePlaced g o p.s1 p.s2 (first-ArePlaced is_dependent o s p.s1 placed p.first)
            p.settings)
          p.place
