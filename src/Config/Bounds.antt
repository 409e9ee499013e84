-- ===== src/Config/Bounds.antt =====
-- The bounds of the settings once the options are parsed: `wcmPreInitParseOptions` of src/wcmValidateDevice.c.
use xf86_input_wacom.Prelude.{
  ℕ, ◌≤◌, ◌≡◌, ◌⊎◌, refl, ap, ◌∙◌, Bool, true, false, not, ◌&&◌, ◌||◌, List, [], ◌∷◌, ◌++◌, set,
  arith, Bool-cases, inl, inr,
}
use xf86_input_wacom.Prelude.Int.{ℤ, pos, ◌≤ℤ◌, ◌==ℤ◌, eq_of_parts}
use xf86_input_wacom.State.{Device, Common, Tool}
use xf86_input_wacom.Config.Serials.{parse_serials}
use xf86_input_wacom.Config.Options.{
  on_device, on_common, parse_area, parse_proxout, same_tool, suppress, raw_sample, tool_serials,
  or_default, sample_of, suppress_of, Options, Config, Parsed, ok, failed, and_then, parse_samples,
  parse_suppress, parse_serial_list, parse_panscroll, name_tool, add_tool, has_same,
}
use xf86_input_wacom.Config.PreInit.{
  parse_place, parse_rest, parse_threshold, parse_tpc_button, parse_touch, parse_gesture,
  parse_recalibration,
}

-- The filter has between 1 and 20 samples, and the suppression is off or between 2 and 100.
pub record IsBounded (n : ℕ) (a : ℤ) : Type 0 where
  pub some_samples : 1 ≤ n
  pub few_samples : n ≤ 20
  pub suppress : (a ≡ pos 0) ⊎ ((pos 2 ≤ℤ a) × (a ≤ℤ pos 100))

abbrev pub Bounded : Common → Type 0
Bounded c = IsBounded c.raw_sample c.suppress

sample_of-bounds : (n : ℤ) → (1 ≤ sample_of n) × (sample_of n ≤ 20)
sample_of-bounds n = ground arith

suppress_of-bounds :
    (n : ℤ) → (suppress_of n ≡ pos 0) ⊎ ((pos 2 ≤ℤ suppress_of n) × (suppress_of n ≤ℤ pos 100))
suppress_of-bounds n = elim (Bool-cases (n ==ℤ pos 0)) [
  | inl off ↦ inl (rw off (eq_of_parts n (pos 0) (ground arith)))
  | inr on ↦ inr (ground arith)
]

pub settings-Bounded : (o : Options) (c : Common) → Bounded (parse_suppress o (parse_samples o c))
unfolding parse_suppress parse_samples
settings-Bounded o c =
    let n = or_default (o.int raw_sample) (pos c.raw_sample) in
    record {
      some_samples = (sample_of-bounds n).0;
      few_samples = (sample_of-bounds n).1;
      suppress = suppress_of-bounds (or_default (o.int suppress) c.suppress);
    }

-- The fields that later steps keep.
abbrev pub tuning : Common → ℕ × ℤ × List Tool
tuning c = (c.raw_sample, c.suppress, c.tools)

tuning-threshold : (o : Options) (c : Common) → tuning (parse_threshold o c) ≡ tuning c
unfolding parse_threshold
tuning-threshold o c = ground arith

tuning-tpc_button :
    (b : Bool) (o : Options) (d : Device) (c : Common)
    → tuning (parse_tpc_button b o d c) ≡ tuning c
unfolding parse_tpc_button
tuning-tpc_button b o d c = ground arith

tuning-touch :
    (b : Bool) (o : Options) (d : Device) (c : Common) → tuning (parse_touch b o d c) ≡ tuning c
unfolding parse_touch
tuning-touch b o d c = ground arith

tuning-gesture :
    (b : Bool) (o : Options) (d : Device) (c : Common) → tuning (parse_gesture b o d c) ≡ tuning c
unfolding parse_gesture
tuning-gesture b o d c = ground arith

tuning-recalibration :
    (o : Options) (d : Device) (c : Common) → tuning (parse_recalibration o d c) ≡ tuning c
unfolding parse_recalibration
tuning-recalibration o d c = ground arith

pub tuning-parse_rest :
    (is_primary : Bool) (o : Options) (s : Config)
    → tuning (parse_rest is_primary o s).common ≡ tuning s.common
unfolding parse_rest
tuning-parse_rest is_primary o s =
    simp (tuning-recalibration, tuning-gesture, tuning-touch, tuning-tpc_button, tuning-threshold)

-- Inversion of a step that went well.
pub and_then-ok :
    (r : Parsed) (next : Config → Parsed) (s' : Config)
    → and_then r next ≡ ok s'
    → (s : Config) × (r ≡ ok s) × (next s ≡ ok s')
and_then-ok (ok s) next s' h = (s, refl, h)
and_then-ok (failed s) next s' h = cc

pub ok_common : (s s' : Config) → ok s ≡ ok s' → s'.common ≡ s.common
ok_common s s' e = cc

pub failed_ok : (s s' : Config) → failed s ≡ ok s' → ⊥
failed_ok s s' e = cc

pub common-parse_serial_list :
    (o : Options) (s s' : Config) → parse_serial_list o s ≡ ok s' → s'.common ≡ s.common
unfolding parse_serial_list
common-parse_serial_list o s s' h =
    elim (Bool-cases (parse_serials s.serials (o.text tool_serials)).1) [
      | inl good ↦ ok_common _ s' (rw good at h)
      | inr bad ↦ absurd (failed_ok _ s' (rw bad at h))
    ]

-- No tool of a list has the type and the serial number of a later one.
abbrev pub distinct : List Tool → Bool
distinct [] = true
distinct (t ∷ ts) = not (has_same t ts) && distinct ts

same_tool-sym : (t u : Tool) → same_tool t u ≡ same_tool u t
same_tool-sym t u = ground arith

has_same-add :
    (t u : Tool) (ts : List Tool) → has_same t (ts ++ u ∷ []) ≡ (has_same t ts || same_tool t u)
unfolding has_same
has_same-add t u [] = ground arith
has_same-add t u (w ∷ ws) = ground (arith, has_same-add t u ws)

distinct-add :
    (t : Tool) (ts : List Tool)
    → has_same t ts ≡ false
    → distinct ts ≡ true
    → distinct (ts ++ t ∷ []) ≡ true
unfolding has_same
distinct-add t [] h d = refl
distinct-add t (w ∷ ws) h d =
    ground (arith, has_same-add w t ws, same_tool-sym t w, distinct-add t ws)

-- Where the tools are before a device's own gets its place: this one is the tablet's only one, or not in the list.
pub record ArePlaced (s : Config) : Type 0 where
  pub apart : distinct s.common.tools ≡ true
  pub alone : s.is_first ≡ true → s.common.tools ≡ s.tool ∷ []

distinct-one : (t : Tool) → distinct (t ∷ []) ≡ true
unfolding has_same
distinct-one t = refl

distinct-name_tool : (s : Config) → ArePlaced s → distinct (name_tool s).common.tools ≡ true
unfolding name_tool
distinct-name_tool s p = elim (Bool-cases s.is_first) [
  | inl first ↦
      let t = record (s.tool) { serial = s.device.serial } in
      rw first (ap (λ (ts : List Tool). distinct (set ts 0 t)) (p.alone first) ∙ distinct-one t)
  | inr later ↦ rw later (p.apart)
]

distinct-add_tool :
    (s s' : Config)
    → distinct s.common.tools ≡ true
    → add_tool s ≡ ok s'
    → distinct s'.common.tools ≡ true
unfolding add_tool
distinct-add_tool s s' d h = elim (Bool-cases s.is_first) [
  | inl first ↦ ap (λ (c : Common). distinct c.tools) (ok_common s s' (simp first at h)) ∙ d
  | inr later ↦ (elim (Bool-cases (has_same s.tool s.common.tools)) [
    | inl there ↦ absurd (failed_ok s s' (simp (later, there) at h))
    | inr new ↦
        ap (λ (c : Common). distinct c.tools) (ok_common _ s' (simp (later, new) at h))
        ∙ distinct-add s.tool s.common.tools new d
  ])
]

pub distinct-parse_place :
    (o : Options) (s s' : Config)
    → ArePlaced s
    → parse_place o s ≡ ok s'
    → distinct s'.common.tools ≡ true
unfolding parse_place parse_panscroll
distinct-parse_place o s s' p h =
    let moved = on_device (λ d. parse_area o (parse_proxout o d)) s in
    let placed : ArePlaced moved = record { apart = p.apart; alone = p.alone } in
    distinct-add_tool (on_common (λ c. parse_panscroll o c) (name_tool moved)) s'
      (distinct-name_tool moved placed) h

pub samples-parse_place :
    (o : Options) (s s' : Config)
    → parse_place o s ≡ ok s'
    → (s'.common.raw_sample ≡ s.common.raw_sample) × (s'.common.suppress ≡ s.common.suppress)
unfolding parse_place add_tool name_tool parse_panscroll
samples-parse_place o s s' h = ground arith
