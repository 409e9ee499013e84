-- ===== src/Usb/Init/Positive.antt =====
-- What a USB tablet that starts has: the ranges of its axes, and its pad. `usbInitialize` of src/wcmUSB.c.
use xf86_input_wacom.Prelude.{
  ◌≡◌, ◌⊎◌, refl, sym, ap, ◌∙◌, Bool, true, false, ◌&&◌, Option, none, some, if◌then◌else◌, arith,
  Bool-cases, inl, inr,
}
use mathlib.Core.Path.{subst}
use xf86_input_wacom.Prelude.Int.{ℤ, pos, ◌<ℤ◌, ◌≤ℤ◌}
use xf86_input_wacom.State.{Device, Common}
use xf86_input_wacom.Usb.Event.{Abs, abs_x, abs_y}
use xf86_input_wacom.Usb.Tablet.{Usb}
use xf86_input_wacom.Usb.Keys.{Keys}
use xf86_input_wacom.Usb.AxisRanges.{AbsInfo, Answers, Reals}
use xf86_input_wacom.Usb.Init.Ends.{ends_of-ends, init_axes-ends}
use xf86_input_wacom.Usb.Init.{
  start_events, start_abs, start_x, start_y, is_positive, init_axes, usb_initialize, acts_as_touch,
}

-- The range that the start of a tablet finds ends above 0, for touches or for pens.
pub record HasRange (is_touch : Bool) (x y : ℤ) (c : Common) : Type 0 where
  pub end_x : (if is_touch then c.ranges.touch.max_x else c.ranges.pen.max_x) ≡ x
  pub end_y : (if is_touch then c.ranges.touch.max_y else c.ranges.pen.max_y) ≡ y
  pub positive_x : pos 0 <ℤ x
  pub positive_y : pos 0 <ℤ y

init_axes-HasRange :
    (reals : Reals) (a : Answers) (keys : Keys) (m b : Bool) (abs : Abs → Bool) (x y : AbsInfo)
    (c : Common) (u : Usb)
    → is_positive x && is_positive y ≡ true
    → HasRange b x.maximum y.maximum (init_axes reals a keys m b abs x y c u).0
init_axes-HasRange reals a keys m b abs x y c u h =
    let c' = (init_axes reals a keys m b abs x y c u).0 in
    let e = sym (ends_of-ends b c') ∙ init_axes-ends reals a keys m b abs x y c u in
    record {
      end_x = ap (λ (r : ℤ × ℤ). r.0) e;
      end_y = ap (λ (r : ℤ × ℤ). r.1) e;
      positive_x = ground arith;
      positive_y = ground arith;
    }

same_start : (r q : Common × Usb) → ◌≡◌ {A = Option (Common × Usb)} (some r) (some q) → r ≡ q
same_start r q e = cc

no_start : (q : Common × Usb) → ◌≡◌ {A = Option (Common × Usb)} none (some q) → ⊥
no_start q e = cc

module _ (reals : Reals) (a : Answers) (keys : Keys) (d : Device) (c : Common) (u : Usb) where
  usb_initialize-at :
      {m : Bool} {abs : Abs → Bool} (x y : AbsInfo)
      → a.event_bits ≡ some (true, m)
      → a.abs_bits ≡ some abs
      → a.abs_info abs_x ≡ some x
      → a.abs_info abs_y ≡ some y
      → usb_initialize reals a keys d c u ≡ (
          if is_positive x && is_positive y
          then some (init_axes reals a keys m (acts_as_touch keys d) abs x y c u)
          else none)
  unfolding usb_initialize start_events start_abs start_x start_y
  usb_initialize-at {m} {abs} x y ev ab hx hy =
      ap (λ o. start_events reals a keys d c u o) ev
      ∙ ap (λ o. start_abs reals a keys d c u m o) ab
      ∙ ap (λ o. start_x reals a keys d c u m abs o) hx
      ∙ ap (λ o. start_y reals a keys d c u m abs x o) hy

  -- A tablet that starts, and that the kernel tells the ranges of the axes x and y of, has the ends that the kernel
  -- told, for touches if it acts as a touch device and else for pens, and they are above 0.
  pub usb_initialize-HasRange :
      {m : Bool} {abs : Abs → Bool} (x y : AbsInfo) (c' : Common) (u' : Usb)
      → a.event_bits ≡ some (true, m)
      → a.abs_bits ≡ some abs
      → a.abs_info abs_x ≡ some x
      → a.abs_info abs_y ≡ some y
      → usb_initialize reals a keys d c u ≡ some (c', u')
      → HasRange (acts_as_touch keys d) x.maximum y.maximum c'
  usb_initialize-HasRange {m} {abs} x y c' u' ev ab hx hy ok =
      let b = acts_as_touch keys d in
      let started = init_axes reals a keys m b abs x y c u in
      let run = sym (usb_initialize-at x y ev ab hx hy) ∙ ok in
      elim (Bool-cases (is_positive x && is_positive y)) [
        | inl good ↦
            subst (λ (r : Common × Usb). HasRange b x.maximum y.maximum r.0)
              (same_start started (c', u') (rw good at run))
              (init_axes-HasRange reals a keys m b abs x y c u good)
        | inr bad ↦ absurd (no_start (c', u') (rw bad at run))
      ]

  -- Without an end above 0 on each of the two axes, a tablet does not start.
  pub usb_initialize_fails :
      {m : Bool} {abs : Abs → Bool} (x y : AbsInfo)
      → a.event_bits ≡ some (true, m)
      → a.abs_bits ≡ some abs
      → a.abs_info abs_x ≡ some x
      → a.abs_info abs_y ≡ some y
      → (x.maximum ≤ℤ pos 0) ⊎ (y.maximum ≤ℤ pos 0)
      → usb_initialize reals a keys d c u ≡ none
  usb_initialize_fails x y ev ab hx hy (inl h) =
      let bad : (is_positive x && is_positive y) ≡ false = ground arith in
      usb_initialize-at x y ev ab hx hy ∙ rw bad refl
  usb_initialize_fails x y ev ab hx hy (inr h) =
      let bad : (is_positive x && is_positive y) ≡ false = ground arith in
      usb_initialize-at x y ev ab hx hy ∙ rw bad refl
