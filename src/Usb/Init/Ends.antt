-- ===== src/Usb/Init/Ends.antt =====
-- The ends of a tablet's ranges through the steps of `usbInitialize` in src/wcmUSB.c.
use xf86_input_wacom.Prelude.{
  ◌≡◌, refl, ap, ◌∙◌, Bool, true, false, Option, none, some, List, if◌then◌else◌, arith, Bool-cases,
  Option-cases, inl, inr,
}
use xf86_input_wacom.Prelude.Int.{ℤ}
use xf86_input_wacom.State.{Channel, Common}
use xf86_input_wacom.Usb.Event.{Abs, abs_mt_slot}
use xf86_input_wacom.Usb.Tablet.{Usb}
use xf86_input_wacom.Usb.Keys.{Keys}
use xf86_input_wacom.Usb.AxisRanges.{
  AbsInfo, Answers, Reals, put_x, put_y, put_axes, put_strip_x, put_strip_y, put_ring, put_tilt_x,
  put_tilt_y, put_distance, put_pressure,
}
use xf86_input_wacom.Usb.Init.{
  put_contacts, init_pad_state, put_slots, put_protocol, put_switch, finish_init, init_axes,
}

-- The ends of the ranges, of pens and of touches.
abbrev pub ends : Common → ℤ × ℤ × ℤ × ℤ
ends c = (c.ranges.pen.max_x, c.ranges.pen.max_y, c.ranges.touch.max_x, c.ranges.touch.max_y)

-- The ends, and the channels.
abbrev pub seen : Common → (ℤ × ℤ × ℤ × ℤ) × List Channel
seen c = (ends c, c.channels)

module _ (reals : Reals) where
  seen-put_strip_x :
      (b : Bool) (i : Option AbsInfo) (c : Common) → seen (put_strip_x reals b i c) ≡ seen c
  unfolding put_strip_x
  seen-put_strip_x b none c = refl
  seen-put_strip_x true (some i) c = refl
  seen-put_strip_x false (some i) c = refl

  seen-put_strip_y :
      (b : Bool) (i : Option AbsInfo) (c : Common) → seen (put_strip_y reals b i c) ≡ seen c
  unfolding put_strip_y
  seen-put_strip_y b none c = refl
  seen-put_strip_y true (some i) c = refl
  seen-put_strip_y false (some i) c = refl

  seen-put_tilt_x : (i : Option AbsInfo) (c : Common) → seen (put_tilt_x reals i c) ≡ seen c
  unfolding put_tilt_x
  seen-put_tilt_x none c = refl
  seen-put_tilt_x (some i) c = refl

  seen-put_tilt_y : (i : Option AbsInfo) (c : Common) → seen (put_tilt_y reals i c) ≡ seen c
  unfolding put_tilt_y
  seen-put_tilt_y none c = refl
  seen-put_tilt_y (some i) c = refl

seen-put_ring : (i : Option AbsInfo) (c : Common) → seen (put_ring i c) ≡ seen c
unfolding put_ring
seen-put_ring none c = refl
seen-put_ring (some i) c = refl

seen-put_pressure : (i : Option AbsInfo) (c : Common) → seen (put_pressure i c) ≡ seen c
unfolding put_pressure
seen-put_pressure none c = refl
seen-put_pressure (some i) c = refl

seen-put_distance : (i : Option AbsInfo) (c : Common) → seen (put_distance i c) ≡ seen c
unfolding put_distance
seen-put_distance none c = refl
seen-put_distance (some i) c = refl

pub seen-put_axes :
    (reals : Reals) (a : Answers) (m b : Bool) (abs : Abs → Bool) (c : Common)
    → seen (put_axes reals a m b abs c) ≡ seen c
unfolding put_axes
seen-put_axes reals a m b abs c = simp (
  seen-put_distance, seen-put_pressure, seen-put_strip_y, seen-put_tilt_y, seen-put_tilt_x,
  seen-put_ring, seen-put_strip_x,
)

seen-put_contacts : (i : Option AbsInfo) (c : Common) → seen (put_contacts i c) ≡ seen c
seen-put_contacts none c = refl
seen-put_contacts (some i) c = refl

pub seen-put_slots :
    (keys : Keys) (abs : Abs → Bool) (i : Option AbsInfo) (c : Common) (u : Usb)
    → seen (put_slots keys abs i (c, u)).0 ≡ seen c
unfolding put_slots
seen-put_slots keys abs i c u = elim (Bool-cases (abs abs_mt_slot)) [
  | inl mt ↦ rw mt (seen-put_contacts i c)
  | inr single ↦ rw single refl
]

pub seen-put_protocol : (abs : Abs → Bool) (c : Common) → seen (put_protocol abs c) ≡ seen c
unfolding put_protocol
seen-put_protocol abs c = ground arith

ends-put_switch : (b : Bool) (s : Option Bool) (c : Common) → ends (put_switch b s c) ≡ ends c
unfolding put_switch
ends-put_switch false s c = refl
ends-put_switch true none c = refl
ends-put_switch true (some m) c = refl

ends-finish_init : (a : Answers) (c : Common) → ends (finish_init a c) ≡ ends c
unfolding finish_init init_pad_state
ends-finish_init a c = elim (Option-cases a.switch_bits) [
  | inl failed ↦ rw failed refl
  | inr (b, there) ↦ rw there (ends-put_switch b a.switch_state c)
]

abbrev pub ends_of : Bool → ℤ × ℤ × ℤ × ℤ → ℤ × ℤ
ends_of true (p, q, t, v) = (t, v)
ends_of false (p, q, t, v) = (p, q)

ends-sized :
    (b : Bool) (x y : AbsInfo) (c : Common)
    → ends_of b (ends (put_y b y (put_x b x c))) ≡ (x.maximum, y.maximum)
unfolding put_x put_y
ends-sized true x y c = refl
ends-sized false x y c = refl

pub init_axes-ends :
    (reals : Reals) (a : Answers) (keys : Keys) (m b : Bool) (abs : Abs → Bool) (x y : AbsInfo)
    (c : Common) (u : Usb)
    → ends_of b (ends (init_axes reals a keys m b abs x y c u).0) ≡ (x.maximum, y.maximum)
unfolding init_axes
init_axes-ends reals a keys m b abs x y c u =
    let sized = put_y b y (put_x b x c) in
    let axes = put_axes reals a m b abs sized in
    let slots = put_slots keys abs (a.abs_info abs_mt_slot) (axes, u) in
    ap (λ e. ends_of b e)
      (ends-finish_init a (put_protocol abs slots.0)
        ∙ ap (λ (r : (ℤ × ℤ × ℤ × ℤ) × List Channel). r.0)
            (seen-put_protocol abs slots.0
              ∙ seen-put_slots keys abs (a.abs_info abs_mt_slot) axes u
              ∙ seen-put_axes reals a m b abs sized))
    ∙ ends-sized b x y c

abbrev pub of_pair : Bool → Common → ℤ × ℤ
of_pair b c = (
  if b then c.ranges.touch.max_x else c.ranges.pen.max_x,
  if b then c.ranges.touch.max_y else c.ranges.pen.max_y,
)

pub ends_of-ends : (b : Bool) (c : Common) → ends_of b (ends c) ≡ of_pair b c
ends_of-ends true c = refl
ends_of-ends false c = refl
