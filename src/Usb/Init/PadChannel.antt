-- ===== src/Usb/Init/PadChannel.antt =====
-- The pad of a USB tablet is in proximity from the start: `usbWcmInitPadState` and `usbInitialize` of src/wcmUSB.c.
use xf86_input_wacom.Prelude.{
  ◌<◌, ◌≡◌, refl, sym, ap, ◌∙◌, Bool, true, false, ◌&&◌, Option, none, some, List, length, get_or,
  set, get_or-set_self, Bool-cases, inl, inr,
}
use mathlib.Core.Path.{subst}
use xf86_input_wacom.State.{Channel, Device, Common, pad_id}
use xf86_input_wacom.Prelude.Int.{pos}
use xf86_input_wacom.Usb.ToolType.{pad_device_id}
use xf86_input_wacom.State.Zero.{zero_channel}
use xf86_input_wacom.Usb.Event.{Abs, abs_x, abs_y, abs_mt_slot}
use xf86_input_wacom.Usb.Channels.{pad_channel}
use xf86_input_wacom.Usb.Tablet.{Usb}
use xf86_input_wacom.Usb.Keys.{Keys}
use xf86_input_wacom.Usb.AxisRanges.{AbsInfo, Answers, Reals, put_x, put_y, put_axes}
use xf86_input_wacom.Usb.Init.Ends.{seen-put_axes, seen-put_slots, seen-put_protocol}
use xf86_input_wacom.Usb.Init.{
  start_events, start_abs, start_x, start_y, init_pad_state, pad_in_proximity, put_slots,
  put_protocol, put_switch, finish_init, init_axes, usb_initialize, acts_as_touch, is_pad_only,
  pad_alone, is_positive,
}

-- The channels with the pad in proximity.
with_pad : List Channel → List Channel
with_pad chs = set chs pad_channel (pad_in_proximity (get_or chs pad_channel zero_channel))

channels-sized :
    (b : Bool) (x y : AbsInfo) (c : Common) → (put_y b y (put_x b x c)).channels ≡ c.channels
unfolding put_x put_y
channels-sized b x y c = refl

init_pad_state-HasPad :
    (c : Common)
    → pad_channel < length c.channels
    → get_or (with_pad c.channels) pad_channel zero_channel
      ≡ pad_in_proximity (get_or c.channels pad_channel zero_channel)
unfolding with_pad
init_pad_state-HasPad c room =
    get_or-set_self c.channels pad_channel
      (pad_in_proximity (get_or c.channels pad_channel zero_channel)) zero_channel room

channels-put_switch :
    (b : Bool) (s : Option Bool) (c : Common) → (put_switch b s c).channels ≡ c.channels
unfolding put_switch
channels-put_switch false s c = refl
channels-put_switch true none c = refl
channels-put_switch true (some m) c = refl

channels-finish_init :
    (a : Answers) (b : Bool) (c : Common)
    → a.switch_bits ≡ some b
    → (finish_init a c).channels ≡ with_pad c.channels
unfolding finish_init init_pad_state with_pad
channels-finish_init a b c there =
    rw there (ap (λ chs. with_pad chs) (channels-put_switch b a.switch_state c))

channels-init_axes :
    (reals : Reals) (a : Answers) (keys : Keys) (m b : Bool) (abs : Abs → Bool) (x y : AbsInfo)
    (c : Common) (u : Usb) (s : Bool)
    → a.switch_bits ≡ some s
    → (init_axes reals a keys m b abs x y c u).0.channels ≡ with_pad c.channels
unfolding init_axes
channels-init_axes reals a keys m b abs x y c u s there =
    let sized = put_y b y (put_x b x c) in
    let axes = put_axes reals a m b abs sized in
    let slots = put_slots keys abs (a.abs_info abs_mt_slot) (axes, u) in
    channels-finish_init a s (put_protocol abs slots.0) there
    ∙ ap (λ chs. with_pad chs)
        (ap (λ r. r.1)
            (seen-put_protocol abs slots.0
              ∙ seen-put_slots keys abs (a.abs_info abs_mt_slot) axes u
              ∙ seen-put_axes reals a m b abs sized)
          ∙ channels-sized b x y c)

-- The pad's channel: in proximity, with the pad's type, id and channel number.
pub record IsPadNear (ch : Channel) : Type 0 where
  pub near : ch.work.proximity ≡ pos 1
  pub type : ch.work.device_type ≡ pad_id
  pub id : ch.work.device_id ≡ pos pad_device_id
  pub number : ch.work.serial_num ≡ pad_channel

pad_in_proximity-IsPadNear : (ch old : Channel) → ch ≡ pad_in_proximity old → IsPadNear ch
pad_in_proximity-IsPadNear ch old e = record {
  near = ap (λ (x : Channel). x.work.proximity) e;
  type = ap (λ (x : Channel). x.work.device_type) e;
  id = ap (λ (x : Channel). x.work.device_id) e;
  number = ap (λ (x : Channel). x.work.serial_num) e;
}

-- Every way to start, if it comes to an end, leaves the pad.
abbrev AllPadded : Common → Option (Common × Usb) → Type 0
AllPadded c none = Unit {0}
AllPadded c (some r) = r.0.channels ≡ with_pad c.channels

module _ (reals : Reals) (a : Answers) (keys : Keys) (d : Device) (c : Common) (u : Usb) (s : Bool)
    (there : a.switch_bits ≡ some s) where
  pad_alone-AllPadded : AllPadded c (pad_alone keys c u)
  unfolding init_pad_state with_pad
  pad_alone-AllPadded = elim (Bool-cases (is_pad_only keys)) [
    | inl only ↦ rw only refl
    | inr axes ↦ rw axes tt
  ]

  start_y-AllPadded :
      (m : Bool) (abs : Abs → Bool) (x : AbsInfo) (i : Option AbsInfo)
      → AllPadded c (start_y reals a keys d c u m abs x i)
  unfolding start_y
  start_y-AllPadded m abs x none = tt
  start_y-AllPadded m abs x (some y) = elim (Bool-cases (is_positive x && is_positive y)) [
    | inl good ↦
        rw good (channels-init_axes reals a keys m (acts_as_touch keys d) abs x y c u s there)
    | inr bad ↦ rw bad tt
  ]

  start_x-AllPadded :
      (m : Bool) (abs : Abs → Bool) (i : Option AbsInfo)
      → AllPadded c (start_x reals a keys d c u m abs i)
  unfolding start_x
  start_x-AllPadded m abs none = pad_alone-AllPadded
  start_x-AllPadded m abs (some x) = start_y-AllPadded m abs x (a.abs_info abs_y)

  start_abs-AllPadded :
      (m : Bool) (i : Option (Abs → Bool)) → AllPadded c (start_abs reals a keys d c u m i)
  unfolding start_abs
  start_abs-AllPadded m none = tt
  start_abs-AllPadded m (some abs) = start_x-AllPadded m abs (a.abs_info abs_x)

  start_events-AllPadded :
      (i : Option (Bool × Bool)) → AllPadded c (start_events reals a keys d c u i)
  unfolding start_events
  start_events-AllPadded none = tt
  start_events-AllPadded (some (false, m)) = pad_alone-AllPadded
  start_events-AllPadded (some (true, m)) = start_abs-AllPadded m a.abs_bits

  -- A tablet that starts, and whose switches the kernel tells of, has the pad in proximity on the pad's channel,
  -- with the pad's type, id and channel number; its other channels are as they were.
  pub usb_initialize_pad :
      (r : Common × Usb)
      → pad_channel < length c.channels
      → usb_initialize reals a keys d c u ≡ some r
      → IsPadNear (get_or r.0.channels pad_channel zero_channel)
        × (r.0.channels ≡ set c.channels pad_channel (get_or r.0.channels pad_channel zero_channel))
  unfolding usb_initialize with_pad
  usb_initialize_pad r room ok =
      let padded : AllPadded c (some r) =
        subst (λ o. AllPadded c o) ok (start_events-AllPadded a.event_bits) in
      let here : get_or r.0.channels pad_channel zero_channel
          ≡ pad_in_proximity (get_or c.channels pad_channel zero_channel) =
        ap (λ chs. get_or chs pad_channel zero_channel) padded ∙ init_pad_state-HasPad c room in
      (
        pad_in_proximity-IsPadNear (get_or r.0.channels pad_channel zero_channel)
            (get_or c.channels pad_channel zero_channel) here,
        padded ∙ ap (λ ch. set c.channels pad_channel ch) (sym here),
      )
