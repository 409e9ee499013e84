-- ===== src/Usb/Channels/Search.antt =====
-- Searching the channels: the searches of `usbChooseChannel` of src/wcmUSB.c.
use xf86_input_wacom.Prelude.{
  ℕ, zero, suc, ◌+◌, ◌<◌, ◌≡◌, ◌≢◌, refl, sym, inl, inr, Bool, true, false, ◌&&◌, Bool-cases, none,
  some, List, [], ◌∷◌, get_elem?, get_or, ◌⊎◌, length, arith,
}
use xf86_input_wacom.Prelude.Int.{is_set}
use xf86_input_wacom.State.{zero_state, Channel}
use mathlib.Core.Path.{subst}
use xf86_input_wacom.Usb.Channels.{
  pad_channel, default_tool_serial, first_channel, tracks, is_free, is_dropped, drop_tools,
}

-- The channel that a search found, at its place.
pub record Found (p : ℕ → Channel → Bool) (k i : ℕ) (chs : List Channel) : Type 0 where
  pub j : ℕ
  pub ch : Channel
  pub place : i ≡ k + j
  pub there : get_elem? chs j ≡ some ch
  pub holds : p i ch ≡ true

pub first_channel-Found :
    (p : ℕ → Channel → Bool) (k i : ℕ) (chs : List Channel)
    → first_channel p k chs ≡ some i
    → Found p k i chs
first_channel-Found p k i [] e = absurd (ground arith)
first_channel-Found p k i (ch ∷ chs) e = elim (Bool-cases (p k ch)) [
  | inl here ↦ record {
    j = 0;
    ch = ch;
    place = ground arith;
    there = refl;
    holds = subst (λ (x : ℕ). p x ch ≡ true) (found_here here) here;
  }
  | inr later ↦
      let f = first_channel-Found p (suc k) i chs (found_later later) in
      record {
        j = suc f.j;
        ch = f.ch;
        place = omega (arith, f.place);
        there = f.there;
        holds = f.holds;
      }
]
  where
    found_here : p k ch ≡ true → k ≡ i
    found_here here = ground arith

    found_later : p k ch ≡ false → first_channel p (suc k) chs ≡ some i
    found_later later = ground arith

and_false : (b : Bool) → (b && false) ≡ false
and_false true = refl
and_false false = refl

pub drop_tools-none :
    (k : ℕ) (chs : List Channel) → first_channel is_dropped k (drop_tools k chs) ≡ none
unfolding drop_tools
drop_tools-none k [] = refl
drop_tools-none k (ch ∷ chs) = elim (Bool-cases (is_dropped k ch)) [
  | inl dropped ↦ rw (dropped, and_false) (drop_tools-none (suc k) chs)
  | inr kept ↦ rw (kept, kept) (drop_tools-none (suc k) chs)
]

pub in_list :
    (chs : List Channel) (i : ℕ) (ch : Channel) → get_elem? chs i ≡ some ch → i < length chs
in_list [] i ch e = absurd (ground arith)
in_list (c ∷ chs) zero ch e = omega arith
in_list (c ∷ chs) (suc i) ch e = omega (arith, in_list chs i ch e)

pub there_of :
    (p : ℕ → Channel → Bool) (i : ℕ) (chs : List Channel) (f : Found p 0 i chs)
    → get_elem? chs i ≡ some f.ch
there_of p i chs f = subst (λ (x : ℕ). get_elem? chs x ≡ some f.ch) (omega (arith, f.place)) f.there

some_same : (a b : Channel) → some a ≡ some b → a ≡ b
some_same a b e = ground arith

-- A search that finds nothing has looked at every channel.
first_channel-none :
    (p : ℕ → Channel → Bool) (k j : ℕ) (chs : List Channel) (ch : Channel)
    → first_channel p k chs ≡ none
    → get_elem? chs j ≡ some ch
    → p (k + j) ch ≡ false
first_channel-none p k j [] ch e there = absurd (ground arith)
first_channel-none p k zero (c ∷ chs) ch e there = elim (Bool-cases (p k c)) [
  | inl here ↦ absurd (ground arith)
  | inr later ↦
      let here : k ≡ k + 0 = omega arith in
      subst (λ (x : ℕ). p x ch ≡ false) here
        (subst (λ (x : Channel). p k x ≡ false) (some_same c ch there) later)
]
first_channel-none p k (suc j) (c ∷ chs) ch e there = elim (Bool-cases (p k c)) [
  | inl here ↦ absurd (ground arith)
  | inr later ↦
      let at : suc k + j ≡ k + suc j = omega arith in
      subst (λ (x : ℕ). p x ch ≡ false) at
        (first_channel-none p (suc k) j chs ch (rw later at e) there)
]

pub all_fail :
    (p : ℕ → Channel → Bool) (j : ℕ) (chs : List Channel) (ch : Channel)
    → first_channel p 0 chs ≡ none
    → get_elem? chs j ≡ some ch
    → p j ch ≡ false
all_fail p j chs ch e there =
    let at : 0 + j ≡ j = omega arith in
    subst (λ (x : ℕ). p x ch ≡ false) at (first_channel-none p 0 j chs ch e there)

pub drop_tools-keeps :
    (k j : ℕ) (chs : List Channel) (ch : Channel)
    → get_elem? chs j ≡ some ch
    → is_dropped (k + j) ch ≡ false
    → get_elem? (drop_tools k chs) j ≡ some ch
unfolding drop_tools
drop_tools-keeps k j [] ch there kept = absurd (ground arith)
drop_tools-keeps k zero (c ∷ chs) ch there kept =
    let here : k + 0 ≡ k = omega arith in
    let stays : is_dropped k c ≡ false =
      subst (λ (x : Channel). is_dropped k x ≡ false) (sym (some_same c ch there))
        (subst (λ (x : ℕ). is_dropped x ch ≡ false) here kept) in
    rw stays there
drop_tools-keeps k (suc j) (c ∷ chs) ch there kept =
    let at : k + suc j ≡ suc k + j = omega arith in
    drop_tools-keeps (suc k) j chs ch there (subst (λ (x : ℕ). is_dropped x ch ≡ false) at kept)

pub tracks_parts :
    (device_type serial : ℕ) (ch : Channel)
    → tracks device_type serial ch ≡ true
    → (is_set ch.work.proximity ≡ true)
      × (ch.work.device_type ≡ device_type)
      × (ch.work.serial_num ≡ serial)
tracks_parts device_type serial ch h = (ground arith, ground arith, ground arith)

pub tracks_not :
    (device_type serial : ℕ) (ch : Channel)
    → tracks device_type serial ch ≡ false
    → is_set ch.work.proximity ≡ true
    → ch.work.device_type ≡ device_type
    → ch.work.serial_num ≢ serial
tracks_not device_type serial ch h near kind = ground arith

pub free_parts :
    (i : ℕ) (ch : Channel)
    → is_free i ch ≡ true
    → (i ≢ pad_channel)
      × (is_set ch.work.proximity ≡ false)
      × (is_set (get_or ch.states 0 zero_state).proximity ≡ false)
free_parts i ch h = (ground arith, ground arith, ground arith)

pub free_not :
    (j : ℕ) (ch : Channel)
    → is_free j ch ≡ false
    → j ≢ pad_channel
    → (is_set ch.work.proximity ≡ true) ⊎ (is_set (get_or ch.states 0 zero_state).proximity ≡ true)
free_not j ch h no_pad = ground arith

pub dropped_not :
    (j : ℕ) (ch : Channel)
    → is_dropped j ch ≡ false
    → j ≢ pad_channel
    → is_set ch.work.proximity ≡ true
    → ch.work.serial_num ≡ default_tool_serial
dropped_not j ch h no_pad near = ground arith

pub not_dropped :
    (j : ℕ) (ch : Channel)
    → (j ≡ pad_channel)
      ⊎ (is_set ch.work.proximity ≡ false)
      ⊎ (ch.work.serial_num ≡ default_tool_serial)
    → is_dropped j ch ≡ false
not_dropped j ch h = ground arith

pub from_0 : (j : ℕ) → j ≡ 0 + j
from_0 j = omega arith
