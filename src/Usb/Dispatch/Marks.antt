-- ===== src/Usb/Dispatch/Marks.antt =====
-- Which events mark a channel as changed, so that the end of the frame sends it: the parsers and the loop
-- of src/wcmUSB.c, seen on the mark.
use xf86_input_wacom.Prelude.{
  ℕ, ◌<◌, ◌≡◌, ap, ◌∙◌, Bool, true, false, ◌&&◌, ◌||◌, Bool-cases, inl, inr, Option, none, some,
  List, [], ◌∷◌, All, length, ◌==◌, if◌then◌else◌, arith,
}
use xf86_input_wacom.Prelude.Int.{ℤ}
use xf86_input_wacom.State.{DeviceState, Channel, Common, touch_id}
use xf86_input_wacom.Usb.Event.{
  Key, Abs, Rel, Event, abs_x, abs_y, abs_pressure, abs_distance, key_event, abs_event, rel_event,
  mute_switch, other_event,
}
use xf86_input_wacom.Usb.Fields.{
  parse_generic_abs, parse_abs_event, parse_key_event, parse_btn_event,
}
use xf86_input_wacom.Usb.Tablet.{Tablet, Host, channel_at, update_channel}
use xf86_input_wacom.Usb.Tablet.Update.{channel_at-update, channel_at-update_self}
use xf86_input_wacom.Usb.Dispatch.{
  filter_event, is_mt_axis, parse_on_mt, parse_rel_event, parse_one, parse_unfiltered, parse_all,
}
use xf86_input_wacom.Usb.Dispatch.Place.{move, is_plain}
use xf86_input_wacom.Usb.Dispatch.Replay.{Takes, mt_of_plain, parse_unfiltered-Moves}

-- Channel `c` is marked as changed.
abbrev pub IsMarked : ℕ → Tablet → Type 0
IsMarked c t = (channel_at t c).dirty ≡ true

still : (marked change : Bool) → marked ≡ true → (marked || change) ≡ true
still marked change h = ground arith

update-IsMarked :
    (c i : ℕ) (f : Channel → Channel) (t : Tablet)
    → ((ch : Channel) → ch.dirty ≡ true → (f ch).dirty ≡ true)
    → IsMarked c t
    → IsMarked c (update_channel i f t)
update-IsMarked c i f t keeps h =
    channel_at-update (λ (ch : Channel). ch.dirty ≡ true) c i f t keeps h

abs-IsMarked :
    (h : Host) (now : ℕ) (a : Abs) (v : ℤ) (c : Common) (ch : Channel)
    → ch.dirty ≡ true
    → (parse_abs_event h.tilt_x h.tilt_y c now a v ch).dirty ≡ true
unfolding parse_abs_event
abs-IsMarked h now a v c ch e = still _ _ e

key-IsMarked :
    (c : Common) (now : ℕ) (k : Key) (v : ℤ) (ch : Channel)
    → ch.dirty ≡ true
    → (parse_key_event c now k v ch).dirty ≡ true
unfolding parse_key_event
key-IsMarked c now k v ch e = still _ _ e

btn-IsMarked :
    (padkeys : List ℕ) (now : ℕ) (k : Key) (n : ℕ) (v : ℤ) (ch : Channel)
    → ch.dirty ≡ true
    → (parse_btn_event padkeys now k n v ch).dirty ≡ true
unfolding parse_btn_event
btn-IsMarked padkeys now k n v ch e = still _ _ e

rel-IsMarked :
    (now : ℕ) (r : Rel) (v : ℤ) (ch : Channel)
    → ch.dirty ≡ true
    → (parse_rel_event now r v ch).dirty ≡ true
unfolding parse_rel_event
rel-IsMarked now r v ch e = ground arith

parse_on_mt-IsMarked :
    (c now : ℕ) (m : Option ℕ) (a : Abs) (v : ℤ) (t : Tablet)
    → IsMarked c t
    → IsMarked c (parse_on_mt m now a v t)
unfolding parse_on_mt
parse_on_mt-IsMarked c now none a v t h = h
parse_on_mt-IsMarked c now (some m) a v t h = update-IsMarked c m _ t (λ ch e. still _ _ e) h

if-IsMarked :
    (b : Bool) (c : ℕ) (t u : Tablet)
    → IsMarked c t
    → IsMarked c u
    → IsMarked c (if b then t else u)
if-IsMarked true c t u h k = h
if-IsMarked false c t u h k = k

parse_one-IsMarked :
    (h : Host) (c now : ℕ) (e : Event) (t : Tablet)
    → is_plain (now, e) ≡ true
    → IsMarked c t
    → IsMarked c (parse_one h c now e t)
unfolding parse_one
parse_one-IsMarked h c now (abs_event a v) t plain m = rw (mt_of_plain h now a v _ (ground arith)) (
    parse_on_mt-IsMarked c now _ a v _
      (update-IsMarked c c _ t (λ ch e. abs-IsMarked h now a v t.common ch e) m))
parse_one-IsMarked h c now (rel_event r v) t plain m =
    update-IsMarked c c _ t (λ ch e. rel-IsMarked now r v ch e) m
parse_one-IsMarked h c now (key_event k n v) t plain m =
    update-IsMarked c _ _ _ (λ ch e. btn-IsMarked t.usb.padkeys now k n v ch e)
      (update-IsMarked c c _ t (λ ch e. key-IsMarked t.common now k v ch e) m)
parse_one-IsMarked h c now (mute_switch v) t plain m = if-IsMarked _ c _ t m m
parse_one-IsMarked h c now other_event t plain m = m

parse_unfiltered-IsMarked :
    (h : Host) (c : ℕ) (e : ℕ × Event) (t : Tablet)
    → is_plain e ≡ true
    → IsMarked c t
    → IsMarked c (parse_unfiltered h c e t)
unfolding parse_unfiltered
parse_unfiltered-IsMarked h c (now, e) t plain m =
    if-IsMarked (filter_event t e) c t _ m (parse_one-IsMarked h c now e t plain m)

parse_all-IsMarked :
    (h : Host) (c : ℕ) (es : List (ℕ × Event)) (t : Tablet)
    → All (λ (e : ℕ × Event). is_plain e ≡ true) es
    → IsMarked c t
    → IsMarked c (parse_all h c es t)
unfolding parse_all
parse_all-IsMarked h c [] t plain m = m
parse_all-IsMarked h c (e ∷ es) t (plain, plains) m =
    parse_all-IsMarked h c es _ plains (parse_unfiltered-IsMarked h c e t plain m)

-- The frame tells of the position, pressure or distance.
abbrev pub is_move : Event → Bool
is_move (abs_event abs_x v) = true
is_move (abs_event abs_y v) = true
is_move (abs_event abs_pressure v) = true
is_move (abs_event abs_distance v) = true
is_move (abs_event _ v) = false
is_move (key_event k n v) = false
is_move (rel_event r v) = false
is_move (mute_switch v) = false
is_move other_event = false

abbrev pub has_move : List (ℕ × Event) → Bool
has_move [] = false
has_move (e ∷ es) = is_move e.1 || has_move es

generic-move :
    (f g : ℤ → ℤ) (a : Abs) (v : ℤ) (ds : DeviceState)
    → is_move (abs_event a v) ≡ true
    → (parse_generic_abs f g a v ds).1 ≡ true
unfolding parse_generic_abs
generic-move f g a v ds h = ground arith

abs-move :
    (f g : ℤ → ℤ) (now : ℕ) (a : Abs) (v : ℤ) (c : Common) (ch : Channel)
    → is_move (abs_event a v) ≡ true
    → (parse_abs_event f g c now a v ch).dirty ≡ true
unfolding parse_abs_event
abs-move f g now a v c ch h = ground (arith, generic-move f g a v ch.work h)

-- An axis of a single tool is not filtered out.
heard :
    (now : ℕ) (a : Abs) (v : ℤ) (t : Tablet)
    → is_mt_axis a ≡ false
    → (t.usb.use_mt && (t.usb.device_type == touch_id)) ≡ false
    → filter_event t (abs_event a v) ≡ false
unfolding filter_event
heard now a v t plain single = ground arith

parse_one-move :
    (h : Host) (c now : ℕ) (a : Abs) (v : ℤ) (t : Tablet)
    → is_mt_axis a ≡ false
    → c < length t.common.channels
    → is_move (abs_event a v) ≡ true
    → IsMarked c (parse_one h c now (abs_event a v) t)
unfolding parse_one
parse_one-move h c now a v t plain inside move = rw (mt_of_plain h now a v _ plain) (
    parse_on_mt-IsMarked c now _ a v _ (
      ap (λ (ch : Channel). ch.dirty) (channel_at-update_self c _ t inside)
      ∙ abs-move h.tilt_x h.tilt_y now a v t.common (channel_at t c) move))

parse_unfiltered-move :
    (h : Host) (c : ℕ) (e : ℕ × Event) (t : Tablet)
    → is_plain e ≡ true
    → Takes c t
    → is_move e.1 ≡ true
    → IsMarked c (parse_unfiltered h c e t)
unfolding parse_unfiltered
parse_unfiltered-move h c (now, abs_event a v) t plain k move =
    rw (heard now a v t (ground arith) k.single)
      (parse_one-move h c now a v t (ground arith) k.inside move)
parse_unfiltered-move h c (now, key_event key n v) t plain k move = absurd (ground arith)
parse_unfiltered-move h c (now, rel_event r v) t plain k move = absurd (ground arith)
parse_unfiltered-move h c (now, mute_switch v) t plain k move = absurd (ground arith)
parse_unfiltered-move h c (now, other_event) t plain k move = absurd (ground arith)

pub parse_all-move :
    (h : Host) (c : ℕ) (es : List (ℕ × Event)) (t : Tablet)
    → All (λ (e : ℕ × Event). is_plain e ≡ true) es
    → Takes c t
    → has_move es ≡ true
    → IsMarked c (parse_all h c es t)
unfolding parse_all
parse_all-move h c [] t plain k move = absurd (ground arith)
parse_all-move h c (e ∷ es) t (plain, plains) k move = elim (Bool-cases (is_move e.1)) [
  | inl here ↦ parse_all-IsMarked h c es _ plains (parse_unfiltered-move h c e t plain k here)
  | inr later ↦
      parse_all-move h c es _ plains (parse_unfiltered-Moves h c e t plain k).takes (ground arith)
]
