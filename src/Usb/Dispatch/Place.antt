-- ===== src/Usb/Dispatch/Place.antt =====
-- Where a tool is, by its state, and what one event does to it: the parsers of single events in
-- src/wcmUSB.c, seen on a tool's kind and four of its axes.
use xf86_input_wacom.Prelude.{
  ℕ, ◌<◌, ◌≡◌, refl, ap, ◌∙◌, Bool, true, false, not, Option, none, some, List, length,
  if◌then◌else◌, arith,
}
use xf86_input_wacom.Prelude.Int.{ℤ}
use xf86_input_wacom.State.{DeviceState, Channel, Common}
use xf86_input_wacom.Usb.Tablet.Update.{channel_at-update, channel_at-update_self}
use xf86_input_wacom.Usb.Event.{
  Key, Abs, Rel, Event, abs_x, abs_y, abs_pressure, abs_distance, key_event, abs_event, rel_event,
  mute_switch, other_event,
}
use xf86_input_wacom.Usb.Fields.{
  parse_generic_abs, parse_wacom_abs, parse_abs_event, parse_tool_key, parse_stylus_button,
  parse_key_event, put_pad_button, parse_button, parse_btn_event, find_pad_key,
}
use xf86_input_wacom.Usb.Tablet.{Tablet, channel_at, update_channel}
use xf86_input_wacom.Usb.Dispatch.{is_mt_axis, parse_mt_axis, parse_rel, is_wheel, parse_rel_event}

-- A tool's kind, and where it is: position, pressure and distance.
pub record Place : Type 0 where
  pub kind : ℕ
  pub x : ℤ
  pub y : ℤ
  pub pressure : ℤ
  pub distance : ℤ

abbrev pub place_of : DeviceState → Place
place_of ds = record {
  kind = ds.device_type;
  x = ds.x;
  y = ds.y;
  pressure = ds.pressure;
  distance = ds.distance;
}

-- An event on one of the four axes sets it.
abbrev pub move : Event → Place → Place
move (abs_event abs_x v) p = record p { x = v }
move (abs_event abs_y v) p = record p { y = v }
move (abs_event abs_pressure v) p = record p { pressure = v }
move (abs_event abs_distance v) p = record p { distance = v }
move (abs_event _ v) p = p
move (key_event k n v) p = p
move (rel_event r v) p = p
move (mute_switch v) p = p
move other_event p = p

-- The event is of a single tool, not of one of several touches.
abbrev pub is_plain : ℕ × Event → Bool
is_plain (now, abs_event a v) = not (is_mt_axis a)
is_plain (now, key_event k n v) = true
is_plain (now, rel_event r v) = true
is_plain (now, mute_switch v) = true
is_plain (now, other_event) = true

pub place-parse_tool_key :
    (c : Common) (now : ℕ) (last : DeviceState) (k : Key) (v : ℤ) (ds : DeviceState)
    → place_of (parse_tool_key c now last k v ds).0 ≡ place_of ds
unfolding parse_tool_key
place-parse_tool_key c now last k v ds = ground arith

pub place-parse_stylus_button :
    (k : Key) (v : ℤ) (ds : DeviceState) → place_of (parse_stylus_button k v ds).0 ≡ place_of ds
unfolding parse_stylus_button
place-parse_stylus_button k v ds = ground arith

pub place-put_pad_button :
    (n : Option ℕ) (v : ℤ) (ds : DeviceState) → place_of (put_pad_button n v ds).0 ≡ place_of ds
unfolding put_pad_button
place-put_pad_button none v ds = refl
place-put_pad_button (some n) v ds = refl

pub place-parse_button :
    (padkeys : List ℕ) (k : Key) (n : ℕ) (v : ℤ) (ds : DeviceState)
    → place_of (parse_button padkeys k n v ds).0 ≡ place_of ds
unfolding parse_button
place-parse_button padkeys k n v ds =
    ground (arith, place-put_pad_button (find_pad_key n 0 padkeys) v ds)

pub place-parse_mt_axis :
    (now : ℕ) (a : Abs) (v : ℤ) (ds : DeviceState)
    → is_mt_axis a ≡ false
    → place_of (parse_mt_axis now a v ds).0 ≡ place_of ds
unfolding parse_mt_axis is_mt_axis
place-parse_mt_axis now a v ds h = ground arith

pub place-parse_generic_abs :
    (f g : ℤ → ℤ) (a : Abs) (v : ℤ) (ds : DeviceState)
    → place_of (parse_generic_abs f g a v ds).0 ≡ move (abs_event a v) (place_of ds)
unfolding parse_generic_abs
place-parse_generic_abs f g a v ds = ground arith

pub place-parse_wacom_abs :
    (c : Common) (a : Abs) (v : ℤ) (ds : DeviceState)
    → place_of (parse_wacom_abs c a v ds).0 ≡ place_of ds
unfolding parse_wacom_abs
place-parse_wacom_abs c a v ds = ground arith

pub place-if :
    (b : Bool) (d e : DeviceState × Bool) (p : Place)
    → place_of d.0 ≡ p
    → place_of e.0 ≡ p
    → place_of (if b then d else e).0 ≡ p
place-if true d e p h k = h
place-if false d e p h k = k

pub place-parse_abs_event :
    (f g : ℤ → ℤ) (c : Common) (now : ℕ) (a : Abs) (v : ℤ) (ch : Channel)
    → place_of (parse_abs_event f g c now a v ch).work ≡ move (abs_event a v) (place_of ch.work)
unfolding parse_abs_event
place-parse_abs_event f g c now a v ch =
    let first = place-parse_generic_abs f g a v ch.work in
    place-if _ _ _ _ first (place-parse_wacom_abs c a v _ ∙ first)

pub place-parse_key_event :
    (c : Common) (now : ℕ) (k : Key) (v : ℤ) (ch : Channel)
    → place_of (parse_key_event c now k v ch).work ≡ place_of ch.work
unfolding parse_key_event
place-parse_key_event c now k v ch =
    place-if _ _ _ _ (place-parse_tool_key c now _ k v ch.work)
      (place-parse_stylus_button k v ch.work)

pub place-parse_btn_event :
    (padkeys : List ℕ) (now : ℕ) (k : Key) (n : ℕ) (v : ℤ) (ch : Channel)
    → place_of (parse_btn_event padkeys now k n v ch).work ≡ place_of ch.work
unfolding parse_btn_event
place-parse_btn_event padkeys now k n v ch = place-parse_button padkeys k n v ch.work

pub place-parse_rel_event :
    (now : ℕ) (r : Rel) (v : ℤ) (ch : Channel)
    → place_of (parse_rel_event now r v ch).work ≡ place_of ch.work
unfolding parse_rel_event parse_rel is_wheel
place-parse_rel_event now r v ch = ground arith

-- The place on channel `c`.
abbrev pub place_at : ℕ → Tablet → Place
place_at c t = place_of (channel_at t c).work

-- A change of any channel that leaves its place leaves every channel's.
pub place_at-update_same :
    (c i : ℕ) (f : Channel → Channel) (t : Tablet)
    → ((ch : Channel) → place_of (f ch).work ≡ place_of ch.work)
    → place_at c (update_channel i f t) ≡ place_at c t
place_at-update_same c i f t h =
    channel_at-update (λ (ch : Channel). place_of ch.work ≡ place_at c t) c i f t (λ ch e. h ch ∙ e)
      refl

-- A change of channel `c` itself.
pub place_at-update_self :
    (c : ℕ) (f : Channel → Channel) (t : Tablet)
    → c < length t.common.channels
    → place_at c (update_channel c f t) ≡ place_of (f (channel_at t c)).work
place_at-update_self c f t h =
    ap (λ (ch : Channel). place_of ch.work) (channel_at-update_self c f t h)
