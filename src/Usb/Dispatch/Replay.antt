-- ===== src/Usb/Dispatch/Replay.antt =====
-- The position that a frame of events gives a tool: the loop of `usbDispatchEvents` of src/wcmUSB.c against
-- a replay of its events on a tool's kind and four of its axes.
use xf86_input_wacom.Prelude.{
  ℕ, ◌<◌, ◌≡◌, refl, sym, ap, ◌∙◌, Bool, true, false, ◌&&◌, Bool-cases, inl, inr, Option, none,
  some, List, [], ◌∷◌, All, length, ◌==◌, if◌then◌else◌, arith,
}
use xf86_input_wacom.Prelude.Int.{ℤ}
use xf86_input_wacom.State.{Channel, touch_id}
use mathlib.Core.Path.{subst}
use xf86_input_wacom.Usb.Tablet.Update.{length-update}
use xf86_input_wacom.Usb.Event.{
  Abs, Event, abs_mt_slot, key_event, abs_event, rel_event, mute_switch, other_event,
}
use xf86_input_wacom.Usb.Fields.{parse_abs_event, parse_key_event}
use xf86_input_wacom.Usb.Tablet.{Tablet, Host, channel_at, update_channel}
use xf86_input_wacom.Usb.Dispatch.{
  filter_event, is_mt_axis, parse_on_mt, parse_abs_mt_event, parse_one, parse_unfiltered, parse_all,
}
use xf86_input_wacom.Usb.Dispatch.Place.{
  Place, move, is_plain, place_at, place-parse_mt_axis, place-parse_abs_event,
  place-parse_key_event, place-parse_btn_event, place-parse_rel_event, place_at-update_same,
  place_at-update_self,
}

-- The events of a frame in their order.
abbrev pub replay : List (ℕ × Event) → Place → Place
replay [] p = p
replay (e ∷ es) p = replay es (move e.1 p)

-- A tablet whose channel `c` takes a single tool's events.
pub record Takes (c : ℕ) (t : Tablet) : Type 0 where
  pub inside : c < length t.common.channels
  pub single : (t.usb.use_mt && (t.usb.device_type == touch_id)) ≡ false

-- What one event does.
pub record Moves (c : ℕ) (e : ℕ × Event) (t u : Tablet) : Type 0 where
  pub moves : place_at c u ≡ move e.1 (place_at c t)
  pub takes : Takes c u

pub update_channel-Takes :
    (c i : ℕ) (f : Channel → Channel) (t : Tablet) → Takes c t → Takes c (update_channel i f t)
unfolding update_channel
update_channel-Takes c i f t h = record {
  inside = subst (λ (n : ℕ). c < n) (sym (length-update i f t)) h.inside;
  single = h.single;
}

parse_on_mt-Moves :
    (c now : ℕ) (m : Option ℕ) (a : Abs) (v : ℤ) (t : Tablet)
    → is_mt_axis a ≡ false
    → Takes c t
    → (place_at c (parse_on_mt m now a v t) ≡ place_at c t) × Takes c (parse_on_mt m now a v t)
unfolding parse_on_mt
parse_on_mt-Moves c now none a v t plain h = (refl, h)
parse_on_mt-Moves c now (some m) a v t plain h = (
  place_at-update_same c m _ t (λ ch. place-parse_mt_axis now a v ch.work plain),
  update_channel-Takes c m _ t h,
)

pub mt_of_plain :
    (h : Host) (now : ℕ) (a : Abs) (v : ℤ) (t : Tablet)
    → is_mt_axis a ≡ false
    → parse_abs_mt_event h now a v t ≡ parse_on_mt t.usb.mt_channel now a v t
unfolding parse_abs_mt_event is_mt_axis
mt_of_plain h now abs_mt_slot v t plain = absurd (ground arith)
mt_of_plain h now _ v t plain = refl

if-Moves :
    (b : Bool) (c : ℕ) (e : ℕ × Event) (t u w : Tablet)
    → Moves c e t u
    → Moves c e t w
    → Moves c e t (if b then u else w)
if-Moves true c e t u w p q = p
if-Moves false c e t u w p q = q

parse_one-Moves :
    (h : Host) (c now : ℕ) (e : Event) (t : Tablet)
    → is_plain (now, e) ≡ true
    → Takes c t
    → Moves c (now, e) t (parse_one h c now e t)
unfolding parse_one
parse_one-Moves h c now (abs_event a v) t plain k =
    let not_mt : is_mt_axis a ≡ false = ground arith in
    let f : Channel → Channel = λ ch. parse_abs_event h.tilt_x h.tilt_y t.common now a v ch in
    let u = update_channel c f t in
    let m =
      parse_on_mt-Moves c now u.usb.mt_channel a v u not_mt (update_channel-Takes c c f t k) in
    rw (mt_of_plain h now a v u not_mt) record {
      moves =
          m.0
          ∙ place_at-update_self c f t k.inside
          ∙ place-parse_abs_event h.tilt_x h.tilt_y t.common now a v (channel_at t c);
      takes = m.1;
    }
parse_one-Moves h c now (rel_event r v) t plain k = record {
  moves = place_at-update_same c c _ t (λ ch. place-parse_rel_event now r v ch);
  takes = update_channel-Takes c c _ t k;
}
parse_one-Moves h c now (key_event key n v) t plain k =
    let f : Channel → Channel = λ ch. parse_key_event t.common now key v ch in
    record {
      moves =
          place_at-update_same c _ _ (update_channel c f t)
            (λ ch. place-parse_btn_event t.usb.padkeys now key n v ch)
          ∙ place_at-update_same c c f t (λ ch. place-parse_key_event t.common now key v ch);
      takes = update_channel-Takes c _ _ (update_channel c f t) (update_channel-Takes c c f t k);
    }
parse_one-Moves h c now (mute_switch v) t plain k =
    if-Moves t.common.has_hw_touch_switch c (now, mute_switch v) t _ t
      (record { moves = refl; takes = record { inside = k.inside; single = k.single } })
      (record { moves = refl; takes = k })
parse_one-Moves h c now other_event t plain k = record { moves = refl; takes = k }

-- Only keys and several touches' axes are filtered out here.
filtered_stays :
    (t : Tablet) (now : ℕ) (e : Event) (p : Place)
    → is_plain (now, e) ≡ true
    → (t.usb.use_mt && (t.usb.device_type == touch_id)) ≡ false
    → filter_event t e ≡ true
    → p ≡ move e p
unfolding filter_event
filtered_stays t now (abs_event a v) p plain single filtered = absurd (ground arith)
filtered_stays t now (key_event k n v) p plain single filtered = refl
filtered_stays t now (rel_event r v) p plain single filtered = refl
filtered_stays t now (mute_switch v) p plain single filtered = refl
filtered_stays t now other_event p plain single filtered = refl

pub parse_unfiltered-Moves :
    (h : Host) (c : ℕ) (e : ℕ × Event) (t : Tablet)
    → is_plain e ≡ true
    → Takes c t
    → Moves c e t (parse_unfiltered h c e t)
unfolding parse_unfiltered
parse_unfiltered-Moves h c (now, e) t plain k = elim (Bool-cases (filter_event t e)) [
  | inl filtered ↦
      rw filtered
        record { moves = filtered_stays t now e (place_at c t) plain k.single filtered; takes = k }
  | inr heard ↦ rw heard (parse_one-Moves h c now e t plain k)
]

-- The frame of a single tool, whatever else it tells, leaves the tool's channel with the position,
-- pressure and distance that a replay of the events on these four axes gives.
pub parse_all_replays :
    (h : Host) (c : ℕ) (es : List (ℕ × Event)) (t : Tablet)
    → c < length t.common.channels
    → (t.usb.use_mt && (t.usb.device_type == touch_id)) ≡ false
    → All (λ (e : ℕ × Event). is_plain e ≡ true) es
    → place_at c (parse_all h c es t) ≡ replay es (place_at c t)
unfolding parse_all
parse_all_replays h c [] t inside single plain = refl
parse_all_replays h c (e ∷ es) t inside single (plain, plains) =
    let m = parse_unfiltered-Moves h c e t plain (record { inside = inside; single = single }) in
    parse_all_replays h c es _ m.takes.inside m.takes.single plains
    ∙ ap (λ (p : Place). replay es p) m.moves
