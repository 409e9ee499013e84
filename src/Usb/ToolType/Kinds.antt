-- ===== src/Usb/ToolType/Kinds.antt =====
-- What `usbInitToolType` of src/wcmUSB.c can answer.
use xf86_input_wacom.Prelude.{
  ℕ, ◌≡◌, ◌≢◌, ◌⊎◌, refl, inl, inr, Bool, true, false, Option, none, some, List, [], ◌∷◌, ◌++◌, All,
  ◌==◌, if◌then◌else◌, arith,
}
use xf86_input_wacom.Prelude.Int.{ℤ}
use xf86_input_wacom.State.{Common, stylus_id, touch_id, cursor_id, eraser_id, pad_id}
use xf86_input_wacom.Usb.Event.{
  Key, Abs, Event, btn_tool_pen, btn_tool_pencil, btn_tool_brush, btn_tool_airbrush,
  btn_tool_rubber, btn_tool_mouse, btn_tool_lens, btn_touch, btn_tool_finger, btn_tool_doubletap,
  btn_tool_tripletap, abs_misc, abs_mt_slot, abs_mt_tracking_id, key_event, abs_event, rel_event,
  mute_switch, other_event,
}
use xf86_input_wacom.Usb.ToolType.{
  id_to_type, find_device_type_by_id, device_type_from_key, device_type_from_abs,
  device_type_from_event, refresh_from, refresh_device_type, pad_type, named_type, or_else,
  init_tool_type,
}

-- No tool, or one of the five kinds.
abbrev pub IsKind : ℕ → Type 0
IsKind t =
    (t ≡ 0)
    ⊎ ((t ≡ stylus_id) ⊎ ((t ≡ touch_id) ⊎ ((t ≡ cursor_id) ⊎ ((t ≡ eraser_id) ⊎ (t ≡ pad_id)))))

ite-IsKind : (b : Bool) (t u : ℕ) → IsKind t → IsKind u → IsKind (if b then t else u)
ite-IsKind true t u h k = h
ite-IsKind false t u h k = k

none-IsKind : IsKind 0
none-IsKind = inl refl

stylus-IsKind : IsKind stylus_id
stylus-IsKind = inr (inl refl)

touch-IsKind : IsKind touch_id
touch-IsKind = inr (inr (inl refl))

cursor-IsKind : IsKind cursor_id
cursor-IsKind = inr (inr (inr (inl refl)))

eraser-IsKind : IsKind eraser_id
eraser-IsKind = inr (inr (inr (inr (inl refl))))

pad-IsKind : IsKind pad_id
pad-IsKind = inr (inr (inr (inr (inr refl))))

ruleset kinds =
    (ite-IsKind, none-IsKind, stylus-IsKind, touch-IsKind, cursor-IsKind, eraser-IsKind, pad-IsKind)

id_to_type-IsKind : (c : Common) (id : ℕ) → IsKind (id_to_type c id)
unfolding id_to_type
id_to_type-IsKind c id = search kinds

find_by_id-IsKind : (c : Common) (id : ℕ) → IsKind (find_device_type_by_id c id)
unfolding find_device_type_by_id
find_by_id-IsKind c id = search (kinds, id_to_type-IsKind) depth 8

from_key-IsKind : (c : Common) (mt : Bool) (k : Key) → IsKind (device_type_from_key c mt k)
unfolding device_type_from_key
from_key-IsKind c mt btn_tool_pen = stylus-IsKind
from_key-IsKind c mt btn_tool_pencil = stylus-IsKind
from_key-IsKind c mt btn_tool_brush = stylus-IsKind
from_key-IsKind c mt btn_tool_airbrush = stylus-IsKind
from_key-IsKind c mt btn_tool_mouse = cursor-IsKind
from_key-IsKind c mt btn_tool_lens = cursor-IsKind
from_key-IsKind c mt btn_tool_finger = search kinds
from_key-IsKind c mt btn_tool_rubber = eraser-IsKind
from_key-IsKind c mt btn_tool_doubletap = touch-IsKind
from_key-IsKind c mt btn_tool_tripletap = touch-IsKind
from_key-IsKind c mt btn_touch = search kinds
from_key-IsKind c mt _ = none-IsKind

from_abs-IsKind : (c : Common) (a : Abs) (v : ℤ) → IsKind (device_type_from_abs c a v)
unfolding device_type_from_abs
from_abs-IsKind c abs_mt_slot v = touch-IsKind
from_abs-IsKind c abs_mt_tracking_id v = touch-IsKind
from_abs-IsKind c abs_misc v = search (kinds, find_by_id-IsKind)
from_abs-IsKind c _ v = none-IsKind

from_event-IsKind : (c : Common) (mt : Bool) (e : Event) → IsKind (device_type_from_event c mt e)
unfolding device_type_from_event
from_event-IsKind c mt (key_event k n v) = from_key-IsKind c mt k
from_event-IsKind c mt (abs_event a v) = from_abs-IsKind c a v
from_event-IsKind c mt (rel_event r v) = none-IsKind
from_event-IsKind c mt (mute_switch v) = none-IsKind
from_event-IsKind c mt other_event = none-IsKind

named-IsKind : (c : Common) (mt : Bool) (es : List Event) → IsKind (named_type c mt es)
unfolding named_type
named-IsKind c mt [] = none-IsKind
named-IsKind c mt (e ∷ es) = ite-IsKind _ _ _ (named-IsKind c mt es) (from_event-IsKind c mt e)

refresh_from-IsKind : (c : Common) (mt : Bool) (ks : List Key) → IsKind (refresh_from c mt ks)
unfolding refresh_from
refresh_from-IsKind c mt [] = none-IsKind
refresh_from-IsKind c mt (k ∷ ks) =
    ite-IsKind _ _ _ (refresh_from-IsKind c mt ks) (from_key-IsKind c mt k)

refresh-IsKind :
    (c : Common) (mt : Bool) (down : Option (List Key)) → IsKind (refresh_device_type c mt down)
unfolding refresh_device_type
refresh-IsKind c mt none = none-IsKind
refresh-IsKind c mt (some ks) = refresh_from-IsKind c mt ks

pad_type-IsKind : (padkeys : List ℕ) (es : List Event) → IsKind (pad_type padkeys es)
unfolding pad_type
pad_type-IsKind padkeys [] = none-IsKind
pad_type-IsKind padkeys (e ∷ es) = ite-IsKind _ _ _ pad-IsKind (pad_type-IsKind padkeys es)

-- The type of a frame's tool is none or one of the five kinds, when the last type was.
pub init_tool_type-IsKind :
    (c : Common) (use_mt : Bool) (padkeys : List ℕ) (down : Option (List Key)) (es : List Event)
    (last : ℕ)
    → IsKind last
    → IsKind (init_tool_type c use_mt padkeys down es last)
unfolding init_tool_type
init_tool_type-IsKind c mt padkeys down es last h =
    search (kinds, h, pad_type-IsKind, refresh-IsKind, named-IsKind) depth 8

-- No event of the list names a tool.
abbrev pub IsUnnamed : Common → Bool → List Event → Type 0
IsUnnamed c use_mt es = All (λ (e : Event). device_type_from_event c use_mt e ≡ 0) es

named_type_first :
    (c : Common) (mt : Bool) (before after : List Event) (e : Event)
    → IsUnnamed c mt before
    → device_type_from_event c mt e ≢ 0
    → named_type c mt (before ++ e ∷ after) ≡ device_type_from_event c mt e
unfolding named_type
named_type_first c mt [] after e h ne = rw (not_zero _ ne) refl
  where
    not_zero : (t : ℕ) → t ≢ 0 → (t == 0) ≡ false
    not_zero t ne = ground arith
named_type_first c mt (b ∷ before) after e (h, hs) ne =
    rw h (named_type_first c mt before after e hs ne)

-- The first event of a frame that names a tool decides its type, whatever the last type was and
-- whichever keys are down.
pub init_tool_type_first :
    (c : Common) (use_mt : Bool) (padkeys : List ℕ) (down : Option (List Key)) (last : ℕ)
    (before after : List Event) (e : Event)
    → IsUnnamed c use_mt before
    → device_type_from_event c use_mt e ≢ 0
    → init_tool_type c use_mt padkeys down (before ++ e ∷ after) last
      ≡ device_type_from_event c use_mt e
unfolding init_tool_type
init_tool_type_first c mt padkeys down last before after e h ne =
    rw (named_type_first c mt before after e h ne) (kept _ _ ne)
  where
    kept : (t other : ℕ) → t ≢ 0 → or_else t other ≡ t
    kept t other ne = ground arith
