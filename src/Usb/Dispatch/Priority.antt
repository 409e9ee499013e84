-- ===== src/Usb/Dispatch/Priority.antt =====
-- A pen keeps touches out: the early return of `usbDispatchEvents` of src/wcmUSB.c.
use xf86_input_wacom.Prelude.{
  ℕ, ◌≡◌, ◌≢◌, sym, ap, ◌∙◌, Bool, true, false, ◌&&◌, List, ◌∷◌, ◌++◌, ◌==◌, if◌then◌else◌, arith,
}
use xf86_input_wacom.State.{touch_id}
use mathlib.Core.Path.{subst}
use xf86_input_wacom.Usb.Event.{Event}
use xf86_input_wacom.Usb.ToolType.{device_type_from_event, init_tool_type, is_tablet_tool_in_prox}
use xf86_input_wacom.Usb.ToolType.Kinds.{IsUnnamed, init_tool_type_first}
use xf86_input_wacom.Usb.Tablet.{Tablet, Host, set_usb, state_at}
use xf86_input_wacom.Usb.Dispatch.{events_of, dispatch_events}

dropped : (b : Bool) (t u v : Tablet) → b ≡ true → t ≡ v → (if b then t else u) ≡ v
dropped true t u v e h = h
dropped false t u v e h = absurd (ground arith)

priority :
    (b : Bool) (t : ℕ) (near : Bool)
    → b ≡ true
    → t ≡ touch_id
    → near ≡ true
    → (b && ((t == touch_id) && near)) ≡ true
priority b t near h e k = ground arith

-- On a tablet with pen and touch, while the tool of the last frame is a pen, an eraser or a puck in
-- proximity, a frame whose first event that names a tool names a touch changes nothing but the type of
-- the tool last seen.
pub dispatch_events_pen_first :
    (h : Host) (es : List (ℕ × Event)) (before after : List Event) (e : Event) (t : Tablet)
    → events_of es ≡ before ++ e ∷ after
    → IsUnnamed t.common t.usb.use_mt before
    → device_type_from_event t.common t.usb.use_mt e ≡ touch_id
    → t.usb.pen_touch ≡ true
    → (let last = state_at t t.usb.last_channel in
        is_tablet_tool_in_prox last.device_type last.proximity)
      ≡ true
    → dispatch_events h es t ≡ set_usb t (record (t.usb) { device_type = touch_id })
unfolding dispatch_events
dispatch_events_pen_first h es before after e t frame unnamed touch both pen =
    let named : init_tool_type t.common t.usb.use_mt t.usb.padkeys h.keys_down (events_of es)
          (state_at t t.usb.last_channel).device_type
        ≡ touch_id =
      ap
        (λ (l : List Event).
          init_tool_type t.common t.usb.use_mt t.usb.padkeys h.keys_down l
            (state_at t t.usb.last_channel).device_type)
        frame
      ∙ init_tool_type_first t.common t.usb.use_mt t.usb.padkeys h.keys_down _ before after e
          unnamed (subst (λ (n : ℕ). n ≢ 0) (sym touch) (omega arith))
      ∙ touch in
    dropped _ _ _ _ (priority _ _ _ both named pen)
      (ap (λ (n : ℕ). set_usb t (record (t.usb) { device_type = n })) named)
