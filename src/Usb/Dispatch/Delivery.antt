-- ===== src/Usb/Dispatch/Delivery.antt =====
-- That a change reaches `wcmEvent`: a frame of a tool in proximity, from the choice of its channel to the
-- end of `usbDispatchEvents` of src/wcmUSB.c.
use xf86_input_wacom.Prelude.{
  ℕ, zero, suc, ◌+◌, ◌<◌, ◌≤◌, ◌≡◌, ◌≢◌, refl, sym, ap, ◌∙◌, Bool, true, false, not, ◌&&◌,
  Bool-cases, inl, inr, some, List, [], ◌∷◌, All, get_or, length, ◌==◌, if◌then◌else◌, arith,
}
use xf86_input_wacom.Prelude.Int.{is_set}
use xf86_input_wacom.State.{DeviceState, Channel, touch_id, eraser_id}
use xf86_input_wacom.State.Zero.{zero_channel}
use xf86_input_wacom.Usb.Channels.{max_channels}
use mathlib.Core.Path.{subst}
use mathlib.Core.List.Memᴰ
use mathlib.Core.List.{Memᴰ}
use xf86_input_wacom.Usb.Event.{Event}
use xf86_input_wacom.Usb.Tablet.{Tablet, Host, channel_at, state_at, update_channel, update_work}
use xf86_input_wacom.Usb.Tablet.Update.{channel_at-update_self}
use xf86_input_wacom.Usb.Dispatch.{
  parse_all, finish_frame, end_frame, dispatch_on, start_state, is_bad_eraser,
}
use xf86_input_wacom.Usb.Dispatch.Place.{Place, move, place_of, is_plain, place_at}
use xf86_input_wacom.Usb.Dispatch.Replay.{Takes, update_channel-Takes, replay, parse_all_replays}
use xf86_input_wacom.Usb.Dispatch.Marks.{IsMarked, has_move, parse_all-move}
use xf86_input_wacom.Usb.Dispatch.Sending.{IsHandler, due, due_from, end_frame_sends}

-- A channel that is due is among those that are sent.
due_from-mem :
    (touch : Bool) (n k c : ℕ) (chs : List Channel)
    → k ≤ c
    → c < k + n
    → (get_or chs c zero_channel).dirty ≡ true
    → (get_or chs c zero_channel).work.device_type ≢ touch_id
    → Memᴰ (c, (get_or chs c zero_channel).work) (due_from touch n k chs)
due_from-mem touch zero k c chs lo hi marked tool = absurd (omega arith)
due_from-mem touch (suc n) k c chs lo hi marked tool = elim (Bool-cases (k == c)) [
  | inr before ↦
      Memᴰ.append_right _
        (due_from-mem touch n (suc k) c chs (ground arith) (omega arith) marked tool)
  | inl here ↦
      subst (λ (j : ℕ). Memᴰ (c, (get_or chs c zero_channel).work) (due_from touch (suc n) j chs))
        (same_channel here)
        (Memᴰ.append_left
          {s = due touch c (get_or chs c zero_channel).work (get_or chs c zero_channel).dirty} _
          (rw (marked, other) (Memᴰ.head refl)))
]
  where
    same_channel : (k == c) ≡ true → c ≡ k
    same_channel e = ground arith

    other : ((get_or chs c zero_channel).work.device_type == touch_id) ≡ false
    other = ground arith

kind-move : (e : Event) (p : Place) → (move e p).kind ≡ p.kind
kind-move e p = ground arith

kind-replay : (es : List (ℕ × Event)) (p : Place) → (replay es p).kind ≡ p.kind
kind-replay [] p = refl
kind-replay (e ∷ es) p = kind-replay es (move e.1 p) ∙ kind-move e.1 p

-- A tool that was in proximity and is no eraser goes on to the end of the frame.
finish_frame_end :
    (h : Host) (c : ℕ) (last : DeviceState) (t : Tablet)
    → is_set last.proximity ≡ true
    → (channel_at t c).work.device_type ≢ eraser_id
    → finish_frame h c last t ≡ end_frame h c t
unfolding finish_frame
finish_frame_end h c last t near tool = go _ _ _ _ _ not_bad (passed _ _ near)
  where
    go :
        (bad fresh : Bool) (u v w : Tablet)
        → bad ≡ false
        → fresh ≡ false
        → (if bad then u else if fresh then v else w) ≡ w
    go true fresh u v w e f = absurd (ground arith)
    go false true u v w e f = absurd (ground arith)
    go false false u v w e f = refl

    not_bad : is_bad_eraser t.common (channel_at t c).work ≡ false
    not_bad = ground arith

    passed : (a b : Bool) {q : Bool} → q ≡ true → (a && (not q && b)) ≡ false
    passed a b e = ground arith

start-place :
    (device_type serial : ℕ) (ds : DeviceState)
    → ds.device_type ≢ 0
    → place_of (start_state device_type serial ds) ≡ place_of ds
start-place device_type serial ds known = ground arith

-- A state that the end of a frame sends.
end_frame-mem :
    (h : Host) (c : ℕ) (t : Tablet)
    → IsHandler h.handle
    → c < max_channels
    → IsMarked c t
    → (channel_at t c).work.device_type ≢ touch_id
    → Memᴰ (c, (channel_at t c).work) (end_frame h c t).sent
end_frame-mem h c t law known marked tool =
    subst (λ (l : List (ℕ × DeviceState)). Memᴰ (c, (channel_at t c).work) l)
      (sym (end_frame_sends h c c t law known).0)
      (Memᴰ.append_right t.sent (
        due_from-mem t.common.touch max_channels 0 c t.common.channels (omega arith) known marked
          tool))

-- A tool on a known channel that is in proximity and neither a touch nor an eraser sends a frame of its own
-- events, one of them on the position, the pressure or the distance. Then `wcmEvent` is called for the channel
-- with a state whose position, pressure and distance are what a replay of the events gives.
pub dispatch_on_delivers :
    (h : Host) (c : ℕ) (es : List (ℕ × Event)) (t : Tablet)
    → IsHandler h.handle
    → c < max_channels
    → c < length t.common.channels
    → (t.usb.use_mt && (t.usb.device_type == touch_id)) ≡ false
    → (channel_at t c).work.device_type ≢ 0
    → (channel_at t c).work.device_type ≢ touch_id
    → (channel_at t c).work.device_type ≢ eraser_id
    → is_set (state_at t c).proximity ≡ true
    → All (λ (e : ℕ × Event). is_plain e ≡ true) es
    → has_move es ≡ true
    → (ds : DeviceState) × Memᴰ (c, ds) (dispatch_on h es (t, some c)).sent
      × (place_of ds ≡ replay es (place_at c t))
unfolding dispatch_on
dispatch_on_delivers h c es t law known inside single typed no_touch no_eraser near plain move =
    let f : Channel → Channel =
      update_work (λ (ds : DeviceState). start_state t.usb.device_type t.usb.last_tool_serial ds) in
    let t1 = update_channel c f t in
    let t2 = parse_all h c es t1 in
    let k : Takes c t1 =
      update_channel-Takes c c f t (record { inside = inside; single = single }) in
    let placed : place_at c t2 ≡ replay es (place_at c t) =
      parse_all_replays h c es t1 k.inside k.single plain
      ∙ ap (λ (p : Place). replay es p)
          (ap (λ (ch : Channel). place_of ch.work) (channel_at-update_self c f t inside)
            ∙ start-place t.usb.device_type t.usb.last_tool_serial (channel_at t c).work typed) in
    let kind : (channel_at t2 c).work.device_type ≡ (channel_at t c).work.device_type =
      ap (λ (p : Place). p.kind) placed ∙ kind-replay es (place_at c t) in
    (
      (channel_at t2 c).work,
      subst (λ (u : Tablet). Memᴰ (c, (channel_at t2 c).work) u.sent)
          (sym (finish_frame_end h c (state_at t c) t2 near (λ e. no_eraser (sym kind ∙ e))))
          (end_frame-mem h c t2 law known (parse_all-move h c es t1 plain k move)
            (λ e. no_touch (sym kind ∙ e))),
      placed,
    )
