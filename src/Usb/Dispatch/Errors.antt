-- ===== src/Usb/Dispatch/Errors.antt =====
-- A frame that ends early: the returns at the end of `usbDispatchEvents` of src/wcmUSB.c.
use xf86_input_wacom.Prelude.{
  ap, ◌∙◌, ◌≢◌, Option, none, some, arith, ℕ, ◌≡◌, ◌⊎◌, refl, inl, inr, true, false, not, ◌&&◌,
  Bool-cases, ◌==◌,
}
use xf86_input_wacom.Prelude.Int.{ℤ, pos, is_set}
use xf86_input_wacom.State.{DeviceState, Channel, Common, eraser_id, pad_id}
use xf86_input_wacom.Usb.Tablet.{Tablet, Host, channel_at, update_channel, update_work}
use xf86_input_wacom.Usb.Tablet.Update.{channel_at-update}
use xf86_input_wacom.Usb.Dispatch.{finish_frame, is_bad_eraser, asked, put_position, ask_position}

-- A tool that comes near: it was away before the frame, and is no pad.
abbrev pub ComesNear : DeviceState → DeviceState → Type 0
ComesNear ds last =
    (is_set ds.proximity ≡ true) × (is_set last.proximity ≡ false) × (ds.device_type ≢ pad_id)

-- A coordinate is unknown: the frame did not give it, and asking the kernel for it fails.
abbrev pub IsUnplaced : Host → DeviceState → Type 0
IsUnplaced h ds = ((ds.x ≡ pos 0) × (h.current_x ≡ none)) ⊎ ((ds.y ≡ pos 0) × (h.current_y ≡ none))

-- An eraser of a DTF720 or a DTF720a.
abbrev pub IsFalseEraser : Common → DeviceState → Type 0
IsFalseEraser c ds = ((c.tablet_id ≡ 0xc0) ⊎ (c.tablet_id ≡ 0xc2)) × (ds.device_type ≡ eraser_id)

put_position-none : (x : Option ℤ) (ds : DeviceState) → (put_position x none ds).1 ≡ false
unfolding put_position
put_position-none none ds = refl
put_position-none (some x) ds = refl

ask_position-fails : (h : Host) (ds : DeviceState) → IsUnplaced h ds → (ask_position h ds).1 ≡ false
unfolding put_position
ask_position-fails h ds (inl (unset, fails)) =
    let unknown : asked ds.x h.current_x ≡ none = rw (unset, fails) refl in
    ap (λ (o : Option ℤ). (put_position o (asked ds.y h.current_y) ds).1) unknown
ask_position-fails h ds (inr (unset, fails)) =
    let unknown : asked ds.y h.current_y ≡ none = rw (unset, fails) refl in
    ap (λ (o : Option ℤ). (put_position (asked ds.x h.current_x) o ds).1) unknown
    ∙ put_position-none (asked ds.x h.current_x) ds

false_eraser : (c : Common) (ds : DeviceState) → IsFalseEraser c ds → is_bad_eraser c ds ≡ true
false_eraser c ds (inl a, e) = rw (a, e) refl
false_eraser c ds (inr b, e) = rw (b, e) refl

comes_near :
    (ds last : DeviceState)
    → ComesNear ds last
    → (is_set ds.proximity && (not (is_set last.proximity) && not (ds.device_type == pad_id)))
      ≡ true
comes_near ds last (near, away, no_pad) = ground arith

-- Nothing is sent, and the next frame finds every mark, the last channel and the serial number.
pub record IsHeld (t u : Tablet) : Type 0 where
  pub unsent : u.sent ≡ t.sent
  pub same_front : u.front ≡ t.front
  pub same_usb : u.usb ≡ t.usb
  pub same_marks : (i : ℕ) → (channel_at u i).dirty ≡ (channel_at t i).dirty

held : (t : Tablet) → IsHeld t t
held t = record { unsent = refl; same_front = refl; same_usb = refl; same_marks = λ i. refl }

placed-IsHeld :
    (c : ℕ) (ds : DeviceState) (t : Tablet)
    → IsHeld t (update_channel c (update_work (λ (_ : DeviceState). ds)) t)
unfolding update_channel
placed-IsHeld c ds t = record {
  unsent = refl;
  same_front = refl;
  same_usb = refl;
  same_marks = λ i.
      channel_at-update (λ (ch : Channel). ch.dirty ≡ (channel_at t i).dirty) i c
        (update_work (λ (_ : DeviceState). ds)) t (λ ch e. e) refl;
}

-- An eraser of a tablet that has none, or a tool that comes near with a coordinate that is 0 and that the kernel
-- cannot be asked for, ends the frame: nothing is sent, and what the frame marked, the last channel and the serial
-- number wait for the next one.
pub finish_frame_holds :
    (h : Host) (c : ℕ) (last : DeviceState) (t : Tablet)
    → IsFalseEraser t.common (channel_at t c).work
      ⊎ (ComesNear (channel_at t c).work last × IsUnplaced h (channel_at t c).work)
    → IsHeld t (finish_frame h c last t)
unfolding finish_frame
finish_frame_holds h c last t (inl bad) =
    rw (false_eraser t.common (channel_at t c).work bad) (held t)
finish_frame_holds h c last t (inr (near, unplaced)) =
    elim (Bool-cases (is_bad_eraser t.common (channel_at t c).work)) [
      | inl bad ↦ rw bad (held t)
      | inr fine ↦
          rw
            (
              fine,
              comes_near (channel_at t c).work last near,
              ask_position-fails h (channel_at t c).work unplaced,
            )
            (placed-IsHeld c (ask_position h (channel_at t c).work).0 t)
    ]
