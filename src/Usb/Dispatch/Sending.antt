-- ===== src/Usb/Dispatch/Sending.antt =====
-- What the end of a frame sends: the last loop of `usbDispatchEvents` of src/wcmUSB.c.
use xf86_input_wacom.Prelude.{
  ℕ, zero, suc, ◌+◌, ◌≤◌, ◌<◌, ◌≡◌, ◌≢◌, refl, sym, ap, ◌∙◌, Bool, true, false, not, ◌&&◌, ◌||◌,
  Bool-cases, inl, inr, List, [], ◌∷◌, ◌++◌, get_or, get_or-set_ne, get_or-set_self, get_or-set_out,
  length, ltb, ◌==◌, if◌then◌else◌, arith,
}
use xf86_input_wacom.State.{DeviceState, Channel, Common, touch_id}
use xf86_input_wacom.State.Zero.{zero_channel}
use xf86_input_wacom.Arbiter.{Front}
use xf86_input_wacom.Usb.Channels.{max_channels}
use xf86_input_wacom.Usb.Tablet.{Tablet, Host, Handler, channel_at, update_channel, deliver}
use xf86_input_wacom.Usb.Dispatch.{send_channel, send_dirty, end_frame}
use mathlib.Core.Path.{subst}
use mathlib.Core.List.{append_assoc, append-nil}

-- Channel `i` of a tablet's record.
abbrev pub channel_of : Common → ℕ → Channel
channel_of c i = get_or c.channels i zero_channel

-- What this code relies on of `wcmEvent`: it leaves the states that the protocol fills in, their marks,
-- and the switch of touch as they are.
pub record IsHandler (handle : Handler) : Type 0 where
  pub keeps_work :
      (c : ℕ) (ds : DeviceState) (r : Common × Front) (i : ℕ)
      → (channel_of (handle c ds r).0 i).work ≡ (channel_of r.0 i).work
  pub keeps_dirty :
      (c : ℕ) (ds : DeviceState) (r : Common × Front) (i : ℕ)
      → (channel_of (handle c ds r).0 i).dirty ≡ (channel_of r.0 i).dirty
  pub keeps_touch :
      (c : ℕ) (ds : DeviceState) (r : Common × Front) → (handle c ds r).0.touch ≡ r.0.touch

-- A channel's state, if it is to be sent: it changed, and is no touch or touch is on.
abbrev pub due : Bool → ℕ → DeviceState → Bool → List (ℕ × DeviceState)
due touch c ds dirty =
    if dirty && (not (ds.device_type == touch_id) || touch) then (c, ds) ∷ [] else []

-- The states to send of `n` channels from `c` on, in the channels' order.
abbrev pub due_from : Bool → ℕ → ℕ → List Channel → List (ℕ × DeviceState)
due_from touch zero c chs = []
due_from touch (suc n) c chs =
    let ch = get_or chs c zero_channel in
    due touch c ch.work ch.dirty ++ due_from touch n (suc c) chs

-- Two lists of channels that agree on a channel's state and mark.
abbrev Agree : List Channel → List Channel → ℕ → Type 0
Agree xs ys i =
    ((get_or ys i zero_channel).work ≡ (get_or xs i zero_channel).work)
    × ((get_or ys i zero_channel).dirty ≡ (get_or xs i zero_channel).dirty)

due_from-Agree :
    (touch : Bool) (n c : ℕ) (xs ys : List Channel)
    → ((i : ℕ) → c ≤ i → Agree xs ys i)
    → due_from touch n c ys ≡ due_from touch n c xs
due_from-Agree touch zero c xs ys agree = refl
due_from-Agree touch (suc n) c xs ys agree =
    rw
      (
        (agree c (omega arith)).0,
        (agree c (omega arith)).1,
        due_from-Agree touch n (suc c) xs ys (λ (i : ℕ) (h : suc c ≤ i). agree i (omega arith)),
      )
      refl

-- A channel without its mark.
abbrev unmarked : Channel → Channel
unmarked ch = record ch { dirty = false }

abbrev clean : ℕ → Tablet → Tablet
clean c t = update_channel c (λ (ch : Channel). unmarked ch) t

clean-Agree :
    (c : ℕ) (t : Tablet) (i : ℕ) → c ≢ i → Agree t.common.channels (clean c t).common.channels i
unfolding update_channel
clean-Agree c t i ne =
    let e = get_or-set_ne t.common.channels c i (unmarked (channel_at t c)) zero_channel ne in
    (ap (λ (ch : Channel). ch.work) e, ap (λ (ch : Channel). ch.dirty) e)

clean-unmarked : (c : ℕ) (t : Tablet) → (channel_at (clean c t) c).dirty ≡ false
unfolding update_channel
clean-unmarked c t = elim (Bool-cases (ltb c (length t.common.channels))) [
  | inl inside ↦
      ap (λ (ch : Channel). ch.dirty)
        (get_or-set_self t.common.channels c (unmarked (channel_at t c)) zero_channel
          (ground arith))
  | inr outside ↦
      ap (λ (ch : Channel). ch.dirty)
        (get_or-set_out t.common.channels c (unmarked (channel_at t c)) zero_channel (ground arith))
]

-- What one round of the loop does.
record Round (c : ℕ) (t u : Tablet) : Type 0 where
  sends : u.sent ≡ t.sent ++ due t.common.touch c (channel_at t c).work (channel_at t c).dirty
  others : (i : ℕ) → c ≢ i → Agree t.common.channels u.common.channels i
  cleans : (channel_at u c).dirty ≡ false
  keeps : u.common.touch ≡ t.common.touch

module _ (h : Host) (law : IsHandler h.handle) where
  -- A channel that is sent.
  deliver-Round :
      (c : ℕ) (t : Tablet)
      → (channel_at t c).dirty ≡ true
      → (not ((channel_at t c).work.device_type == touch_id) || t.common.touch) ≡ true
      → Round c t (deliver h c (channel_at t c).work (clean c t))
  unfolding deliver update_channel
  deliver-Round c t dirty on =
      let r : Common × Front = ((clean c t).common, t.front) in
      let ds = (channel_at t c).work in
      record {
        sends = rw (dirty, on) refl;
        others = λ i ne. (
          law.keeps_work c ds r i ∙ (clean-Agree c t i ne).0,
          law.keeps_dirty c ds r i ∙ (clean-Agree c t i ne).1,
        );
        cleans = law.keeps_dirty c ds r c ∙ clean-unmarked c t;
        keeps = law.keeps_touch c ds r;
      }

  send_channel-Round : (c : ℕ) (t : Tablet) → Round c t (send_channel h c t)
  unfolding send_channel update_channel
  send_channel-Round c t = elim (Bool-cases (channel_at t c).dirty) [
    | inr same ↦ rw same record {
      sends = rw same (sym (append-nil t.sent));
      others = λ i ne. (refl, refl);
      cleans = same;
      keeps = refl;
    }
    | inl dirty ↦
        elim (Bool-cases (not ((channel_at t c).work.device_type == touch_id) || t.common.touch)) [
          | inl on ↦ rw (dirty, on) (deliver-Round c t dirty on)
          | inr off ↦
              rw (dirty, off)
                record {
                  sends = rw (dirty, off) (sym (append-nil t.sent));
                  others = λ i ne. clean-Agree c t i ne;
                  cleans = clean-unmarked c t;
                  keeps = refl;
                }
        ]
  ]

  -- What `n` rounds from `c` on do.
  record Rounds (n c : ℕ) (t u : Tablet) : Type 0 where
    sends : u.sent ≡ t.sent ++ due_from t.common.touch n c t.common.channels
    cleans : (i : ℕ) → c ≤ i → i < c + n → (channel_at u i).dirty ≡ false
    keeps_clean : (i : ℕ) → (channel_at t i).dirty ≡ false → (channel_at u i).dirty ≡ false

  extend :
      {A : Type 0} {l m k : List A} (s d e : List A)
      → l ≡ s ++ d
      → m ≡ l ++ k
      → k ≡ e
      → m ≡ s ++ (d ++ e)
  extend s d e p q r = q ∙ rw (p, r) (append_assoc s d e)

  stays_clean :
      (c i : ℕ) (t u : Tablet)
      → Round c t u
      → (channel_at t i).dirty ≡ false
      → (channel_at u i).dirty ≡ false
  stays_clean c i t u r e = elim (Bool-cases (c == i)) [
    | inl here ↦ subst (λ (j : ℕ). (channel_at u j).dirty ≡ false) (ground arith) r.cleans
    | inr there ↦ (r.others i (ground arith)).1 ∙ e
  ]

  send_dirty-Rounds : (n c : ℕ) (t : Tablet) → Rounds n c t (send_dirty h n c t)
  unfolding send_dirty
  send_dirty-Rounds zero c t = record {
    sends = sym (append-nil t.sent);
    cleans = λ i lo hi. absurd (omega arith);
    keeps_clean = λ i e. e;
  }
  send_dirty-Rounds (suc n) c t =
      let u = send_channel h c t in
      let r = send_channel-Round c t in
      let rest = send_dirty-Rounds n (suc c) u in
      record {
        sends =
            extend t.sent (due t.common.touch c (channel_at t c).work (channel_at t c).dirty)
              (due_from t.common.touch n (suc c) t.common.channels) r.sends rest.sends
              (ap (λ (touch : Bool). due_from touch n (suc c) u.common.channels) r.keeps
                ∙ due_from-Agree t.common.touch n (suc c) t.common.channels u.common.channels
                    (λ (i : ℕ) (k : suc c ≤ i). r.others i (omega arith)));
        cleans = λ i lo hi. elim (Bool-cases (c == i)) [
          | inl here ↦
              rest.keeps_clean i
                (subst (λ (j : ℕ). (channel_at u j).dirty ≡ false) (ground arith) r.cleans)
          | inr there ↦ rest.cleans i (ground arith) (omega arith)
        ];
        keeps_clean = λ i e. rest.keeps_clean i (stays_clean c i t u r e);
      }

-- The end of a frame calls `wcmEvent` once for each channel that changed, in the order of the channels
-- and with the state of the channel, but for touches while touch is off; afterwards no channel is marked as
-- changed.
pub end_frame_sends :
    (h : Host) (c i : ℕ) (t : Tablet)
    → IsHandler h.handle
    → i < max_channels
    → ((end_frame h c t).sent ≡ t.sent ++ due_from t.common.touch max_channels 0 t.common.channels)
      × ((channel_at (end_frame h c t) i).dirty ≡ false)
unfolding end_frame
end_frame_sends h c i t law known =
    let r = send_dirty-Rounds h law max_channels 0 _ in
    (r.sends, r.cleans i (omega arith) (omega arith))
