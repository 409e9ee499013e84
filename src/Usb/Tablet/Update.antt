-- ===== src/Usb/Tablet/Update.antt =====
-- What a write to one channel of a tablet does to any channel.
use xf86_input_wacom.Prelude.{
  ℕ, ◌<◌, ◌≡◌, sym, ◌∙◌, false, Bool-cases, inl, inr, get_or-set_ne, get_or-set_self,
  get_or-set_out, get_or-out, length, length-set, ltb, ◌==◌, arith,
}
use xf86_input_wacom.State.{Channel}
use xf86_input_wacom.State.Zero.{zero_channel}
use xf86_input_wacom.Usb.Tablet.{Tablet, channel_at, update_channel}
use mathlib.Core.Path.{subst}

pub channel_at-update_self :
    (c : ℕ) (f : Channel → Channel) (t : Tablet)
    → c < length t.common.channels
    → channel_at (update_channel c f t) c ≡ f (channel_at t c)
unfolding update_channel
channel_at-update_self c f t h =
    get_or-set_self t.common.channels c (f (channel_at t c)) zero_channel h

pub channel_at-update_out :
    (c : ℕ) (f : Channel → Channel) (t : Tablet)
    → ltb c (length t.common.channels) ≡ false
    → channel_at (update_channel c f t) c ≡ channel_at t c
unfolding update_channel
channel_at-update_out c f t h =
    get_or-set_out t.common.channels c (f (channel_at t c)) zero_channel (ground arith)
    ∙ sym (get_or-out t.common.channels c zero_channel (ground arith))

-- What holds of channel `c` and is kept by a change holds after that change of any channel.
pub channel_at-update {ℓ} :
    (P : Channel → Type ℓ) (c i : ℕ) (f : Channel → Channel) (t : Tablet)
    → ((ch : Channel) → P ch → P (f ch))
    → P (channel_at t c)
    → P (channel_at (update_channel i f t) c)
unfolding update_channel
channel_at-update P c i f t keeps p = elim (Bool-cases (i == c)) [
  | inr other ↦
      subst P
        (sym (get_or-set_ne t.common.channels i c (f (channel_at t i)) zero_channel (ground arith)))
        p
  | inl here ↦
      subst (λ (j : ℕ). P (channel_at t j) → P (channel_at (update_channel i f t) j)) (ground arith)
        (λ q. elim (Bool-cases (ltb i (length t.common.channels))) [
          | inl inside ↦ subst P (sym (channel_at-update_self i f t (ground arith))) (keeps _ q)
          | inr outside ↦ subst P (sym (channel_at-update_out i f t outside)) q
        ])
        p
]

pub length-update :
    (i : ℕ) (f : Channel → Channel) (t : Tablet)
    → length (update_channel i f t).common.channels ≡ length t.common.channels
unfolding update_channel
length-update i f t = length-set t.common.channels i (f (channel_at t i))
