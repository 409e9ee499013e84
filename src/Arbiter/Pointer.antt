-- ===== src/Arbiter/Pointer.antt =====
-- Who has the pointer: the arbitration in `wcmEvent` of src/wcmCommon.c.
use xf86_input_wacom.Prelude.{suc, ◌-◌, ◌<◌, ◌≢◌, length, get_or, ℕ, ◌≡◌}
use xf86_input_wacom.State.{DeviceState, zero_state, Common}
use xf86_input_wacom.State.Zero.{zero_channel}

-- The state is the last of its channel, after those that were there; the rest of the tablet's record is the same.
pub record IsSaved (c : ℕ) (ds : DeviceState) (before after : Common) : Type 0 where
  pub last : get_or (get_or after.channels c zero_channel).states 0 zero_state ≡ ds
  pub earlier :
      (i : ℕ)
      → i < before.raw_sample - 1
      → i < length (get_or before.channels c zero_channel).states
      → get_or (get_or after.channels c zero_channel).states (suc i) zero_state
        ≡ get_or (get_or before.channels c zero_channel).states i zero_state
  pub others :
      (j : ℕ) → c ≢ j → get_or after.channels j zero_channel ≡ get_or before.channels j zero_channel
  pub same_rest : after ≡ record before { channels = after.channels }
