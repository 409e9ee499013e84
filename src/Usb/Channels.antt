-- ===== src/Usb/Channels.antt =====
-- The channel that tracks a tool's state: `protocol5Serial` and `usbChooseChannel` of src/wcmUSB.c.
pub mod Search
pub mod Choosing
use xf86_input_wacom.Prelude.{
  ℕ, zero, suc, ◌+◌, ◌^◌, ◌-◌, ◌<◌, ◌≡◌, ◌≢◌, refl, inl, inr, Bool, true, false, not, ◌&&◌, ◌||◌,
  Bool-cases, Option-cases, Option, none, some, List, [], ◌∷◌, set, get_or, get_elem?,
  get_elem?-set_self, length, ◌==◌, if◌then◌else◌, arith,
}
use xf86_input_wacom.Prelude.Int.{pos, is_set}
use xf86_input_wacom.State.{DeviceState, zero_state, Channel, pad_id}
use xf86_input_wacom.State.Zero.{zero_channel}
use mathlib.Core.Path.{subst}

-- DEFAULT_TOOL_SERIAL, MAX_CHANNELS and PAD_CHANNEL of src/xf86WacomDefs.h
abbrev pub default_tool_serial : ℕ
default_tool_serial = 2 ^ 32 - 1

abbrev pub max_channels : ℕ
max_channels = 18

abbrev pub pad_channel : ℕ
pad_channel = 17

-- `protocol5Serial`
unfoldable pub protocol5_serial : ℕ → ℕ → ℕ
protocol5_serial device_type serial =
    if serial == 0
    then (if device_type == pad_id then default_tool_serial else 1)
    else if serial == 0xf0
    then default_tool_serial
    else serial

-- The first channel that `p` holds of; `k` is the number of the list's head.
abbrev pub first_channel : (ℕ → Channel → Bool) → ℕ → List Channel → Option ℕ
first_channel p k [] = none
first_channel p k (ch ∷ chs) =
    let rest = first_channel p (suc k) chs in if p k ch then some k else rest

-- The channel tracks the tool.
abbrev pub tracks : ℕ → ℕ → Channel → Bool
tracks device_type serial ch =
    is_set ch.work.proximity
    && ((ch.work.device_type == device_type) && (ch.work.serial_num == serial))

-- The channel is not the pad's, and neither its next nor its current state is in proximity.
abbrev pub is_free : ℕ → Channel → Bool
is_free i ch =
    not (i == pad_channel)
    && (not (is_set ch.work.proximity) && not (is_set (get_or ch.states 0 zero_state).proximity))

-- The channel has a tool that is forced out when no channel is left.
abbrev pub is_dropped : ℕ → Channel → Bool
is_dropped i ch =
    not (i == pad_channel)
    && (is_set ch.work.proximity && not (ch.work.serial_num == default_tool_serial))

abbrev pub out_of_proximity : Channel → Channel
out_of_proximity ch = record ch { work = record (ch.work) { proximity = pos 0 } }

-- The channels afterwards, the channel chosen (`none` is -1), and the arguments of the calls of
-- `wcmEvent` in their order.
pub record Choice : Type 0 where
  pub channels : List Channel
  pub channel : Option ℕ
  pub events : List (ℕ × DeviceState)

-- The last loop: tools are forced out of proximity.
unfoldable pub drop_tools : ℕ → List Channel → List Channel
drop_tools k [] = []
drop_tools k (ch ∷ chs) =
    (if is_dropped k ch then out_of_proximity ch else ch) ∷ drop_tools (suc k) chs

unfoldable pub drop_events : ℕ → List Channel → List (ℕ × DeviceState)
drop_events k [] = []
drop_events k (ch ∷ chs) =
    let rest = drop_events (suc k) chs in
    if is_dropped k ch then (k, (out_of_proximity ch).work) ∷ rest else rest

unfoldable pub choose_empty : List Channel → Option ℕ → Choice
choose_empty chs (some i) = record {
  channels = set chs i zero_channel;
  channel = some i;
  events = [];
}
choose_empty chs none = record {
  channels = drop_tools 0 chs;
  channel = none;
  events = drop_events 0 chs;
}

unfoldable pub choose_existing : List Channel → Option ℕ → Choice
choose_existing chs (some i) = record { channels = chs; channel = some i; events = [] }
choose_existing chs none = choose_empty chs (first_channel is_free 0 chs)

-- `usbChooseChannel`
unfoldable pub choose_channel : List Channel → ℕ → ℕ → Choice
choose_channel chs device_type serial =
    if serial == default_tool_serial
    then record { channels = chs; channel = some pad_channel; events = [] }
    else choose_existing chs
        (first_channel (λ (i : ℕ) (ch : Channel). tracks device_type serial ch) 0 chs)
