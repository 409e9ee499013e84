-- ===== src/Usb/Tablet.antt =====
-- What the dispatch of src/wcmUSB.c works on: a tablet with its channels and subdevices, the fields of
-- `wcmUSBData` that the events' code reads, and the calls of `wcmEvent` so far.
pub mod Update
use xf86_input_wacom.Prelude.{ℕ, Bool, Option, none, some, List, [], ◌∷◌, ◌++◌, get_or, set}
use xf86_input_wacom.Prelude.Int.{ℤ}
use xf86_input_wacom.State.{DeviceState, zero_state, Channel, Device, Common}
use xf86_input_wacom.State.Zero.{zero_channel}
use xf86_input_wacom.Arbiter.{Front}
use xf86_input_wacom.Usb.Event.{Key}
use xf86_input_wacom.Usb.Channels.{
  Choice, choose_channel, out_of_proximity, default_tool_serial, pad_channel,
}

-- `wcmUSBData`; `mt_channel` is `none` for -1.
pub record Usb : Type 0 where
  pub last_tool_serial : ℕ
  pub device_type : ℕ
  pub pen_touch : Bool
  pub use_mt : Bool
  pub mt_channel : Option ℕ
  pub padkeys : List ℕ
  pub nbuttons : ℕ
  pub last_channel : ℕ

-- `sent` holds the arguments of the calls of `wcmEvent`, the first call first.
pub record Tablet : Type 0 where
  pub common : Common
  pub usb : Usb
  pub front : Front
  pub sent : List (ℕ × DeviceState)

-- What `wcmEvent` does to the tablet's record and to its subdevices, for a channel and a state.
abbrev pub Handler : Type 0
Handler = ℕ → DeviceState → Common × Front → Common × Front

-- Code outside of this file's: the tilt in floating point, the kernel's answers to EVIOCGKEY (the keys
-- that are down) and to EVIOCGABS for both axes, `none` where the call fails; and `wcmEvent`, which
-- src/wcmCommon.c implements.
pub record Host : Type 0 where
  pub tilt_x : ℤ → ℤ
  pub tilt_y : ℤ → ℤ
  pub keys_down : Option (List Key)
  pub current_x : Option ℤ
  pub current_y : Option ℤ
  pub handle : Handler

abbrev pub set_usb : Tablet → Usb → Tablet
set_usb t u = record t { usb = u }

abbrev pub set_channels : Tablet → List Channel → Tablet
set_channels t chs = record t { common = record (t.common) { channels = chs } }

-- `wcmChannel[c]`
abbrev pub channel_at : Tablet → ℕ → Channel
channel_at t c = get_or t.common.channels c zero_channel

-- `wcmChannel[c].valid.state`
abbrev pub state_at : Tablet → ℕ → DeviceState
state_at t c = get_or (channel_at t c).states 0 zero_state

unfoldable pub update_channel : ℕ → (Channel → Channel) → Tablet → Tablet
update_channel c f t = set_channels t (set t.common.channels c (f (channel_at t c)))

abbrev pub update_work : (DeviceState → DeviceState) → Channel → Channel
update_work f ch = record ch { work = f ch.work }

-- A call of `wcmEvent`.
unfoldable pub deliver : Host → ℕ → DeviceState → Tablet → Tablet
deliver h c ds t =
    let r = h.handle c ds (t.common, t.front) in
    record t { common = r.0; front = r.1; sent = t.sent ++ (c, ds) ∷ [] }

-- The last loop of `usbChooseChannel`: each tool in the list is forced out and its event sent.
unfoldable pub force_out : Host → List (ℕ × DeviceState) → Tablet → Tablet
force_out h [] t = t
force_out h ((c, ds) ∷ rest) t =
    force_out h rest (deliver h c ds (update_channel c out_of_proximity t))

-- `usbChooseChannel` on the tablet: the channel, or `none` for -1.
unfoldable pub take_choice : Host → Tablet → Option ℕ → Choice → Tablet × Option ℕ
take_choice h t none choice = (force_out h choice.events t, none)
take_choice h t (some c) choice = (set_channels t choice.channels, some c)

unfoldable pub take_channel : Host → ℕ → ℕ → Tablet → Tablet × Option ℕ
take_channel h device_type serial t =
    let choice = choose_channel t.common.channels device_type serial in
    take_choice h t choice.channel choice
