-- ===== src/Usb/Tests.antt =====
-- A frame of two events, and a tool that comes to an empty tablet.
use xf86_input_wacom.Prelude.{◌≡◌, refl, arith, false, some, List, [], ◌∷◌, replicate}
use xf86_input_wacom.State.{Channel}
use xf86_input_wacom.State.Zero.{zero_channel}
use xf86_input_wacom.Usb.Queue.{
  InputEvent, Queue, ev_abs, ev_syn, IsQueue, IsFrame, parse_event, parse_event-IsQueue,
  parse_by_type, parse_syn_event,
}
use xf86_input_wacom.Usb.Channels.Choosing.{IsFor, choose_channel-IsFor}
use xf86_input_wacom.Usb.Channels.{choose_channel, choose_existing, choose_empty}

abbrev position : InputEvent
position = record { ev_type = ev_abs; code = 0; value = 500 }

abbrev report : InputEvent
report = record { ev_type = ev_syn; code = 0; value = 0 }

abbrev empty : Queue
empty = record { events = []; significant = false; last_tool_serial = 0 }

two_events :
    (parse_event 0 0 (parse_event 0 0 empty position).queue report).frame
    ≡ some (position ∷ report ∷ [])
unfolding parse_event parse_by_type parse_syn_event
two_events = refl

empty-IsQueue : IsQueue empty
empty-IsQueue = record { fits = omega arith; flagged = refl }

parse_event-IsQueue_example :
    IsQueue (parse_event 0 0 empty report).queue
    × IsFrame empty report (parse_event 0 0 empty report).frame
parse_event-IsQueue_example = parse_event-IsQueue 0 0 empty report empty-IsQueue

abbrev idle : List Channel
idle = replicate 18 zero_channel

first_free : (choose_channel idle 1 77).channel ≡ some 0
unfolding choose_channel choose_existing choose_empty
first_free = refl

choose_channel-IsFor_example : let c = choose_channel idle 1 77 in IsFor 1 77 idle c c.channel
choose_channel-IsFor_example = choose_channel-IsFor idle 1 77 (omega arith)
