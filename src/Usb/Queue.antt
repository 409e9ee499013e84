-- ===== src/Usb/Queue.antt =====
-- The queue of src/wcmUSB.c: `usbResetEventCounter`, `usbParseEvent`, `usbParseMscEvent` and
-- `usbParseSynEvent`. A frame that is complete is handed to `usbDispatchEvents`.
use xf86_input_wacom.Prelude.{
  ℕ, ◌≤◌, ◌≡◌, refl, sym, ◌∙◌, Bool, true, false, not, ◌&&◌, ◌||◌, Bool-cases, inl, inr, Option,
  none, some, List, [], ◌∷◌, ◌++◌, length, length-append, ltb, leb, ◌==◌, if◌then◌else◌, arith,
}

pub data EventType : Type 0 where
  ev_syn ev_msc ev_key ev_rel ev_abs ev_sw ev_other : EventType

-- `struct input_event`, without its time; the value of a serial number is its 32 bits.
pub record InputEvent : Type 0 where
  pub ev_type : EventType
  pub code : ℕ
  pub value : ℕ

-- The queue in `wcmUSBData`. Of the flags of the types in the queue only `significant` is used: that there
-- is another type than EV_SYN and EV_MSC.
pub record Queue : Type 0 where
  pub events : List InputEvent
  pub significant : Bool
  pub last_tool_serial : ℕ

abbrev pub max_usb_events : ℕ
max_usb_events = 128

abbrev pub is_significant : EventType → Bool
is_significant ev_syn = false
is_significant ev_msc = false
is_significant ev_key = true
is_significant ev_rel = true
is_significant ev_abs = true
is_significant ev_sw = true
is_significant ev_other = true

-- `usbResetEventCounter`
abbrev pub reset_event_counter : Queue → Queue
reset_event_counter q = record q { events = []; significant = false }

-- The queue with one more event.
abbrev pub save_event : Queue → InputEvent → Queue
save_event q e = record q {
  events = q.events ++ e ∷ [];
  significant = q.significant || is_significant e.ev_type;
}

-- The queue afterwards, and the frame that is handed on.
pub record Parsed : Type 0 where
  pub queue : Queue
  pub frame : Option (List InputEvent)

-- The codes MSC_SERIAL and SYN_REPORT are the kernel's.
module _ (msc_serial syn_report : ℕ) where
  -- `usbParseMscEvent`: a serial number of 0 drops the frame.
  unfoldable pub parse_msc_event : Queue → InputEvent → Queue
  parse_msc_event q e =
      if not (e.code == msc_serial)
      then q
      else if not (e.value == 0)
      then record q { last_tool_serial = e.value }
      else reset_event_counter q

  -- `usbParseSynEvent`
  unfoldable pub parse_syn_event : Queue → InputEvent → Parsed
  parse_syn_event q e =
      if not (e.code == syn_report)
      then record { queue = q; frame = none }
      else if ltb (length q.events) 2 && not (q.last_tool_serial == 0)
      then record { queue = reset_event_counter q; frame = none }
      else if not q.significant
      then record { queue = reset_event_counter q; frame = none }
      else record { queue = reset_event_counter q; frame = some q.events }

  -- The switch of `usbParseEvent`, on the queue that holds the event.
  unfoldable pub parse_by_type : EventType → Queue → InputEvent → Parsed
  parse_by_type ev_msc q e = record { queue = parse_msc_event q e; frame = none }
  parse_by_type ev_syn q e = parse_syn_event q e
  parse_by_type ev_key q e = record { queue = q; frame = none }
  parse_by_type ev_rel q e = record { queue = q; frame = none }
  parse_by_type ev_abs q e = record { queue = q; frame = none }
  parse_by_type ev_sw q e = record { queue = q; frame = none }
  parse_by_type ev_other q e = record { queue = q; frame = none }

  -- `usbParseEvent`; a full queue is dropped, and the event with it.
  unfoldable pub parse_event : Queue → InputEvent → Parsed
  parse_event q e =
      if leb max_usb_events (length q.events)
      then record { queue = reset_event_counter q; frame = none }
      else parse_by_type e.ev_type (save_event q e) e

-- An event in the list is of a type that carries data.
abbrev pub has_significant : List InputEvent → Bool
has_significant [] = false
has_significant (e ∷ es) = is_significant e.ev_type || has_significant es

-- The queue fits its array, and its flag says what its events do.
pub record IsQueue (q : Queue) : Type 0 where
  pub fits : length q.events ≤ max_usb_events
  pub flagged : q.significant ≡ has_significant q.events

-- A frame is what was queued and the event that ends it, within the array, and carries data.
abbrev pub IsFrame : Queue → InputEvent → Option (List InputEvent) → Type 0
IsFrame q e none = Unit
IsFrame q e (some es) =
    (es ≡ q.events ++ e ∷ []) × (length es ≤ max_usb_events) × (has_significant es ≡ true)

has_significant-append :
    (es : List InputEvent) (e : InputEvent)
    → has_significant (es ++ e ∷ []) ≡ (has_significant es || is_significant e.ev_type)
has_significant-append [] e = ground arith
has_significant-append (x ∷ es) e = ground (arith, has_significant-append es e)

save_event-IsQueue :
    (q : Queue) (e : InputEvent)
    → IsQueue q
    → leb max_usb_events (length q.events) ≡ false
    → IsQueue (save_event q e)
save_event-IsQueue q e i room = record {
  fits = ground (arith, length-append q.events (e ∷ []));
  flagged = rw (has_significant-append q.events e, i.flagged) refl;
}

reset-IsQueue : (q : Queue) → IsQueue (reset_event_counter q)
reset-IsQueue q = record { fits = omega arith; flagged = refl }

parse_msc_event-IsQueue :
    (m s : ℕ) (q : Queue) (e : InputEvent) → IsQueue q → IsQueue (parse_msc_event m s q e)
unfolding parse_msc_event
parse_msc_event-IsQueue m s q e i = elim (Bool-cases (not (e.code == m))) [
  | inl other ↦ rw other i
  | inr serial ↦ elim (Bool-cases (not (e.value == 0))) [
    | inl known ↦ rw (serial, known) record { fits = i.fits; flagged = i.flagged }
    | inr zero_serial ↦ rw (serial, zero_serial) (reset-IsQueue q)
  ]
]

parse_syn_event-IsQueue :
    (m s : ℕ) (q q0 : Queue) (e : InputEvent)
    → IsQueue q
    → q.events ≡ q0.events ++ e ∷ []
    → IsQueue (parse_syn_event m s q e).queue × IsFrame q0 e (parse_syn_event m s q e).frame
unfolding parse_syn_event
parse_syn_event-IsQueue m s q q0 e i same = elim (Bool-cases (not (e.code == s))) [
  | inl other ↦ rw other (i, tt)
  | inr report ↦ elim (Bool-cases (ltb (length q.events) 2 && not (q.last_tool_serial == 0))) [
    | inl empty ↦ rw (report, empty) (reset-IsQueue q, tt)
    | inr long ↦ elim (Bool-cases q.significant) [
      | inl data_sent ↦
          rw (report, long, data_sent) (reset-IsQueue q, (same, i.fits, sym i.flagged ∙ data_sent))
      | inr no_data ↦ rw (report, long, no_data) (reset-IsQueue q, tt)
    ]
  ]
]

parse_by_type-IsQueue :
    (m s : ℕ) (t : EventType) (q q0 : Queue) (e : InputEvent)
    → IsQueue q
    → q.events ≡ q0.events ++ e ∷ []
    → IsQueue (parse_by_type m s t q e).queue × IsFrame q0 e (parse_by_type m s t q e).frame
unfolding parse_by_type
parse_by_type-IsQueue m s ev_msc q q0 e i same = (parse_msc_event-IsQueue m s q e i, tt)
parse_by_type-IsQueue m s ev_syn q q0 e i same = parse_syn_event-IsQueue m s q q0 e i same
parse_by_type-IsQueue m s ev_key q q0 e i same = (i, tt)
parse_by_type-IsQueue m s ev_rel q q0 e i same = (i, tt)
parse_by_type-IsQueue m s ev_abs q q0 e i same = (i, tt)
parse_by_type-IsQueue m s ev_sw q q0 e i same = (i, tt)
parse_by_type-IsQueue m s ev_other q q0 e i same = (i, tt)

-- Whatever event comes, the queue stays within its array with its flag right, and a frame that is handed
-- on is all that was queued with the event at its end, within the array, and carries data.
pub parse_event-IsQueue :
    (msc_serial syn_report : ℕ) (q : Queue) (e : InputEvent)
    → IsQueue q
    → let p = parse_event msc_serial syn_report q e in IsQueue p.queue × IsFrame q e p.frame
unfolding parse_event
parse_event-IsQueue m s q e i = elim (Bool-cases (leb max_usb_events (length q.events))) [
  | inl full ↦ rw full (reset-IsQueue q, tt)
  | inr room ↦ rw room (
      parse_by_type-IsQueue m s e.ev_type (save_event q e) q e (save_event-IsQueue q e i room) refl)
]
