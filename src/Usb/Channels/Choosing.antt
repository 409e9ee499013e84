-- ===== src/Usb/Channels/Choosing.antt =====
-- The channel that a tool gets: `usbChooseChannel` of src/wcmUSB.c.
use xf86_input_wacom.Prelude.{
  ℕ, ◌≡◌, ◌≢◌, refl, inl, inr, true, false, Option-cases, Option, none, some, List, [], get_elem?,
  get_elem?-set_self, get_elem?-set_ne, get_or, ◌⊎◌, ◌==◌, arith,
}
use xf86_input_wacom.Prelude.Int.{is_set}
use xf86_input_wacom.State.{zero_state, Channel}
use xf86_input_wacom.State.Zero.{zero_channel}
use mathlib.Core.Path.{subst}
use xf86_input_wacom.Usb.Channels.{
  pad_channel, default_tool_serial, first_channel, tracks, is_free, is_dropped, Choice, drop_tools,
  choose_empty, choose_existing, choose_channel,
}
use xf86_input_wacom.Usb.Channels.Search.{
  first_channel-Found, drop_tools-none, in_list, there_of, all_fail, drop_tools-keeps, tracks_parts,
  tracks_not, free_parts, free_not, dropped_not, not_dropped, from_0,
}

-- A channel that tracks the tool is taken as it is.
pub record KeepsTool (device_type serial : ℕ) (chs : List Channel) (i : ℕ) (c : Choice)
    : Type 0 where
  pub ch : Channel
  pub there : get_elem? chs i ≡ some ch
  pub used : is_set ch.work.proximity ≡ true
  pub same_type : ch.work.device_type ≡ device_type
  pub same_serial : ch.work.serial_num ≡ serial
  pub kept : c.channels ≡ chs
  pub silent : c.events ≡ []

-- No channel of the list has the tool in proximity.
abbrev pub IsUnknown : ℕ → ℕ → List Channel → Type 0
IsUnknown device_type serial chs =
    (j : ℕ) (other : Channel)
    → get_elem? chs j ≡ some other
    → is_set other.work.proximity ≡ true
    → other.work.device_type ≡ device_type
    → other.work.serial_num ≢ serial

-- No channel tracks the tool, and a channel that was out of proximity before and now, and not the pad's, is cleared;
-- the others stay.
pub record ClearsChannel (device_type serial : ℕ) (chs : List Channel) (i : ℕ) (c : Choice)
    : Type 0 where
  pub unknown : IsUnknown device_type serial chs
  pub ch : Channel
  pub there : get_elem? chs i ≡ some ch
  pub not_pad : i ≢ pad_channel
  pub away : is_set ch.work.proximity ≡ false
  pub was_away : is_set (get_or ch.states 0 zero_state).proximity ≡ false
  pub clean : get_elem? c.channels i ≡ some zero_channel
  pub others : (j : ℕ) → i ≢ j → get_elem? c.channels j ≡ get_elem? chs j
  pub silent : c.events ≡ []

-- No channel tracks the tool and every one but the pad's was or is in proximity. Then none but the pad's is left in
-- proximity but for a pad's number, and a channel that needs no change stays as it was.
pub record DropsTools (device_type serial : ℕ) (chs : List Channel) (c : Choice) : Type 0 where
  pub unknown : IsUnknown device_type serial chs
  pub full :
      (j : ℕ) (other : Channel)
      → get_elem? chs j ≡ some other
      → j ≢ pad_channel
      → (is_set other.work.proximity ≡ true)
        ⊎ (is_set (get_or other.states 0 zero_state).proximity ≡ true)
  pub dropped :
      (j : ℕ) (other : Channel)
      → get_elem? c.channels j ≡ some other
      → j ≢ pad_channel
      → is_set other.work.proximity ≡ true
      → other.work.serial_num ≡ default_tool_serial
  pub others :
      (j : ℕ) (other : Channel)
      → get_elem? chs j ≡ some other
      → (j ≡ pad_channel)
        ⊎ (is_set other.work.proximity ≡ false)
        ⊎ (other.work.serial_num ≡ default_tool_serial)
      → get_elem? c.channels j ≡ some other

-- What a choice gives a tool.
abbrev pub IsFor : ℕ → ℕ → List Channel → Choice → Option ℕ → Type 0
IsFor device_type serial chs c none = DropsTools device_type serial chs c
IsFor device_type serial chs c (some i) =
    KeepsTool device_type serial chs i c ⊎ ClearsChannel device_type serial chs i c

-- With no channel that tracks the tool.
choose_empty-IsFor :
    (device_type serial : ℕ) (chs : List Channel)
    → IsUnknown device_type serial chs
    → let c = choose_empty chs (first_channel is_free 0 chs) in
      IsFor device_type serial chs c c.channel
unfolding choose_empty
choose_empty-IsFor device_type serial chs unknown =
    elim (Option-cases (first_channel is_free 0 chs)) [
      | inl full ↦ rw full record {
        unknown = unknown;
        full = λ j other there. free_not j other (all_fail is_free j chs other full there);
        dropped = λ j other there.
            dropped_not j other
              (all_fail is_dropped j (drop_tools 0 chs) other (drop_tools-none 0 chs) there);
        others = λ j other there kept.
            drop_tools-keeps 0 j chs other there
              (subst (λ (x : ℕ). is_dropped x other ≡ false) (from_0 j) (not_dropped j other kept));
      }
      | inr (i, e) ↦
          let f = first_channel-Found is_free 0 i chs e in
          let there = there_of is_free i chs f in
          let apart = free_parts i f.ch f.holds in
          rw e (
            inr record {
              ch = f.ch;
              unknown = unknown;
              there = there;
              not_pad = apart.0;
              away = apart.1;
              was_away = apart.2;
              clean = get_elem?-set_self chs i zero_channel (in_list chs i f.ch there);
              others = λ j ne. get_elem?-set_ne chs i j zero_channel ne;
              silent = refl;
            })
    ]

choose_existing-IsFor :
    (device_type serial : ℕ) (chs : List Channel)
    → let c =
        choose_existing chs
          (first_channel (λ (i : ℕ) (ch : Channel). tracks device_type serial ch) 0 chs) in
      IsFor device_type serial chs c c.channel
unfolding choose_existing
choose_existing-IsFor device_type serial chs =
    let p = λ (i : ℕ) (ch : Channel). tracks device_type serial ch in
    elim (Option-cases (first_channel p 0 chs)) [
      | inl unknown ↦ rw unknown (
          choose_empty-IsFor device_type serial chs (λ j other there.
            tracks_not device_type serial other (all_fail p j chs other unknown there)))
      | inr (i, e) ↦
          let f = first_channel-Found p 0 i chs e in
          let all = tracks_parts device_type serial f.ch f.holds in
          rw e (
            inl record {
              ch = f.ch;
              there = there_of p i chs f;
              used = all.0;
              same_type = all.1;
              same_serial = all.2;
              kept = refl;
              silent = refl;
            })
    ]

not_default : (serial : ℕ) → serial ≢ default_tool_serial → (serial == default_tool_serial) ≡ false
not_default serial h = ground arith

-- A tool that is no pad gets a channel that has it in proximity, and then nothing changes; or, if no channel has it,
-- one that was out of proximity, of all but the pad's: all its fields are cleared, and the other channels are as
-- before. If there is neither it gets none: afterwards what is in proximity on a channel other than the pad's has a
-- pad's number, and the channels that had nothing else in proximity are as before.
pub choose_channel-IsFor :
    (chs : List Channel) (device_type serial : ℕ)
    → serial ≢ default_tool_serial
    → let c = choose_channel chs device_type serial in IsFor device_type serial chs c c.channel
unfolding choose_channel
choose_channel-IsFor chs device_type serial tool =
    rw (not_default serial tool) (choose_existing-IsFor device_type serial chs)
