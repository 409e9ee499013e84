-- ===== src/Properties/Buttons.antt =====
-- The atoms of the actions that a client sets are the atoms that it reads back: `wcmSetActionsProperty` and
-- `wcmGetProperty` of src/x11/xf86WacomProperties.c, with the numbers of the buttons that X skips.
use xf86_input_wacom.Prelude.{
  ℕ, zero, suc, ◌+◌, ◌≤◌, ◌<◌, ◌≡◌, refl, sym, ap, ◌∙◌, false, none, some, List, get_or, length,
  ◌==◌, arith, Bool-cases, Option-cases, inl, inr, ==_iff,
}
use xf86_input_wacom.Properties.Steps.{device_of, loop, handler_of}
use xf86_input_wacom.State.{Device}
use xf86_input_wacom.Properties.{Status, success, bad_match, bad_value, bad_access, PropertyValue}
use xf86_input_wacom.Properties.Lists.{
  checked_then, Server, ListProperty, btnactions, strip_buttons, wheel_buttons, place, handlers,
  World, set_actions_property, check_actions_property, x11_props, x11_buttons, list_size,
  get_actions_property,
}
use xf86_input_wacom.Properties.Loop.{loop_nbuttons, loop_sets}

abbrev pub full_size : ListProperty → ℕ
full_size btnactions = 32
full_size strip_buttons = 4
full_size wheel_buttons = 8

place_fits :
    (l : ListProperty) (d : Device) (m k : ℕ)
    → d.nbuttons ≤ 32
    → m < list_size l d
    → place l m ≡ some k
    → k < full_size l
unfolding place
place_fits btnactions d m k h lt e = ground arith
place_fits strip_buttons d m k h lt e = ground arith
place_fits wheel_buttons d m k h lt e = ground arith

-- What is shown for the `j`th atom of a list of handlers.
abbrev shown : ListProperty → List ℕ → ℕ → ℕ
shown l props j = elim (place l j) [ none ↦ 0 | some k ↦ get_or props k 0 ]

x11_props_at :
    (i n j : ℕ) (props : List ℕ)
    → j < n
    → get_or (x11_props i n props) j 0 ≡ shown btnactions props (i + j)
unfolding x11_props
x11_props_at i zero j props h = elim h [ ]
x11_props_at i (suc n) zero props h = let here : i + 0 ≡ i = omega arith in rw here refl
x11_props_at i (suc n) (suc j) props h =
    let next : i + suc j ≡ suc i + j = omega arith in
    rw next (x11_props_at (suc i) n j props (omega arith))

get_actions_property_at :
    (l : ListProperty) (d : Device) (j : ℕ)
    → j < list_size l d
    → get_or (get_actions_property l d) j 0 ≡ shown l (handlers l d) j
unfolding get_actions_property place
get_actions_property_at btnactions d j h =
    let from_0 : 0 + j ≡ j = omega arith in
    x11_props_at 0 (x11_buttons d.nbuttons) j d.action_props.btn h
    ∙ ap (λ (m : ℕ). shown btnactions d.action_props.btn m) from_0
get_actions_property_at strip_buttons d j h = refl
get_actions_property_at wheel_buttons d j h = refl

list_size-nbuttons :
    (l : ListProperty) (d e : Device) → d.nbuttons ≡ e.nbuttons → list_size l d ≡ list_size l e
list_size-nbuttons btnactions d e h = ap (λ (n : ℕ). x11_buttons n) h
list_size-nbuttons strip_buttons d e h = refl
list_size-nbuttons wheel_buttons d e h = refl

-- What a call that succeeds did.
record Looped (server : Server) (l : ListProperty) (property : ℕ) (p : PropertyValue)
    (w : World server) : Type 0 where
  sized : p.size ≡ list_size l w.0
  result : set_actions_property server l property p false w ≡ loop server l 0 p.values w
  good : (loop server l 0 p.values w).0 ≡ success

by_check :
    (server : Server) (w : World server) (st : Status) (r : Status × World server)
    → (checked_then server w st r).0 ≡ success
    → checked_then server w st r ≡ r
by_check server w success r ok = refl
by_check server w bad_match r ok = cc
by_check server w bad_value r ok = cc
by_check server w bad_access r ok = cc

set_actions_property-Looped :
    (server : Server) (l : ListProperty) (property : ℕ) (p : PropertyValue) (w : World server)
    → (set_actions_property server l property p false w).0 ≡ success
    → Looped server l property p w
unfolding set_actions_property
set_actions_property-Looped server l property p w ok =
    elim (Bool-cases (p.size == list_size l w.0)) [
      | inl fits ↦
          let run =
            by_check server w (check_actions_property server w.1 property p)
              (loop server l 0 p.values w) (rw fits at ok) in
          record {
            sized = (==_iff p.size (list_size l w.0)).0 fits;
            result = rw fits run;
            good = sym (ap (λ (r : Status × World server). r.0) run) ∙ (rw fits at ok);
          }
      | inr other ↦ absurd (ground arith)
    ]

-- What a client reads at the `j`th place when it set the value `v` there: nothing for a button that only scrolls,
-- the driver's own atom where it asked for a reset, and else what it set.
abbrev pub read_back : Server → ListProperty → ℕ → ℕ → ℕ
read_back server l j v = elim (place l j) [ none ↦ 0 | some k ↦ handler_of server l k v ]

shown-loop :
    (server : Server) (l : ListProperty) (p : PropertyValue) (w : World server) (j : ℕ)
    → w.0.nbuttons ≤ 32
    → length (handlers l w.0) ≡ full_size l
    → j < length p.values
    → j < list_size l w.0
    → (loop server l 0 p.values w).0 ≡ success
    → shown l (handlers l (device_of server l (loop server l 0 p.values w))) j
      ≡ read_back server l j (get_or p.values j 0)
shown-loop server l p w j few full inside listed ok = elim (Option-cases (place l j)) [
  | inl none_there ↦ rw (none_there, shown, read_back) refl
  | inr (k, there) ↦
      rw (there, shown, read_back)
        (loop_sets server l 0 p.values w j k (omega arith) (omega arith) there
            (omega (arith, place_fits l w.0 j k few listed there)) ok
          ∙ ap (λ (m : ℕ). handler_of server l k (get_or p.values m 0)) (omega arith))
]

-- When a client's list of actions is set, what it then reads is the list that it set, place for place: with
-- nothing at the buttons that only scroll, and with the driver's own atom where it asked for a reset. The device
-- has at most 32 buttons, and its list of handlers its full length.
pub set_actions_property_shows :
    (server : Server) (l : ListProperty) (property : ℕ) (p : PropertyValue) (w : World server)
    (j : ℕ)
    → length p.values ≡ p.size
    → w.0.nbuttons ≤ 32
    → length (handlers l w.0) ≡ full_size l
    → (set_actions_property server l property p false w).0 ≡ success
    → j < p.size
    → get_or (get_actions_property l (set_actions_property server l property p false w).1.0) j 0
      ≡ read_back server l j (get_or p.values j 0)
set_actions_property_shows server l property p w j sized few full ok inside =
    let done = set_actions_property-Looped server l property p w ok in
    let d = (loop server l 0 p.values w).1.0 in
    let same_size = list_size-nbuttons l d w.0 (loop_nbuttons server l 0 p.values w done.good) in
    ap (λ (r : Status × World server). get_or (get_actions_property l r.1.0) j 0) done.result
    ∙ get_actions_property_at l d j (omega (arith, done.sized, same_size))
    ∙ shown-loop server l p w j few full (omega arith) (omega (arith, done.sized)) done.good
