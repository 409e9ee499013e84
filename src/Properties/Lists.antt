-- ===== src/Properties/Lists.antt =====
-- The properties that hold the atoms of a device's properties of actions: `wcmCheckActionsProperty`,
-- `wcmSetActionsProperty`, `wcmFindProp`, `wcmFindActionHandler`, `wcmDeleteProperty` and `wcmGetProperty` of
-- src/x11/xf86WacomProperties.c. The X server is a parameter. That it calls the driver back when the driver itself
-- changes a property is left out: the driver then sets the action to the value that it holds.
use xf86_input_wacom.Prelude.{
  ℕ, zero, suc, ◌+◌, ◌-◌, Bool, true, false, not, ◌||◌, Option, none, some, List, [], ◌∷◌, get_or,
  set, take, ltb, ◌==◌, if◌then◌else◌,
}
use xf86_input_wacom.State.{Device, Action}
use xf86_input_wacom.Session.Mode.{
  no_action, reset_button_action, reset_strip_action, reset_wheel_action,
}
use xf86_input_wacom.Properties.{
  Status, success, bad_match, bad_value, bad_access, PropertyValue, ValueType, xa_integer, xa_atom,
  other_type, Setting, and_check, set_action_property,
}

-- The server: its state, the lookup of a property of the device, which atoms there are, the change of a property,
-- and the atoms of the names "Wacom button action %d" and so on.
pub record Server : Type 1 where
  pub Properties : Type 0
  pub get : Properties → ℕ → Option PropertyValue
  pub valid_atom : Properties → ℕ → Bool
  pub change : Properties → ℕ → PropertyValue → Properties
  pub button_atom : ℕ → ℕ
  pub strip_atom : ℕ → ℕ
  pub wheel_atom : ℕ → ℕ

-- The three properties, `prop_strip_buttons`, `prop_wheel_buttons` and `prop_btnactions`.
pub data ListProperty : Type 0 where
  btnactions strip_buttons wheel_buttons : ListProperty

abbrev pub max_buttons : ℕ
max_buttons = 32

-- The number of atoms that `wcmSetProperty` wants: a device with more than three buttons has four for scrolling.
abbrev pub x11_buttons : ℕ → ℕ
x11_buttons n = if ltb n 4 then n else n + 4

abbrev pub list_size : ListProperty → Device → ℕ
list_size btnactions d = x11_buttons d.nbuttons
list_size strip_buttons d = 4
list_size wheel_buttons d = 8

-- The handlers and actions of a property.
abbrev pub handlers : ListProperty → Device → List ℕ
handlers btnactions d = d.action_props.btn
handlers strip_buttons d = d.action_props.strip
handlers wheel_buttons d = d.action_props.wheel

abbrev pub actions : ListProperty → Device → List Action
actions btnactions d = d.key_actions
actions strip_buttons d = d.strip_actions
actions wheel_buttons d = d.wheel_actions

abbrev pub put_handlers : ListProperty → List ℕ → Device → Device
put_handlers btnactions hs d = record d { action_props = record (d.action_props) { btn = hs } }
put_handlers strip_buttons hs d = record d { action_props = record (d.action_props) { strip = hs } }
put_handlers wheel_buttons hs d = record d { action_props = record (d.action_props) { wheel = hs } }

abbrev pub put_actions : ListProperty → List Action → Device → Device
put_actions btnactions acts d = record d { key_actions = acts }
put_actions strip_buttons acts d = record d { strip_actions = acts }
put_actions wheel_buttons acts d = record d { wheel_actions = acts }

-- The place of the `i`th atom: the buttons are counted without the four for scrolling, which have none.
unfoldable pub place : ListProperty → ℕ → Option ℕ
place btnactions i = if ltb i 3 then some i else if ltb i 7 then none else some (i - 4)
place strip_buttons i = some i
place wheel_buttons i = some i

-- `wcmFindProp`, from the place `i` on; `none` is its -BadAtom.
unfoldable pub find_prop : ℕ → ℕ → List ℕ → Option ℕ
find_prop property i [] = none
find_prop property i (a ∷ as') = if a == property then some i else find_prop property (suc i) as'

-- `wcmFindActionHandler`: the list, and the place in it.
unfoldable pub find_action_handler : Device → ℕ → Option (ListProperty × ℕ)
find_action_handler d property = elim (find_prop property 0 d.action_props.btn) [
  | some i ↦ some (btnactions, i)
  | none ↦ elim (find_prop property 0 d.action_props.wheel) [
    | some i ↦ some (wheel_buttons, i)
    | none ↦ elim (find_prop property 0 d.action_props.strip) [
      | some i ↦ some (strip_buttons, i)
      | none ↦ none
    ]
  ]
]

-- `wcmDeleteProperty`
unfoldable pub delete_property : Device → ℕ → Status
delete_property d property = elim (find_action_handler d property) [
  | some h ↦ bad_access
  | none ↦ success
]

abbrev is_atom : ValueType → Bool
is_atom xa_atom = true
is_atom xa_integer = false
is_atom other_type = false

abbrev pub reset_action : ListProperty → Device → ℕ → Device
reset_action btnactions d i = reset_button_action d i
reset_action strip_buttons d i = reset_strip_action d i
reset_action wheel_buttons d i = reset_wheel_action d i

-- What `wcmInitActionProp` gives the server: the action's codes.
abbrev pub action_value : Action → PropertyValue
action_value a = record {
  size = a.nactions;
  format = 32;
  value_type = xa_integer;
  values = take a.nactions a.action;
}

-- `wcmSetActionProperty` on a place of a list.
unfoldable pub put_setting : ListProperty → ℕ → Setting → Device → Status × Device
put_setting l i (status, handler, act) d = (
  status,
  put_actions l (set (actions l d) i act) (put_handlers l (set (handlers l d) i handler) d),
)

unfoldable pub set_at :
    ListProperty → ℕ → ℕ → Option PropertyValue → Bool → Device → Status × Device
set_at l i property p checkonly d =
    put_setting l i
      (set_action_property property p checkonly (get_or (handlers l d) i 0)
        (get_or (actions l d) i no_action))
      d

module _ (server : Server) where
  open server use {Properties, get, valid_atom, change, button_atom, strip_atom, wheel_atom}

  -- One atom of `wcmCheckActionsProperty`.
  unfoldable pub check_atom : Properties → ℕ → ℕ → Status
  check_atom x property v =
      if v == 0
      then success
      else if v == property || not (valid_atom x v)
      then bad_value
      else elim (get x v) [ none ↦ bad_value | some q ↦ success ]

  unfoldable pub check_atoms : Properties → ℕ → List ℕ → Status
  check_atoms x property [] = success
  check_atoms x property (v ∷ vs) = and_check (check_atom x property v) (check_atoms x property vs)

  -- `wcmCheckActionsProperty`
  unfoldable pub check_actions_property : Properties → ℕ → PropertyValue → Status
  check_actions_property x property p =
      if not (p.format == 32) || not (is_atom p.value_type)
      then bad_match
      else check_atoms x property p.values

  -- The device and the server's properties.
  abbrev pub World : Type 0
  World = Device × Properties

  abbrev pub action_atom : ListProperty → ℕ → ℕ
  action_atom btnactions i = button_atom i
  action_atom strip_buttons i = strip_atom i
  action_atom wheel_buttons i = wheel_atom i

  -- `wcmInitButtonActionProp`, `wcmInitStripActionProp` and `wcmInitWheelActionProp`
  unfoldable pub init_action_prop : ListProperty → ℕ → World → World
  init_action_prop l i (d, x) = (
    put_handlers l (set (handlers l d) i (action_atom l i)) d,
    change x (action_atom l i) (action_value (get_or (actions l d) i no_action)),
  )

  -- One atom of `wcmSetActionsProperty`, at its place.
  unfoldable pub set_atom : ListProperty → ℕ → ℕ → Bool → World → Status × World
  set_atom l i v checkonly (d, x) =
      if v == 0
      then (success, (if checkonly then (d, x) else init_action_prop l i (reset_action l d i, x)))
      else let (status, d') = set_at l i v (get x v) checkonly d in (status, (d', x))

  -- The rest of the loop, unless an atom failed.
  abbrev pub go_on : (World → Status × World) → Status × World → Status × World
  go_on rest (success, w) = rest w
  go_on rest (bad_match, w) = (bad_match, w)
  go_on rest (bad_value, w) = (bad_value, w)
  go_on rest (bad_access, w) = (bad_access, w)

  -- The loop, from the `i`th atom on, until one fails.
  unfoldable pub set_atoms : ListProperty → ℕ → List ℕ → Bool → World → Status × World
  set_atoms l i [] checkonly w = (success, w)
  set_atoms l i (v ∷ vs) checkonly w =
      let rest = λ (w' : World). set_atoms l (suc i) vs checkonly w' in
      elim (place l i) [ none ↦ rest w | some k ↦ go_on rest (set_atom l k v checkonly w) ]

  -- What follows when the check is passed.
  abbrev pub checked_then : World → Status → Status × World → Status × World
  checked_then w success r = r
  checked_then w bad_match r = (bad_match, w)
  checked_then w bad_value r = (bad_value, w)
  checked_then w bad_access r = (bad_access, w)

  -- `wcmSetActionsProperty`, with the number of atoms that `wcmSetProperty` gives it.
  unfoldable pub set_actions_property :
      ListProperty → ℕ → PropertyValue → Bool → World → Status × World
  set_actions_property l property p checkonly w =
      let run = set_atoms l 0 p.values checkonly w in
      if p.size == list_size l w.0
      then checked_then w (check_actions_property w.1 property p) run
      else (bad_value, w)

-- The last branch of `wcmSetProperty`: a property of one action, or one that the driver does not know.
unfoldable pub set_other : ℕ → PropertyValue → Bool → Device → Status × Device
set_other property p checkonly d = elim (find_action_handler d property) [
  | some (l, i) ↦ set_at l i property (some p) checkonly d
  | none ↦ (success, d)
]

-- The loop of `wcmGetProperty` over the buttons, from the `i`th on, with `n` to go.
unfoldable pub x11_props : ℕ → ℕ → List ℕ → List ℕ
x11_props i zero props = []
x11_props i (suc n) props =
    (elim (place btnactions i) [ none ↦ 0 | some k ↦ get_or props k 0 ]) ∷ x11_props (suc i) n props

-- The atoms that `wcmGetProperty` shows.
unfoldable pub get_actions_property : ListProperty → Device → List ℕ
get_actions_property btnactions d = x11_props 0 (x11_buttons d.nbuttons) d.action_props.btn
get_actions_property strip_buttons d = d.action_props.strip
get_actions_property wheel_buttons d = d.action_props.wheel
