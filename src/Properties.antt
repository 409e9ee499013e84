-- ===== src/Properties.antt =====
-- Device properties, src/x11/xf86WacomProperties.c: the scale of the pressure, and the properties that hold a
-- button's actions.
pub mod Actions
pub mod Forms
pub mod Values
pub mod Commit
pub mod Tuned
pub mod Lists
pub mod Steps
pub mod Phases
pub mod Loop
pub mod Buttons
mod Tests
use xf86_input_wacom.Prelude.{
  ℕ, suc, ◌+◌, Bool, true, false, not, Option, none, some, List, [], ◌∷◌, ltb, leb, ◌==◌,
  if◌then◌else◌,
}
use xf86_input_wacom.Prelude.Int.{ℤ, pos, ◌*ℤ◌, tdiv}
use xf86_input_wacom.State.{Device, Action}
use xf86_input_wacom.Session.Mode.{action_set, no_action}
use xf86_input_wacom.Session.Action.{
  ActionType, ac_key, ac_button_type, ac_modetoggle, ac_panscroll, other, ac_code, ac_type,
}

-- `wcmInternalToUserPressure`
unfoldable pub internal_to_user_pressure : Device → ℤ → ℤ
internal_to_user_pressure d pressure = tdiv pressure (tdiv d.max_curve (pos 2048))

-- `wcmUserToInternalPressure`
unfoldable pub user_to_internal_pressure : Device → ℤ → ℤ
user_to_internal_pressure d pressure = pressure *ℤ tdiv d.max_curve (pos 2048)

pub data Status : Type 0 where
  success bad_match bad_value bad_access : Status

pub data ValueType : Type 0 where
  xa_integer xa_atom other_type : ValueType

abbrev is_integer : ValueType → Bool
is_integer xa_integer = true
is_integer xa_atom = false
is_integer other_type = false

-- `XIPropertyValueRec`: its format, its type and its values; `size` is their number.
pub record PropertyValue : Type 0 where
  pub size : ℕ
  pub format : ℕ
  pub value_type : ValueType
  pub values : List ℕ

-- WCM_MAX_X11BUTTON
abbrev pub max_x11_button : ℕ
max_x11_button = 127

-- One value, by its type.
unfoldable pub check_action : ActionType → ℕ → Status
check_action ac_key v = success
check_action ac_button_type v = if ltb max_x11_button (ac_code v) then bad_value else success
check_action ac_modetoggle v = success
check_action ac_panscroll v = success
check_action other v = bad_value

-- The result of the first check that fails.
abbrev pub and_check : Status → Status → Status
and_check success s = s
and_check bad_match s = bad_match
and_check bad_value s = bad_value
and_check bad_access s = bad_access

unfoldable pub check_actions : List ℕ → Status
check_actions [] = success
check_actions (v ∷ vs) = and_check (check_action (ac_type v) v) (check_actions vs)

unfoldable pub check_value : PropertyValue → Status
check_value p =
    if leb 255 p.size
    then bad_match
    else if not (p.format == 32)
    then bad_match
    else if not (is_integer p.value_type)
    then bad_match
    else check_actions p.values

-- `wcmCheckActionProperty`; the atom 0 is none, and the value may be null.
unfoldable pub check_action_property : ℕ → Option PropertyValue → Status
check_action_property property none = bad_match
check_action_property property (some p) = if property == 0 then bad_match else check_value p

-- The loop over the values, from the `i`th on.
unfoldable pub set_actions : ℕ → List ℕ → Action → Action
set_actions i [] act = act
set_actions i (v ∷ vs) act = set_actions (suc i) vs (action_set act i v)

-- What a setter returns, with the handler and the action afterwards.
abbrev pub Setting : Type 0
Setting = Status × ℕ × Action

unfoldable pub set_checked : Status → Bool → ℕ → List ℕ → ℕ → Action → Setting
set_checked success checkonly property vs handler act =
    if checkonly then (success, handler, act) else (success, property, set_actions 0 vs no_action)
set_checked bad_match checkonly property vs handler act = (bad_match, handler, act)
set_checked bad_value checkonly property vs handler act = (bad_value, handler, act)
set_checked bad_access checkonly property vs handler act = (bad_access, handler, act)

abbrev pub values_of : Option PropertyValue → List ℕ
values_of none = []
values_of (some p) = p.values

-- `wcmSetActionProperty`
unfoldable pub set_action_property : ℕ → Option PropertyValue → Bool → ℕ → Action → Setting
set_action_property property prop checkonly handler act =
    set_checked (check_action_property property prop) checkonly property (values_of prop) handler
      act
