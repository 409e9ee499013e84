-- ===== src/Hotplug.antt =====
-- Which types of tools a device gets: src/wcmValidateDevice.c, but for the parsing of options.
pub mod Covers
mod Tests
use xf86_input_wacom.Prelude.{
  ℕ, Bool, true, false, not, ◌&&◌, ◌||◌, Option, none, some, List, [], ◌∷◌, ◌++◌, ◌==◌,
  if◌then◌else◌,
}
use xf86_input_wacom.Prelude.Bits.{has_mask}
use xf86_input_wacom.State.{Tool, stylus_id, eraser_id, cursor_id}

-- The names of types in the table `wcmType`.
pub data Kind : Type 0 where
  stylus eraser cursor touch pad : Kind

-- The keys in the table.
pub data TypeKey : Type 0 where
  tool_pen tool_rubber tool_mouse tool_doubletap tool_finger : TypeKey
  forward button_0 controlpanel onscreen_keyboard : TypeKey

abbrev pub key_number : TypeKey → ℕ
key_number tool_pen = 0
key_number tool_rubber = 1
key_number tool_mouse = 2
key_number tool_doubletap = 3
key_number tool_finger = 4
key_number forward = 5
key_number button_0 = 6
key_number controlpanel = 7
key_number onscreen_keyboard = 8

-- `wcmType`: the key that a type always has, and the others that tell of it.
abbrev pub first_key : Kind → TypeKey
first_key stylus = tool_pen
first_key eraser = tool_rubber
first_key cursor = tool_mouse
first_key touch = tool_doubletap
first_key pad = forward

abbrev pub other_keys : Kind → List TypeKey
other_keys stylus = []
other_keys eraser = []
other_keys cursor = []
other_keys touch = tool_finger ∷ []
other_keys pad = button_0 ∷ controlpanel ∷ onscreen_keyboard ∷ []

abbrev pub all_kinds : List Kind
all_kinds = stylus ∷ eraser ∷ cursor ∷ touch ∷ pad ∷ []

-- The option "_source": none, the empty string, HAL, udev, or another.
pub data Source : Type 0 where
  no_source empty_source hal udev other_source : Source

-- What the checks read of a device: the keys it claims (`wcmKeys`), whether its protocol is the generic one,
-- and where it is from.
pub record Claims : Type 0 where
  pub keys : TypeKey → Bool
  pub is_generic : Bool
  pub source : Source

abbrev pub user_defined : Source → Bool
user_defined no_source = true
user_defined empty_source = true
user_defined hal = false
user_defined udev = false
user_defined other_source = false

-- A finger of a device that is not generic is its pad's.
abbrev pub bypass : Bool → Kind → TypeKey → Bool
bypass is_generic touch tool_finger = not is_generic
bypass is_generic _ k = false

-- The loop over a type's keys.
unfoldable pub has_tool : Claims → Kind → List TypeKey → Bool
has_tool c kind [] = false
has_tool c kind (k ∷ ks) = (c.keys k && not (bypass c.is_generic kind k)) || has_tool c kind ks

abbrev pub set_key : TypeKey → Claims → Claims
set_key k c = record c {
  keys = λ other. if key_number other == key_number k then true else c.keys other;
}

-- `wcmIsAValidType`, for a type by its place in the table; a name that is not there, or none, is not valid.
unfoldable pub is_a_valid_type : Claims → Option Kind → Claims × Bool
is_a_valid_type c none = (c, false)
is_a_valid_type c (some kind) =
    if has_tool c kind (first_key kind ∷ other_keys kind)
    then (c, true)
    else if user_defined c.source
    then (set_key (first_key kind) c, true)
    else (c, false)

-- A device that is queued: its type, and its tool's serial number if it has one.
abbrev pub Queued : Type 0
Queued = Kind × Option ℕ

-- The claims afterwards, and what is queued, in order.
abbrev pub Plan : Type 0
Plan = Claims × List Queued

-- `wcmTryHotplugSerialType`
unfoldable pub try_hotplug_serial_type : Tool → ℕ → Kind → Plan → Plan
try_hotplug_serial_type ser idflag kind (c, queue) =
    if has_mask ser.typeid idflag
    then (let (c', valid) = is_a_valid_type c (some kind) in
        (c', if valid then queue ++ (kind, some ser.serial) ∷ [] else queue))
    else (c, queue)

-- `wcmHotplugSerials`
unfoldable pub hotplug_serials : List Tool → Plan → Plan
hotplug_serials [] p = p
hotplug_serials (ser ∷ sers) p = hotplug_serials sers (
    try_hotplug_serial_type ser cursor_id cursor (
      try_hotplug_serial_type ser eraser_id eraser
        (try_hotplug_serial_type ser stylus_id stylus p)))

-- The loop of `wcmHotplugOthers`; `skip` until the first valid type.
unfoldable pub hotplug_types : Bool → List Kind → Claims → Plan
hotplug_types skip [] c = (c, [])
hotplug_types skip (kind ∷ kinds) c =
    let (c1, valid) = is_a_valid_type c (some kind) in
    let (c2, rest) = hotplug_types (skip && not valid) kinds c1 in
    (c2, if valid && not skip then (kind, none) ∷ rest else rest)

-- `wcmHotplugOthers`
unfoldable pub hotplug_others : List Tool → Claims → Plan
hotplug_others serials c = hotplug_serials serials (hotplug_types true all_kinds c)

-- The loop of `wcmNeedAutoHotplug`: the first valid type.
unfoldable pub first_valid : List Kind → Claims → Claims × Option Kind
first_valid [] c = (c, none)
first_valid (kind ∷ kinds) c =
    let (c', valid) = is_a_valid_type c (some kind) in
    let rest = first_valid kinds c' in if valid then (c', some kind) else rest

-- The device's source and type afterwards, when a type was found.
unfoldable pub take_type : Claims × Option Kind → Claims × Option Kind
take_type (c, none) = (c, none)
take_type (c, some kind) = (record c { source = other_source }, some kind)

-- `wcmNeedAutoHotplug`: the type that it picks, if the device needs one.
unfoldable pub need_auto_hotplug : Option Kind → Claims → Claims × Option Kind
need_auto_hotplug (some kind) c = (c, none)
need_auto_hotplug none c = elim c.source [
  | no_source ↦ (c, none)
  | empty_source ↦ (c, none)
  | hal ↦ take_type (first_valid all_kinds c)
  | udev ↦ take_type (first_valid all_kinds c)
  | other_source ↦ (c, none)
]

-- `wcmIsDuplicate`, with the answer of `stat` (the device's number, or `none` if it fails) and of
-- `wcmCheckSource`.
unfoldable pub is_duplicate : Source → Option ℕ → Bool → ℕ
is_duplicate source stat same_device =
    if user_defined source
    then 0
    else elim stat [ none ↦ 0 | some n ↦ if n == 0 then 4 else if same_device then 3 else 0 ]
