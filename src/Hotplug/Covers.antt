-- ===== src/Hotplug/Covers.antt =====
-- The types that a device gets by itself: `wcmNeedAutoHotplug` and `wcmHotplugOthers` of
-- src/wcmValidateDevice.c together.
use xf86_input_wacom.Prelude.{
  ℕ, ◌⊎◌, ◌||◌, ◌&&◌, not, ◌≡◌, ◌++◌, sym, refl, ap, ◌∙◌, Bool, true, false, Bool-cases, inl, inr,
  Option, none, some, List, [], ◌∷◌, if◌then◌else◌,
}
use mathlib.Core.List.{append-nil, append_assoc}
use xf86_input_wacom.Prelude.Bits.{has_mask}
use xf86_input_wacom.State.{Tool, stylus_id, eraser_id, cursor_id}
use xf86_input_wacom.Hotplug.{
  Queued, Plan, stylus, eraser, cursor, try_hotplug_serial_type, bypass, Kind, TypeKey, Claims,
  Source, hal, udev, other_source, user_defined, first_key, other_keys, all_kinds, has_tool,
  is_a_valid_type, hotplug_types, hotplug_others, hotplug_serials, first_valid, take_type,
  need_auto_hotplug,
}

-- The device claims a key of the type.
abbrev pub claims_type : Claims → Kind → Bool
claims_type c kind = has_tool c kind (first_key kind ∷ other_keys kind)

-- The types of a list that the device claims.
abbrev pub claimed : Claims → List Kind → List Kind
claimed c [] = []
claimed c (kind ∷ kinds) =
    let rest = claimed c kinds in if claims_type c kind then kind ∷ rest else rest

-- The types as devices without a serial number.
abbrev pub plain : List Kind → List Queued
plain [] = []
plain (kind ∷ kinds) = (kind, none) ∷ plain kinds

-- The device of one type for a tool with a serial number, if the tool is of the type and the device claims it.
abbrev pub for_tool : Claims → Tool → ℕ → Kind → List Queued
for_tool c ser idflag kind =
    if has_mask ser.typeid idflag && claims_type c kind then (kind, some ser.serial) ∷ [] else []

-- The devices for the tools with serial numbers: for each tool its stylus, its eraser and its cursor.
abbrev pub for_serials : Claims → List Tool → List Queued
for_serials c [] = []
for_serials c (ser ∷ sers) =
    let rest = for_serials c sers in
    for_tool c ser stylus_id stylus
    ++ (for_tool c ser eraser_id eraser ++ (for_tool c ser cursor_id cursor ++ rest))

valid_lem :
    (c : Claims) (kind : Kind)
    → user_defined c.source ≡ false
    → is_a_valid_type c (some kind) ≡ (c, claims_type c kind)
unfolding is_a_valid_type
valid_lem c kind h = elim (Bool-cases (claims_type c kind)) [
  | inl valid ↦ rw valid refl
  | inr invalid ↦ rw (invalid, h) refl
]

all_queued :
    (c : Claims) (kinds : List Kind)
    → user_defined c.source ≡ false
    → hotplug_types false kinds c ≡ (c, plain (claimed c kinds))
unfolding hotplug_types
all_queued c [] h = refl
all_queued c (kind ∷ kinds) h = elim (Bool-cases (claims_type c kind)) [
  | inl valid ↦ rw (valid_lem c kind h, valid, all_queued c kinds h) refl
  | inr invalid ↦ rw (valid_lem c kind h, invalid, all_queued c kinds h) refl
]

abbrev first_of : List Kind → Option Kind
first_of [] = none
first_of (k ∷ ks) = some k

abbrev rest_of : List Kind → List Kind
rest_of [] = []
rest_of (k ∷ ks) = ks

rest_queued :
    (c : Claims) (kinds : List Kind)
    → user_defined c.source ≡ false
    → hotplug_types true kinds c ≡ (c, plain (rest_of (claimed c kinds)))
unfolding hotplug_types
rest_queued c [] h = refl
rest_queued c (kind ∷ kinds) h = elim (Bool-cases (claims_type c kind)) [
  | inl valid ↦ rw (valid_lem c kind h, valid, all_queued c kinds h) refl
  | inr invalid ↦ rw (valid_lem c kind h, invalid, rest_queued c kinds h) refl
]

try_queued :
    (c : Claims) (ser : Tool) (idflag : ℕ) (kind : Kind) (q : List Queued)
    → user_defined c.source ≡ false
    → try_hotplug_serial_type ser idflag kind (c, q) ≡ (c, q ++ for_tool c ser idflag kind)
unfolding try_hotplug_serial_type
try_queued c ser idflag kind q h = elim (Bool-cases (has_mask ser.typeid idflag)) [
  | inl named ↦ (elim (Bool-cases (claims_type c kind)) [
    | inl valid ↦ rw (named, valid_lem c kind h, valid) refl
    | inr invalid ↦
        rw (named, valid_lem c kind h, invalid)
          (ap (λ (l : List Queued). (c, l)) (sym (append-nil q)))
  ])
  | inr other ↦ rw other (ap (λ (l : List Queued). (c, l)) (sym (append-nil q)))
]

serials_queued :
    (c : Claims) (sers : List Tool) (q : List Queued)
    → user_defined c.source ≡ false
    → hotplug_serials sers (c, q) ≡ (c, q ++ for_serials c sers)
unfolding hotplug_serials
serials_queued c [] q h = ap (λ (l : List Queued). (c, l)) (sym (append-nil q))
serials_queued c (ser ∷ sers) q h =
    let pen = for_tool c ser stylus_id stylus in
    let rubber = for_tool c ser eraser_id eraser in
    let puck = for_tool c ser cursor_id cursor in
    rw
      (
        try_queued c ser stylus_id stylus q h,
        try_queued c ser eraser_id eraser (q ++ pen) h,
        try_queued c ser cursor_id cursor (q ++ pen ++ rubber) h,
      )
      (serials_queued c sers (q ++ pen ++ rubber ++ puck) h
        ∙ ap (λ (l : List Queued). (c, l))
            (append_assoc (q ++ pen ++ rubber) puck (for_serials c sers)
              ∙ append_assoc (q ++ pen) rubber (puck ++ for_serials c sers)
              ∙ append_assoc q pen (rubber ++ (puck ++ for_serials c sers))))

first_valid_lem :
    (c : Claims) (kinds : List Kind)
    → user_defined c.source ≡ false
    → first_valid kinds c ≡ (c, first_of (claimed c kinds))
unfolding first_valid
first_valid_lem c [] h = refl
first_valid_lem c (kind ∷ kinds) h = elim (Bool-cases (claims_type c kind)) [
  | inl valid ↦ rw (valid_lem c kind h, valid) refl
  | inr invalid ↦ rw (valid_lem c kind h, invalid) (first_valid_lem c kinds h)
]

has_tool-source :
    (c : Claims) (s : Source) (kind : Kind) (ks : List TypeKey)
    → has_tool (record c { source = s }) kind ks ≡ has_tool c kind ks
unfolding has_tool
has_tool-source c s kind [] = refl
has_tool-source c s kind (k ∷ ks) =
    ap (λ (b : Bool). (c.keys k && not (bypass c.is_generic kind k)) || b)
      (has_tool-source c s kind ks)

claimed-source :
    (c : Claims) (s : Source) (kinds : List Kind)
    → claimed (record c { source = s }) kinds ≡ claimed c kinds
claimed-source c s [] = refl
claimed-source c s (kind ∷ kinds) =
    rw (has_tool-source c s kind (first_key kind ∷ other_keys kind), claimed-source c s kinds) refl

picks :
    (c : Claims) (kind : Kind) (rest : List Kind)
    → user_defined c.source ≡ false
    → claimed c all_kinds ≡ kind ∷ rest
    → take_type (first_valid all_kinds c) ≡ (record c { source = other_source }, some kind)
unfolding take_type
picks c kind rest h claims =
    ap take_type (first_valid_lem c all_kinds h)
    ∙ ap (λ (l : List Kind). take_type (c, first_of l)) claims

-- A device from HAL or udev without a type that claims the types `kind ∷ rest` of the table, in its order: the
-- type that is picked for it is `kind`. What is then queued is exactly `rest`, in order and without serial
-- numbers, and after it, for each tool of the configured serial numbers in their order, the stylus, the eraser and
-- the cursor with its number, of which the tool is one and that the device claims.
pub auto_hotplug_covers :
    (c : Claims) (kind : Kind) (rest : List Kind) (serials : List Tool)
    → (c.source ≡ hal) ⊎ (c.source ≡ udev)
    → claimed c all_kinds ≡ kind ∷ rest
    → let after = record c { source = other_source } in
      (need_auto_hotplug none c ≡ (after, some kind))
      × ((hotplug_others serials after).1 ≡ plain rest ++ for_serials after serials)
unfolding need_auto_hotplug hotplug_others take_type
auto_hotplug_covers c kind rest serials from claims =
    let after = record c { source = other_source } in
    (
      elim from [
        | inl h ↦ rw h refl ∙ picks c kind rest (ap user_defined h) claims
        | inr u ↦ rw u refl ∙ picks c kind rest (ap user_defined u) claims
      ],
      ap (λ (p : Plan). (hotplug_serials serials p).1) (rest_queued after all_kinds refl)
          ∙ ap (λ (p : Plan). p.1)
              (serials_queued after serials (plain (rest_of (claimed after all_kinds))) refl)
          ∙ ap (λ (l : List Kind). plain (rest_of l) ++ for_serials after serials)
              (claimed-source c other_source all_kinds ∙ claims),
    )
