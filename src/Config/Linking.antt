-- ===== src/Config/Linking.antt =====
-- Which devices belong together: `wcmSplitName`, `wcmIsSiblingDevice`, `linkDevice`, `unlinkDevice` and what calls them in
-- src/wcmConfig.c, with `wcmForeachDevice` of src/x11/xf86Wacom.c.
pub mod Links
pub mod Undo
use xf86_input_wacom.Prelude.{
  ℕ, zero, suc, Bool, true, false, not, ◌&&◌, ◌||◌, Option, none, some, List, [], ◌∷◌, ◌++◌, get_or,
  set, take, length, ◌==◌, if◌then◌else◌,
}
use mathlib.Core.List.{reverse}
use xf86_input_wacom.Prelude.Text.{Text, codes, same_text}
use xf86_input_wacom.Prelude.Bits.{has_mask, or_mask, clear_mask}
use xf86_input_wacom.State.{stylus_id, touch_id, cursor_id, eraser_id, pad_id}

-- A device: its type, its name, and the number of its port.
pub record Entry : Type 0 where
  pub kind : ℕ
  pub name : Text
  pub port : ℕ

-- What the devices of one port share, of `struct _WacomCommonRec`. `touch_device` is the number of a device.
pub record Port : Type 0 where
  pub path : Text
  pub tablet_id : ℕ
  pub tablet_type : ℕ
  pub touch_device : Option ℕ

pub record Devices : Type 0 where
  pub entries : List Entry
  pub ports : List Port

abbrev pub no_entry : Entry
no_entry = record { kind = 0; name = []; port = 0 }

abbrev pub no_port : Port
no_port = record { path = []; tablet_id = 0; tablet_type = 0; touch_device = none }

abbrev pub entry : Devices → ℕ → Entry
entry w i = get_or w.entries i no_entry

abbrev pub port_of : Devices → ℕ → ℕ
port_of w i = (entry w i).port

-- The record that a device has for its port.
abbrev pub common_of : Devices → ℕ → Port
common_of w i = get_or w.ports (port_of w i) no_port

unfoldable pub update_common : ℕ → (Port → Port) → Devices → Devices
update_common i f w = record w { ports = set w.ports (port_of w i) (f (common_of w i)) }

-- The words of a name, which every space ends.
unfoldable pub words : Text → List Text
words [] = [] ∷ []
words (c ∷ cs) = elim (words cs) [
  | [] ↦ []
  | w ∷ ws ↦ if c == 32 then [] ∷ w ∷ ws else (c ∷ w) ∷ ws
]

-- The words with their spaces, the last word first.
unfoldable pub join_back : List Text → Text
join_back [] = []
join_back (w ∷ []) = w
join_back (w ∷ v ∷ ws) = join_back (v ∷ ws) ++ (32 ∷ w)

abbrev pub is_subdevice : Text → Bool
is_subdevice w =
    same_text w (codes "Pen")
    || (same_text w (codes "Finger") || (same_text w (codes "Pad") || same_text w (codes "Touch")))

-- The loop of `wcmSplitName` from the end of the name on, with the subdevice so far. A first word stays.
unfoldable pub strip_subdevices : List Text → Text → List Text × Text
strip_subdevices [] sub = ([], sub)
strip_subdevices (w ∷ []) sub = (w ∷ [], sub)
strip_subdevices (w ∷ v ∷ ws) sub =
    let rest = strip_subdevices (v ∷ ws) w in if is_subdevice w then rest else (w ∷ v ∷ ws, sub)

-- The base name, the subdevice and the tool.
pub record NameParts : Type 0 where
  pub base : Text
  pub sub : Text
  pub tool : Text

abbrev cut : Text → Text
cut t = take 49 t

unfoldable pub split_back : List Text → NameParts
split_back [] = record { base = []; sub = []; tool = [] }
split_back (w ∷ []) = record { base = cut w; sub = []; tool = [] }
split_back (w ∷ v ∷ ws) =
    let (rest, sub) = strip_subdevices (v ∷ ws) [] in
    record { base = cut (join_back rest); sub = cut sub; tool = cut w }

-- `wcmSplitName`, with a length of 50
unfoldable pub split_name : Text → NameParts
unfolding words join_back strip_subdevices split_back
split_name name = split_back (reverse (words name))

abbrev is_empty : Text → Bool
is_empty [] = true
is_empty (c ∷ cs) = false

-- Siblings on two ports, by their names or else by the tablet's id.
unfoldable pub same_tablet : Devices → ℕ → ℕ → Bool
same_tablet w i j =
    let a = split_name (entry w i).name in
    let b = split_name (entry w j).name in
    if same_text a.base b.base
    then not (is_empty a.sub) && not (is_empty b.sub)
    else (common_of w i).tablet_id == (common_of w j).tablet_id

-- `wcmIsSiblingDevice`
unfoldable pub is_sibling_device : Devices → ℕ → ℕ → Bool → Bool
is_sibling_device w i j logical_only =
    if i == j
    then false
    else if (entry w i).kind == (entry w j).kind
    then false
    else if same_text (common_of w i).path (common_of w j).path
    then true
    else not logical_only && same_tablet w i j

abbrev pub pentouch : ℕ
pentouch = 0x400

abbrev pub is_touch : Devices → ℕ → Bool
is_touch w i = (entry w i).kind == touch_id

-- `IsTablet`
abbrev pub is_tablet : Devices → ℕ → Bool
is_tablet w i =
    (entry w i).kind == stylus_id
    || ((entry w i).kind == eraser_id || (entry w i).kind == cursor_id)

abbrev pub is_some : Option ℕ → Bool
is_some none = false
is_some (some a) = true

abbrev pub linked_to : Option ℕ → Port → Port
linked_to t p = record p { touch_device = t }

abbrev pub with_pentouch : Port → Port
with_pentouch p = record p { tablet_type = or_mask p.tablet_type pentouch }

-- The records of both devices.
abbrev pub on_both : ℕ → ℕ → (Port → Port) → Devices → Devices
on_both i j f w = update_common j f (update_common i f w)

-- The touch device of the two, if there is one.
unfoldable pub put_touch : ℕ → ℕ → Devices → Devices
put_touch i j w =
    if is_touch w j
    then on_both i j (linked_to (some j)) w
    else if is_touch w i
    then on_both i j (linked_to (some i)) w
    else w

abbrev pub has_touch : Devices → ℕ → Bool
has_touch w i = is_some (common_of w i).touch_device

unfoldable pub put_pentouch : ℕ → ℕ → Devices → Devices
put_pentouch i j w =
    if (has_touch w i && is_tablet w i) || (has_touch w j && is_tablet w j)
    then on_both i j with_pentouch w
    else w

-- `linkDevice` for the device `i` and another one: the devices, and whether it linked the two, which ends the search.
unfoldable pub link_device : ℕ → ℕ → Devices → Devices × Bool
link_device i j w =
    if not (is_sibling_device w i j false)
    then (w, false)
    else if has_touch w j
    then (w, false)
    else let linked = put_pentouch i j (put_touch i j w) in (linked, has_touch linked i)

abbrev pub unlinked : Port → Port
unlinked p = record p { touch_device = none; tablet_type = clear_mask p.tablet_type pentouch }

-- `unlinkDevice`
unfoldable pub unlink_device : ℕ → ℕ → Devices → Devices × Bool
unlink_device i j w =
    if not (has_touch w i || has_touch w j)
      || not ((common_of w j).tablet_id == (common_of w i).tablet_id)
    then (w, false)
    else (on_both i j unlinked w, true)

-- `wcmForeachDevice`, from the `j`th device on with `n` to go: the call for each other device, until one matches.
unfoldable pub foreach_device : (ℕ → ℕ → Devices → Devices × Bool) → ℕ → ℕ → ℕ → Devices → Devices
foreach_device func i j zero w = w
foreach_device func i j (suc n) w =
    let (w', done) = if i == j then (w, false) else func i j w in
    elim done [ true ↦ w' | false ↦ foreach_device func i (suc j) n w' ]

-- `wcmLinkTouchAndPen`
unfoldable pub link_touch_and_pen : ℕ → Devices → Devices
link_touch_and_pen i w =
    if (entry w i).kind == pad_id then w else foreach_device link_device i 0 (length w.entries) w

-- `wcmUnlinkTouchAndPen`
unfoldable pub unlink_touch_and_pen : ℕ → Devices → Devices
unlink_touch_and_pen i w =
    if has_mask (common_of w i).tablet_type pentouch
    then foreach_device unlink_device i 0 (length w.entries) w
    else w
