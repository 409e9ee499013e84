-- ===== src/Dispatch/Tools/Find.antt =====
-- What `findTool` finds.
use xf86_input_wacom.Prelude.{
  ◌≡◌, refl, ap, ◌∙◌, Bool, ◌&&◌, Option, none, some, List, [], ◌∷◌, ◌==◌, if◌then◌else◌, arith,
}
use xf86_input_wacom.State.{DeviceState, Common, Tool}
use xf86_input_wacom.Dispatch.Tools.{find_from, find_tool}

-- The tool is of the state's type and serial number.
abbrev pub is_exact : DeviceState → Tool → Bool
is_exact ds t = (t.typeid == ds.device_type) && (t.serial == ds.serial_num)

-- The tool is of the state's type, for any serial number.
abbrev pub is_default : DeviceState → Tool → Bool
is_default ds t = (t.typeid == ds.device_type) && (t.serial == 0)

-- The first of the tools that `p` holds of, and the last one.
abbrev pub first_of : (Tool → Bool) → List Tool → Option Tool
first_of p [] = none
first_of p (t ∷ ts) = let rest = first_of p ts in if p t then some t else rest

abbrev pub or_else : Option Tool → Option Tool → Option Tool
or_else none o = o
or_else (some t) o = some t

abbrev pub last_of : (Tool → Bool) → List Tool → Option Tool
last_of p [] = none
last_of p (t ∷ ts) = or_else (last_of p ts) (if p t then some t else none)

find_from_lem :
    (d : Option Tool) (ts : List Tool) (ds : DeviceState)
    → find_from d ts ds
      ≡ or_else (first_of (is_exact ds) ts) (or_else (last_of (is_default ds) ts) d)
unfolding find_from
find_from_lem d [] ds = refl
find_from_lem d (t ∷ ts) ds = ground (arith, find_from_lem d ts ds, find_from_lem (some t) ts ds)

or_else-none : (o : Option Tool) → or_else o none ≡ o
or_else-none none = refl
or_else-none (some t) = refl

-- `findTool` is the first tool of the state's type and serial number, and without one the last tool
-- of its type that is for any serial number.
pub find_tool_lem :
    (c : Common) (ds : DeviceState)
    → find_tool c ds ≡ or_else (first_of (is_exact ds) c.tools) (last_of (is_default ds) c.tools)
unfolding find_tool
find_tool_lem c ds = find_from_lem none c.tools ds ∙ ap (or_else _) (or_else-none _)
