-- ===== src/Config/Serials.antt =====
-- The serial numbers of tools that are to be hot-plugged: `wcmParseSerials` of src/wcmValidateDevice.c.
use xf86_input_wacom.Prelude.{
  ℕ, ◌+◌, Bool, true, false, ◌||◌, Option, none, some, List, [], ◌∷◌, ◌++◌, ◌==◌, if◌then◌else◌,
}
use xf86_input_wacom.Prelude.Int.{ℤ, bits32}
use xf86_input_wacom.Prelude.Text.{Text, codes, between, same_text, scan_int, scan_set, tokens}
use xf86_input_wacom.State.{stylus_id, eraser_id, cursor_id}

-- A tool of the option, with its name.
pub record SerialTool : Type 0 where
  pub serial : ℕ
  pub typeid : ℕ
  pub name : Text

abbrev pub pen_ids : ℕ
pen_ids = stylus_id + eraser_id

-- The tools of a type; an unknown one is a pen.
unfoldable pub serial_type : Text → ℕ
serial_type word =
    if same_text word (codes "pen") || same_text word (codes "airbrush")
    then pen_ids
    else if same_text word (codes "artpen")
    then stylus_id
    else if same_text word (codes "cursor")
    then cursor_id
    else pen_ids

-- What follows a `,` in the format.
abbrev pub after_comma : (ℕ → Bool) → Text → Option (Text × Text)
after_comma test [] = none
after_comma test (c ∷ cs) = if c == b',' then scan_set test cs else none

abbrev pub is_type_code : ℕ → Bool
is_type_code c = between b'a' b'z' c

abbrev pub is_name_code : ℕ → Bool
is_name_code c = between b'A' b'Z' c || (between b'a' b'z' c || c == 32)

abbrev pub with_name : ℕ → ℕ → Option (Text × Text) → SerialTool
with_name serial typeid none = record { serial = serial; typeid = typeid; name = [] }
with_name serial typeid (some (name, rest)) = record {
  serial = serial;
  typeid = typeid;
  name = name;
}

abbrev pub with_type : ℕ → Option (Text × Text) → SerialTool
with_type serial none = with_name serial pen_ids none
with_type serial (some (word, rest)) =
    with_name serial (serial_type word) (after_comma is_name_code rest)

abbrev pub with_serial : Option (ℤ × Text) → Option SerialTool
with_serial none = none
with_serial (some (serial, rest)) = some (with_type (bits32 serial) (after_comma is_type_code rest))

-- One token, `sscanf` with "%d,%[a-z],%[A-Za-z ]"; `none` if it does not begin with a number.
unfoldable pub parse_serial : Text → Option SerialTool
unfolding scan_int
parse_serial tok = with_serial (scan_int tok)

-- The loop over the tokens: the tools so far, and whether all were good.
unfoldable pub parse_tokens : List SerialTool → List Text → List SerialTool × Bool
parse_tokens found [] = (found, true)
parse_tokens found (tok ∷ toks) = elim (parse_serial tok) [
  | none ↦ (found, false)
  | some t ↦ parse_tokens (found ++ t ∷ []) toks
]

-- `wcmParseSerials`, on the list of the tablet and the option "ToolSerials".
unfoldable pub parse_serials : List SerialTool → Option Text → List SerialTool × Bool
parse_serials (t ∷ ts) s = (t ∷ ts, true)
parse_serials [] none = ([], true)
parse_serials [] (some s) = parse_tokens [] (tokens b';' s)
