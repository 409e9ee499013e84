-- ===== src/Prelude/Text.antt =====
-- Text as a list of codes, with what the sources use of C's library: `strcmp` and `strcasecmp` against 0, `strtok` with
-- one separator, and the conversions `%d` and `%[...]` of `sscanf`. A number out of the range of `int` is kept as it is.
use Prim.Native.Char.{code}
use Prim.Native.String.{String}
use xf86_input_wacom.Prelude.{
  ℕ, ◌+◌, ◌-◌, ◌*◌, Bool, true, false, ◌&&◌, ◌||◌, Option, none, some, List, [], ◌∷◌, leb, ◌==◌,
  if◌then◌else◌,
}
use xf86_input_wacom.Prelude.Int.{ℤ, pos, neg_ℕ}

abbrev pub Text : Type 0
Text = List ℕ

abbrev pub codes : String → Text
codes String.[] = []
codes (String.◌∷◌ c s) = code c ∷ codes s

abbrev pub between : ℕ → ℕ → ℕ → Bool
between lo hi c = leb lo c && leb c hi

abbrev pub lower : ℕ → ℕ
lower c = if between b'A' b'Z' c then c + 32 else c

-- `strcmp(a, b) == 0` and `strcasecmp(a, b) == 0`
abbrev pub same_text : Text → Text → Bool
same_text [] [] = true
same_text [] (b ∷ bs) = false
same_text (a ∷ as') [] = false
same_text (a ∷ as') (b ∷ bs) = a == b && same_text as' bs

abbrev pub same_word : Text → Text → Bool
same_word [] [] = true
same_word [] (b ∷ bs) = false
same_word (a ∷ as') [] = false
same_word (a ∷ as') (b ∷ bs) = lower a == lower b && same_word as' bs

-- The longest beginning whose codes pass a test, and the rest.
unfoldable pub span : (ℕ → Bool) → Text → Text × Text
span test [] = ([], [])
span test (c ∷ cs) =
    let (taken, rest) = span test cs in if test c then (c ∷ taken, rest) else ([], c ∷ cs)

abbrev pub nonempty : Text × Text → Option (Text × Text)
nonempty ([], rest) = none
nonempty (t ∷ ts, rest) = some (t ∷ ts, rest)

-- `%[...]`: one code at least.
unfoldable pub scan_set : (ℕ → Bool) → Text → Option (Text × Text)
unfolding span
scan_set test cs = nonempty (span test cs)

abbrev pub is_space : ℕ → Bool
is_space c = c == 32 || between 9 13 c

abbrev pub is_digit : ℕ → Bool
is_digit c = between b'0' b'9' c

unfoldable pub value_of : ℕ → Text → ℕ
value_of n [] = n
value_of n (c ∷ cs) = value_of (n * 10 + (c - b'0')) cs

unfoldable pub skip_space : Text → Text
skip_space [] = []
skip_space (c ∷ cs) = if is_space c then skip_space cs else c ∷ cs

abbrev pub digits_as : (ℕ → ℤ) → Option (Text × Text) → Option (ℤ × Text)
digits_as sign none = none
digits_as sign (some (ds, rest)) = some (sign (value_of 0 ds), rest)

abbrev pub scan_signed : Text → Option (ℤ × Text)
scan_signed [] = none
scan_signed (c ∷ cs) =
    if c == b'-'
    then digits_as neg_ℕ (scan_set is_digit cs)
    else if c == b'+'
    then digits_as pos (scan_set is_digit cs)
    else digits_as pos (scan_set is_digit (c ∷ cs))

-- `%d`: space, a sign, and one digit at least.
unfoldable pub scan_int : Text → Option (ℤ × Text)
unfolding scan_set skip_space value_of
scan_int cs = scan_signed (skip_space cs)

-- One more token in front, unless it is empty.
abbrev pub add_token : Text → List Text → List Text
add_token [] ts = ts
add_token (c ∷ cs) ts = (c ∷ cs) ∷ ts

-- The tokens that `strtok` finds: the first, which may be empty, and those after the next separator.
unfoldable pub split : ℕ → Text → Text × List Text
split sep [] = ([], [])
split sep (c ∷ cs) =
    let (first, others) = split sep cs in
    if c == sep then ([], add_token first others) else (c ∷ first, others)

unfoldable pub tokens : ℕ → Text → List Text
unfolding split
tokens sep cs = let (first, others) = split sep cs in add_token first others
