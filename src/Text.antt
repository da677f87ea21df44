-- ===== src/Text.antt =====
-- Texts as lists of code points, and what the program uses of Go's `strings` and `unicode`.
-- `to_lower` is the ASCII part of `strings.ToLower`.
pub mod Trim
pub mod Split
pub mod Affix
pub mod Fields
pub mod Numbers
pub mod Decimal
use Prim.Native.Char.{code}
use Prim.Native.String.{String}
use agentic_preview.Common.{
  ℕ, suc, ◌+◌, ◌-◌, Bool, true, false, ◌&&◌, ◌||◌, not, List, [], ◌∷◌, ◌++◌, map, Option, none,
  some, leb, ◌==◌, if◌then◌else◌, length, drop, take, eq_text,
}

abbrev pub Text : Type 0
Text = List ℕ

abbrev pub codes : String → Text
codes String.[] = []
codes (String.◌∷◌ c s) = code c ∷ codes s

abbrev pub within : ℕ → ℕ → ℕ → Bool
within lo hi c = leb lo c && leb c hi

abbrev pub is_digit : ℕ → Bool
is_digit = within b'0' b'9'

abbrev pub is_lower : ℕ → Bool
is_lower = within b'a' b'z'

abbrev pub is_upper : ℕ → Bool
is_upper = within b'A' b'Z'

-- `unicode.IsSpace`
unfoldable pub is_space : ℕ → Bool
is_space c =
    within 9 13 c
    || c == 32
    || c == 0x85
    || c == 0xa0
    || c == 0x1680
    || within 0x2000 0x200a c
    || c == 0x2028
    || c == 0x2029
    || c == 0x202f
    || c == 0x205f
    || c == 0x3000

unfoldable pub trim_left : (ℕ → Bool) → Text → Text
trim_left p [] = []
trim_left p (c ∷ s) = if p c then trim_left p s else c ∷ s

-- `c` in front of a text that is trimmed on the right
unfoldable pub cons_trimmed : (ℕ → Bool) → ℕ → Text → Text
cons_trimmed p c [] = if p c then [] else c ∷ []
cons_trimmed p c (d ∷ s) = c ∷ d ∷ s

unfoldable pub trim_right : (ℕ → Bool) → Text → Text
unfolding cons_trimmed
trim_right p [] = []
trim_right p (c ∷ s) = cons_trimmed p c (trim_right p s)

unfoldable pub trim : (ℕ → Bool) → Text → Text
unfolding trim_left trim_right
trim p s = trim_right p (trim_left p s)

unfoldable pub trim_space : Text → Text
unfolding trim is_space
trim_space s = trim is_space s

unfoldable pub has_suffix : Text → Text → Bool
unfolding eq_text
has_suffix s suffix =
    leb (length suffix) (length s) && eq_text (drop (length s - length suffix) s) suffix

unfoldable pub has_prefix : Text → Text → Bool
unfolding eq_text
has_prefix s prefix = leb (length prefix) (length s) && eq_text (take (length prefix) s) prefix

unfoldable pub trim_suffix : Text → Text → Text
unfolding has_suffix
trim_suffix s suffix = if has_suffix s suffix then take (length s - length suffix) s else s

-- `c` in front of the first piece
unfoldable pub cons_first : ℕ → List Text → List Text
cons_first c [] = (c ∷ []) ∷ []
cons_first c (l ∷ ls) = (c ∷ l) ∷ ls

-- `strings.Split` at a separator of one character
unfoldable pub split : ℕ → Text → List Text
unfolding cons_first
split sep [] = [] ∷ []
split sep (c ∷ s) = if c == sep then [] ∷ split sep s else cons_first c (split sep s)

unfoldable pub join : Text → List Text → Text
join sep [] = []
join sep (l ∷ []) = l
join sep (l ∷ m ∷ ls) = l ++ (sep ++ join sep (m ∷ ls))

-- `strings.Cut` at one character: what stands before it and after it
unfoldable pub cut : ℕ → Text → Option (Text × Text)
cut sep [] = none
cut sep (c ∷ s) =
    if c == sep
    then some ([], s)
    else elim (cut sep s) [ none ↦ none | some (a, b) ↦ some (c ∷ a, b) ]

-- the pieces of `fields`; the flag says that the character before was a part of the first piece
unfoldable pub fields_from : Text → List Text × Bool
unfolding is_space cons_first
fields_from [] = ([], false)
fields_from (c ∷ s) =
    let (fs, open_piece) = fields_from s in
    if is_space c
    then (fs, false)
    else if open_piece
    then (cons_first c fs, true)
    else ((c ∷ []) ∷ fs, true)

unfoldable pub fields : Text → List Text
unfolding fields_from
fields s = (fields_from s).0

abbrev pub lower : ℕ → ℕ
lower c = if is_upper c then c + 32 else c

unfoldable pub to_lower : Text → Text
to_lower s = map lower s
