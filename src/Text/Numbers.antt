-- ===== src/Text/Numbers.antt =====
-- `strconv.Atoi` and `time.ParseDuration` over texts. The fraction of a duration is cut off exactly,
-- where Go rounds by way of a float64.
use agentic_preview.Common.{
  ℕ, zero, suc, ◌+◌, ◌*◌, ◌/◌, ◌-◌, Bool, true, false, not, ◌&&◌, ◌||◌, [], ◌∷◌, Option, none, some,
  leb, ◌==◌, if◌then◌else◌, length, text_key,
}
use Prim.Native.Nat.{◌^◌}
use agentic_preview.Common.Assoc.{Assoc, get}
use agentic_preview.Common.Int.{ℤ, pos, negsuc}
use agentic_preview.Text.{Text, codes, is_digit}

-- The front of a text that satisfies a test, and the rest.
unfoldable pub span : (ℕ → Bool) → Text → Text × Text
span p [] = ([], [])
span p (c ∷ s) = let (a, b) = span p s in if p c then (c ∷ a, b) else ([], c ∷ s)

unfoldable pub number_from : ℕ → Text → ℕ
number_from n [] = n
number_from n (c ∷ s) = number_from (n * 10 + (c - b'0')) s

abbrev is_nil : Text → Bool
is_nil [] = true
is_nil (c ∷ s) = false

abbrev negate : ℕ → ℤ
negate zero = pos 0
negate (suc n) = negsuc n

digits_value : Text → Option ℕ
unfolding span number_from
digits_value s =
    let (d, rest) = span is_digit s in
    if is_nil d || not (is_nil rest) then none else some (number_from 0 d)

abbrev max_int64 : ℕ
max_int64 = 9_223_372_036_854_775_807

in_int64 : Bool → Option ℕ → Option ℤ
in_int64 negative none = none
in_int64 true (some n) = if leb n (max_int64 + 1) then some (negate n) else none
in_int64 false (some n) = if leb n max_int64 then some (pos n) else none

-- `strconv.Atoi`
unfoldable pub atoi : Text → Option ℤ
unfolding digits_value in_int64
atoi [] = none
atoi (c ∷ s) =
    if c == b'-'
    then in_int64 true (digits_value s)
    else if c == b'+'
    then in_int64 false (digits_value s)
    else in_int64 false (digits_value (c ∷ s))

abbrev unit_names : Assoc Text ℕ
unit_names =
    (codes "ns", 1)
    ∷ (codes "us", 1_000)
    ∷ (codes "µs", 1_000)
    ∷ (codes "μs", 1_000)
    ∷ (codes "ms", 1_000_000)
    ∷ (codes "s", 1_000_000_000)
    ∷ (codes "m", 60_000_000_000)
    ∷ (codes "h", 3_600_000_000_000)
    ∷ []

fraction : Text → Text × Text
unfolding span
fraction [] = ([], [])
fraction (c ∷ s) = if c == b'.' then span is_digit s else ([], c ∷ s)

abbrev is_unit_char : ℕ → Bool
is_unit_char c = not (c == b'.' || is_digit c)

-- What one number with its unit adds, at most 2 ^ 63.
term_value : Text → Text → ℕ → Option ℕ
unfolding number_from
term_value whole part unit =
    let v = number_from 0 whole * unit + number_from 0 part * unit / 10 ^ length part in
    if leb v (max_int64 + 1) then some v else none

terms : ℕ → Text → ℕ → Option ℕ
unfolding span fraction term_value get
terms fuel [] total = some total
terms zero (c ∷ s) total = none
terms (suc fuel) (c ∷ s) total =
    let (whole, s1) = span is_digit (c ∷ s) in
    let (part, s2) = fraction s1 in
    let (unit, rest) = span is_unit_char s2 in
    if is_nil whole && is_nil part then none else elim (get unit unit_names) [
      | none ↦ none
      | some u ↦ elim (term_value whole part u) [
        | none ↦ none
        | some v ↦ if leb (total + v) (max_int64 + 1) then terms fuel rest (total + v) else none
      ]
    ]

unsigned_duration : Bool → Text → Option ℤ
unfolding terms in_int64
unsigned_duration negative s =
    if is_nil s
    then none
    else if is_zero s
    then some (pos 0)
    else in_int64 negative (terms (length s) s 0)
  where
    is_zero : Text → Bool
    is_zero [] = false
    is_zero (c ∷ rest) = c == b'0' && is_nil rest

-- `time.ParseDuration`, in nanoseconds; each round of the loop takes a unit off, so the length is
-- fuel enough
unfoldable pub parse_duration : Text → Option ℤ
unfolding unsigned_duration
parse_duration [] = none
parse_duration (c ∷ s) =
    if c == b'-'
    then unsigned_duration true s
    else if c == b'+'
    then unsigned_duration false s
    else unsigned_duration false (c ∷ s)
