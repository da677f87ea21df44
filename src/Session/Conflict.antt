-- ===== src/Session/Conflict.antt =====
-- session.go: the dead session that a conflict names.
use agentic_preview.Common.{
  ℕ, zero, suc, Bool, not, ◌||◌, [], ◌∷◌, Option, none, some, ◌==◌, if◌then◌else◌, eq_text,
}
use agentic_preview.Text.{Text, codes, is_digit, within}
use agentic_preview.Text.Numbers.{span}
use agentic_preview.Session.{Sessions, is_live_id}

-- The rest of a text behind a front.
unfoldable pub strip : Text → Text → Option Text
strip [] s = some s
strip (c ∷ front) [] = none
strip (c ∷ front) (d ∷ s) = if c == d then strip front s else none

-- `[0-9a-fA-F-]`
abbrev pub is_id_char : ℕ → Bool
is_id_char c = is_digit c || (within b'a' b'f' c || (within b'A' b'F' c || c == b'-'))

-- `\s`
abbrev pub is_blank_char : ℕ → Bool
is_blank_char c = c == 9 || (c == 10 || (c == 12 || (c == 13 || c == 32)))

abbrev pub cons_match : ℕ → Option (Text × Text) → Option (Text × Text)
cons_match c none = none
cons_match c (some (a, b)) = some (c ∷ a, b)

-- `(...){n}`: as many characters of the class, and the rest
unfoldable pub exactly : (ℕ → Bool) → ℕ → Text → Option (Text × Text)
exactly p zero s = some ([], s)
exactly p (suc n) [] = none
exactly p (suc n) (c ∷ s) = if p c then cons_match c (exactly p n s) else none

abbrev quoted : Text × Text → Option Text
quoted ([], rest) = none
quoted (c ∷ name, []) = none
quoted (c ∷ name, d ∷ rest) = some (c ∷ name)

-- `created by client "([^"]+)"` at this place
unfoldable pub client_here : Option Text → Option Text
unfolding span
client_here none = none
client_here (some s) = quoted (span (λ c. not (c == b'"')) s)

abbrev or_later : Option Text → Option Text → Option Text
or_later (some a) b = some a
or_later none b = b

-- `.*?created by client "([^"]+)"`: the first place on the line
unfoldable pub client_later : Text → Option Text
unfolding strip client_here
client_later [] = none
client_later (c ∷ s) =
    or_later (client_here (strip (codes "created by client \"") (c ∷ s)))
      (if c == b'\n' then none else client_later s)

-- `(\S+)` and what follows: the longest run first
unfoldable pub client_of : Text → Option Text
unfolding client_later
client_of [] = none
client_of (c ∷ s) = if is_blank_char c then none else or_later (client_of s) (client_later s)

abbrev with_id : Text → Option Text → Option (Text × Text)
with_id id none = none
with_id id (some client) = some (id, client)

-- `:` and the rest behind the session id
unfoldable pub behind_id : Option (Text × Text) → Option (Text × Text)
unfolding client_of
behind_id none = none
behind_id (some (id, [])) = none
behind_id (some (id, c ∷ s)) = if c == b':' then with_id id (client_of s) else none

unfoldable pub conflict_here : Option Text → Option (Text × Text)
unfolding behind_id exactly
conflict_here none = none
conflict_here (some s) = behind_id (exactly is_id_char 36 s)

abbrev or_further : Option (Text × Text) → Option (Text × Text) → Option (Text × Text)
or_further (some a) b = some a
or_further none b = b

-- `ownConflictRE`: the session id and the client of the first match
unfoldable pub own_conflict : Text → Option (Text × Text)
unfolding conflict_here strip
own_conflict [] = none
own_conflict (c ∷ s) =
    or_further (conflict_here (strip (codes "conflict with intercept ") (c ∷ s))) (own_conflict s)

unfoldable pub own_session : Text → Sessions → Option (Text × Text) → Option Text
unfolding eq_text is_live_id
own_session client_name sessions none = none
own_session client_name sessions (some (id, client)) =
    if not (eq_text client client_name) || is_live_id sessions id then none else some id

-- `conflictingOwnSession`, of the text of the error
unfoldable pub conflicting_own_session : Text → Sessions → Text → Option Text
unfolding own_conflict own_session
conflicting_own_session client_name sessions e = own_session client_name sessions (own_conflict e)
