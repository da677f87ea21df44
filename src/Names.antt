-- ===== src/Names.antt =====
-- preview.go and workload.go: the shapes of names, and `sanitise`.
pub mod Sanitise
use agentic_preview.Common.{
  ℕ, suc, zero, ◌-◌, Bool, true, false, not, ◌&&◌, ◌||◌, List, [], ◌∷◌, map, ltb, leb, ◌==◌,
  if◌then◌else◌, length, take, all,
}
use agentic_preview.Text.{Text, is_digit, is_lower, is_upper, to_lower, trim, split}

abbrev pub is_alnum : ℕ → Bool
is_alnum c = is_lower c || is_digit c

abbrev pub is_label_char : ℕ → Bool
is_label_char c = is_alnum c || c == b'-'

unfoldable pub starts : (ℕ → Bool) → Text → Bool
starts p [] = false
starts p (c ∷ s) = p c

unfoldable pub ends : (ℕ → Bool) → Text → Bool
ends p [] = false
ends p (c ∷ []) = p c
ends p (c ∷ d ∷ s) = ends p (d ∷ s)

-- `nameRE`: a DNS label
unfoldable pub is_label : Text → Bool
unfolding starts ends all
is_label s = starts is_alnum s && (ends is_alnum s && (all is_label_char s && leb (length s) 63))

abbrev pub is_word_char : ℕ → Bool
is_word_char c = is_alnum c || is_upper c

abbrev pub is_work_char : ℕ → Bool
is_work_char c = is_word_char c || (c == b'.' || (c == b'_' || c == b'-'))

-- `workIDRE`
unfoldable pub is_work_id : Text → Bool
unfolding starts all
is_work_id s = starts is_word_char s && (all is_work_char s && leb (length s) 63)

-- `hostnameRE`: labels with dots between them
unfoldable pub is_hostname : Text → Bool
unfolding is_label split
is_hostname s = all is_label (split b'.' s)

-- `imageRefRE`
unfoldable pub is_image_ref : Text → Bool
unfolding starts all
is_image_ref s =
    starts is_word_char s
    && (all (λ c. is_work_char c || (c == b':' || (c == b'/' || c == b'@'))) s
        && leb (length s) 255)

abbrev pub is_dash : ℕ → Bool
is_dash c = c == b'-'

abbrev pub plain : ℕ → ℕ
plain c = if is_alnum c then c else b'-'

unfoldable pub has_double : Text → Bool
has_double [] = false
has_double (c ∷ []) = false
has_double (c ∷ d ∷ s) = (is_dash c && is_dash d) || has_double (d ∷ s)

-- `strings.ReplaceAll(out, "--", "-")`
unfoldable pub replace_doubles : Text → Text
replace_doubles [] = []
replace_doubles (c ∷ []) = c ∷ []
replace_doubles (c ∷ d ∷ s) =
    let halved = c ∷ replace_doubles s in
    let kept = c ∷ replace_doubles (d ∷ s) in if is_dash c && is_dash d then halved else kept

-- the loop of `sanitise`, on fuel
unfoldable pub collapse : ℕ → Text → Text
unfolding has_double replace_doubles
collapse zero s = s
collapse (suc fuel) s =
    let again = collapse fuel (replace_doubles s) in if has_double s then again else s

unfoldable pub clipped : Text → Text
unfolding trim
clipped s = if ltb 63 (length s) then trim is_dash (take 63 s) else s

-- `sanitise`; each round of the loop shortens the text, so its length is fuel enough
unfoldable pub sanitise : Text → Text
unfolding to_lower trim collapse clipped
sanitise s = let out = trim is_dash (map plain (to_lower s)) in clipped (collapse (length out) out)
