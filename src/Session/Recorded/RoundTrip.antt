-- ===== src/Session/Recorded/RoundTrip.antt =====
-- session.go: the sessions that are recorded are the sessions that a restarted process reads.
use agentic_preview.Common.{
  ◌≡◌, ◌≢◌, refl, ◌∙◌, List, [], ◌∷◌, ◌++◌, All, All-append, Option, none, some, text_key,
}
use mathlib.Core.List.{append_assoc}
use agentic_preview.Common.Assoc.{Assoc, get, get-All}
use agentic_preview.Text.{Text, codes}
use agentic_preview.Text.Split.{Without, split-append, split-Without}
use agentic_preview.Text.Fields.{fields-words}
use agentic_preview.Hosts.Entries.{NoSpace, NoSpace-one_line}
use agentic_preview.Session.Recorded.{
  RecordedSession, recorded_line, recorded_body, recorded_of, recorded_from, recorded_sessions,
}

abbrev recorded : Text → Option Text → List RecordedSession → List RecordedSession
recorded ns none rest = rest
recorded ns (some []) rest = rest
recorded ns (some (c ∷ id)) rest = record { namespace = ns; session_id = c ∷ id } ∷ rest

-- The sessions of the allowed namespaces that have one, in the order of the namespaces.
unfoldable pub recorded_for : Assoc Text Text → List Text → List RecordedSession
unfolding get
recorded_for saved [] = []
recorded_for saved (ns ∷ nss) = recorded ns (get ns saved) (recorded_for saved nss)

-- What a namespace and a session id are: a namespace is not empty, and neither holds a space.
abbrev pub IsWord : Text → Type 0
IsWord w = (w ≢ []) × NoSpace w

line-Without : (ns id : Text) → NoSpace ns → NoSpace id → Without b'\n' (ns ++ (codes " " ++ id))
line-Without ns id h k = All-append _ ns _ (NoSpace-one_line ns h) (refl, NoSpace-one_line id k)

recorded_line-split :
    (ns : Text) (id : Option Text) (rest : Text)
    → IsWord ns
    → ((s : Text) → id ≡ some s → NoSpace s)
    → recorded_sessions (recorded_line ns id ++ rest) ≡ recorded ns id (recorded_sessions rest)
unfolding recorded_sessions recorded_from recorded_of
recorded_line-split ns none rest w h = refl
recorded_line-split ns (some []) rest w h = refl
recorded_line-split ns (some (c ∷ id)) rest w h =
    let line = ns ++ (codes " " ++ (c ∷ id)) in
    let k = h (c ∷ id) refl in
    let regroup : (ns ++ (codes " " ++ ((c ∷ id) ++ codes "\n"))) ++ rest ≡ line ++ (b'\n' ∷ rest) =
      simp append_assoc in
    let words = fields-words ns (c ∷ id) w.0 (λ q. cc) w.1 k in
    rw regroup (
      rw (split-append b'\n' line rest)
        (rw (split-Without b'\n' line (line-Without ns (c ∷ id) w.1 k)) (rw words refl)))

-- Where the allowed namespaces are words and no recorded session id holds a space, the sessions that
-- are read back from the body that was written are those of the allowed namespaces that have one, in
-- the order of the namespaces.
pub recorded_sessions-body :
    (saved : Assoc Text Text) (allowed : List Text)
    → All IsWord allowed
    → All (λ e. NoSpace e.1) saved
    → recorded_sessions (recorded_body saved allowed) ≡ recorded_for saved allowed
unfolding recorded_body recorded_for
recorded_sessions-body saved [] a s = unfold recorded_sessions recorded_from recorded_of in refl
recorded_sessions-body saved (ns ∷ nss) a s =
    recorded_line-split ns (get ns saved) (recorded_body saved nss) a.0
      (λ t e. get-All (λ x. NoSpace x.1) ns t saved s e)
    ∙ rw (recorded_sessions-body saved nss a.1 s) refl
