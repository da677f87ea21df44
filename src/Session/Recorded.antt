-- ===== src/Session/Recorded.antt =====
-- session.go: the file of recorded sessions, its text and what is read from it.
pub mod RoundTrip
use agentic_preview.Common.{
  ℕ, Bool, true, false, not, ◌&&◌, List, [], ◌∷◌, ◌++◌, Option, none, some, if◌then◌else◌, text_key,
}
use agentic_preview.Common.Assoc.{Assoc, get, put}
use agentic_preview.Text.{Text, codes, split, fields}

-- `recordedSession`
pub record RecordedSession : Type 0 where
  pub namespace : Text
  pub session_id : Text

abbrev pub recorded_line : Text → Option Text → Text
recorded_line ns none = []
recorded_line ns (some []) = []
recorded_line ns (some (c ∷ id)) = ns ++ (codes " " ++ ((c ∷ id) ++ codes "\n"))

-- The body of the file: a line for each allowed namespace that has a session.
unfoldable pub recorded_body : Assoc Text Text → List Text → Text
unfolding get
recorded_body saved [] = []
recorded_body saved (ns ∷ nss) = recorded_line ns (get ns saved) ++ recorded_body saved nss

-- `saveSession`, with a path: the map and the body that is written
unfoldable pub save_session : Assoc Text Text → List Text → Text → Text → Assoc Text Text × Text
unfolding put recorded_body
save_session saved allowed ns id =
    let saved1 = put ns id saved in (saved1, recorded_body saved1 allowed)

unfoldable pub recorded_of : List Text → List RecordedSession → List RecordedSession
recorded_of [] rest = rest
recorded_of (id ∷ []) rest =
    record { namespace = codes "namespace not recorded"; session_id = id } ∷ rest
recorded_of (ns ∷ id ∷ more) rest = record { namespace = ns; session_id = id } ∷ rest

unfoldable pub recorded_from : List Text → List RecordedSession
unfolding fields recorded_of
recorded_from [] = []
recorded_from (line ∷ lines) = recorded_of (fields line) (recorded_from lines)

-- `recordedSessions`
unfoldable pub recorded_sessions : Text → List RecordedSession
unfolding split recorded_from
recorded_sessions body = recorded_from (split b'\n' body)
