-- ===== src/Session.antt =====
-- session.go: the sessions with the traffic-manager, one for a namespace. The manager's calls are a
-- parameter; the credential of a session and the loops that hold it open are left out.
pub mod Manager
pub mod Conflict
pub mod Intercept
pub mod Teardown
pub mod Recorded
use agentic_preview.Common.{
  Bool, true, false, List, [], ◌∷◌, Option, none, some, if◌then◌else◌, eq_text, text_key, is_some,
}
use agentic_preview.Common.Assoc.{Assoc, get}
use agentic_preview.Text.{Text}

-- `mgrSession`, by what the other parts read of it
pub record Session : Type 0 where
  pub namespace : Text
  pub session_id : Text

abbrev pub Sessions : Type 0
Sessions = Assoc Text Session

-- `sessionFor`
unfoldable pub session_for : Sessions → Text → Option Session
unfolding get
session_for sessions ns = get ns sessions

abbrev pub with_session : Option Session → List Session → List Session
with_session none rest = rest
with_session (some s) rest = s ∷ rest

-- `allSessions`, over the allowed namespaces
unfoldable pub all_sessions : Sessions → List Text → List Session
unfolding session_for
all_sessions sessions [] = []
all_sessions sessions (ns ∷ nss) =
    with_session (session_for sessions ns) (all_sessions sessions nss)

-- `connectedNamespaces`: the live ones and the missing ones
unfoldable pub connected_namespaces : Sessions → List Text → List Text × List Text
unfolding session_for
connected_namespaces sessions [] = ([], [])
connected_namespaces sessions (ns ∷ nss) =
    let (live, missing) = connected_namespaces sessions nss in
    if is_some (session_for sessions ns) then (ns ∷ live, missing) else (live, ns ∷ missing)

-- `liveSessionIDs`, as the test of membership
unfoldable pub is_live_id : Sessions → Text → Bool
unfolding eq_text
is_live_id [] id = false
is_live_id ((ns, s) ∷ rest) id =
    let later = is_live_id rest id in if eq_text s.session_id id then true else later
