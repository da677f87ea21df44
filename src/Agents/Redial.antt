-- ===== src/Agents/Redial.antt =====
-- agents.go: a pass over the pool dials twice an agent pod that changed under its name.
use agentic_preview.Common.{ℕ, suc, ◌≤◌, ◌≡◌, text_key}
use agentic_preview.Common.Assoc.{Assoc}
use agentic_preview.Common.Result.{Result}
use agentic_preview.Text.{Text}
use agentic_preview.Registry.{Registry}
use agentic_preview.Session.{Session}
use agentic_preview.Agents.{AgentConn}
use agentic_preview.Agents.Pass.{Dialer}

-- A count of the dial streams that were asked of an address for a session: asking for one more counts
-- one more, and no call to an agent counts back.
pub record Counts {W : Type 0} (d : Dialer W) (addr id : Text) (dials : W → ℕ) : Type 0 where
  pub dialled : (w : W) → dials (d.watch_dial addr id w).1 ≡ suc (dials w)
  pub other_dial : (a i : Text) (w : W) → dials w ≤ dials (d.watch_dial a i w).1
  pub other_version : (a : Text) (w : W) → dials w ≤ dials (d.version a w).1
  pub other_end : (ac : AgentConn) (w : W) → dials w ≤ dials (d.hang_up ac w)
