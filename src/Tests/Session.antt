-- ===== src/Tests/Session.antt =====
-- session.go: raising an intercept behind a dead session, and the file of recorded sessions.
use agentic_preview.Common.{
  ◌≡◌, refl, Bool, false, List, [], ◌∷◌, none, some, eq_text, arith, ◌||◌, text_key, inl, inr,
}
use agentic_preview.Common.Int.{pos}
use agentic_preview.Common.Result.{Result, ok, err}
use agentic_preview.Common.Sort.{contains}
use agentic_preview.Text.{Text, codes, is_space}
use agentic_preview.Session.{Sessions, is_live_id}
use agentic_preview.Session.Manager.{
  RpcError, rpc_failed, InterceptSpec, PreparedIntercept, Manager,
}
use agentic_preview.Session.Conflict.{own_conflict}
use agentic_preview.Session.Intercept.{raise, to_int32, prepared, departed}
use agentic_preview.Session.Intercept.Obliged.{MayPrepare, at_once, blocked, IsObliging}
use agentic_preview.Session.Intercept.Prepare.{raise_spares_live}
use agentic_preview.Session.Recorded.{recorded_body, recorded_sessions}
use agentic_preview.Session.Recorded.RoundTrip.{recorded_for, recorded_sessions-body}
use agentic_preview.Tests.Samples.{checkout, prepared_sample, running}

abbrev dead_id : Text
dead_id = codes "00000000-0000-0000-0000-0000000000d1"

abbrev blocked_by : Text
blocked_by =
    codes
      "conflict with intercept 00000000-0000-0000-0000-0000000000d1:checkout-ab-1 created by client \"agentic\""

conflict_read : own_conflict blocked_by ≡ some (dead_id, codes "agentic")
unfolding own_conflict
conflict_read = refl

abbrev pub here : Sessions
here = (codes "shop", record { namespace = codes "shop"; session_id = codes "live" }) ∷ []

-- The world is the list of the sessions that were ended; as long as it is empty the manager refuses.
abbrev first_refused : List Text → Result RpcError PreparedIntercept × List Text
first_refused [] = (err (rpc_failed blocked_by), [])
first_refused (e ∷ es) = (ok prepared_sample, e ∷ es)

abbrev pub blocked_manager : Manager (List Text)
blocked_manager = record {
  prepare_intercept = λ id spec w. first_refused w;
  create_intercept = λ id spec w. (ok running, w);
  get_intercept = λ id name w. (ok running, w);
  remove_intercept = λ id name w. (ok tt, w);
  release_agent = λ id workload ns w. (ok tt, w);
  depart = λ id w. (ok tt, id ∷ w);
  lookup_ip = λ host w. (ok (none ∷ some (codes "10.0.0.7") ∷ []), w);
}

blocked_may :
    (id : Text) (spec : InterceptSpec) (w : List Text)
    → MayPrepare blocked_manager (codes "agentic") here id spec w
unfolding prepared departed is_live_id
blocked_may id spec [] =
    blocked blocked_by dead_id prepared_sample refl conflict_read refl refl refl refl
blocked_may id spec (e ∷ es) = at_once prepared_sample refl refl

pub blocked_manager-IsObliging : IsObliging blocked_manager (codes "agentic") here
blocked_manager-IsObliging = record {
  resolves =
      λ host w. (none ∷ some (codes "10.0.0.7") ∷ [], codes "10.0.0.7", refl, inr (inl refl));
  prepares = blocked_may;
  creates = λ id spec w. (running, refl);
}

raised_behind_dead :
    ((raise blocked_manager (codes "agentic") here checkout [] []).0 ≡ ok tt)
    × ((raise blocked_manager (codes "agentic") here checkout [] []).2 ≡ dead_id ∷ [])
unfolding raise
raised_behind_dead = (refl, refl)

-- A port beyond 32 bits comes out as another port.
port_wraps : to_int32 (pos 4294967376) ≡ pos 80
unfolding to_int32
port_wraps = refl

live_only : (id : Text) → is_live_id here id ≡ false → eq_text (codes "live") id ≡ false
unfolding is_live_id
live_only id h = ground arith

abbrev SparesLive : List Text → Type 0
SparesLive w = contains (codes "live") w ≡ false

asked_spares :
    (id : Text) (spec : InterceptSpec) (w : List Text)
    → SparesLive w
    → SparesLive (blocked_manager.prepare_intercept id spec w).1
asked_spares id spec [] h = h
asked_spares id spec (e ∷ es) h = h

ended_spares :
    (id : Text) (w : List Text)
    → is_live_id here id ≡ false
    → SparesLive w
    → SparesLive (blocked_manager.depart id w).1
unfolding contains
ended_spares id w l h = neither _ _ (live_only id l) h
  where
    neither : (a b : Bool) → a ≡ false → b ≡ false → (a || b) ≡ false
    neither a b x y = ground arith

raise_spares_live_example :
    contains (codes "live") (raise blocked_manager (codes "agentic") here checkout [] []).2 ≡ false
unfolding contains
raise_spares_live_example =
    raise_spares_live blocked_manager (codes "agentic") here SparesLive (λ host w h. h) asked_spares
      (λ id spec w h. h) ended_spares checkout [] [] refl

abbrev saved : List (Text × Text)
saved = (codes "shop", codes "id-1") ∷ (codes "ops", codes "id-2") ∷ []

recorded_sessions-body_example :
    recorded_sessions (recorded_body saved (codes "ops" ∷ codes "dev" ∷ codes "shop" ∷ []))
    ≡ recorded_for saved (codes "ops" ∷ codes "dev" ∷ codes "shop" ∷ [])
unfolding is_space
recorded_sessions-body_example =
    recorded_sessions-body saved (codes "ops" ∷ codes "dev" ∷ codes "shop" ∷ [])
      (
        ((λ q. cc), (refl, (refl, (refl, tt)))),
        (
          ((λ q. cc), (refl, (refl, (refl, tt)))),
          (((λ q. cc), (refl, (refl, (refl, (refl, tt))))), tt),
        ),
      )
      ((refl, (refl, (refl, (refl, tt)))), ((refl, (refl, (refl, (refl, tt)))), tt))
