-- ===== src/Session/Intercept/Raised.antt =====
-- session.go: what raising an intercept leaves of the registry.
use agentic_preview.Common.{Option, none, some}
use agentic_preview.Common.Result.{Result, ok, err}
use agentic_preview.Text.{Text}
use agentic_preview.Preview.{ServiceKey, Preview, key}
use agentic_preview.Registry.{Registry, set_status}
use agentic_preview.Session.{Session, Sessions, session_for}
use agentic_preview.Session.Manager.{
  RpcError, InterceptSpec, PreparedIntercept, InterceptInfo, Manager,
}
use agentic_preview.Session.Intercept.{
  with_target_host, raise_created, raise_prepared, raise_resolved, raise_in, raise,
}

-- What set_status and the target host keep, raising an intercept keeps.
module _ {W : Type 0} (m : Manager W) (client : Text) (sessions : Sessions) (P : Registry → Type 0)
    (status : (r : Registry) (n d t : Text) → P r → P (set_status r n d t))
    (host : (h : Text) (k : ServiceKey) (r : Registry) → P r → P (with_target_host h k r)) where
  raise_created_keeps :
      (p : Preview) (r : Registry) (a : Result RpcError InterceptInfo) (w : W)
      → P r
      → P (raise_created m p r a w).1
  unfolding raise_created
  raise_created_keeps p r (err e) w h = h
  raise_created_keeps p r (ok ii) w h = status r _ _ _ h

  raise_prepared_keeps :
      (id : Text) (p : Preview) (spec : InterceptSpec) (r : Registry)
      (a : Result Text PreparedIntercept) (w : W)
      → P r
      → P (raise_prepared m id p spec r a w).1
  unfolding raise_prepared
  raise_prepared_keeps id p spec r (err e) w h = h
  raise_prepared_keeps id p spec r (ok pi) w h = raise_created_keeps p r _ _ h

  raise_resolved_keeps :
      (id : Text) (p : Preview) (r : Registry) (a : Result Text Text) (w : W)
      → P r
      → P (raise_resolved m client sessions id p r a w).1
  unfolding raise_resolved
  raise_resolved_keeps id p r (err e) w h = h
  raise_resolved_keeps id p r (ok t) w h = raise_prepared_keeps id p _ _ _ _ (host t (key p) r h)

  raise_in_keeps :
      (s : Option Session) (p : Preview) (r : Registry) (w : W)
      → P r
      → P (raise_in m client sessions s p r w).1
  unfolding raise_in
  raise_in_keeps none p r w h = h
  raise_in_keeps (some s) p r w h = raise_resolved_keeps _ p r _ _ h

  pub raise_keeps : (p : Preview) (r : Registry) (w : W) → P r → P (raise m client sessions p r w).1
  unfolding raise
  raise_keeps p r w h = raise_in_keeps (session_for sessions p.namespace) p r w h
