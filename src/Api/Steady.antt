-- ===== src/Api/Steady.antt =====
-- api.go: what a request to raise a preview leaves of the registry.
use agentic_preview.Common.{
  ℕ, ◌+◌, ◌==◌, ◌≡◌, ◌⊎◌, refl, ◌∙◌, ap, Bool, true, false, [], ◌∷◌, Option, none, some, inl, inr,
  Bool-cases, arith, eq_text,
}
use agentic_preview.Common.Assoc.{get, delete, delete-All, Pairs}
use agentic_preview.Common.Result.{Result, ok, err}
use agentic_preview.Common.Sort.{contains}
use agentic_preview.Text.{Text}
use agentic_preview.Preview.{ServiceKey, service_key, Preview, CreateSpec, key, agent_key}
use agentic_preview.Registry.{Registry, add, conflicting_mode, touch, touched}
use agentic_preview.Registry.Invariant.{touch-IsRegistry}
use agentic_preview.Registry.Mode.{SameMode, conflicting_mode-none_iff, update_all-SingleMode}
use agentic_preview.Registry.Expiry.{touch-ScheduledLive}
use agentic_preview.Registry.Steady.{IsSteady, delete-IsSteady, add-IsSteady, set_status-IsSteady}
use agentic_preview.Request.{PreviewRequest, RequestError, validate}
use agentic_preview.Request.Fence.{validate-IsFenced}
use agentic_preview.Session.{Session, Sessions, session_for}
use agentic_preview.Session.Manager.{Manager}
use agentic_preview.Session.Intercept.Raised.{raise_keeps}
use agentic_preview.Session.Teardown.{remove}
use agentic_preview.Controller.Window.Kept.{with_target_host-IsSteady}
use agentic_preview.Workload.Build.{CreateError}
use agentic_preview.Workload.Create.{Building, create_workload}
use agentic_preview.Workload.Create.Like.{IsLike, create_workload-IsLike}
use agentic_preview.Api.{
  ApiConfig, scheduled_names, extend, same_target, carried, add_raised, add_registered, add_rolled,
  add_over, add_to, add_created, add_building, add_in, add_single, add_unreserved, add_validated,
  handle_add,
}

touch-IsSteady : (r : Registry) (w : Text) (until : ℕ) → IsSteady r → IsSteady (touch r w until)
touch-IsSteady r w until v = record {
  is_registry = touch-IsRegistry r w until v.is_registry;
  single_mode = single;
  scheduled_live = touch-ScheduledLive r w until v.scheduled_live;
}
  where
    same :
        (p : Preview)
        → (agent_key (touched w until p) ≡ agent_key p) × ((touched w until p).global ≡ p.global)
    same p = unfold touched in (ground arith)

    single : Pairs SameMode (touch r w until)
    single = unfold touch in (update_all-SingleMode (touched w until) same r v.single_mode)

extend-IsSteady :
    (cfg : ApiConfig) (now : ℕ) (w : Text) (r : Registry)
    → IsSteady r
    → IsSteady (extend cfg now w r)
unfolding extend
extend-IsSteady cfg now w r v = elim (Bool-cases (cfg.lifetime == 0)) [
  | inl e ↦ simp e v
  | inr e ↦ simp e (touch-IsSteady r w (now + cfg.lifetime) v)
]

-- A preview like one that conflicts with nothing.
conflicting_mode-IsLike :
    (r : Registry) (p q : Preview) → IsLike p q → conflicting_mode r q ≡ conflicting_mode r p
unfolding conflicting_mode
conflicting_mode-IsLike [] p q l = refl
conflicting_mode-IsLike ((k, ex) ∷ r) p q l =
    simp
      (
        ap (λ (x : ServiceKey). x.work_id) l.keyed,
        ap (λ (x : ServiceKey). x.namespace) l.keyed,
        ap (λ (x : ServiceKey). x.workload) l.keyed,
        l.mode,
        conflicting_mode-IsLike r p q l,
      )
      refl

conflicting_mode-delete :
    (r : Registry) (p : Preview) (k : ServiceKey)
    → conflicting_mode r p ≡ none
    → conflicting_mode (delete k r) p ≡ none
conflicting_mode-delete r p k c =
    (conflicting_mode-none_iff (delete k r) p).1
      (delete-All (λ e. (e.0 ≡ key p) ⊎ SameMode p e.1) k r ((conflicting_mode-none_iff r p).0 c))

-- Conflicting with nothing, and without a deadline.
pub record CanAdd (r : Registry) (p : Preview) : Type 0 where
  pub clear : conflicting_mode r p ≡ none
  pub undated : p.expires_at ≡ 0

CanAdd-IsLike : (r : Registry) (p q : Preview) → IsLike p q → CanAdd r p → CanAdd r q
CanAdd-IsLike r p q l h = record {
  clear = conflicting_mode-IsLike r p q l ∙ h.clear;
  undated = l.deadline ∙ h.undated;
}

module _ {W X : Type 0} (m : Manager W) (k : Building W X) (client : Text) (sessions : Sessions)
    (cfg : ApiConfig) (now : ℕ) where
  add_raised-IsSteady :
      (p : Preview) (d : Result Text (Unit {0})) (r : Registry) (w : W)
      → IsSteady r
      → IsSteady (add_raised m k client sessions cfg now p d r w).1
  unfolding add_raised
  add_raised-IsSteady p (err e) r w v = delete-IsSteady r (key p) v
  add_raised-IsSteady p (ok done) r w v = extend-IsSteady cfg now p.work_id r v

  add_registered-IsSteady :
      (p : Preview) (r : Registry) (a : Result Text Registry) (w : W)
      → IsSteady r
      → ((r1 : Registry) → a ≡ ok r1 → IsSteady r1)
      → IsSteady (add_registered m k client sessions cfg now p r a w).1
  unfolding add_registered
  add_registered-IsSteady p r (err e) w v f = v
  add_registered-IsSteady p r (ok r1) w v f = add_raised-IsSteady p _ _ _ (
      raise_keeps m client sessions IsSteady set_status-IsSteady with_target_host-IsSteady p r1 w
        (f r1 refl))

  add_rolled-IsSteady :
      (p : Preview) (r : Registry) (a : Result Text Registry) (w : W)
      → IsSteady r
      → ((r1 : Registry) → a ≡ ok r1 → IsSteady r1)
      → IsSteady (add_rolled m k client sessions cfg now p r a w).1
  unfolding add_rolled
  add_rolled-IsSteady p r (err e) w v f = v
  add_rolled-IsSteady p r (ok r1) w v f = extend-IsSteady cfg now p.work_id r1 (f r1 refl)

  add_over-IsSteady :
      (prev p : Preview) (same image : Bool) (r : Registry) (w : W)
      → IsSteady r
      → CanAdd r p
      → IsSteady (add_over m k client sessions cfg now prev p same image r w).1
  unfolding add_over
  add_over-IsSteady prev p true true r w v c = extend-IsSteady cfg now p.work_id r v
  add_over-IsSteady prev p true false r w v c =
      let q = carried prev p in
      let like : IsLike p q = record { keyed = refl; mode = refl; deadline = refl } in
      let can = CanAdd-IsLike r p q like c in
      add_rolled-IsSteady q r (add r q now) w v
        (λ r1 e. add-IsSteady r q now v can.undated can.clear e)
  add_over-IsSteady prev p false image r w v c =
      let r1 = delete (key prev) r in
      let v1 = delete-IsSteady r (key prev) v in
      let clear = conflicting_mode-delete r p (key prev) c.clear in
      add_registered-IsSteady p r1 (add r1 p now) (remove m sessions r1 prev w).1 v1
        (λ r2 e. add-IsSteady r1 p now v1 c.undated clear e)

  add_created-IsSteady :
      (r : Registry) (t : Result CreateError (Unit {0}) × Preview × W)
      → IsSteady r
      → CanAdd r t.1
      → IsSteady (add_created m k client sessions cfg now r t).1
  unfolding add_created
  add_created-IsSteady r (err e, p, w) v c = v
  add_created-IsSteady r (ok done, p, w) v c = over (get (key p) r)
    where
      over : (o : Option Preview) → IsSteady (add_to m k client sessions cfg now p o r w).1
      over none =
          unfold add_to in
          (add_registered-IsSteady p r (add r p now) w v
            (λ r1 e. add-IsSteady r p now v c.undated c.clear e))
      over (some prev) =
          unfold add_to in
          (add_over-IsSteady prev p (same_target prev p) (eq_text prev.image p.image) r w v c)

  add_building-IsSteady :
      (p : Preview) (spec : Option CreateSpec) (r : Registry) (w : W)
      → IsSteady r
      → CanAdd r p
      → IsSteady (add_building m k client sessions cfg now p spec r w).1
  unfolding add_building
  add_building-IsSteady p none r w v c = add_created-IsSteady r (ok tt, p, w) v c
  add_building-IsSteady p (some spec) r w v c =
      let t = create_workload cfg.create k spec p w in
      add_created-IsSteady r t v
        (CanAdd-IsLike r p t.1 (create_workload-IsLike cfg.create k spec p w) c)

  add_unreserved-IsSteady :
      (p : Preview) (b : Bool) (r : Registry) (w : W)
      → IsSteady r
      → p.expires_at ≡ 0
      → IsSteady (add_unreserved m k client sessions cfg now p b r w).1
  unfolding add_unreserved
  add_unreserved-IsSteady p true r w v u = v
  add_unreserved-IsSteady p false r w v u = single (conflicting_mode r p) refl
    where
      within :
          (s : Option Session)
          → CanAdd r p
          → IsSteady (add_in m k client sessions cfg now p s r w).1
      within none c = unfold add_in in v
      within (some s) c = unfold add_in in (add_building-IsSteady p p.create r w v c)

      single :
          (o : Option Preview)
          → conflicting_mode r p ≡ o
          → IsSteady (add_single m k client sessions cfg now p o r w).1
      single (some other) e = unfold add_single in v
      single none e =
          unfold add_single in
          (within (session_for sessions p.namespace) (record { clear = e; undated = u }))

  -- Where the registry is well formed, has each workload in one mode, and has no deadline on a
  -- scheduled intercept, it is so after a request to raise a preview, however it is answered and
  -- whatever the manager, the name server and the Kubernetes client answer.
  pub handle_add-IsSteady :
      (request : PreviewRequest) (r : Registry) (w : W)
      → IsSteady r
      → IsSteady (handle_add m k client sessions cfg now request r w).1
  unfolding handle_add
  handle_add-IsSteady request r w v =
      accepted (validate request cfg.create.allowed_namespaces cfg.header_name) refl
    where
      accepted :
          (a : Result RequestError Preview)
          → validate request cfg.create.allowed_namespaces cfg.header_name ≡ a
          → IsSteady (add_validated m k client sessions cfg now a r w).1
      accepted (err e) q = unfold add_validated in v
      accepted (ok p) q =
          unfold add_validated in
          (add_unreserved-IsSteady p (contains p.work_id (scheduled_names cfg.schedules)) r w v
            (validate-IsFenced request cfg.create.allowed_namespaces cfg.header_name q).undated)
