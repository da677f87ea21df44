-- ===== src/Workload/Create/Isolated.antt =====
-- workload.go: nothing is created that a live Service would select.
use agentic_preview.Common.{
  ℕ, zero, suc, ◌≡◌, refl, inl, inr, Bool, true, false, List, [], ◌∷◌, Option, none, some, All, In,
  Bool-cases,
}
use agentic_preview.Common.Int.{ℤ}
use agentic_preview.Common.Result.{Result, ok, err}
use agentic_preview.Common.Sort.{contains, contains_iff}
use agentic_preview.Text.{Text}
use agentic_preview.Preview.{Preview, CreateSpec}
use agentic_preview.Workload.{owned_by_us}
use agentic_preview.Workload.Build.{
  Deployment, Service, CreateError, build_preview_deployment, build_preview_service,
}
use agentic_preview.Workload.Build.Copied.{build_preview_deployment-IsCopy}
use agentic_preview.Workload.Capture.{captured_by, captured_by-none_iff, LeavesAlone}
use agentic_preview.Workload.Apply.{
  GetError, absent, unread, Rollout, Builder, update_ours, apply_read, apply_deployment,
  update_our_service, apply_service_read, apply_service,
}
use agentic_preview.Workload.Ready.{is_ready, not_ready, pod_trouble, wait_from, wait_ready}
use agentic_preview.Workload.Create.{
  CreateConfig, building, with_created, settled, create_served, create_applied, create_isolated,
  create_checked, create_built, create_from, create_live, create_allowed, create_workload,
}

-- The Deployment stands in the asked namespace, which is allowed, under the asked name, and every
-- Service that a listing of that namespace answered leaves its pods alone.
pub record IsIsolated {W X : Type 0} (b : Builder W X) (allowed : List Text) (spec : CreateSpec)
    (d : Deployment X) : Type 0 where
  pub placed : d.namespace ≡ spec.namespace
  pub named : d.name ≡ spec.name
  pub is_allowed : In d.namespace allowed
  pub before : W
  pub answer : List (Service X)
  pub answered : (b.list_services d.namespace before).0 ≡ ok answer
  pub uncaptured : All (LeavesAlone d.name d.template.labels) answer

-- A read of the Deployment's name in its namespace answered that it is not there.
pub record IsAbsent {W X : Type 0} (b : Builder W X) (d : Deployment X) : Type 0 where
  pub before : W
  pub message : Text
  pub answered : (b.get_deployment d.namespace d.name before).0 ≡ err (absent message)

-- A read of the Deployment's name in its namespace answered one with this service's label, in the
-- version that the Deployment carries.
pub record IsOurs {W X : Type 0} (b : Builder W X) (d : Deployment X) : Type 0 where
  pub before : W
  pub live : Deployment X
  pub rollout : Rollout
  pub answered : (b.get_deployment d.namespace d.name before).0 ≡ ok (live, rollout)
  pub owned : owned_by_us live.labels ≡ true
  pub version : d.resource_version ≡ live.resource_version

-- What the creation may do: read, write Services, create isolated Deployments where none is, and
-- update isolated Deployments of its own.
pub record Allows {W X : Type 0} (b : Builder W X) (allowed : List Text) (spec : CreateSpec)
    (P : W → Type 0) : Type 0 where
  pub reads_deployment : (ns name : Text) (w : W) → P w → P (b.get_deployment ns name w).1
  pub reads_service : (ns name : Text) (w : W) → P w → P (b.get_service ns name w).1
  pub reads_services : (ns : Text) (w : W) → P w → P (b.list_services ns w).1
  pub reads_pods : (ns selector : Text) (w : W) → P w → P (b.list_pods ns selector w).1
  pub creates_service : (s : Service X) (w : W) → P w → P (b.create_service s w).1
  pub updates_service : (s : Service X) (w : W) → P w → P (b.update_service s w).1
  pub creates_deployment :
      (d : Deployment X) (w : W)
      → IsIsolated b allowed spec d
      → IsAbsent b d
      → P w
      → P (b.create_deployment d w).1
  pub updates_deployment :
      (d : Deployment X) (w : W)
      → IsIsolated b allowed spec d
      → IsOurs b d
      → P w
      → P (b.update_deployment d w).1

module _ {W X : Type 0} (b : Builder W X) (cfg : CreateConfig) (spec : CreateSpec) (P : W → Type 0)
    (a : Allows b cfg.allowed_namespaces spec P) where
  -- Another version of an isolated Deployment is isolated.
  versioned-IsIsolated :
      (d : Deployment X) (v : Text)
      → IsIsolated b cfg.allowed_namespaces spec d
      → IsIsolated b cfg.allowed_namespaces spec (record d { resource_version = v })
  versioned-IsIsolated d v i = record {
    placed = i.placed;
    named = i.named;
    is_allowed = i.is_allowed;
    before = i.before;
    answer = i.answer;
    answered = i.answered;
    uncaptured = i.uncaptured;
  }

  update_ours-keeps :
      (want live : Deployment X) (o : Bool) (w : W)
      → IsIsolated b cfg.allowed_namespaces spec want
      → (o ≡ true → IsOurs b (record want { resource_version = live.resource_version }))
      → P w
      → P (update_ours b want live o w).1
  unfolding update_ours
  update_ours-keeps want live false w i q h = h
  update_ours-keeps want live true w i q h =
      a.updates_deployment _ w (versioned-IsIsolated want live.resource_version i) (q refl) h

  apply_deployment-keeps :
      (want : Deployment X) (w : W)
      → IsIsolated b cfg.allowed_namespaces spec want
      → P w
      → P (apply_deployment b want w).1
  unfolding apply_deployment
  apply_deployment-keeps want w i h =
      read (b.get_deployment want.namespace want.name w).0 _ refl
        (a.reads_deployment want.namespace want.name w h)
    where
      read :
          (g : Result GetError (Deployment X × Rollout)) (v : W)
          → (b.get_deployment want.namespace want.name w).0 ≡ g
          → P v
          → P (apply_read b want g v).1
      read (err (unread e)) v q k = unfold apply_read in k
      read (err (absent e)) v q k =
          unfold apply_read in
          (a.creates_deployment want v i (record { before = w; message = e; answered = q }) k)
      read (ok (live, rollout)) v q k =
          unfold apply_read in
          (update_ours-keeps want live (owned_by_us live.labels) v i
            (λ o. record {
              before = w;
              live = live;
              rollout = rollout;
              answered = q;
              owned = o;
              version = refl;
            })
            k)

  apply_service-keeps : (want : Service X) (w : W) → P w → P (apply_service b want w).1
  unfolding apply_service
  apply_service-keeps want w h =
      read (b.get_service want.namespace want.name w).0 _
        (a.reads_service want.namespace want.name w h)
    where
      ours : (live : Service X) (o : Bool) (v : W) → P v → P (update_our_service b want live o v).1
      ours live false v k = unfold update_our_service in k
      ours live true v k = unfold update_our_service in (a.updates_service _ v k)

      read : (g : Result GetError (Service X)) (v : W) → P v → P (apply_service_read b want g v).1
      read (err (unread e)) v k = unfold apply_service_read in k
      read (err (absent e)) v k = unfold apply_service_read in (a.creates_service want v k)
      read (ok live) v k = unfold apply_service_read in (ours live (owned_by_us live.labels) v k)

  wait_from-keeps :
      (n : ℕ) (ns name : Text) (replicas : ℤ) (w : W) → P w → P (wait_from b n ns name replicas w).1
  unfolding wait_from not_ready pod_trouble
  wait_from-keeps zero ns name replicas w h =
      elim (Bool-cases (is_ready replicas (b.get_deployment ns name w).0)) [
        | inl e ↦ rw (e, wait_from) (a.reads_deployment ns name w h)
        | inr e ↦ rw (e, wait_from) (a.reads_pods ns _ _ (a.reads_deployment ns name w h))
      ]
  wait_from-keeps (suc n) ns name replicas w h =
      elim (Bool-cases (is_ready replicas (b.get_deployment ns name w).0)) [
        | inl e ↦ rw (e, wait_from) (a.reads_deployment ns name w h)
        | inr e ↦
            rw (e, wait_from)
              (wait_from-keeps n ns name replicas _ (a.reads_deployment ns name w h))
      ]

  settled-keeps : (p : Preview) (t : (Bool × Text) × W) → P t.1 → P (settled spec p t).2
  unfolding settled
  settled-keeps p ((true, d), w) h = h
  settled-keeps p ((false, d), w) h = h

  wait_ready-keeps :
      (ticks : Option ℕ) (ns name : Text) (replicas : ℤ) (w : W)
      → P w
      → P (wait_ready b ticks ns name replicas w).1
  unfolding wait_ready
  wait_ready-keeps none ns name replicas w h = h
  wait_ready-keeps (some n) ns name replicas w h = wait_from-keeps n ns name replicas w h

  module _ (p : Preview) where
    create_served-keeps :
        (dep container : Text) (s : Result CreateError (Service X)) (w : W)
        → P w
        → P (create_served cfg b spec p dep container s w).2
    unfolding create_served
    create_served-keeps dep container (err e) w h = h
    create_served-keeps dep container (ok svc) w h =
        settled-keeps (with_created spec dep container svc p)
          (wait_ready b cfg.ready_ticks spec.namespace spec.name spec.replicas w)
          (wait_ready-keeps cfg.ready_ticks spec.namespace spec.name spec.replicas w h)

    create_applied-keeps :
        (want : Service X) (dep container : Text) (r : Result CreateError (Unit {0})) (w : W)
        → P w
        → P (create_applied cfg b spec p want dep container r w).2
    unfolding create_applied
    create_applied-keeps want dep container (err e) w h = h
    create_applied-keeps want dep container (ok done) w h =
        create_served-keeps dep container (apply_service b want w).0 _
          (apply_service-keeps want w h)

    create_isolated-keeps :
        (svc : Service X) (want : Deployment X) (container : Text) (hits : List Text) (w : W)
        → (hits ≡ [] → IsIsolated b cfg.allowed_namespaces spec want)
        → P w
        → P (create_isolated cfg b spec p svc (want, container) hits w).2
    unfolding create_isolated
    create_isolated-keeps svc want container (x ∷ xs) w i h = h
    create_isolated-keeps svc want container [] w i h =
        create_applied-keeps (build_preview_service svc spec p) want.name container
          (apply_deployment b want w).0 _ (apply_deployment-keeps want w (i refl) h)

    create_built-keeps :
        (svc : Service X) (d : Result CreateError (Deployment X × Text)) (w : W)
        → ((want : Deployment X) (container : Text)
            → d ≡ ok (want, container)
            → (want.namespace ≡ spec.namespace) × (want.name ≡ spec.name))
        → In spec.namespace cfg.allowed_namespaces
        → P w
        → P (create_built cfg b spec p svc d w).2
    unfolding create_built
    create_built-keeps svc (err e) w asked i h = h
    create_built-keeps svc (ok (want, container)) w asked i h =
        checked_list (b.list_services spec.namespace w).0 refl
      where
        checked_list :
            (l : Result Text (List (Service X)))
            → (b.list_services spec.namespace w).0 ≡ l
            → P
                (create_checked cfg b spec p svc
                  (want, container)
                  l
                  (b.list_services spec.namespace w).1).2
        checked_list (err e) q = unfold create_checked in (a.reads_services spec.namespace w h)
        checked_list (ok all) q =
            unfold create_checked in
            (let (placed, named) = asked want container refl in
              let hits = captured_by all spec.name want.template.labels in
              create_isolated-keeps svc want container hits _
                (λ n. record {
                  placed = placed;
                  named = named;
                  is_allowed = rw placed i;
                  before = w;
                  answer = all;
                  answered = rw placed q;
                  uncaptured =
                      rw named ((captured_by-none_iff all spec.name want.template.labels).0 n);
                })
                (a.reads_services spec.namespace w h))

    create_live-keeps :
        (g : Result GetError (Deployment X × Rollout)) (w : W)
        → In spec.namespace cfg.allowed_namespaces
        → P w
        → P (create_live cfg b spec p g w).2
    unfolding create_live
    create_live-keeps (err e) w i h = h
    create_live-keeps (ok (live, rollout)) w i h =
        from (b.get_service spec.namespace spec.source_service w).0
      where
        from :
            (s : Result GetError (Service X))
            → P
                (create_from cfg b spec p live s
                  (b.get_service spec.namespace spec.source_service w).1).2
        from (err e) = unfold create_from in (a.reads_service _ _ w h)
        from (ok svc) =
            unfold create_from in
            create_built-keeps svc (build_preview_deployment live spec p) _
              (λ want container e.
                let copy = build_preview_deployment-IsCopy live spec p want container e in
                (copy.placed, copy.named))
              i (a.reads_service _ _ w h)

    -- Whatever holds of the world outside, and is kept by reads, by writes of Services, and by two
    -- writes of Deployments, is kept by createWorkload, which so writes no other Deployment. Either
    -- write is of a Deployment with the asked name in the asked namespace, which is allowed, whose pods
    -- no Service of a listing of that namespace selects, save the preview's own and other previews'.
    -- It is created where a read answered that there is none of that name, and updated where a read
    -- answered one with this service's label.
    pub create_workload_isolated : (w : W) → P w → P (create_workload cfg (building b) spec p w).2
    unfolding create_workload
    create_workload_isolated w h = gated (contains spec.namespace cfg.allowed_namespaces) refl
      where
        gated :
            (g : Bool)
            → contains spec.namespace cfg.allowed_namespaces ≡ g
            → P (create_allowed cfg (building b) spec p g w).2
        gated false e = unfold create_allowed in h
        gated true e =
            unfold create_allowed in
            create_live-keeps (b.get_deployment spec.namespace spec.source_workload w).0 _
              ((contains_iff spec.namespace cfg.allowed_namespaces).0 e)
              (a.reads_deployment _ _ w h)
