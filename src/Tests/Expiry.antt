-- ===== src/Tests/Expiry.antt =====
-- expiry.go: the expiry of a work id, and a sweep.
use agentic_preview.Common.{ℕ, suc, ◌+◌, ◌≡◌, ◌⊎◌, refl, List, [], ◌∷◌, some}
use agentic_preview.Common.Result.{ok}
use agentic_preview.Text.{Text, codes}
use agentic_preview.Preview.{key}
use agentic_preview.Registry.{Registry, namespaces_of, touch, remove_work}
use agentic_preview.Session.{Sessions}
use agentic_preview.Session.Manager.{Manager}
use agentic_preview.Workload.{
  Kind, deployments, services, Object, Cluster, owner_selector, preview_labels,
}
use agentic_preview.Expiry.{ReapConfig, expire_work, remove_intercepts}
use agentic_preview.Expiry.Confirmed.{AllGone, expire_work_confirmed}
use agentic_preview.Expiry.Orphans.{OrphanKey, OrphanMemory, sweep_orphans}
use agentic_preview.Tests.Samples.{checkout, prepared_sample, running}

abbrev built : Object
built = record {
  name = codes "checkout-pr";
  labels = preview_labels checkout (codes "checkout-pr");
  created = 5;
}

-- The Deployments that are there, and the intercepts that were removed.
abbrev Outside : Type 0
Outside = List Object × List Text

abbrev listed_of : Kind → Outside → List Object
listed_of deployments w = w.0
listed_of services w = []

abbrev cluster : Cluster Outside
cluster = record {
  list_objects = λ k ns selector w. (ok (listed_of k w), w);
  delete_object = λ k ns name w. (ok tt, ([], w.1));
}

abbrev logging : Manager Outside
logging = record {
  prepare_intercept = λ id spec w. (ok prepared_sample, w);
  create_intercept = λ id spec w. (ok running, w);
  get_intercept = λ id name w. (ok running, w);
  remove_intercept = λ id name w. (ok tt, (w.0, name ∷ w.1));
  release_agent = λ id workload ns w. (ok tt, w);
  depart = λ id w. (ok tt, w);
  lookup_ip = λ host w. (ok (some (codes "10.0.0.7") ∷ []), w);
}

abbrev cfg : ReapConfig
cfg = record {
  allowed_namespaces = codes "shop" ∷ [];
  lifetime = 100;
  reap_recheck = 50;
  polls = 2;
}

abbrev session : Sessions
session = (codes "shop", record { namespace = codes "shop"; session_id = codes "live" }) ∷ []

abbrev tracked : Registry
tracked = (key checkout, record checkout { expires_at = 60 }) ∷ []

expired_route :
    expire_work logging (some cluster) cfg session 70 (codes "AB-1") tracked (built ∷ [], [])
    ≡ ([], ([], codes "checkout-ab-1" ∷ []))
unfolding expire_work preview_labels
expired_route = refl

-- What the expiry leaves.
abbrev expired_work : Registry × Outside
expired_work =
    expire_work logging (some cluster) cfg session 70 (codes "AB-1") tracked (built ∷ [], [])

expire_work_confirmed_example :
    (AllGone cluster
        (λ w. w.1 ≡ [])
        (owner_selector (codes "AB-1") [])
        (namespaces_of tracked (codes "AB-1"))
      × ((v : Outside) × (v.1 ≡ [])
          × (expired_work ≡ (
            (remove_work tracked (codes "AB-1")).0,
            remove_intercepts logging session
                (remove_work tracked (codes "AB-1")).0
                (remove_work tracked (codes "AB-1")).1
                v,
          ))))
    ⊎ ((expired_work.0 ≡ touch tracked (codes "AB-1") (70 + 50)) × (expired_work.1.1 ≡ []))
expire_work_confirmed_example =
    expire_work_confirmed logging cluster (λ w. w.1 ≡ []) cfg session 70 (codes "AB-1") tracked
      (built ∷ [], []) (λ k ns w h. h) (λ k ns name w i l h. h) refl

-- Deletions are counted, and the Deployment comes back each time.
abbrev always : Kind → List Object
always deployments = built ∷ []
always services = []

abbrev counting : Cluster ℕ
counting = record {
  list_objects = λ k ns selector w. (ok (always k), w);
  delete_object = λ k ns name w. (ok tt, suc w);
}

abbrev stray : OrphanKey
stray = record { namespace = codes "shop"; work_id = codes "AB-1"; workload = codes "checkout" }

abbrev seen_once : OrphanMemory
seen_once = record { seen = stray ∷ []; next_try = []; quiet = [] }

swept : (sweep_orphans counting cfg 200 [] seen_once 0).1 ≡ 1
unfolding sweep_orphans preview_labels
swept = refl

-- Nothing is deleted before a teardown, and every teardown is of the stray.
abbrev OnlyStray : List OrphanKey → ℕ → Type 0
OnlyStray [] n = n ≡ 0
OnlyStray (k ∷ ks) n = k ≡ stray
