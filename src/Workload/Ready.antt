-- ===== src/Workload/Ready.antt =====
-- workload.go: waiting for the pods of a preview, and what is wrong with them.
use agentic_preview.Common.{
  ℕ, zero, suc, Bool, true, false, not, ◌&&◌, List, [], ◌∷◌, ◌++◌, Option, none, some,
  if◌then◌else◌,
}
use agentic_preview.Common.Int.{ℤ, pos, ltb_ℤ}
use agentic_preview.Common.Result.{Result, ok, err}
use agentic_preview.Common.Sort.{sort_texts}
use agentic_preview.Text.{Text, codes, join, trim_space}
use agentic_preview.Text.Decimal.{decimal}
use agentic_preview.Workload.{preview_label}
use agentic_preview.Workload.Build.{Deployment}
use agentic_preview.Workload.Apply.{GetError, Rollout, ContainerStatus, Pod, Builder}

abbrev waiting_text : Text → Text × Text → Text
waiting_text name (reason, message) =
    codes " - " ++ (name ++ (codes " waiting: " ++ (reason ++ (codes " " ++ message))))

abbrev state_text : Text → Option (Text × Text) → Option (Text × ℤ) → Text
state_text name (some w) t = waiting_text name w
state_text name none (some (reason, code)) =
    codes " - "
    ++ (name
        ++ (codes " terminated: " ++ (reason ++ (codes " (exit " ++ (decimal code ++ codes ")")))))
state_text name none none = []

abbrev restart_text : Text → ℤ → Text
restart_text name n =
    if ltb_ℤ (pos 0) n
    then codes " - " ++ (name ++ (codes " has restarted " ++ (decimal n ++ codes " time(s)")))
    else []

unfoldable pub statuses_text : List ContainerStatus → Text
unfolding decimal
statuses_text [] = []
statuses_text (s ∷ ss) =
    state_text s.name s.waiting s.terminated
    ++ (restart_text s.name s.restart_count ++ statuses_text ss)

unfoldable pub pod_line : Pod → Text
unfolding statuses_text trim_space
pod_line p = trim_space (p.name ++ (codes " is " ++ (p.phase ++ statuses_text p.statuses)))

unfoldable pub pod_lines : List Pod → List Text
unfolding pod_line
pod_lines [] = []
pod_lines (p ∷ ps) = pod_line p ∷ pod_lines ps

unfoldable pub trouble_of : Result Text (List Pod) → List Text
unfolding pod_lines sort_texts
trouble_of (err e) = (codes "could not read the preview's pods: " ++ e) ∷ []
trouble_of (ok []) = codes "no pods were scheduled for it at all" ∷ []
trouble_of (ok (p ∷ ps)) = sort_texts (pod_lines (p ∷ ps))

-- The test of `waitReady`.
unfoldable pub is_ready : {X : Type 0} → ℤ → Result GetError (Deployment X × Rollout) → Bool
is_ready replicas (err e) = false
is_ready replicas (ok (d, r)) =
    not (ltb_ℤ r.observed_generation r.generation)
    && (not (ltb_ℤ r.ready_replicas replicas) && not (ltb_ℤ r.updated_replicas replicas))

module _ {W X : Type 0} (b : Builder W X) where
  -- `podTrouble`
  unfoldable pub pod_trouble : Text → Text → W → List Text × W
  unfolding trouble_of
  pod_trouble ns name w =
      let (pods, w1) = b.list_pods ns (preview_label ++ (codes "=" ++ name)) w in
      (trouble_of pods, w1)

  unfoldable pub not_ready : Text → Text → W → (Bool × Text) × W
  unfolding pod_trouble join
  not_ready ns name w =
      let (why, w1) = pod_trouble ns name w in ((false, join (codes "; ") why), w1)

  -- The loop of `waitReady`, with so many ticks left before its deadline.
  unfoldable pub wait_from : ℕ → Text → Text → ℤ → W → (Bool × Text) × W
  unfolding is_ready not_ready
  wait_from zero ns name replicas w =
      let (d, w1) = b.get_deployment ns name w in
      elim (is_ready replicas d) [ true ↦ ((true, []), w1) | false ↦ not_ready ns name w1 ]
  wait_from (suc n) ns name replicas w =
      let (d, w1) = b.get_deployment ns name w in
      elim (is_ready replicas d) [
        | true ↦ ((true, []), w1)
        | false ↦ wait_from n ns name replicas w1
      ]

  -- `waitReady`; without a timeout nothing is waited for
  unfoldable pub wait_ready : Option ℕ → Text → Text → ℤ → W → (Bool × Text) × W
  unfolding wait_from
  wait_ready none ns name replicas w = ((true, codes "not waited for (PREVIEW_READY_TIMEOUT=0)"), w)
  wait_ready (some ticks) ns name replicas w = wait_from ticks ns name replicas w
