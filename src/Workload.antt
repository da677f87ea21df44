-- ===== src/Workload.antt =====
-- workload.go: the labels of the objects that the service makes, and their removal. The Kubernetes
-- client is a parameter over the state of everything outside the process.
pub mod Owned
pub mod Build
pub mod Capture
pub mod Apply
pub mod Ready
pub mod Create
use agentic_preview.Common.{
  Bool, true, false, List, [], ◌∷◌, ◌++◌, Option, none, some, if◌then◌else◌, eq_text, text_key, ℕ,
}
use agentic_preview.Common.Assoc.{Assoc, get, put}
use agentic_preview.Common.Result.{Result, ok, err}
use agentic_preview.Common.Sort.{sort_texts}
use agentic_preview.Text.{Text, codes}
use agentic_preview.Preview.{Preview}

abbrev pub managed_by_label : Text
managed_by_label = codes "app.kubernetes.io/managed-by"

abbrev pub managed_by_value : Text
managed_by_value = codes "agentic-preview"

abbrev pub work_id_label : Text
work_id_label = codes "agentic-preview/work-id"

abbrev pub workload_label : Text
workload_label = codes "agentic-preview/workload"

abbrev pub preview_label : Text
preview_label = codes "agentic-preview/preview"

abbrev pub LabelMap : Type 0
LabelMap = Assoc Text Text

abbrev pub or_blank : Option Text → Text
or_blank none = []
or_blank (some v) = v

-- `labels[k]`, the empty text where there is none
unfoldable pub label : LabelMap → Text → Text
unfolding get
label labels k = or_blank (get k labels)

abbrev pub narrowed : Text → Text
narrowed [] = []
narrowed (c ∷ w) = codes "," ++ (workload_label ++ (codes "=" ++ (c ∷ w)))

-- `ownerSelector`
unfoldable pub owner_selector : Text → Text → Text
owner_selector work_id workload =
    managed_by_label
    ++ (codes "="
        ++ (managed_by_value
            ++ (codes "," ++ (work_id_label ++ (codes "=" ++ (work_id ++ narrowed workload))))))

-- `ownedByUs`
unfoldable pub owned_by_us : LabelMap → Bool
unfolding label eq_text
owned_by_us labels = eq_text (label labels managed_by_label) managed_by_value

-- `previewLabels`
unfoldable pub preview_labels : Preview → Text → LabelMap
preview_labels p name =
    (managed_by_label, managed_by_value)
    ∷ (work_id_label, p.work_id)
    ∷ (workload_label, p.workload)
    ∷ (preview_label, name)
    ∷ (codes "app", name)
    ∷ []

pub data Kind : Type 0 where
  deployments services : Kind

abbrev pub kind_word : Kind → Text
kind_word deployments = codes "deployment"
kind_word services = codes "service"

abbrev pub kind_plural : Kind → Text
kind_plural deployments = codes "Deployments"
kind_plural services = codes "Services"

-- What the removal of objects reads of them.
pub record Object : Type 0 where
  pub name : Text
  pub labels : LabelMap
  pub created : ℕ

-- `kubeAPI` (kube.go), by what the removal of objects calls: a namespace and a selector listed, an
-- object of a namespace delete_result by its name.
pub record Cluster (W : Type 0) : Type 0 where
  pub list_objects : Kind → Text → Text → W → Result Text (List Object) × W
  pub delete_object : Kind → Text → Text → W → Result Text (Unit {0}) × W

abbrev pub object_ref : Kind → Text → Text → Text
object_ref k ns name = kind_word k ++ (codes "/" ++ (name ++ (codes "." ++ ns)))

-- The objects removed, and the problems.
abbrev pub Dropped : Type 0
Dropped = List Text × List Text

abbrev pub noted : Result Text Text → Dropped → Dropped
noted (ok removed) (rs, ps) = (removed ∷ rs, ps)
noted (err problem) (rs, ps) = (rs, problem ∷ ps)

abbrev pub both : Dropped → Dropped → Dropped
both (rs, ps) (rs1, ps1) = (rs ++ rs1, ps ++ ps1)

unfoldable pub left_alone : Kind → Text → Text → Text
left_alone k ns name =
    object_ref k ns name
    ++ (codes " matched the selector but does not carry "
        ++ (managed_by_label ++ (codes "=" ++ (managed_by_value ++ codes " - left alone"))))

abbrev pub delete_result : Kind → Text → Text → Result Text (Unit {0}) → Result Text Text
delete_result k ns name (ok done) = ok (object_ref k ns name)
delete_result k ns name (err e) =
    err (codes "deleting " ++ (object_ref k ns name ++ (codes ": " ++ e)))

abbrev pub unlisted : Kind → Text → Text → Dropped
unlisted k ns e = (
  [],
  (codes "listing preview " ++ (kind_plural k ++ (codes " in " ++ (ns ++ (codes ": " ++ e))))) ∷ [],
)

module _ {W : Type 0} (c : Cluster W) where
  unfoldable pub drop_owned : Kind → Text → Text → Bool → W → Result Text Text × W
  unfolding left_alone
  drop_owned k ns name false w = (err (left_alone k ns name), w)
  drop_owned k ns name true w =
      let (r, w1) = c.delete_object k ns name w in (delete_result k ns name r, w1)

  unfoldable pub drop_objects : Kind → Text → List Object → W → Dropped × W
  unfolding drop_owned owned_by_us
  drop_objects k ns [] w = (([], []), w)
  drop_objects k ns (o ∷ os) w =
      let (r, w1) = drop_owned k ns o.name (owned_by_us o.labels) w in
      let (rest, w2) = drop_objects k ns os w1 in (noted r rest, w2)

  unfoldable pub drop_listed : Kind → Text → Result Text (List Object) → W → Dropped × W
  unfolding drop_objects
  drop_listed k ns (err e) w = (unlisted k ns e, w)
  drop_listed k ns (ok os) w = drop_objects k ns os w

  unfoldable pub drop_kind : Kind → Text → Text → W → Dropped × W
  unfolding drop_listed
  drop_kind k ns selector w =
      let (os, w1) = c.list_objects k ns selector w in drop_listed k ns os w1

  unfoldable pub drop_each : List Text → Text → W → Dropped × W
  unfolding drop_kind
  drop_each [] selector w = (([], []), w)
  drop_each (ns ∷ nss) selector w =
      let (ds, w1) = drop_kind deployments ns selector w in
      let (ss, w2) = drop_kind services ns selector w1 in
      let (rest, w3) = drop_each nss selector w2 in (both ds (both ss rest), w3)

-- `dropWorkload`, over the allowed namespaces; without a client nothing is dropped
unfoldable pub drop_workload :
    {W : Type 0} → Option (Cluster W) → List Text → Text → Text → W → Dropped × W
unfolding owner_selector drop_each sort_texts
drop_workload none allowed work_id workload w = (([], []), w)
drop_workload (some c) allowed work_id workload w =
    let ((removed, problems), w1) = drop_each c allowed (owner_selector work_id workload) w in
    ((sort_texts removed, problems), w1)
