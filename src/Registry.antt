-- ===== src/Registry.antt =====
-- preview.go, the registry: the desired set of previews. The lock is left out: each operation is one
-- step. An iteration over the map goes in the order of the association list.
pub mod Invariant
pub mod Mode
pub mod Expiry
pub mod Work
pub mod Steady
use agentic_preview.Common.{
  ℕ, ◌+◌, Bool, true, false, not, ◌&&◌, ◌||◌, List, [], ◌∷◌, ◌++◌, map, Option, none, some, ltb,
  ◌==◌, if◌then◌else◌, eq_text,
}
use agentic_preview.Common.Assoc.{Assoc, get, put, delete}
use agentic_preview.Common.Result.{Result, ok, err}
use agentic_preview.Common.Sort.{sort, sort_texts, text_ltb, contains}
use agentic_preview.Text.{Text, codes}
use agentic_preview.Preview.{ServiceKey, service_key, same_key, Preview, key, agent_key}

abbrev pub Registry : Type 0
Registry = Assoc ServiceKey Preview

-- `newRegistry`
abbrev pub new_registry : Registry
new_registry = []

-- The loop of `add`: an entry of another key that has the name.
unfoldable pub name_taken : Preview → Registry → Option Preview
unfolding eq_text
name_taken p [] = none
name_taken p ((k, ex) ∷ r) =
    if eq_text ex.name p.name && not (same_key k (key p)) then some ex else name_taken p r

-- The moment at which a preview first appeared.
unfoldable pub first_raised : Registry → Preview → ℕ → ℕ
unfolding get
first_raised r p now = elim (get (key p) r) [
  | some ex ↦
      if ex.raised_at == 0 then (if p.raised_at == 0 then now else p.raised_at) else ex.raised_at
  | none ↦ if p.raised_at == 0 then now else p.raised_at
]

unfoldable pub taken_message : Preview → Preview → Text
taken_message p ex =
    codes "intercept name \""
    ++ (p.name
        ++ (codes "\" is already used by "
            ++ (ex.workload
                ++ (codes "." ++ (ex.namespace ++ (codes " under work id " ++ ex.work_id))))))

unfoldable pub added : Registry → Preview → ℕ → Registry
unfolding first_raised put
added r p now = put (key p) (record p { raised_at = first_raised r p now }) r

-- `(*registry).add`; `now` is the clock's time
unfoldable pub add : Registry → Preview → ℕ → Result Text Registry
unfolding name_taken added taken_message
add r p now = elim (name_taken p r) [
  | some ex ↦ err (taken_message p ex)
  | none ↦ ok (added r p now)
]

abbrev pub other_mode : Bool → Bool → Bool
other_mode true b = not b
other_mode false b = b

-- `(*registry).conflictingMode`
unfoldable pub conflicting_mode : Registry → Preview → Option Preview
unfolding eq_text
conflicting_mode [] p = none
conflicting_mode ((k, ex) ∷ r) p =
    if not (same_key k (key p))
      && (eq_text (agent_key ex) (agent_key p) && other_mode ex.global p.global)
    then some ex
    else conflicting_mode r p

-- `(*registry).removeService`
abbrev pub remove_service : Registry → ServiceKey → Registry × Option Preview
remove_service r k = (delete k r, get k r)

by_name : Preview → Preview → Bool
unfolding text_ltb
by_name p q = text_ltb p.name q.name

-- `sortByName`
unfoldable pub sort_by_name : List Preview → List Preview
unfolding sort by_name
sort_by_name = sort by_name

unfoldable pub of_work : Text → Registry → List Preview
unfolding eq_text
of_work w [] = []
of_work w ((k, p) ∷ r) = if eq_text k.work_id w then p ∷ of_work w r else of_work w r

unfoldable pub without_work : Text → Registry → Registry
unfolding eq_text
without_work w [] = []
without_work w ((k, p) ∷ r) =
    if eq_text k.work_id w then without_work w r else (k, p) ∷ without_work w r

-- `(*registry).removeWork`
unfoldable pub remove_work : Registry → Text → Registry × List Preview
unfolding of_work without_work sort_by_name
remove_work r w = (without_work w r, sort_by_name (of_work w r))

unfoldable pub update_all : (Preview → Preview) → Registry → Registry
update_all f [] = []
update_all f ((k, p) ∷ r) = (k, f p) ∷ update_all f r

unfoldable pub touched : Text → ℕ → Preview → Preview
unfolding eq_text
touched w until p =
    if eq_text p.work_id w && eq_text p.schedule [] then record p { expires_at = until } else p

-- `(*registry).touch`
unfoldable pub touch : Registry → Text → ℕ → Registry
unfolding update_all touched
touch r w until = update_all (touched w until) r

unfoldable pub add_new : Text → List Text → List Text
unfolding contains
add_new x xs = if contains x xs then xs else x ∷ xs

unfoldable pub namespaces_in : Text → Registry → List Text
unfolding add_new eq_text
namespaces_in w [] = []
namespaces_in w ((k, p) ∷ r) =
    let rest = namespaces_in w r in if eq_text k.work_id w then add_new k.namespace rest else rest

-- `(*registry).namespacesOf`
unfoldable pub namespaces_of : Registry → Text → List Text
unfolding namespaces_in sort_texts
namespaces_of r w = sort_texts (namespaces_in w r)

abbrev pub is_expired : ℕ → Preview → Bool
is_expired now p = not (p.expires_at == 0) && not (ltb now p.expires_at)

unfoldable pub expired_in : ℕ → Registry → List Text
unfolding add_new
expired_in now [] = []
expired_in now ((k, p) ∷ r) =
    let rest = expired_in now r in if is_expired now p then add_new p.work_id rest else rest

-- `(*registry).expired`
unfoldable pub expired : Registry → ℕ → List Text
unfolding expired_in sort_texts
expired r now = sort_texts (expired_in now r)

unfoldable pub values : Registry → List Preview
values [] = []
values ((k, p) ∷ r) = p ∷ values r

-- `(*registry).all`
unfoldable pub all : Registry → List Preview
unfolding values sort_by_name
all r = sort_by_name (values r)

unfoldable pub workloads : Registry → List Text
unfolding add_new
workloads [] = []
workloads ((k, p) ∷ r) = add_new (agent_key p) (workloads r)

-- `(*registry).workloadList`
unfoldable pub workload_list : Registry → List Text
unfolding workloads sort_texts
workload_list r = sort_texts (workloads r)

unfoldable pub with_status : Text → Text → Text → Preview → Preview
unfolding eq_text
with_status name disposition message p =
    if eq_text p.name name then record p { disposition = disposition; message = message } else p

-- `(*registry).setStatus`
unfoldable pub set_status : Registry → Text → Text → Text → Registry
unfolding update_all with_status
set_status r name disposition message = update_all (with_status name disposition message) r

unfoldable pub with_agent_pods : Text → List Text → ℕ → Preview → Preview
unfolding eq_text
with_agent_pods agent pods reported p =
    if eq_text (agent_key p) agent
    then record p { agent_pods = pods; agent_pods_reported = reported }
    else p

-- `(*registry).setAgentPods`
unfoldable pub set_agent_pods : Registry → Text → List Text → ℕ → Registry
unfolding update_all with_agent_pods
set_agent_pods r agent pods reported = update_all (with_agent_pods agent pods reported) r
