-- ===== src/Dns/InPlace.antt =====
-- dns.go: what stands in the ConfigMap after a read, a write and a recycling of pods.
use agentic_preview.Common.{
  Bool, true, false, List, [], ◌∷◌, ◌≡◌, refl, ◌∙◌, inl, inr, arith, text_key, eq_text, eq_text_iff,
  none, ◌⊎◌, ◌≤◌,
}
use agentic_preview.Common.Assoc.{get-put_self}
use agentic_preview.Common.Result.{Result, ok, err}
use agentic_preview.Text.{Text}
use agentic_preview.Schedule.{Schedule, RecycleTarget}
use agentic_preview.Hosts.{hosts_line, hosts_tag, find_tagged_line, lines_of, remove_tagged_line}
use agentic_preview.Hosts.Find.{count_tagged}
use agentic_preview.Hosts.Entries.{IsDnsSchedule, remove_tagged_line-Cleared}
use agentic_preview.Dns.{
  ConfigMap, KubeError, other_error, Kube, Client, connected, no_client, DnsConfig, content_of,
  read_hosts_line, edited_content, with_content, write_back, write_hosts_line,
}
use agentic_preview.Dns.Store.{IsStore, read-write_hosts_line, update_result-ok}
use agentic_preview.Dns.Window.{
  delete_pods, recycle_target, recycle_all, recycle_from, recycle_pods,
}
use agentic_preview.Controller.{ScheduleState}

-- Listing and deleting pods leaves alone what a read of the ConfigMap returns.
pub record LeavesMap {W : Type 0} (k : Kube W) : Type 0 where
  pub listing :
      (ns selector : Text) (w : W)
      → (k.get_config_map (k.list_pods ns selector w).1).0 ≡ (k.get_config_map w).0
  pub deletion :
      (ns pod : Text) (w : W)
      → (k.get_config_map (k.delete_pod ns pod w).1).0 ≡ (k.get_config_map w).0

-- What the API promises of the ConfigMap, where there is a client.
abbrev pub IsStored : {W : Type 0} → Client W → Type 0
IsStored (connected k) = IsStore k × LeavesMap k
IsStored (no_client e) = Unit

-- What a read of the ConfigMap returns.
abbrev pub map_of : {W : Type 0} → Client W → W → Result KubeError ConfigMap
map_of (connected k) w = (k.get_config_map w).0
map_of (no_client e) w = err (other_error e)

-- The schedule's line is what a read of its line returns.
abbrev pub InPlace : {W : Type 0} → Client W → DnsConfig → Schedule → W → Type 0
InPlace c cfg sc w = (read_hosts_line cfg sc c w).0 ≡ ok (hosts_line sc)

-- The content of the key is what it was without the first line of the schedule's tag, and no line of
-- that tag is found in it unless it held several.
pub record TakenOut {W : Type 0} (c : Client W) (cfg : DnsConfig) (sc : Schedule) (before after : W)
    : Type 0 where
  pub was : ConfigMap
  pub next : ConfigMap
  pub was_there : map_of c before ≡ ok was
  pub is_there : map_of c after ≡ ok next
  pub edited :
      content_of cfg next ≡ (remove_tagged_line (content_of cfg was) (hosts_tag sc.spec.name)).0
  pub none_left :
      (find_tagged_line (content_of cfg next) (hosts_tag sc.spec.name) ≡ none)
      ⊎ (2 ≤ count_tagged (lines_of (content_of cfg was)) (hosts_tag sc.spec.name))

module _ {W : Type 0} (k : Kube W) (a : LeavesMap k) where
  delete_pods-map_of :
      (ns : Text) (pods : List Text) (w : W)
      → (k.get_config_map (delete_pods k ns pods w).1).0 ≡ (k.get_config_map w).0
  unfolding delete_pods
  delete_pods-map_of ns [] w = refl
  delete_pods-map_of ns (pod ∷ pods) w =
      delete_pods-map_of ns pods (k.delete_pod ns pod w).1 ∙ a.deletion ns pod w

  recycle_target-map_of :
      (r : RecycleTarget) (l : Result Text (List Text)) (w : W)
      → (k.get_config_map (recycle_target k r l w).1).0 ≡ (k.get_config_map w).0
  unfolding recycle_target
  recycle_target-map_of r (err e) w = refl
  recycle_target-map_of r (ok pods) w = delete_pods-map_of r.namespace pods w

  recycle_all-map_of :
      (rs : List RecycleTarget) (w : W)
      → (k.get_config_map (recycle_all k rs w).1).0 ≡ (k.get_config_map w).0
  unfolding recycle_all
  recycle_all-map_of [] w = refl
  recycle_all-map_of (r ∷ rs) w =
      let l = k.list_pods r.namespace r.selector w in
      recycle_all-map_of rs (recycle_target k r l.0 l.1).1
      ∙ (recycle_target-map_of r l.0 l.1 ∙ a.listing r.namespace r.selector w)

-- Recycling pods leaves the ConfigMap alone.
pub recycle_pods-map_of :
    {W : Type 0} (c : Client W) (sc : Schedule) (st : ScheduleState) (because : Text) (w : W)
    → IsStored c
    → map_of c (recycle_pods c sc st because w).1 ≡ map_of c w
unfolding recycle_pods
recycle_pods-map_of {W = W} c sc st because w s = from c sc.recycle s
  where
    from :
        (c : Client W) (rs : List RecycleTarget)
        → IsStored c
        → map_of c (recycle_from c sc st because rs w).1 ≡ map_of c w
    from c [] s = unfold recycle_from in refl
    from (no_client e) (r ∷ rs) s = unfold recycle_from in refl
    from (connected k) (r ∷ rs) s = unfold recycle_from in (recycle_all-map_of k s.1 (r ∷ rs) w)

pub InPlace-same :
    {W : Type 0} (c : Client W) (cfg : DnsConfig) (sc : Schedule) (v w : W)
    → map_of c w ≡ map_of c v
    → InPlace c cfg sc v
    → InPlace c cfg sc w
unfolding read_hosts_line
InPlace-same (connected k) cfg sc v w e h = rw e h
InPlace-same (no_client x) cfg sc v w e h = h

pub TakenOut-same :
    {W : Type 0} (c : Client W) (cfg : DnsConfig) (sc : Schedule) (before v w : W)
    → map_of c w ≡ map_of c v
    → TakenOut c cfg sc before v
    → TakenOut c cfg sc before w
TakenOut-same c cfg sc before v w e r = record {
  was = r.was;
  next = r.next;
  was_there = r.was_there;
  is_there = e ∙ r.is_there;
  edited = r.edited;
  none_left = r.none_left;
}

-- A read that returned the line leaves it in place.
pub read_hosts_line-InPlace :
    {W : Type 0} (c : Client W) (cfg : DnsConfig) (sc : Schedule) (w : W) (have : Text)
    → IsStored c
    → (read_hosts_line cfg sc c w).0 ≡ ok have
    → eq_text have (hosts_line sc) ≡ true
    → InPlace c cfg sc (read_hosts_line cfg sc c w).1
unfolding read_hosts_line
read_hosts_line-InPlace (no_client e) cfg sc w have s h q = absurd (ground arith)
read_hosts_line-InPlace (connected k) cfg sc w have s h q =
    rw (s.0.reread w, h, (eq_text_iff have (hosts_line sc)).0 q) refl

-- A write of the line without an error leaves it in place.
pub write_hosts_line-InPlace :
    {W : Type 0} (c : Client W) (cfg : DnsConfig) (sc : Schedule) (w : W) (b : Bool)
    → IsStored c
    → IsDnsSchedule sc
    → (write_hosts_line cfg sc c true w).0 ≡ ok b
    → InPlace c cfg sc (write_hosts_line cfg sc c true w).1
unfolding write_hosts_line
write_hosts_line-InPlace (no_client e) cfg sc w b s d h = absurd (ground arith)
write_hosts_line-InPlace (connected k) cfg sc w b s d h = read-write_hosts_line k cfg sc s.0 d w h

-- Taking a line out leaves none, or there were several.
remove_tagged_line-none_left :
    (content name : Text)
    → (find_tagged_line (remove_tagged_line content (hosts_tag name)).0 (hosts_tag name) ≡ none)
      ⊎ (2 ≤ count_tagged (lines_of content) (hosts_tag name))
remove_tagged_line-none_left content name =
    let rest = (remove_tagged_line content (hosts_tag name)).0 in
    elim (remove_tagged_line-Cleared content name) [
      | inl (n, e) ↦ inl (rw e n)
      | inr (n, cleared) ↦ elim (remove_tagged_line-Cleared rest name) [
        | inl (m, e) ↦ inl m
        | inr (m, again) ↦ let one = cleared.count in let two = again.count in inr (omega arith)
      ]
    ]

removed_back :
    {W : Type 0} (k : Kube W) (cfg : DnsConfig) (sc : Schedule) (g : Result KubeError ConfigMap)
    (before w : W) {b : Bool}
    → IsStore k
    → (k.get_config_map before).0 ≡ g
    → (k.get_config_map w).0 ≡ g
    → (write_back cfg sc k false g w).0 ≡ ok b
    → TakenOut (connected k) cfg sc before (write_back cfg sc k false g w).1
unfolding write_back edited_content
removed_back k cfg sc (err e) before w s g q h = cc
removed_back k cfg sc (ok cm) before w s g q h =
    let content = content_of cfg cm in
    let edit = remove_tagged_line content (hosts_tag sc.spec.name) in
    let left = remove_tagged_line-none_left content sc.spec.name in
    elim (remove_tagged_line-Cleared content sc.spec.name) [
      | inl (n, e) ↦
          let shut : edit.1 ≡ false = rw e refl in
          simp shut (record {
            was = cm;
            next = cm;
            was_there = g;
            is_there = q;
            edited = rw e refl;
            none_left = inl n;
          })
      | inr (n, cleared) ↦
          let next = with_content cfg sc cm edit.0 in
          let (v, e) = s.updated next w (update_result-ok cfg sc _ (simp cleared.changed at h)) in
          simp cleared.changed (record {
            was = cm;
            next = record next { version = v };
            was_there = g;
            is_there = e;
            edited = rw (get-put_self cfg.key edit.0 cm.entries) refl;
            none_left = rw (get-put_self cfg.key edit.0 cm.entries) left;
          })
    ]

-- A removal without an error has taken the line out.
pub write_hosts_line-TakenOut :
    {W : Type 0} (c : Client W) (cfg : DnsConfig) (sc : Schedule) (w : W) (b : Bool)
    → IsStored c
    → (write_hosts_line cfg sc c false w).0 ≡ ok b
    → TakenOut c cfg sc w (write_hosts_line cfg sc c false w).1
unfolding write_hosts_line
write_hosts_line-TakenOut (no_client e) cfg sc w b s h = absurd (ground arith)
write_hosts_line-TakenOut (connected k) cfg sc w b s h =
    removed_back k cfg sc (k.get_config_map w).0 w (k.get_config_map w).1 s.0 refl (s.0.reread w) h
