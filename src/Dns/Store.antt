-- ===== src/Dns/Store.antt =====
-- dns.go: the line that is written is the line that is read.
use agentic_preview.Common.{
  Bool, true, false, some, ◌≡◌, inl, inr, refl, arith, Bool-cases, text_key,
}
use agentic_preview.Common.Assoc.{get-put_self}
use agentic_preview.Common.Result.{Result, ok, err}
use agentic_preview.Text.{Text}
use agentic_preview.Schedule.{Schedule}
use agentic_preview.Hosts.{
  Edit, absent, unchanged, edited, replace_tagged, hosts_line, hosts_tag, lines_of, unlines,
  insert_tagged, find_tagged_line, apply_tagged_line,
}
use agentic_preview.Hosts.Entries.{
  IsDnsSchedule, find-apply_tagged_line, apply_tagged_line_unwritten_iff,
}
use agentic_preview.Dns.{
  ConfigMap, KubeError, Kube, connected, DnsConfig, content_of, line_read, read_hosts_line,
  edited_content, with_content, update_result, write_back, write_hosts_line,
}

-- What the API promises while nobody else writes: a read changes nothing that the next read returns,
-- and what an update has accepted is what the next read returns, in a version of its own.
pub record IsStore {W : Type 0} (k : Kube W) : Type 0 where
  pub reread : (w : W) → (k.get_config_map (k.get_config_map w).1).0 ≡ (k.get_config_map w).0
  pub updated :
      (cm : ConfigMap) (w : W)
      → (k.update_config_map cm w).0 ≡ ok tt
      → (v : Text) × ((k.get_config_map (k.update_config_map cm w).1).0
          ≡ ok (record cm { version = v }))

apply_tagged_line-unwritten :
    (content want tag : Text)
    → (apply_tagged_line content want tag).1 ≡ false
    → apply_tagged_line content want tag ≡ (content, false)
unfolding apply_tagged_line
apply_tagged_line-unwritten content want tag h = from (replace_tagged (lines_of content) want tag) h
  where
    result : Edit → Text × Bool
    result e = elim e [
      | unchanged ↦ (content, false)
      | edited lns ↦ (unlines lns, true)
      | absent ↦ (insert_tagged content want, true)
    ]

    from : (e : Edit) → (result e).1 ≡ false → result e ≡ (content, false)
    from unchanged h = refl
    from (edited lns) h = absurd (ground arith)
    from absent h = absurd (ground arith)

pub update_result-ok :
    (cfg : DnsConfig) (sc : Schedule) (r : Result KubeError (Unit {0})) {b : Bool}
    → update_result cfg sc r ≡ ok b
    → r ≡ ok tt
unfolding update_result
update_result-ok cfg sc (err e) h = cc
update_result-ok cfg sc (ok done) h = refl

module _ {W : Type 0} (k : Kube W) (cfg : DnsConfig) (sc : Schedule) (s : IsStore k)
    (d : IsDnsSchedule sc) where
  line_read-content :
      (cm : ConfigMap)
      → find_tagged_line (content_of cfg cm) (hosts_tag sc.spec.name) ≡ some (hosts_line sc)
      → line_read cfg sc (ok cm) ≡ ok (hosts_line sc)
  unfolding line_read
  line_read-content cm h = rw h refl

  written :
      (cm : ConfigMap) (next v : Text)
      → find_tagged_line next (hosts_tag sc.spec.name) ≡ some (hosts_line sc)
      → find_tagged_line
          (content_of cfg (record (with_content cfg sc cm next) { version = v }))
          (hosts_tag sc.spec.name)
        ≡ some (hosts_line sc)
  written cm next v h = rw (get-put_self cfg.key next cm.entries) h

  line_read-write_back :
      (r : Result KubeError ConfigMap) (w : W) {b : Bool}
      → (k.get_config_map w).0 ≡ r
      → (write_back cfg sc k true r w).0 ≡ ok b
      → line_read cfg sc (k.get_config_map (write_back cfg sc k true r w).1).0 ≡ ok (hosts_line sc)
  unfolding write_back edited_content
  line_read-write_back (err e) w g h = cc
  line_read-write_back (ok cm) w g h =
      let content = content_of cfg cm in
      let edit = apply_tagged_line content (hosts_line sc) (hosts_tag sc.spec.name) in
      elim (Bool-cases edit.1) [
        | inl c ↦
            let next = with_content cfg sc cm edit.0 in
            let (v, e) = s.updated next w (update_result-ok cfg sc _ (simp c at h)) in
            simp c (
              rw e (
                line_read-content (record next { version = v })
                  (written cm edit.0 v (find-apply_tagged_line sc d content).0)))
        | inr n ↦
            let found =
              (apply_tagged_line_unwritten_iff sc d content).0.0
                (apply_tagged_line-unwritten content (hosts_line sc) (hosts_tag sc.spec.name) n) in
            simp n (rw g (line_read-content cm found))
      ]

  -- While nobody else writes the ConfigMap, a DNS schedule as compiled reads exactly its line after it
  -- has written it without an error, whether or not the write found anything to change.
  pub read-write_hosts_line :
      (w : W) {b : Bool}
      → (write_hosts_line cfg sc (connected k) true w).0 ≡ ok b
      → (read_hosts_line cfg sc (connected k) (write_hosts_line cfg sc (connected k) true w).1).0
        ≡ ok (hosts_line sc)
  unfolding write_hosts_line read_hosts_line
  read-write_hosts_line w h =
      line_read-write_back (k.get_config_map w).0 (k.get_config_map w).1 (s.reread w) h
