-- ===== src/Request/Fence.antt =====
-- preview.go: what an accepted request is bounded by.
use agentic_preview.Common.{true, List, [], ◌++◌, ◌≡◌, refl, sym, In, eq_text}
use agentic_preview.Common.Result.{ok, >>=-eq-ok, require-eq-ok, refuse-eq-ok, ok-inj}
use agentic_preview.Common.Sort.{contains, contains_iff}
use agentic_preview.Text.{Text, codes, trim_space}
use agentic_preview.Names.{is_label, is_work_id, sanitise}
use agentic_preview.Preview.{Preview}
use agentic_preview.Compiler.{split_target, or_else}
use agentic_preview.Request.{
  PreviewRequest, no_work_id, bad_work_id, no_workload, bad_workload, no_namespace,
  namespace_refused, bad_service, bad_service_namespace, target_refused, bad_name, create_spec,
  forward_to, validate,
}

-- The preview stands in an allowed namespace and forwards to a service in one.
pub record IsFenced (allowed : List Text) (p : Preview) : Type 0 where
  pub work_id : is_work_id p.work_id ≡ true
  pub workload : is_label p.workload ≡ true
  pub name : is_label p.name ≡ true
  pub within : In p.namespace allowed
  pub service : Text
  pub service_namespace : Text
  pub forwards : p.target_service ≡ service ++ (codes "." ++ service_namespace)
  pub service_label : is_label service ≡ true
  pub forwards_within : In service_namespace allowed
  pub undated : p.expires_at ≡ 0

-- A request that validates comes to a preview of a workload in an allowed namespace that forwards to a
-- service in an allowed namespace, its work id, workload, intercept name and service well formed, and
-- without a deadline.
pub validate-IsFenced :
    (r : PreviewRequest) (allowed : List Text) (header : Text) {p : Preview}
    → validate r allowed header ≡ ok p
    → IsFenced allowed p
unfolding validate
validate-IsFenced r allowed header h =
    let work_id = trim_space r.work_id in
    let workload = trim_space r.workload in
    let namespace = trim_space r.namespace in
    let (_, h1) = refuse-eq-ok (eq_text work_id []) no_work_id _ h in
    let (w, h2) = require-eq-ok (is_work_id work_id) bad_work_id _ h1 in
    let (_, h3) = refuse-eq-ok (eq_text workload []) no_workload _ h2 in
    let (l, h4) = require-eq-ok (is_label workload) bad_workload _ h3 in
    let (_, h5) = refuse-eq-ok (eq_text namespace []) no_namespace _ h4 in
    let (n, h6) = require-eq-ok (contains namespace allowed) namespace_refused _ h5 in
    let (create, _, h7) = >>=-eq-ok (create_spec r workload namespace) _ h6 in
    let (given, _, h8) = >>=-eq-ok (forward_to r create) _ h7 in
    let target = split_target given.0 given.1 in
    let ns = or_else target.1 namespace in
    let (s, h9) = require-eq-ok (is_label target.0) bad_service _ h8 in
    let (_, h10) = require-eq-ok (is_label ns) bad_service_namespace _ h9 in
    let (t, h11) = require-eq-ok (contains ns allowed) target_refused _ h10 in
    let (m, h12) =
      require-eq-ok (is_label (sanitise (workload ++ (codes "-" ++ work_id)))) bad_name _ h11 in
    rw (sym (ok-inj h12)) (record {
      work_id = w;
      workload = l;
      name = m;
      within = (contains_iff namespace allowed).0 n;
      service = target.0;
      service_namespace = ns;
      forwards = refl;
      service_label = s;
      forwards_within = (contains_iff ns allowed).0 t;
      undated = refl;
    })
