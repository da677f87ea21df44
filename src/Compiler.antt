-- ===== src/Compiler.antt =====
-- schedule.go: what a declared schedule compiles to, of either kind. An error is a constructor in
-- place of its message. The IP address parser, the selector parser and the time zone database are
-- parameters.
pub mod Declared
use agentic_preview.Common.{
  ℕ, suc, Bool, true, false, not, ◌&&◌, ◌||◌, List, [], ◌∷◌, ◌++◌, Option, none, some,
  if◌then◌else◌, eq_text, length, take, ◌-◌, ◌==◌,
}
use agentic_preview.Common.Int.{ℤ, pos, negsuc, ltb_ℤ, eqb_ℤ}
use agentic_preview.Common.Result.{Result, ok, err, ◌>>=◌, ◌>>◌, require, refuse}
use agentic_preview.Common.Sort.{contains}
use agentic_preview.Text.{Text, codes, trim_space, to_lower, cut, trim_suffix}
use agentic_preview.Names.{is_label, is_work_id, is_hostname, sanitise}
use agentic_preview.Schedule.{
  RecycleTarget, Window, ScheduleSpec, ScheduleKind, kind_intercept, kind_dns, kind_string,
  Location, CompiledWindow, Schedule,
}
use agentic_preview.Schedule.Clock.{WindowError, compile_window}

-- `netip.Addr`: its zone, and its text after `Unmap`
pub record Address : Type 0 where
  pub zone : Text
  pub unmapped : Text

-- `netip.ParseAddr`, `labels.Parse` and `time.LoadLocation`
pub record Parsers : Type 0 where
  pub parse_addr : Text → Option Address
  pub is_selector : Text → Bool
  pub load_location : Text → Option Location

-- Why a schedule does not compile.
pub data ScheduleError : Type 0 where
  no_name bad_name : ScheduleError
  no_type unknown_type : ScheduleError
  dns_fields intercept_fields : List Text → ScheduleError
  bad_location no_windows : ScheduleError
  bad_window : ℕ → WindowError → ScheduleError
  no_hostname bad_hostname no_redirect bad_redirect zoned_redirect : ScheduleError
  no_namespace bad_namespace namespace_refused no_selector bad_selector : ℕ → ScheduleError
  no_workload bad_workload workload_refused bad_service no_target bad_target : ScheduleError
  bad_target_namespace target_refused bad_port bad_intercept_name : ScheduleError

abbrev is_blank_text : Text → Bool
is_blank_text s = eq_text (trim_space s) []

-- `set` of `scheduleKindOf`: the names of the fields that are given
unfoldable pub given_fields : List (Text × Text) → List Text
unfolding trim_space eq_text
given_fields [] = []
given_fields ((name, value) ∷ pairs) =
    if is_blank_text value then given_fields pairs else name ∷ given_fields pairs

unfoldable pub intercept_given : ScheduleSpec → List Text
unfolding given_fields
intercept_given spec =
    given_fields (
      (codes "workload", spec.workload)
      ∷ (codes "namespace", spec.namespace)
      ∷ (codes "service", spec.service)
      ∷ (codes "targetService", spec.target_service)
      ∷ (codes "targetNamespace", spec.target_namespace)
      ∷ (codes "port", spec.port)
      ∷ [])
    ++ (if eqb_ℤ spec.target_port (pos 0) then [] else codes "targetPort" ∷ [])

abbrev pub is_nil {ℓ} : {A : Type ℓ} → List A → Bool
is_nil [] = true
is_nil (x ∷ xs) = false

unfoldable pub dns_given : ScheduleSpec → List Text
unfolding given_fields
dns_given spec =
    given_fields ((codes "hostname", spec.hostname) ∷ (codes "redirectTo", spec.redirect_to) ∷ [])
    ++ (if is_nil spec.recycle_pods then [] else codes "recyclePods" ∷ [])

-- `scheduleKindOf`
unfoldable pub schedule_kind_of : ScheduleSpec → Result ScheduleError ScheduleKind
unfolding to_lower trim_space eq_text kind_string intercept_given dns_given
schedule_kind_of spec =
    let word = to_lower (trim_space spec.type) in
    if eq_text word []
    then err no_type
    else if eq_text word (kind_string kind_intercept)
    then (if is_nil (dns_given spec) then ok kind_intercept else err (dns_fields (dns_given spec)))
    else if eq_text word (kind_string kind_dns)
    then (if is_nil (intercept_given spec)
        then ok kind_dns
        else err (intercept_fields (intercept_given spec)))
    else err unknown_type

abbrev pub found {ℓ} : {A : Type ℓ} → Option A → ScheduleError → Result ScheduleError A
found none e = err e
found (some a) e = ok a

-- `svc` and `svcNS` of `compileInterceptSchedule`: a name that carries a namespace is split, and a
-- namespace of its own wins over the one in the name.
unfoldable pub split_target : Text → Text → Text × Text
unfolding cut eq_text
split_target svc ns = elim (cut b'.' svc) [
  | none ↦ (svc, ns)
  | some (host, rest) ↦ (host, if eq_text ns [] then first_part rest (cut b'.' rest) else ns)
]
  where
    first_part : Text → Option (Text × Text) → Text
    first_part s none = s
    first_part s (some (a, b)) = a

abbrev pub or_else : Text → Text → Text
or_else [] other = other
or_else (c ∷ s) other = c ∷ s

abbrev pub window_at : ℕ → Result WindowError CompiledWindow → Result ScheduleError CompiledWindow
window_at i (ok w) = ok w
window_at i (err e) = err (bad_window i e)

-- The loop over the windows, from the index on.
unfoldable pub compile_windows : ℕ → List Window → Result ScheduleError (List CompiledWindow)
unfolding compile_window
compile_windows i [] = ok []
compile_windows i (w ∷ ws) = do
  cw ← window_at i (compile_window w)
  rest ← compile_windows (suc i) ws
  ok (cw ∷ rest)

-- The shared half of a schedule, before the half of its kind is filled in.
abbrev pub drafted : ScheduleSpec → ScheduleKind → Location → List CompiledWindow → Schedule
drafted spec kind loc windows = record {
  spec = spec;
  kind = kind;
  intercept_name = [];
  target_service = [];
  target_namespace = [];
  target_port = pos 0;
  port_id = [];
  hostname = [];
  redirect_to = [];
  recycle = [];
  loc = loc;
  windows = windows;
}

module _ (ps : Parsers) (allowed : List Text) where
  -- `namespaceAllowed`
  abbrev pub namespace_allowed : Text → Bool
  namespace_allowed ns = contains ns allowed

  -- The loop over `recyclePods`, from the index on.
  unfoldable pub compile_targets :
      ℕ → List RecycleTarget → Result ScheduleError (List RecycleTarget)
  unfolding trim_space eq_text is_label contains
  compile_targets i [] = ok []
  compile_targets i (r ∷ rs) = do
    let ns = trim_space r.namespace
    let sel = trim_space r.selector
    refuse (eq_text ns []) (no_namespace i)
    require (is_label ns) (bad_namespace i)
    require (namespace_allowed ns) (namespace_refused i)
    refuse (eq_text sel []) (no_selector i)
    require (ps.is_selector sel) (bad_selector i)
    rest ← compile_targets (suc i) rs
    ok (record { namespace = ns; selector = sel } ∷ rest)

  -- `compileDNSSchedule`
  unfoldable pub compile_dns_schedule : Schedule → Result ScheduleError Schedule
  unfolding trim_space eq_text trim_suffix is_hostname compile_targets
  compile_dns_schedule sc = do
    let given = trim_space sc.spec.hostname
    refuse (eq_text given []) no_hostname
    let host = trim_suffix given (codes ".")
    require (is_hostname host) bad_hostname
    let to = trim_space sc.spec.redirect_to
    refuse (eq_text to []) no_redirect
    addr ← found (ps.parse_addr to) bad_redirect
    require (eq_text addr.zone []) zoned_redirect
    targets ← compile_targets 0 sc.spec.recycle_pods
    ok (record sc { hostname = host; redirect_to = addr.unmapped; recycle = sc.recycle ++ targets })

  -- `compileInterceptSchedule`
  unfoldable pub compile_intercept_schedule : Schedule → Result ScheduleError Schedule
  unfolding trim_space eq_text is_label contains split_target sanitise
  compile_intercept_schedule sc = do
    let workload = trim_space sc.spec.workload
    let namespace = trim_space sc.spec.namespace
    refuse (eq_text workload [] || eq_text namespace []) no_workload
    require (is_label workload) bad_workload
    require (namespace_allowed namespace) workload_refused
    let service = trim_space sc.spec.service
    require (eq_text service [] || is_label service) bad_service
    let given = trim_space sc.spec.target_service
    refuse (eq_text given []) no_target
    let (svc, named) = split_target given (trim_space sc.spec.target_namespace)
    let svc_ns = or_else named namespace
    require (is_label svc) bad_target
    require (is_label svc_ns) bad_target_namespace
    require (namespace_allowed svc_ns) target_refused
    let port = if eqb_ℤ sc.spec.target_port (pos 0) then pos 80 else sc.spec.target_port
    refuse (ltb_ℤ port (pos 1) || ltb_ℤ (pos 65535) port) bad_port
    let name = sanitise (workload ++ (codes "-" ++ sc.spec.name))
    require (is_label name) bad_intercept_name
    ok (record sc {
      spec = record sc.spec {
        workload = workload;
        namespace = namespace;
        service = if eq_text service [] then sc.spec.service else service;
      };
      intercept_name = name;
      target_service = svc;
      target_namespace = svc_ns;
      target_port = port;
      port_id = or_else (trim_space sc.spec.port) (codes "80");
    })

  abbrev pub compile_kind : ScheduleKind → Schedule → Result ScheduleError Schedule
  compile_kind kind_dns sc = compile_dns_schedule sc
  compile_kind kind_intercept sc = compile_intercept_schedule sc

  -- `compileSchedule`
  unfoldable pub compile_schedule : ScheduleSpec → Text → Result ScheduleError Schedule
  unfolding trim_space eq_text is_work_id schedule_kind_of compile_windows compile_dns_schedule
      compile_intercept_schedule
  compile_schedule declared default_location = do
    let name = trim_space declared.name
    refuse (eq_text name []) no_name
    require (is_work_id name) bad_name
    let spec = record declared { name = name }
    kind ← schedule_kind_of spec
    loc ←
        found (ps.load_location (or_else (trim_space spec.location) default_location)) bad_location
    refuse (is_nil spec.windows) no_windows
    windows ← compile_windows 0 spec.windows
    compile_kind kind (drafted spec kind loc windows)
