-- ===== src/Tests/Compiler.antt =====
-- schedule.go: a declared DNS schedule.
use agentic_preview.Common.{
  Bool-cases, inl, inr, eq_text, if◌then◌else◌, ◌≢◌, ◌∙◌, [], ◌∷◌, some, true, sym, ◌≡◌, refl,
  arith,
}
use agentic_preview.Common.Int.{pos}
use agentic_preview.Common.Result.{ok, err}
use agentic_preview.Text.{codes, is_space}
use agentic_preview.Schedule.{ScheduleSpec}
use agentic_preview.Hosts.Entries.{IsDnsSchedule, NoSpace}
use agentic_preview.Compiler.{Parsers, compile_schedule, schedule_kind_of, intercept_fields}
use agentic_preview.Compiler.Declared.{WritesAddresses, compile_schedule-IsDnsSchedule}
use agentic_preview.Tests.Samples.{utc, sql, sql_spec}
use agentic_preview.Tests.Schedule.{friday_night}

-- A text with a zone is an address whose text has a space, every other one is the same address;
-- every selector is good and every place is at UTC.
abbrev parsers : Parsers
parsers = record {
  parse_addr = λ s.
      if eq_text s (codes "fe80::1%a b")
      then some (record { zone = codes "a b"; unmapped = codes "fe80::1%a b" })
      else some (record { zone = []; unmapped = codes "10.42.0.9" });
  is_selector = λ s. true;
  load_location = λ s. some utc;
}

parsers-WritesAddresses : WritesAddresses parsers
unfolding is_space
parsers-WritesAddresses s a h z = elim (Bool-cases (eq_text s (codes "fe80::1%a b"))) [
  | inl q ↦ absurd (zoned (rw q at h))
  | inr q ↦ zoneless (rw q at h)
]
  where
    zoned : some (record { zone = codes "a b"; unmapped = codes "fe80::1%a b" }) ≡ some a → ⊥
    zoned g = let e : codes "a b" ≡ a.zone = cc in let f : codes "a b" ≡ [] = e ∙ z in ground arith

    zoneless :
        some (record { zone = []; unmapped = codes "10.42.0.9" }) ≡ some a
        → (a.unmapped ≢ []) × NoSpace a.unmapped
    zoneless g =
        let e : codes "10.42.0.9" ≡ a.unmapped = cc in
        rw (sym e) ((λ n. ground arith), ground arith)

abbrev declared : ScheduleSpec
declared = record sql_spec {
  name = codes " sql ";
  type = codes "DNS";
  hostname = codes "db.internal.";
  windows = friday_night ∷ [];
}

compiled :
    compile_schedule parsers [] declared (codes "UTC")
    ≡ ok (record sql { spec = record declared { name = codes "sql" } })
unfolding compile_schedule
compiled = refl

two_kinds :
    schedule_kind_of (record declared { workload = codes "checkout"; target_port = pos 80 })
    ≡ err (intercept_fields (codes "workload" ∷ codes "targetPort" ∷ []))
unfolding schedule_kind_of
two_kinds = refl

compile_schedule-IsDnsSchedule_example :
    IsDnsSchedule (record sql { spec = record declared { name = codes "sql" } })
unfolding schedule_kind_of
compile_schedule-IsDnsSchedule_example =
    compile_schedule-IsDnsSchedule parsers [] parsers-WritesAddresses declared (codes "UTC")
      compiled refl
