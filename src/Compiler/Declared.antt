-- ===== src/Compiler/Declared.antt =====
-- schedule.go: a declared DNS schedule compiles to what the edits of the hosts lines rely on.
use agentic_preview.Common.{
  ℕ, Bool, true, false, List, [], ◌∷◌, ◌≡◌, ◌≢◌, inl, inr, refl, sym, ◌∙◌, arith, All, Bool-cases,
  all, eq_text, eq_text_iff, some, none, Option, ◌==◌, &&_parts,
}
use agentic_preview.Common.Result.{ok, >>=-eq-ok, require-eq-ok, refuse-eq-ok, ok-inj}
use agentic_preview.Text.{Text, codes, is_space, trim_space, split, cons_first, trim_suffix}
use agentic_preview.Text.Split.{Without}
use agentic_preview.Names.{is_label, is_label_char, is_work_char, is_work_id, is_hostname, starts}
use agentic_preview.Schedule.{ScheduleSpec, ScheduleKind, Schedule, kind_dns, kind_intercept}
use agentic_preview.Hosts.Tags.{mark}
use agentic_preview.Hosts.Entries.{IsDnsSchedule, NoSpace}
use agentic_preview.Compiler.{
  Address, Parsers, ScheduleError, found, no_hostname, bad_hostname, no_redirect, bad_redirect,
  zoned_redirect, no_name, bad_name, bad_location, no_windows, compile_targets,
  compile_dns_schedule, compile_windows, compile_schedule, compile_kind, drafted, schedule_kind_of,
  or_else, is_nil,
}

label_char-space : (c : ℕ) → is_label_char c ≡ true → is_space c ≡ false
unfolding is_space
label_char-space c h = ground arith

work_char-space : (c : ℕ) → is_work_char c ≡ true → is_space c ≡ false
unfolding is_space
work_char-space c h = ground arith

work_char-mark : (c : ℕ) → is_work_char c ≡ true → (c == mark) ≡ false
work_char-mark c h = ground arith

all-All :
    (p : ℕ → Bool) (Q : ℕ → Type 0) (s : Text)
    → ((c : ℕ) → p c ≡ true → Q c)
    → all p s ≡ true
    → All Q s
unfolding all
all-All p Q [] f h = tt
all-All p Q (c ∷ s) f h = let (a, b) = &&_parts (p c) (all p s) h in (f c a, all-All p Q s f b)

is_work_id-parts : (s : Text) → is_work_id s ≡ true → (s ≢ []) × NoSpace s × Without mark s
unfolding is_work_id starts
is_work_id-parts [] h = absurd (ground arith)
is_work_id-parts (c ∷ s) h =
    let chars : all is_work_char (c ∷ s) ≡ true = ground arith in
    (
      (λ e. ground arith),
      all-All is_work_char (λ c. is_space c ≡ false) (c ∷ s) work_char-space chars,
      all-All is_work_char (λ c. (c == mark) ≡ false) (c ∷ s) work_char-mark chars,
    )

is_label-NoSpace : (s : Text) → is_label s ≡ true → NoSpace s
unfolding is_label
is_label-NoSpace s h =
    all-All is_label_char (λ c. is_space c ≡ false) s label_char-space (ground arith)

split-NoSpace : (s : Text) → All NoSpace (split b'.' s) → NoSpace s
unfolding split
split-NoSpace [] h = tt
split-NoSpace (c ∷ s) h = elim (Bool-cases (c == b'.')) [
  | inl e ↦ let g : All NoSpace ([] ∷ split b'.' s) = simp e at h in (dot c e, split-NoSpace s g.1)
  | inr e ↦ let g = cons_first-NoSpace c (split b'.' s) (simp e at h) in (g.0, split-NoSpace s g.1)
]
  where
    dot : (c : ℕ) → (c == b'.') ≡ true → is_space c ≡ false
    dot c e = unfold is_space in (ground arith)

    cons_first-NoSpace :
        (c : ℕ) (ls : List Text)
        → All NoSpace (cons_first c ls)
        → (is_space c ≡ false) × All NoSpace ls
    cons_first-NoSpace c [] h = unfold cons_first in (h.0.0, tt)
    cons_first-NoSpace c (l ∷ ls) h = unfold cons_first in (h.0.0, (h.0.1, h.1))

all_labels : (ls : List Text) → all is_label ls ≡ true → All NoSpace ls
unfolding all
all_labels [] h = tt
all_labels (l ∷ ls) h =
    let (a, b) = &&_parts (is_label l) (all is_label ls) h in
    (is_label-NoSpace l a, all_labels ls b)

is_hostname-NoSpace : (s : Text) → is_hostname s ≡ true → NoSpace s
unfolding is_hostname
is_hostname-NoSpace s h = split-NoSpace s (all_labels (split b'.' s) h)

-- What the address parser promises: the text of an address without a zone has characters, none of
-- them a space.
abbrev pub WritesAddresses : Parsers → Type 0
WritesAddresses ps =
    (s : Text) (a : Address)
    → ps.parse_addr s ≡ some a
    → a.zone ≡ []
    → (a.unmapped ≢ []) × NoSpace a.unmapped

found-ok : {A : Type 0} (o : Option A) (e : ScheduleError) {a : A} → found o e ≡ ok a → o ≡ some a
found-ok none e h = cc
found-ok (some a) e h = let q = ok-inj h in cc

module _ (ps : Parsers) (allowed : List Text) (wa : WritesAddresses ps) where
  compile_dns_schedule-parts :
      (sc : Schedule) {out : Schedule}
      → compile_dns_schedule ps allowed sc ≡ ok out
      → (out.spec.name ≡ sc.spec.name)
        × (out.kind ≡ sc.kind)
        × (out.redirect_to ≢ [])
        × NoSpace out.redirect_to
        × NoSpace out.hostname
  unfolding compile_dns_schedule
  compile_dns_schedule-parts sc h =
      let given = trim_space sc.spec.hostname in
      let host = trim_suffix given (codes ".") in
      let to = trim_space sc.spec.redirect_to in
      let (_, h1) = refuse-eq-ok (eq_text given []) no_hostname _ h in
      let (host_ok, h2) = require-eq-ok (is_hostname host) bad_hostname _ h1 in
      let (_, h3) = refuse-eq-ok (eq_text to []) no_redirect _ h2 in
      let (addr, f, h4) = >>=-eq-ok (found (ps.parse_addr to) bad_redirect) _ h3 in
      let (z, h5) = require-eq-ok (eq_text addr.zone []) zoned_redirect _ h4 in
      let (targets, _, h6) = >>=-eq-ok (compile_targets ps allowed 0 sc.spec.recycle_pods) _ h5 in
      let zoneless = (eq_text_iff addr.zone []).0 z in
      let (nonempty, spaceless) =
        wa to addr (found-ok (ps.parse_addr to) bad_redirect f) zoneless in
      rw (sym (ok-inj h6)) ((refl, refl, nonempty, spaceless, is_hostname-NoSpace host host_ok))

  compile_kind-dns :
      (kind : ScheduleKind) (sc : Schedule) {out : Schedule}
      → kind ≡ kind_dns
      → compile_kind ps allowed kind sc ≡ ok out
      → compile_dns_schedule ps allowed sc ≡ ok out
  compile_kind-dns kind_dns sc e h = h
  compile_kind-dns kind_intercept sc e h = absurd (ground arith)

  -- Where the address parser writes an address without a zone as a text that is not empty and has no
  -- space, and whatever it writes for one with a zone, a declared schedule of the DNS kind compiles,
  -- where it compiles, to one whose address, hostname and name are free of spaces, whose address and
  -- name are not empty and whose name is free of the mark of a tag.
  pub compile_schedule-IsDnsSchedule :
      (declared : ScheduleSpec) (default_location : Text) {sc : Schedule}
      → compile_schedule ps allowed declared default_location ≡ ok sc
      → schedule_kind_of declared ≡ ok kind_dns
      → IsDnsSchedule sc
  unfolding compile_schedule schedule_kind_of
  compile_schedule-IsDnsSchedule declared default_location {sc} h dns =
      let name = trim_space declared.name in
      let spec : ScheduleSpec = record declared { name = name } in
      let place = or_else (trim_space spec.location) default_location in
      let (_, h1) = refuse-eq-ok (eq_text name []) no_name _ h in
      let (name_ok, h2) = require-eq-ok (is_work_id name) bad_name _ h1 in
      let (kind, k, h3) = >>=-eq-ok (schedule_kind_of spec) _ h2 in
      let (loc, _, h4) = >>=-eq-ok (found (ps.load_location place) bad_location) _ h3 in
      let (_, h5) = refuse-eq-ok (is_nil spec.windows) no_windows _ h4 in
      let (windows, _, h6) = >>=-eq-ok (compile_windows 0 spec.windows) _ h5 in
      let is_dns : kind ≡ kind_dns = ok-inj (sym k ∙ dns) in
      let (n, _, a, b, c) =
        compile_dns_schedule-parts (drafted spec kind loc windows)
          (compile_kind-dns kind (drafted spec kind loc windows) is_dns h6) in
      let (w1, w2, w3) = is_work_id-parts name name_ok in
      record {
        address_given = a;
        address = b;
        host = c;
        named = rw n w1;
        name = rw n w2;
        unmarked = rw n w3;
      }
