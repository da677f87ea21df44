-- ===== src/Override/Decision.antt =====
-- schedule_override.go: what an override makes of the question whether a schedule should be open.
use agentic_preview.Common.{
  ℕ, ◌+◌, ◌≤◌, Bool, true, false, not, ◌&&◌, List, Option, none, some, ltb, leb, if◌then◌else◌,
  eq_text, text_key, eq_text_iff, ◌≡◌, ◌≢◌, inl, inr, refl, sym, ◌∙◌, arith, Bool-cases,
}
use agentic_preview.Common.Assoc.{
  get, put, delete, get-put, get-delete, get-put_self, get-delete_self,
}
use agentic_preview.Common.Int.{ℤ, pos, negsuc}
use agentic_preview.Common.Result.{ok, err, ok-inj, if-eq-ok}
use agentic_preview.Common.Sort.{contains}
use agentic_preview.Text.{Text, trim_space, to_lower}
use agentic_preview.Schedule.{Schedule}
use agentic_preview.Schedule.Active.{active}
use agentic_preview.Override.{
  OverrideState, Overrides, no_schedule, auto_words, state_words, override_open, schedule_named,
  force, set_found, read_override, lapse, set_override, is_lapsed, override_for, decide,
  desired_open,
}

-- What is left of an override at a moment.
abbrev live : ℕ → Option OverrideState → Option OverrideState
live now none = none
live now (some ov) = if is_lapsed now ov then none else some ov

read_override-live :
    (o : Overrides) (name : Text) (now : ℕ) (v : Option OverrideState)
    → (read_override o name now v).1 ≡ live now v
unfolding read_override
read_override-live o name now none = refl
read_override-live o name now (some ov) = ground arith

get-read_override :
    (o : Overrides) (name m : Text) (now : ℕ) (v : Option OverrideState)
    → get name o ≡ v
    → get m (read_override o name now v).0 ≡ (if eq_text name m then live now v else get m o)
unfolding read_override
get-read_override o name m now none h = ground (arith, eq_text_iff name m)
get-read_override o name m now (some ov) h = ground (arith, eq_text_iff name m, get-delete name m o)

live-later :
    (now later : ℕ) (v : Option OverrideState)
    → now ≤ later
    → live later (live now v) ≡ live later v
live-later now later none l = refl
live-later now later (some ov) l = ground arith

-- Dropping a lapsed override when it is read changes no later answer, for that schedule or another.
pub override_for-later :
    (o : Overrides) (name m : Text) (now later : ℕ)
    → now ≤ later
    → (override_for (override_for o name now).0 m later).1 ≡ (override_for o m later).1
unfolding override_for
override_for-later o name m now later l =
    let o1 = (override_for o name now).0 in
    let g = get-read_override o name m now (get name o) refl in
    read_override-live o1 m later (get m o1)
    ∙ (elim (Bool-cases (eq_text name m)) [
      | inl e ↦
          let s : name ≡ m = (eq_text_iff name m).0 e in
          let one : get m o1 ≡ live now (get m o) = ground arith in
          rw one (live-later now later (get m o) l)
      | inr n ↦ let same : get m o1 ≡ get m o = ground arith in rw same refl
    ]
        ∙ sym (read_override-live o m later (get m o)))

-- What a successful `SetOverride` did.
abbrev Outcome : Overrides → Text → Text → Text → ℤ → ℕ → Overrides → Option OverrideState → Type 0
Outcome o name state reason d now o' none = o' ≡ delete name o
Outcome o name state reason d now o' (some ov) =
    (n : ℕ) × (d ≡ pos n)
    × (o' ≡ put name ov o)
    × (ov.state ≡ to_lower (trim_space state))
    × (ov.expires ≡ lapse now n)

set_override-Outcome :
    (ss : List Schedule) (o : Overrides) (name state reason : Text) (d : ℤ) (now : ℕ)
    {o' : Overrides} {r : Option OverrideState}
    → set_override ss o name state reason d now ≡ ok (o', r)
    → Outcome o name state reason d now o' r
unfolding set_override set_found force
set_override-Outcome ss o name state reason d now {o'} {r} h = from_found (schedule_named ss name) h
  where
    from_force :
        (d : ℤ) (r : Option OverrideState)
        → force o name (to_lower (trim_space state)) reason now d ≡ ok (o', r)
        → Outcome o name state reason d now o' r
    from_force (negsuc n) r h = cc
    from_force (pos n) none h = cc
    from_force (pos n) (some ov) h = let e = ok-inj h in (n, refl, cc, cc, cc)

    cleared :
        (r : Option OverrideState)
        → ◌≡◌ {A = Overrides × Option OverrideState} (delete name o, none) (o', r)
        → Outcome o name state reason d now o' r
    cleared none h = cc
    cleared (some ov) h = cc

    from_found :
        (v : Option Schedule)
        → elim v [ none ↦ err no_schedule | some sc ↦ set_found o name state reason d now ]
          ≡ ok (o', r)
        → Outcome o name state reason d now o' r
    from_found none h = cc
    from_found (some sc) h =
        let word = to_lower (trim_space state) in
        elim (if-eq-ok (contains word auto_words) _ _ h) [
          | inl (_, e) ↦ cleared r (ok-inj e)
          | inr (_, h1) ↦
              elim (if-eq-ok (not (contains word state_words)) _ (force o name word reason now d)
                h1) [ inl (_, e) ↦ cc | inr (_, h2) ↦ from_force d r h2 ]
        ]

desired_open-live :
    (o : Overrides) (sc : Schedule) (t : ℕ)
    → (desired_open o sc t).1 ≡ decide sc t (live t (get sc.spec.name o))
unfolding desired_open override_for
desired_open-live o sc t = rw (read_override-live o sc.spec.name t (get sc.spec.name o)) refl

is_lapsed_lem :
    (now n t : ℕ) (ov : OverrideState)
    → ov.expires ≡ lapse now n
    → is_lapsed t ov ≡ (ltb 0 n && leb (now + n) t)
is_lapsed_lem now n t ov x = ground arith

decide-if :
    (sc : Schedule) (t : ℕ) (ov : OverrideState) (b : Bool)
    → decide sc t (if b then none else some ov)
      ≡ (if b then active sc t else eq_text ov.state override_open)
decide-if sc t ov true = refl
decide-if sc t ov false = refl

-- A successful `SetOverride` that sets an override decides the schedule of its name from then on: open
-- where the word is open, at every moment before the duration is over or at every moment where the
-- duration is zero, and what the windows say from the end of a positive duration on.
pub desired_open-set_override :
    (ss : List Schedule) (o : Overrides) (name state reason : Text) (d : ℤ) (now t : ℕ)
    (sc : Schedule) {o' : Overrides} {ov : OverrideState}
    → set_override ss o name state reason d now ≡ ok (o', some ov)
    → sc.spec.name ≡ name
    → (n : ℕ) × (d ≡ pos n)
      × ((desired_open o' sc t).1 ≡ (
          if ltb 0 n && leb (now + n) t
          then active sc t
          else eq_text (to_lower (trim_space state)) override_open))
desired_open-set_override ss o name state reason d now t sc {o'} {ov} h e =
    let (n, s, p, w, x) = set_override-Outcome ss o name state reason d now h in
    let found : get sc.spec.name o' ≡ some ov = rw e (rw p (get-put_self name ov o)) in
    (n, s, rw (desired_open-live o' sc t) (rw found (decided n ov w x)))
  where
    decided :
        (n : ℕ) (ov : OverrideState)
        → ov.state ≡ to_lower (trim_space state)
        → ov.expires ≡ lapse now n
        → decide sc t (live t (some ov)) ≡ (
            if ltb 0 n && leb (now + n) t
            then active sc t
            else eq_text (to_lower (trim_space state)) override_open)
    decided n ov w x =
        rw (sym w)
          (rw (is_lapsed_lem now n t ov x) (decide-if sc t ov (ltb 0 n && leb (now + n) t)))

-- A successful `SetOverride` that sets none leaves the schedule of its name to its windows.
pub desired_open-auto :
    (ss : List Schedule) (o : Overrides) (name state reason : Text) (d : ℤ) (now t : ℕ)
    (sc : Schedule) {o' : Overrides}
    → set_override ss o name state reason d now ≡ ok (o', none)
    → sc.spec.name ≡ name
    → (desired_open o' sc t).1 ≡ active sc t
desired_open-auto ss o name state reason d now t sc {o'} h e =
    let p = set_override-Outcome ss o name state reason d now h in
    let found : get sc.spec.name o' ≡ none = rw e (rw p (get-delete_self name o)) in
    rw (desired_open-live o' sc t) (rw found refl)

-- A successful `SetOverride` leaves the decision for the schedules of other names what it was.
pub desired_open-other :
    (ss : List Schedule) (o : Overrides) (name state reason : Text) (d : ℤ) (now t : ℕ)
    (sc : Schedule) {o' : Overrides} {r : Option OverrideState}
    → set_override ss o name state reason d now ≡ ok (o', r)
    → sc.spec.name ≢ name
    → (desired_open o' sc t).1 ≡ (desired_open o sc t).1
desired_open-other ss o name state reason d now t sc {o'} {r} h n =
    let same : get sc.spec.name o' ≡ get sc.spec.name o =
      elsewhere r (set_override-Outcome ss o name state reason d now h) in
    desired_open-live o' sc t ∙ (rw same refl ∙ sym (desired_open-live o sc t))
  where
    elsewhere :
        (r : Option OverrideState)
        → Outcome o name state reason d now o' r
        → get sc.spec.name o' ≡ get sc.spec.name o
    elsewhere none p =
        rw p (ground (arith, get-delete name sc.spec.name o, eq_text_iff name sc.spec.name))
    elsewhere (some ov) (k, _, p, _, _) =
        rw p (ground (arith, get-put name sc.spec.name ov o, eq_text_iff name sc.spec.name))
