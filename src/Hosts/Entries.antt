-- ===== src/Hosts/Entries.antt =====
-- The line of a DNS schedule under the edits: what opening and closing its window does to the
-- content, to its own line and to the lines of other schedules.
use Prim.Native.Nat.{max, ◌≤◌}
use agentic_preview.Common.{
  ℕ, ◌≡◌, ◌≢◌, refl, true, false, [], ◌∷◌, ◌++◌, none, some, arith, All, ◌↔◌, ◌⊎◌, length,
  All-append, ◌==◌,
}
use mathlib.Core.List.{append_assoc}
use agentic_preview.Schedule.{Schedule}
use agentic_preview.Text.{Text, codes, is_space, trim_space, trim, trim_right}
use agentic_preview.Text.Affix.{has_suffix-append}
use agentic_preview.Text.Trim.{trim_right-append, trim_right-All, trim_left-cons}
use agentic_preview.Text.Split.{Without}
use agentic_preview.Hosts.{
  hosts_tag, hosts_line, newline, find_tagged_line, lines_of, apply_tagged_line, remove_tagged_line,
  hosts_block_at,
}
use agentic_preview.Hosts.Tags.{mark, is_tagged-hosts_tag}
use agentic_preview.Hosts.Find.{IsEntry, count_tagged}
use agentic_preview.Hosts.Apply.Lines.{IsOther}
use agentic_preview.Hosts.Apply.Laws.{
  apply_tagged_line-Applied, apply_tagged_line_unwritten, apply_tagged_line_new,
}
use agentic_preview.Hosts.Remove.{
  Cleared, remove_tagged_line_cases, remove_tagged_line-others, remove-insert,
}

abbrev pub NoSpace : Text → Type 0
NoSpace = All (λ c. is_space c ≡ false)

-- What the compilation of a DNS schedule makes sure of.
pub record IsDnsSchedule (sc : Schedule) : Type 0 where
  pub address_given : sc.redirect_to ≢ []
  pub address : NoSpace sc.redirect_to
  pub host : NoSpace sc.hostname
  pub named : sc.spec.name ≢ []
  pub name : NoSpace sc.spec.name
  pub unmarked : Without mark sc.spec.name

pub NoSpace-one_line : (s : Text) → NoSpace s → Without newline s
NoSpace-one_line [] h = tt
NoSpace-one_line (c ∷ s) h = (line c h.0, NoSpace-one_line s h.1)
  where
    line : (c : ℕ) → is_space c ≡ false → (c == newline) ≡ false
    line c e = unfold is_space in (ground arith)

tag_trimmed : (n : Text) → n ≢ [] → NoSpace n → trim_right is_space (hosts_tag n) ≡ hosts_tag n
unfolding hosts_tag
tag_trimmed [] h k = absurd (h refl)
tag_trimmed (c ∷ n) h k =
    trim_right-append is_space (codes "# agentic-preview:") (c ∷ n) c n
      (trim_right-All is_space (c ∷ n) k)

-- A text without spaces, a blank, and what is trimmed on the right already.
word_trimmed :
    (w rest : Text)
    → rest ≢ []
    → trim_right is_space rest ≡ rest
    → trim_right is_space (w ++ (codes " " ++ rest)) ≡ w ++ (codes " " ++ rest)
word_trimmed w [] h e = absurd (h refl)
word_trimmed w (c ∷ rest) h e =
    trim_right-append is_space w (codes " " ++ c ∷ rest) b' ' (c ∷ rest)
      (trim_right-append is_space (codes " ") (c ∷ rest) c rest e)

trim_space-word :
    (w rest : Text)
    → w ≢ []
    → NoSpace w
    → trim_right is_space (w ++ rest) ≡ w ++ rest
    → trim_space (w ++ rest) ≡ w ++ rest
unfolding trim_space trim
trim_space-word [] rest h k e = absurd (h refl)
trim_space-word (c ∷ w) rest h k e = rw (trim_left-cons is_space c (w ++ rest) k.0) e

tag-ne-nil : (n : Text) → hosts_tag n ≢ []
unfolding hosts_tag
tag-ne-nil n = ground arith

word-ne-nil : (w rest : Text) → w ++ (codes " " ++ rest) ≢ []
word-ne-nil [] rest = ground arith
word-ne-nil (c ∷ w) rest = ground arith

label_one_line : Without newline (codes "# agentic-preview:")
label_one_line = ground arith

tag_one_line : (n : Text) → NoSpace n → Without newline (hosts_tag n)
unfolding hosts_tag
tag_one_line n h = All-append _ (codes "# agentic-preview:") n label_one_line (NoSpace-one_line n h)

pub hosts_tag_long : (n : Text) → 12 ≤ length (hosts_tag n)
unfolding hosts_tag
hosts_tag_long n = omega arith

-- The line of a compiled DNS schedule is an entry under its tag.
pub hosts_line-IsEntry :
    (sc : Schedule) → IsDnsSchedule sc → IsEntry (hosts_line sc) (hosts_tag sc.spec.name)
unfolding hosts_line
hosts_line-IsEntry sc d = record {
  trimmed = trim_space-word sc.redirect_to _ d.address_given d.address (
      word_trimmed sc.redirect_to _ (word-ne-nil sc.hostname _) (
        word_trimmed sc.hostname tag (tag-ne-nil sc.spec.name)
          (tag_trimmed sc.spec.name d.named d.name)));
  tagged =
      simp append_assoc at
        (has_suffix-append (sc.redirect_to ++ (codes " " ++ (sc.hostname ++ codes " "))) tag);
  one_line = All-append _ sc.redirect_to _ (NoSpace-one_line _ d.address) (
    refl,
    All-append _ sc.hostname _ (NoSpace-one_line _ d.host) (refl, tag_one_line sc.spec.name d.name),
  );
  long = hosts_tag_long sc.spec.name;
}
  where
    tag : Text
    tag = hosts_tag sc.spec.name

-- The tags of two names are apart.
pub hosts_tag-IsOther :
    (n m : Text) → Without mark n → Without mark m → n ≢ m → IsOther (hosts_tag n) (hosts_tag m)
hosts_tag-IsOther n m hn hm ne = record {
  apart = λ ln t. is_tagged-hosts_tag ln n m hn hm ne t;
  long = hosts_tag_long m;
}

module _ (sc : Schedule) (dns : IsDnsSchedule sc) where
  abbrev own_tag : Text
  own_tag = hosts_tag sc.spec.name

  abbrev own_entry : IsEntry (hosts_line sc) own_tag
  own_entry = hosts_line-IsEntry sc dns

  -- After the line of a DNS schedule is applied, the reader of the schedule finds exactly that line,
  -- and no further line of the schedule has come in: there is one if there was none, and else there
  -- are as many as before.
  pub find-apply_tagged_line :
      (content : Text)
      → (find_tagged_line (apply_tagged_line content (hosts_line sc) own_tag).0 own_tag
          ≡ some (hosts_line sc))
        × (count_tagged (lines_of (apply_tagged_line content (hosts_line sc) own_tag).0) own_tag
            ≡ max 1 (count_tagged (lines_of content) own_tag))
  unfolding find_tagged_line
  find-apply_tagged_line content =
      let a = apply_tagged_line-Applied (hosts_line sc) own_tag own_entry content in
      (a.found, a.count)

  -- Applying the line leaves the content as it is, and says so, exactly where the reader finds that
  -- line already; it reports a change exactly where the reader does not.
  pub apply_tagged_line_unwritten_iff :
      (content : Text)
      → ((apply_tagged_line content (hosts_line sc) own_tag ≡ (content, false))
          ↔ (find_tagged_line content own_tag ≡ some (hosts_line sc)))
        × (((apply_tagged_line content (hosts_line sc) own_tag).1 ≡ true)
            ↔ (find_tagged_line content own_tag ≢ some (hosts_line sc)))
  apply_tagged_line_unwritten_iff content =
      apply_tagged_line_unwritten (hosts_line sc) own_tag own_entry content

  -- Applying it again changes nothing.
  pub apply-apply_tagged_line :
      (content : Text)
      → apply_tagged_line
          (apply_tagged_line content (hosts_line sc) own_tag).0
          (hosts_line sc)
          own_tag
        ≡ ((apply_tagged_line content (hosts_line sc) own_tag).0, false)
  apply-apply_tagged_line content =
      (apply_tagged_line_unwritten_iff (apply_tagged_line content (hosts_line sc) own_tag).0).0.1
        (find-apply_tagged_line content).0

  -- What another schedule, of another name, reads of the content is the same before and after the
  -- line of this one is applied or removed.
  pub find-other_schedule :
      (content other : Text)
      → Without mark other
      → sc.spec.name ≢ other
      → (find_tagged_line (apply_tagged_line content (hosts_line sc) own_tag).0 (hosts_tag other)
          ≡ find_tagged_line content (hosts_tag other))
        × (find_tagged_line (remove_tagged_line content own_tag).0 (hosts_tag other)
            ≡ find_tagged_line content (hosts_tag other))
  find-other_schedule content other m ne =
      let o = hosts_tag-IsOther sc.spec.name other dns.unmarked m ne in
      (
        unfold find_tagged_line in
            ((apply_tagged_line-Applied (hosts_line sc) own_tag own_entry content).others
              (hosts_tag other) o),
        remove_tagged_line-others content own_tag (hosts_tag other) (hosts_tag_long sc.spec.name) o,
      )

  -- A content that has a `hosts` block and no line of the schedule is given back, character for
  -- character, when the line is applied and then removed, and both edits report a change.
  pub remove-apply_tagged_line :
      (content : Text) (i : ℕ)
      → find_tagged_line content own_tag ≡ none
      → hosts_block_at (lines_of content) ≡ some i
      → ((apply_tagged_line content (hosts_line sc) own_tag).1 ≡ true)
        × (remove_tagged_line (apply_tagged_line content (hosts_line sc) own_tag).0 own_tag
            ≡ (content, true))
  remove-apply_tagged_line content i h e =
      rw (apply_tagged_line_new content (hosts_line sc) own_tag h)
        (refl, remove-insert content (hosts_line sc) own_tag i own_entry h e)

-- Removing the line of a schedule of any name either finds no line and leaves the content alone, or
-- takes out the first tagged line and no other: one tagged line less, the rest as it stood.
pub remove_tagged_line-Cleared :
    (content name : Text)
    → ((find_tagged_line content (hosts_tag name) ≡ none)
        × (remove_tagged_line content (hosts_tag name) ≡ (content, false)))
      ⊎ ((find_tagged_line content (hosts_tag name) ≢ none)
          × Cleared (hosts_tag name) content (remove_tagged_line content (hosts_tag name)))
remove_tagged_line-Cleared content name =
    remove_tagged_line_cases content (hosts_tag name) (hosts_tag_long name)
