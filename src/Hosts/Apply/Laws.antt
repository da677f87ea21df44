-- ===== src/Hosts/Apply/Laws.antt =====
-- `applyTaggedLine` as a whole.
use agentic_preview.Common.{
  ℕ, ◌≡◌, ◌≢◌, refl, true, false, List, [], ◌∷◌, ◌++◌, Option, none, some, arith, All, ◌↔◌, take,
  drop, All-append, ◌+◌, Bool-cases, inl, inr,
}
use agentic_preview.Text.{Text}
use agentic_preview.Text.Affix.{take-append-drop}
use agentic_preview.Text.Split.{Without, split-join, split-All}
use agentic_preview.Hosts.{
  is_tagged, find_tagged, find_tagged_line, lines_of, newline, Edit, absent, unchanged, edited,
  replace_tagged, hosts_block_at, insert_line, insert_tagged, apply_tagged_line, block_indent,
}
use agentic_preview.Hosts.Find.{
  count_tagged_zero_iff, IsEntry, one_line-indent, block_indent-IsIndent,
}
use agentic_preview.Hosts.Apply.Lines.{
  Applied, Replaced, replace_tagged-Replaced, insert_line-Applied,
}
use agentic_preview.Hosts.Apply.Block.{append_block-Applied}

append-ne-nil : (a : List Text) (l : Text) (b : List Text) → a ++ l ∷ b ≢ []
append-ne-nil [] l b = ground arith
append-ne-nil (x ∷ a) l b = ground arith

module _ (want tag : Text) (entry : IsEntry want tag) where
  pub insert_line-one_line :
      (lns : List Text) (i : ℕ)
      → All (Without newline) lns
      → All (Without newline) (insert_line lns i want)
  unfolding insert_line
  insert_line-one_line lns i h =
      let parts =
        All-append⁻¹ (take (i + 1) lns) (drop (i + 1) lns) (rw (take-append-drop (i + 1) lns) h) in
      All-append _ (take (i + 1) lns) _ parts.0
        (one_line-indent (block_indent lns i) want tag (block_indent-IsIndent lns i) entry, parts.1)
    where
      All-append⁻¹ :
          (a b : List Text)
          → All (Without newline) (a ++ b)
          → All (Without newline) a × All (Without newline) b
      All-append⁻¹ [] b k = (tt, k)
      All-append⁻¹ (x ∷ a) b k = let (u, v) = All-append⁻¹ a b k.1 in ((k.0, u), v)

  pub insert_line-ne-nil : (lns : List Text) (i : ℕ) → insert_line lns i want ≢ []
  unfolding insert_line
  insert_line-ne-nil lns i = append-ne-nil (take (i + 1) lns) _ _

  -- What `applyTaggedLine` leaves where nothing was tagged.
  insert_tagged-Applied :
      (content : Text) (o : Option ℕ)
      → hosts_block_at (lines_of content) ≡ o
      → find_tagged (lines_of content) tag ≡ none
      → Applied want tag (lines_of content) (lines_of (insert_tagged content want))
  unfolding insert_tagged
  insert_tagged-Applied content none e h =
      rw (e, insert_tagged) (append_block-Applied want tag entry content h)
  insert_tagged-Applied content (some i) e h =
      rw
        (
          e,
          insert_tagged,
          split-join newline (insert_line (lines_of content) i want)
              (insert_line-ne-nil (lines_of content) i)
              (insert_line-one_line (lines_of content) i (split-All newline content)),
        )
        (insert_line-Applied want tag entry (lines_of content) i h)

  unchanged-Applied : (lns : List Text) → find_tagged lns tag ≡ some want → Applied want tag lns lns
  unchanged-Applied lns h = record {
    found = h;
    count = ground (arith, (count_tagged_zero_iff lns tag).1);
    others = λ other o. refl;
  }

  apply_by :
      (content : Text) (e : Edit)
      → replace_tagged (lines_of content) want tag ≡ e
      → Replaced want tag entry (lines_of content) e
      → Applied want tag (lines_of content) (lines_of (apply_tagged_line content want tag).0)
  unfolding apply_tagged_line
  apply_by content absent q r =
      rw (q, apply_tagged_line)
        (insert_tagged-Applied content (hosts_block_at (lines_of content)) refl r)
  apply_by content unchanged q r =
      rw (q, apply_tagged_line) (unchanged-Applied (lines_of content) r)
  apply_by content (edited ls) q (a, n, w, d) =
      rw (q, apply_tagged_line, split-join newline ls n (w (split-All newline content))) a

  -- What a reader sees of the new content.
  pub apply_tagged_line-Applied :
      (content : Text)
      → Applied want tag (lines_of content) (lines_of (apply_tagged_line content want tag).0)
  apply_tagged_line-Applied content =
      apply_by content (replace_tagged (lines_of content) want tag) refl
        (replace_tagged-Replaced want tag entry (lines_of content))

  unwritten_by :
      (content : Text) (e : Edit)
      → replace_tagged (lines_of content) want tag ≡ e
      → Replaced want tag entry (lines_of content) e
      → ((apply_tagged_line content want tag ≡ (content, false))
          ↔ (find_tagged (lines_of content) tag ≡ some want))
        × (((apply_tagged_line content want tag).1 ≡ true)
            ↔ (find_tagged (lines_of content) tag ≢ some want))
  unfolding apply_tagged_line
  unwritten_by content absent q r =
      rw (q, apply_tagged_line) (((λ h. cc), (λ h. cc)), ((λ _ h. cc), (λ _. refl)))
  unwritten_by content unchanged q r =
      rw (q, apply_tagged_line) (((λ _. r), (λ _. refl)), ((λ h. cc), (λ h. absurd (h r))))
  unwritten_by content (edited ls) q (a, n, w, d) =
      rw (q, apply_tagged_line) (((λ h. cc), (λ h. absurd (d h))), ((λ _. d), (λ _. refl)))

  -- The content is left as it is exactly where the entry is already there, and called changed
  -- exactly where it is not.
  pub apply_tagged_line_unwritten :
      (content : Text)
      → ((apply_tagged_line content want tag ≡ (content, false))
          ↔ (find_tagged_line content tag ≡ some want))
        × (((apply_tagged_line content want tag).1 ≡ true)
            ↔ (find_tagged_line content tag ≢ some want))
  unfolding find_tagged_line
  apply_tagged_line_unwritten content =
      unwritten_by content (replace_tagged (lines_of content) want tag) refl
        (replace_tagged-Replaced want tag entry (lines_of content))

replace_tagged-none :
    (lns : List Text) (want tag : Text)
    → find_tagged lns tag ≡ none
    → replace_tagged lns want tag ≡ absent
unfolding find_tagged replace_tagged
replace_tagged-none [] want tag h = refl
replace_tagged-none (ln ∷ lns) want tag h = elim (Bool-cases (is_tagged tag ln)) [
  | inl e ↦ absurd (ground arith)
  | inr e ↦ rw (e, replace_tagged-none lns want tag (rw e at h)) refl
]

-- Where nothing is tagged the entry is put in.
pub apply_tagged_line_new :
    (content want tag : Text)
    → find_tagged_line content tag ≡ none
    → apply_tagged_line content want tag ≡ (insert_tagged content want, true)
unfolding apply_tagged_line find_tagged_line
apply_tagged_line_new content want tag h =
    rw (replace_tagged-none (lines_of content) want tag h, apply_tagged_line) refl
