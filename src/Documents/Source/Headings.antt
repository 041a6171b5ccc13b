-- ===== src/Documents/Source/Headings.antt =====
-- The outline of a document.
use quickspin.Text.{split_from_unit, split}
use quickspin.Text.Units.{Text, newline}
use quickspin.Prelude.{
  ℕ, ◌≤◌, ◌≡◌, refl, sym, ◌⊎◌, inl, inr, some, List, [], ◌∷◌, ◌++◌, append_assoc, arith,
  Option-cases, length, length-append, All, All-append,
}
use quickspin.Text.Unicode.{Unicode}
use quickspin.Mdx.Slug.{slugify}
use quickspin.Documents.Patterns.{heading_match}
use quickspin.Documents.Source.{DocumentHeading, heading_of, headings_of_lines, headings_for}

-- Splitting at a separator that stands between two texts.
split_between :
    (sep : ℕ) (cur s t : Text)
    → split_from_unit sep cur (s ++ sep ∷ t) ≡ split_from_unit sep cur s ++ split_from_unit sep [] t
unfolding split_from_unit
split_between sep cur [] t = ground arith
split_between sep cur (c ∷ s) t =
    ground (arith, split_between sep [] s t, split_between sep (c ∷ cur) s t)

module _ (u : Unicode) where
  lines-append :
      (a b : List Text)
      → headings_of_lines u (a ++ b) ≡ headings_of_lines u a ++ headings_of_lines u b
  unfolding headings_of_lines
  lines-append [] b = refl
  lines-append (l ∷ a) b = rw (lines-append a b) (sym (append_assoc (heading_of u l) _ _))

  -- The outline of two texts with a line break between them is that of the one followed by that of
  -- the other: each line counts for itself, whatever stands around it, also inside a code block.
  pub headings_for-append :
      (s t : Text) → headings_for u (s ++ newline ∷ t) ≡ headings_for u s ++ headings_for u t
  unfolding headings_for
  headings_for-append s t =
      rw (split_between newline [] s t)
        (lines-append (split_from_unit newline [] s) (split_from_unit newline [] t))

  abbrev pub IsHeading : DocumentHeading → Type 0
  IsHeading h = ((h.depth ≡ 2) ⊎ (h.depth ≡ 3)) × (h.id ≡ slugify u h.title)

  heading_match_depth :
      (line : Text) {d : ℕ} {t : Text} → heading_match line ≡ some (d, t) → (d ≡ 2) ⊎ (d ≡ 3)
  unfolding heading_match
  heading_match_depth line h = ground arith

  heading_of_lem :
      (line : Text) → All IsHeading (heading_of u line) × (length (heading_of u line) ≤ 1)
  unfolding heading_of
  heading_of_lem line = elim (Option-cases (heading_match line)) [
    | inl e ↦ rw (e, heading_of) (tt, omega arith)
    | inr ((d, t), e) ↦ rw (e, heading_of) (((heading_match_depth line e, refl), tt), omega arith)
  ]

  of_lines_lem :
      (ls : List Text)
      → All IsHeading (headings_of_lines u ls) × (length (headings_of_lines u ls) ≤ length ls)
  unfolding headings_of_lines
  of_lines_lem [] = (tt, omega arith)
  of_lines_lem (l ∷ ls) =
      let (one, few) = heading_of_lem l in
      let (all, many) = of_lines_lem ls in
      (
        All-append IsHeading (heading_of u l) (headings_of_lines u ls) one all,
        omega (arith, length-append (heading_of u l) (headings_of_lines u ls)),
      )

  -- Every entry of the outline has depth 2 or 3 and the slug of its title as its id, and there are at
  -- most as many entries as lines.
  pub headings_for-IsHeading :
      (source : Text)
      → All IsHeading (headings_for u source)
        × (length (headings_for u source) ≤ length (split newline source))
  unfolding headings_for
  headings_for-IsHeading source = of_lines_lem (split newline source)
