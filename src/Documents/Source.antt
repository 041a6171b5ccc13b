-- ===== src/Documents/Source.antt =====
-- What docs/src/documents.tsx reads off the source of a document: its title, description, headings
-- and reading time.
pub mod Headings
pub mod Description
pub mod Minutes
use quickspin.Prelude.{
  ℕ, ◌+◌, ◌/◌, Bool, true, not, ◌&&◌, none, some, List, [], ◌∷◌, ◌++◌, map, ltb, if◌then◌else◌,
  get_or, length, take, keep, find, last,
}
use quickspin.Text.Units.{Text, codes, newline, is_space, one_of}
use quickspin.Text.{
  starts_with, replace_all, split_by, split, trim, collapse, strip_suffix, strip_extension,
}
use quickspin.Text.Unicode.{Unicode}
use quickspin.Mdx.Slug.{slugify}
use quickspin.Documents.Patterns.{
  code_block, tag, link, paragraph_break, space_run, first_title, heading_match,
}

abbrev pub marks : Text
marks = codes "*_`"

abbrev pub without : Text → Text → Text
without cs s = keep (λ c. not (one_of cs c)) s

-- `path.split("/").at(-1)`
unfoldable pub file_name : Text → Text
unfolding split
file_name path = get_or (last (split b'/' path)) []

unfoldable pub title_for : Text → Text → Text
unfolding first_title file_name trim strip_extension strip_suffix
title_for path source = elim (first_title true source) [
  | some title ↦ trim (without marks title)
  | none ↦ map (λ c. if one_of (codes "-_") c then b' ' else c) (strip_extension (file_name path))
]

-- Whether a paragraph is prose: the test of `paragraphs.find`.
unfoldable pub is_prose : Text → Bool
unfolding trim
is_prose paragraph =
    let text = trim paragraph in
    ltb 60 (length text)
    && not (starts_with (codes "#") text)
    && not (starts_with (codes "Depends on:") text)
    && not (starts_with (codes "<") text)
    && not (starts_with (codes "- ") text)

abbrev pub default_description : Text
default_description = codes "Quickspin project documentation."

-- The chain of replacements behind the choice of the paragraph.
unfoldable pub clean_description : Text → Text
unfolding replace_all link collapse trim is_space
clean_description s =
    take 190 (trim (collapse is_space b' ' (without (codes "*_`>#") (replace_all link s))))

unfoldable pub description_for : Text → Text
unfolding replace_all code_block split_by paragraph_break is_prose clean_description
description_for source =
    let without_code = replace_all code_block source in
    let paragraphs = split_by paragraph_break without_code in
    clean_description (get_or (find is_prose paragraphs) default_description)

pub record DocumentHeading : Type 0 where
  pub depth : ℕ
  pub title : Text
  pub id : Text

module _ (u : Unicode) where
  -- What one line adds to the outline.
  unfoldable pub heading_of : Text → List DocumentHeading
  unfolding heading_match replace_all link trim slugify
  heading_of line = elim (heading_match line) [
    | none ↦ []
    | some (depth, raw) ↦
        let title = trim (without marks (replace_all link raw)) in
        record { depth = depth; title = title; id = slugify u title } ∷ []
  ]

  unfoldable pub headings_of_lines : List Text → List DocumentHeading
  unfolding heading_of
  headings_of_lines [] = []
  headings_of_lines (line ∷ lines) = heading_of line ++ headings_of_lines lines

  unfoldable pub headings_for : Text → List DocumentHeading
  unfolding headings_of_lines split
  headings_for source = headings_of_lines (split newline source)

unfoldable pub word_count : Text → ℕ
unfolding replace_all code_block tag trim split_by space_run
word_count source =
    length (split_by space_run (trim (replace_all tag (replace_all code_block source))))

-- `Math.max(1, Math.ceil(words / 220))`
unfoldable pub reading_minutes : ℕ → ℕ
reading_minutes words = let minutes = (words + 219) / 220 in if ltb minutes 1 then 1 else minutes

unfoldable pub reading_minutes_for : Text → ℕ
unfolding word_count reading_minutes
reading_minutes_for source = reading_minutes (word_count source)
