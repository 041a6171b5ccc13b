-- ===== src/Documents/Source/Minutes.antt =====
-- The reading time of a document.
use quickspin.Text.{Matcher, replace_all, split_from, split_by, trim}
use quickspin.Text.Units.{Text}
use quickspin.Prelude.{
  ℕ, zero, suc, ◌+◌, ◌*◌, ◌/◌, ◌≤◌, ◌<◌, ◌≡◌, inl, inr, [], ◌∷◌, arith, Option-cases, length,
}
use quickspin.Documents.Patterns.{space_run, tag, code_block}
use quickspin.Documents.Source.{reading_minutes, reading_minutes_for, word_count}

one_le_split_from : (m : Matcher Text) (k : ℕ) (cur s : Text) → 1 ≤ length (split_from m k cur s)
unfolding split_from
one_le_split_from m k cur [] = omega arith
one_le_split_from m zero cur (c ∷ s) = elim (Option-cases (m (c ∷ s))) [
  | inl e ↦ rw (e, split_from) (one_le_split_from m 0 (c ∷ cur) s)
  | inr ((r, n), e) ↦ rw (e, split_from) (omega arith)
]
one_le_split_from m (suc k) cur (c ∷ s) = one_le_split_from m k cur s

one_le_word_count : (source : Text) → 1 ≤ word_count source
unfolding word_count split_by
one_le_word_count source =
    one_le_split_from space_run 0 [] (trim (replace_all tag (replace_all code_block source)))

-- The minutes are the words divided by 220 and rounded up, so they are at least 1 without the
-- `Math.max`: the split always gives a word.
pub reading_minutes_for_bounds :
    (source : Text)
    → (reading_minutes_for source ≡ (word_count source + 219) / 220)
      × (1 ≤ reading_minutes_for source)
      × (word_count source ≤ 220 * reading_minutes_for source)
      × (220 * reading_minutes_for source < word_count source + 220)
unfolding reading_minutes_for reading_minutes
reading_minutes_for_bounds source = let h = one_le_word_count source in ground arith
