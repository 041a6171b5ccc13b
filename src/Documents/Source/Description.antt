-- ===== src/Documents/Source/Description.antt =====
-- The description of a document.
use quickspin.Text.{replace_all, split_by, trim, collapse_from}
use quickspin.Text.Units.{Text, codes, is_space, one_of}
use quickspin.Prelude.{
  ℕ, zero, suc, ◌≤◌, ◌≡◌, refl, inl, inr, Bool, true, false, not, [], ◌∷◌, arith, get_or, length,
  take, keep, find, drop_while, length-take_le, All, All-reverse,
}
use quickspin.Text.Runs.{Runs, collapse-Runs, drop_while-Runs, drop_end_while-Runs}
use mathlib.Core.List.{reverse}
use quickspin.Documents.Patterns.{link, code_block, paragraph_break}
use quickspin.Documents.Source.{
  without, clean_description, description_for, is_prose, default_description,
}

-- Units of the text that are blank are spaces, and no two blanks stand in a row.
abbrev pub IsSpaced : Bool → Text → Type 0
IsSpaced = Runs is_space b' '

abbrev pub IsClean : ℕ → Type 0
IsClean c = one_of (codes "*_`>#") c ≡ false

keep-All : (p : ℕ → Bool) (s : Text) → All (λ c. p c ≡ true) (keep p s)
keep-All p [] = tt
keep-All p (c ∷ s) = ground (arith, keep-All p s)

All-take : (P : ℕ → Type 0) (n : ℕ) (s : Text) → All P s → All P (take n s)
All-take P zero s h = tt
All-take P (suc n) [] h = tt
All-take P (suc n) (c ∷ s) (p, h) = (p, All-take P n s h)

All-drop_while : (P : ℕ → Type 0) (p : ℕ → Bool) (s : Text) → All P s → All P (drop_while p s)
All-drop_while P p [] h = tt
All-drop_while P p (c ∷ s) (q, h) = ground (arith, All-drop_while P p s h)

All-trim : (P : ℕ → Type 0) (s : Text) → All P s → All P (trim s)
unfolding trim
All-trim P s h =
    let front = drop_while is_space s in
    All-reverse P _ (
      All-drop_while P is_space (reverse front)
        (All-reverse P front (All-drop_while P is_space s h)))

Runs-take : (n : ℕ) (b : Bool) (s : Text) → IsSpaced b s → IsSpaced b (take n s)
Runs-take zero b s h = tt
Runs-take (suc n) b [] h = tt
Runs-take (suc n) b (c ∷ s) (inl (w, h)) = inl (w, Runs-take n false s h)
Runs-take (suc n) b (c ∷ s) (inr (e, k, h)) = inr (e, k, Runs-take n true s h)

All-collapse :
    (P : ℕ → Type 0) (p : ℕ → Bool) (r : ℕ) (b : Bool) (s : Text)
    → P r
    → All P s
    → All P (collapse_from p r b s)
unfolding collapse_from
All-collapse P p r b [] k h = tt
All-collapse P p r b (c ∷ s) k (q, h) = ground (arith, All-collapse P p r (p c) s k h)

IsClean-keep : (s : Text) → All (λ c. not (one_of (codes "*_`>#") c) ≡ true) s → All IsClean s
IsClean-keep [] h = tt
IsClean-keep (c ∷ s) (q, h) = (ground arith, IsClean-keep s h)

clean_description_shape :
    (s : Text)
    → (length (clean_description s) ≤ 190)
      × All IsClean (clean_description s)
      × IsSpaced true (clean_description s)
unfolding clean_description
clean_description_shape s =
    let plain = without (codes "*_`>#") (replace_all link s) in
    let spaced = collapse_from is_space b' ' false plain in
    let clean = IsClean-keep plain (keep-All _ (replace_all link s)) in
    (
      length-take_le 190 (trim spaced),
      All-take IsClean 190 (trim spaced)
          (All-trim IsClean spaced (All-collapse IsClean is_space b' ' false plain refl clean)),
      Runs-take 190 true (trim spaced) (
          unfold trim in
          drop_end_while-Runs is_space b' ' true (drop_while is_space spaced) (
            drop_while-Runs is_space b' ' false spaced refl
              (collapse-Runs is_space b' ' false plain))),
    )

-- A description is at most 190 units long, holds none of the marks "*", "_", "`", ">" and "#", does not
-- begin with a blank, and has spaces for blanks, no two in a row. This holds of every source,
-- also of one with no paragraph of prose.
pub description_for_shape :
    (source : Text)
    → (length (description_for source) ≤ 190)
      × All IsClean (description_for source)
      × IsSpaced true (description_for source)
unfolding description_for
description_for_shape source = clean_description_shape (
    get_or (find is_prose (split_by paragraph_break (replace_all code_block source)))
      default_description)
