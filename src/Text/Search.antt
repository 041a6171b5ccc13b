-- ===== src/Text/Search.antt =====
-- Matching at a position, and the global replace, split and search built on it.
use quickspin.Prelude.{
  ℕ, zero, suc, ◌-◌, if◌then◌else◌, Bool, true, false, List, [], ◌∷◌, ◌++◌, Option, none, some,
  ◌==◌, ◌&&◌,
}
use quickspin.Text.Units.{Text}
use mathlib.Core.List.{reverse}

abbrev pub text_eq : Text → Text → Bool
text_eq [] [] = true
text_eq (c ∷ s) (d ∷ t) = (c == d) && text_eq s t
text_eq _ _ = false

-- `s.startsWith(p)`, with what follows the prefix
abbrev pub after_prefix : Text → Text → Option Text
after_prefix [] s = some s
after_prefix (p ∷ ps) [] = none
after_prefix (p ∷ ps) (c ∷ s) = if p == c then after_prefix ps s else none

abbrev pub starts_with : Text → Text → Bool
starts_with [] s = true
starts_with (p ∷ ps) [] = false
starts_with (p ∷ ps) (c ∷ s) = (p == c) && starts_with ps s

-- `s.includes(needle)`
unfoldable pub includes : Text → Text → Bool
includes needle [] = starts_with needle []
includes needle (c ∷ s) = elim (starts_with needle (c ∷ s)) [
  | true ↦ true
  | false ↦ includes needle s
]

-- A pattern tried at the head of a text: what the match becomes, and the units that it takes up.
abbrev pub Matcher : Type 0 → Type 0
Matcher A = Text → Option (A × ℕ)

-- `s.replace(/…/g, …)` for a pattern that matches no empty text; the number is the units of the
-- last match that are still to be passed over.
unfoldable pub replace_from : Matcher Text → ℕ → Text → Text
replace_from m k [] = []
replace_from m (suc k) (c ∷ s) = replace_from m k s
replace_from m zero (c ∷ s) = elim (m (c ∷ s)) [
  | none ↦ c ∷ replace_from m 0 s
  | some (r, n) ↦ r ++ replace_from m (n - 1) s
]

unfoldable pub replace_all : Matcher Text → Text → Text
unfolding replace_from
replace_all m s = replace_from m 0 s

-- `s.split(/…/)` for such a pattern; `cur` is the open piece, reversed.
unfoldable pub split_from : Matcher Text → ℕ → Text → Text → List Text
split_from m k cur [] = reverse cur ∷ []
split_from m (suc k) cur (c ∷ s) = split_from m k cur s
split_from m zero cur (c ∷ s) = elim (m (c ∷ s)) [
  | none ↦ split_from m 0 (c ∷ cur) s
  | some (r, n) ↦ reverse cur ∷ split_from m (n - 1) [] s
]

unfoldable pub split_by : Matcher Text → Text → List Text
unfolding split_from
split_by m s = split_from m 0 [] s

-- `s.split(c)` for one unit
unfoldable pub split_from_unit : ℕ → Text → Text → List Text
split_from_unit sep cur [] = reverse cur ∷ []
split_from_unit sep cur (c ∷ s) = elim (c == sep) [
  | true ↦ reverse cur ∷ split_from_unit sep [] s
  | false ↦ split_from_unit sep (c ∷ cur) s
]

unfoldable pub split : ℕ → Text → List Text
unfolding split_from_unit
split sep s = split_from_unit sep [] s

-- `parts.join(c)`
abbrev pub join : ℕ → List Text → Text
join sep [] = []
join sep (p ∷ []) = p
join sep (p ∷ q ∷ ps) = p ++ sep ∷ join sep (q ∷ ps)

-- `s.match(/…/)`: the first position where the pattern matches
unfoldable pub search_text {ℓ} : {A : Type ℓ} → (Text → Option A) → Text → Option A
search_text m [] = m []
search_text m (c ∷ s) = elim (m (c ∷ s)) [ some a ↦ some a | none ↦ search_text m s ]
