-- ===== src/Text/Slices.antt =====
-- Trimming, extensions, runs and decimal numbers.
use quickspin.Prelude.{
  ◌>>=◌, ℕ, zero, suc, ◌+◌, ◌-◌, ◌*◌, ◌/◌, ◌%◌, Bool, false, [], ◌∷◌, Option, some, ltb,
  if◌then◌else◌, drop_while, length, get_or,
}
use quickspin.Text.Units.{Text, codes, is_space}
use quickspin.Text.Search.{after_prefix}
use mathlib.Core.List.{reverse, foldl}

abbrev pub drop_end_while : (ℕ → Bool) → Text → Text
drop_end_while p s = reverse (drop_while p (reverse s))

-- `s.trim()`
unfoldable pub trim : Text → Text
trim s = drop_end_while is_space (drop_while is_space s)

-- Each longest run of units in the class becomes the one unit `r`; the flag says that the unit
-- before was in the class.
unfoldable pub collapse_from : (ℕ → Bool) → ℕ → Bool → Text → Text
collapse_from p r in_run [] = []
collapse_from p r in_run (c ∷ s) =
    let rest = collapse_from p r (p c) s in
    if p c then (if in_run then rest else r ∷ rest) else c ∷ rest

unfoldable pub collapse : (ℕ → Bool) → ℕ → Text → Text
unfolding collapse_from
collapse p r s = collapse_from p r false s

-- The text without the ending, if it has it.
unfoldable pub strip_suffix : Text → Text → Option Text
strip_suffix e s = after_prefix (reverse e) (reverse s) >>= λ r. some (reverse r)

-- `s.replace(/\.(md|mdx)$/, "")`
unfoldable pub strip_extension : Text → Text
strip_extension s = get_or (strip_suffix (codes ".mdx") s) (get_or (strip_suffix (codes ".md") s) s)

-- `Number(digits)`
abbrev pub number : Text → ℕ
number = foldl (λ n c. n * 10 + (c - b'0')) 0

-- `String(n)`, on fuel above `n`
unfoldable pub decimal_from : ℕ → ℕ → Text → Text
decimal_from zero n out = out
decimal_from (suc f) n out =
    let rest = decimal_from f (n / 10) ((b'0' + n % 10) ∷ out) in
    if ltb n 10 then (b'0' + n) ∷ out else rest

unfoldable pub decimal : ℕ → Text
unfolding decimal_from
decimal n = decimal_from (suc n) n []

-- `s.padStart(2, "0")`
unfoldable pub pad_start : Text → Text
pad_start s = if ltb (length s) 1 then b'0' ∷ b'0' ∷ s else if ltb (length s) 2 then b'0' ∷ s else s
