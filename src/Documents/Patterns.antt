-- ===== src/Documents/Patterns.antt =====
-- The regular expressions of docs/src/documents.tsx that are tried at a position of a text.
use quickspin.Prelude.{
  ℕ, suc, ◌+◌, Bool, true, false, not, ◌&&◌, ◌||◌, Option, none, some, [], ◌∷◌, leb, ◌==◌,
  if◌then◌else◌, ◌>>=◌, length, drop, keep, exists, take_while, drop_while, last,
}
use quickspin.Text.Units.{Text, codes, newline, is_line_end, is_space}
use quickspin.Text.{after_prefix, starts_with, Matcher}

abbrev fence : Text
fence = codes "```"

-- The units up to and with the first occurrence of the delimiter.
unfoldable pub until : Text → Text → Option ℕ
until d [] = none
until d (c ∷ s) = elim (starts_with d (c ∷ s)) [
  | true ↦ some (length d)
  | false ↦ do n ← until d s; some (suc n)
]

-- /```[\s\S]*?```/g
unfoldable pub code_block : Matcher Text
unfolding until
code_block s = do rest ← after_prefix fence s; n ← until fence rest; some ([], 3 + n)

abbrev but : ℕ → ℕ → Bool
but d c = not (c == d)

-- /<[^>]+>/g
unfoldable pub tag : Matcher Text
tag [] = none
tag (c ∷ s) =
    let body = take_while (but b'>') s in
    let matched = c == b'<' && leb 1 (length body) && leb 1 (length (drop_while (but b'>') s)) in
    if matched then some ([], length body + 2) else none

-- `[^)]+\)` behind the label
link_target : Text → Text → Option (Text × ℕ)
link_target label rest =
    let target = take_while (but b')') rest in
    if leb 1 (length target) && leb 1 (length (drop_while (but b')') rest))
    then some (label, length label + length target + 4)
    else none

-- /\[([^\]]+)\]\([^)]+\)/g, whose match becomes the label
unfoldable pub link : Matcher Text
unfolding link_target
link [] = none
link (c ∷ s) =
    let label = take_while (but b']') s in
    let behind = after_prefix (codes "](") (drop_while (but b']') s) in
    if c == b'[' && leb 1 (length label) then behind >>= link_target label else none

-- The units up to and with the last line break.
unfoldable pub through_last_newline : Text → Option ℕ
through_last_newline [] = none
through_last_newline (c ∷ s) = elim (through_last_newline s) [
  | some n ↦ some (suc n)
  | none ↦ if c == newline then some 1 else none
]

-- /\n\s*\n/
unfoldable pub paragraph_break : Matcher Text
unfolding through_last_newline is_space
paragraph_break [] = none
paragraph_break (c ∷ s) =
    if c == newline
    then (do n ← through_last_newline (take_while is_space s); some ([], suc n))
    else none

-- /\s+/
unfoldable pub space_run : Matcher Text
unfolding is_space
space_run s = let n = length (take_while is_space s) in if leb 1 n then some ([], n) else none

-- `\s+` when nothing but blanks follows: it gives back one unit, which the dot has to match.
unfoldable pub last_blank : Text → Option Text
unfolding is_line_end
last_blank blanks = last (keep (λ c. not (is_line_end c)) (drop 1 blanks)) >>= λ c. some (c ∷ [])

-- /^#\s+(.+)$/m behind the `#`
unfoldable pub title_group : Text → Option Text
unfolding is_space last_blank is_line_end
title_group s =
    let blanks = take_while is_space s in
    let rest = drop_while is_space s in
    if leb 1 (length blanks)
    then if leb 1 (length rest)
      then some (take_while (λ c. not (is_line_end c)) rest)
      else last_blank blanks
    else none

-- /^#\s+(.+)$/m; the flag says that a line starts here.
unfoldable pub first_title : Bool → Text → Option Text
unfolding title_group is_line_end
first_title start [] = none
first_title start (c ∷ s) =
    let later = first_title (is_line_end c) s in
    elim (start && c == b'#') [
      | true ↦ elim (title_group s) [ some t ↦ some t | none ↦ later ]
      | false ↦ later
    ]

-- `(.+)$` without the flag m, behind `\s+`: no line may end before the text does.
unfoldable pub heading_group : Text → Option Text
unfolding is_space is_line_end
heading_group s =
    let blanks = take_while is_space s in
    let rest = drop_while is_space s in
    let whole = λ (t : Text). if exists is_line_end t then none else some t in
    if leb 1 (length blanks)
    then (if leb 1 (length rest)
        then whole rest
        else (last (drop 1 blanks) >>= λ c. whole (c ∷ [])))
    else none

-- /^(#{2,3})\s+(.+)$/: the number of `#` and the title
unfoldable pub heading_match : Text → Option (ℕ × Text)
unfolding heading_group
heading_match line =
    let hashes = length (take_while (λ c. c == b'#') line) in
    if hashes == 2 || hashes == 3
    then (do t ← heading_group (drop hashes line); some (hashes, t))
    else none
