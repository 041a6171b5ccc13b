-- ===== src/Documents/Roadmap.antt =====
-- The place of a document in the roadmap, read off its path (docs/src/documents.tsx).
pub mod Numbers
use quickspin.Prelude.{
  ℕ, Bool, true, false, not, ◌&&◌, ◌||◌, Option, none, some, List, [], ◌∷◌, ◌++◌, leb, ◌==◌,
  if◌then◌else◌, ◌>>=◌, get_or, is_some, length, take, drop, take_while, drop_while,
}
use quickspin.Text.Units.{Text, codes, is_space, is_digit, one_of}
use quickspin.Text.{after_prefix, starts_with, search_text, strip_suffix, strip_extension, number}
use quickspin.Documents.Source.{file_name}

pub data Roadmap : Type 0 where
  future : (number : Text) → Roadmap
  completed : (completed_on : Option Text) (number : Text) → Roadmap

-- The result of code that may throw; the message is that of the error.
pub data Result {ℓ} (A : Type ℓ) : Type ℓ where
  ok : A → Result A
  throw : Text → Result A

abbrev pub and_then {ℓ κ} : {A : Type ℓ} {B : Type κ} → Result A → (A → Result B) → Result B
and_then (ok a) f = f a
and_then (throw e) f = throw e

unfoldable pub file_path : Text → Text
file_path module_path = get_or (after_prefix (codes "../") module_path) module_path

unfoldable pub route_for : Text → Text
unfolding strip_extension strip_suffix
route_for path = strip_extension path

-- `(\d+)-`, its group
unfoldable pub leading_number : Text → Option Text
unfolding is_digit
leading_number name =
    let digits = take_while is_digit name in
    if leb 1 (length digits) && starts_with (codes "-") (drop_while is_digit name)
    then some digits
    else none

-- /^plans\/(?:open|closed)\/(\d+)-/, its group
unfoldable pub roadmap_number : Text → Option Text
unfolding leading_number
roadmap_number path =
    let opened = after_prefix (codes "plans/open/") path in
    let closed = after_prefix (codes "plans/closed/") path in
    (if is_some opened then opened else closed) >>= leading_number

-- A text that begins with one unit of each class.
abbrev pub fits : List (ℕ → Bool) → Text → Bool
fits [] s = true
fits (p ∷ ps) [] = false
fits (p ∷ ps) (c ∷ s) = p c && fits ps s

abbrev pub date_shape : List (ℕ → Bool)
date_shape =
    is_digit
    ∷ is_digit
    ∷ is_digit
    ∷ is_digit
    ∷ one_of (codes "-")
    ∷ is_digit
    ∷ is_digit
    ∷ one_of (codes "-")
    ∷ is_digit
    ∷ is_digit
    ∷ one_of (codes ".")
    ∷ []

-- /\{\/\* Completed (\d{4}-\d{2}-\d{2})\./ at a position
unfoldable pub completion_note : Text → Option Text
unfolding is_digit
completion_note s = after_prefix (codes "{/* Completed ") s >>= λ rest.
    if fits date_shape rest then some (take 10 rest) else none

-- The console warning about a missing date is left out.
unfoldable pub roadmap_for : Text → Text → Result Roadmap
unfolding roadmap_number completion_note search_text
roadmap_for path source = elim (roadmap_number path) [
  | none ↦ throw (path ++ codes " does not follow the numbered roadmap filename convention")
  | some number ↦
      if starts_with (codes "plans/open/") path
      then ok (future number)
      else ok (completed (search_text completion_note source) number)
]

-- `roadmap.number`
unfoldable pub number_text : Roadmap → Text
number_text (future n) = n
number_text (completed _ n) = n

unfoldable pub order_for : Text → ℕ
unfolding file_name is_digit
order_for path =
    let digits = take_while is_digit (file_name path) in
    if leb 1 (length digits) then number digits else 999

abbrev is_dash : ℕ → Bool
is_dash c = c == 0x2014 || c == b'-'

-- `title.replace(/^\d+\s+[—-]\s+/, "")`
unfoldable pub nav_title_of : Text → Text
unfolding is_digit is_space
nav_title_of title =
    let blanks = drop_while is_digit title in
    let rest = drop_while is_space blanks in
    let tail = drop 1 rest in
    if leb 1 (length (take_while is_digit title))
      && leb 1 (length (take_while is_space blanks))
      && fits (is_dash ∷ is_space ∷ []) rest
    then drop_while is_space tail
    else title
