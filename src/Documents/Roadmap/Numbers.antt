-- ===== src/Documents/Roadmap/Numbers.antt =====
-- The two readings of a file's number, and the status that its folder gives.
use quickspin.Text.{split_from_unit, search_text, number}
use quickspin.Text.Units.{Text, codes, is_digit}
use quickspin.Prelude.{
  ◌≡◌, ◌≢◌, sym, ◌∙◌, Bool, true, false, Option, none, some, [], ◌++◌, arith, leb, if◌then◌else◌,
  length, take_while, All,
}
use quickspin.Text.Equality.{split_one}
use quickspin.Documents.Source.{file_name}
use quickspin.Documents.Roadmap.{
  Roadmap, Result, ok, throw, future, completed, completion_note, leading_number, roadmap_for,
  number_text, order_for,
}

-- The folders of open and of closed plans.
abbrev pub folder : Bool → Text
folder true = codes "plans/open/"
folder false = codes "plans/closed/"

abbrev pub HasNoSlash : Text → Type 0
HasNoSlash name = All (λ c. c ≢ b'/') name

file_name-folder :
    (open_plan : Bool) (name : Text) → HasNoSlash name → file_name (folder open_plan ++ name) ≡ name
unfolding file_name split_from_unit
file_name-folder true name h = rw (split_one b'/' [] name h)
file_name-folder false name h = rw (split_one b'/' [] name h)

abbrev pub HasStatus : Bool → Roadmap → Type 0
HasStatus true (future _) = Unit
HasStatus true (completed _ _) = ⊥
HasStatus false (future _) = ⊥
HasStatus false (completed _ _) = Unit

number_of_leading :
    (name digits : Text)
    → leading_number name ≡ some digits
    → (if leb 1 (length (take_while is_digit name)) then number (take_while is_digit name) else 999)
      ≡ number digits
unfolding leading_number
number_of_leading name digits h = ground arith

order_for-folder :
    (open_plan : Bool) (name digits : Text)
    → HasNoSlash name
    → leading_number name ≡ some digits
    → order_for (folder open_plan ++ name) ≡ number digits
unfolding order_for
order_for-folder open_plan name digits h e =
    rw (file_name-folder open_plan name h) (number_of_leading name digits e)

-- `roadmap_for` in a folder, on the number that the name begins with
abbrev entry : Bool → Option Text → Text → Text → Result Roadmap
entry open_plan none path source =
    throw (path ++ codes " does not follow the numbered roadmap filename convention")
entry true (some ds) path source = ok (future ds)
entry false (some ds) path source = ok (completed (search_text completion_note source) ds)

roadmap_for-entry :
    (open_plan : Bool) (name source : Text)
    → roadmap_for (folder open_plan ++ name) source
      ≡ entry open_plan (leading_number name) (folder open_plan ++ name) source
unfolding roadmap_for
roadmap_for-entry true name source = ground arith
roadmap_for-entry false name source = ground arith

entry_lem :
    (open_plan : Bool) (found : Option Text) (path source : Text) {r : Roadmap}
    → entry open_plan found path source ≡ ok r
    → HasStatus open_plan r × (found ≡ some (number_text r))
unfolding number_text
entry_lem true (some ds) path source {r = future n} e = (tt, ground arith)
entry_lem true (some ds) path source {r = completed d n} e = cc
entry_lem false (some ds) path source {r = future n} e = cc
entry_lem false (some ds) path source {r = completed d n} e = (tt, ground arith)
entry_lem _ none path source e = cc

-- A document directly in the folder of open or of closed plans that gets a roadmap entry is future in
-- the first and completed in the second, and the number by which it is sorted is the entry's.
pub order_for-roadmap_for :
    (open_plan : Bool) (name source : Text) {r : Roadmap}
    → HasNoSlash name
    → roadmap_for (folder open_plan ++ name) source ≡ ok r
    → HasStatus open_plan r × (order_for (folder open_plan ++ name) ≡ number (number_text r))
order_for-roadmap_for open_plan name source {r} h e =
    let (status, found) =
      entry_lem open_plan (leading_number name) _ source
        (sym (roadmap_for-entry open_plan name source) ∙ e) in
    (status, order_for-folder open_plan name (number_text r) h found)
