-- ===== src/Reader/View/Status.antt =====
-- `RoadmapStatus` of docs/src/App.tsx; the formatting of a date is the language's `Intl`, an argument.
use quickspin.Text.Units.{Text, codes}
use quickspin.Prelude.{Bool, true, false, Option, none, some, [], ◌∷◌, ◌++◌, if◌then◌else◌}
use quickspin.Markup.{attr, Node, el, text, elem, class_name, say, lit, nodes}
use quickspin.Documents.Roadmap.{Roadmap, future, completed, number_text}

abbrev pub is_completed : Roadmap → Bool
is_completed (future _) = false
is_completed (completed _ _) = true

-- `roadmap.status`
unfoldable pub status_text : Roadmap → Text
status_text (future _) = codes "future"
status_text (completed _ _) = codes "completed"

-- `completedOn`: an empty date counts as none.
unfoldable pub formatted_date : (Text → Text) → Roadmap → Option Text
formatted_date format (future _) = none
formatted_date format (completed none _) = none
formatted_date format (completed (some []) _) = none
formatted_date format (completed (some (c ∷ s)) _) = some (format ((c ∷ s) ++ codes "T00:00:00Z"))

unfoldable pub status_note : (Text → Text) → Roadmap → Text
unfolding formatted_date
status_note format roadmap =
    if is_completed roadmap
    then (elim (formatted_date format roadmap) [
      | some date ↦ lit "Marked complete " ++ date ++ lit "."
      | none ↦ lit "Marked complete."
    ])
      ++ lit
          " This roadmap is retained as historical context; current code and tests are authoritative where delivery differs."
    else lit
        "This roadmap outlines Quickspin’s intended direction, not its current behavior. Use the codebase as the authority for what exists today."

unfoldable pub roadmap_status : {M : Type 0} → (Text → Text) → Roadmap → Node M
roadmap_status format roadmap =
    let done = is_completed roadmap in
    el (lit "div")
      (attr (lit "className") (lit "roadmap-status roadmap-status--" ++ status_text roadmap) ∷ [])
      (nodes (
        elem "span" (class_name "roadmap-status__mark" ∷ [])
          ((if done then elem "CheckIcon" [] [] else text (number_text roadmap)) ∷ [])
        ∷ elem "div" [] (
            elem "strong" [] ((if done then say "Delivered" else say "Future state") ∷ [])
            ∷ elem "p" [] (text (status_note format roadmap) ∷ [])
            ∷ [])
        ∷ []))
