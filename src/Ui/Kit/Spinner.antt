-- ===== src/Ui/Kit/Spinner.antt =====
-- The parts of docs/src/components/ui/spinner.tsx.
use quickspin.Prelude.{Option, some, List, [], ◌∷◌}
use quickspin.Text.Units.{Text}
use quickspin.Markup.{Attr, attr, Node, elem, attribute, lit}
use quickspin.Ui.Styling.{Styling, cn}

module _ {M : Type 0} (styling : Styling) where
  unfoldable pub spinner : Option Text → List (Attr M) → List (Node M) → Node M
  unfolding cn
  spinner extra props children =
      elem "Loader2Icon"
        (attribute "data-slot" "spinner"
          ∷ attribute "role" "status"
          ∷ attribute "aria-label" "Loading"
          ∷ attr (lit "className") (cn styling ((some (lit "size-4 animate-spin")) ∷ extra ∷ []))
          ∷ props)
        children
