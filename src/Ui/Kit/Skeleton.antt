-- ===== src/Ui/Kit/Skeleton.antt =====
-- The parts of docs/src/components/ui/skeleton.tsx.
use quickspin.Prelude.{Option, some, List, [], ◌∷◌}
use quickspin.Text.Units.{Text}
use quickspin.Markup.{Attr, attr, Node, elem, attribute, lit}
use quickspin.Ui.Styling.{Styling, cn}

module _ {M : Type 0} (styling : Styling) where
  unfoldable pub skeleton : Option Text → List (Attr M) → List (Node M) → Node M
  unfolding cn
  skeleton extra props children =
      elem "div"
        (attribute "data-slot" "skeleton"
          ∷ attr (lit "className")
              (cn styling ((some (lit "animate-pulse rounded-none bg-muted")) ∷ extra ∷ []))
          ∷ props)
        children
