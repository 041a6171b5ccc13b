-- ===== src/Ui/Kit/Separator.antt =====
-- The parts of docs/src/components/ui/separator.tsx.
use quickspin.Prelude.{Option, some, List, [], ◌∷◌, get_or}
use quickspin.Text.Units.{Text}
use quickspin.Markup.{Attr, attr, Node, elem, attribute, lit}
use quickspin.Ui.Styling.{Styling, cn}

module _ {M : Type 0} (styling : Styling) where
  unfoldable pub separator : Option Text → Option Text → List (Attr M) → List (Node M) → Node M
  unfolding cn
  separator extra orientation props children =
      elem "SeparatorPrimitive"
        (attribute "data-slot" "separator"
          ∷ attr (lit "orientation") (get_or orientation (lit "horizontal"))
          ∷ attr (lit "className") (
              cn styling (
                (some (
                  lit
                    "shrink-0 bg-border data-horizontal:h-px data-horizontal:w-full data-vertical:w-px data-vertical:self-stretch"))
                ∷ extra
                ∷ []))
          ∷ props)
        children
