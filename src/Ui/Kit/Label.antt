-- ===== src/Ui/Kit/Label.antt =====
-- The parts of docs/src/components/ui/label.tsx.
use quickspin.Prelude.{Option, some, List, [], ◌∷◌}
use quickspin.Text.Units.{Text}
use quickspin.Markup.{Attr, attr, Node, elem, attribute, lit}
use quickspin.Ui.Styling.{Styling, cn}

module _ {M : Type 0} (styling : Styling) where
  unfoldable pub label : Option Text → List (Attr M) → List (Node M) → Node M
  unfolding cn
  label extra props children =
      elem "label"
        (attribute "data-slot" "label"
          ∷ attr (lit "className") (
              cn styling (
                (some (
                  lit
                    "flex items-center gap-2 text-xs leading-none select-none group-data-[disabled=true]:pointer-events-none group-data-[disabled=true]:opacity-50 peer-disabled:cursor-not-allowed peer-disabled:opacity-50"))
                ∷ extra
                ∷ []))
          ∷ props)
        children
