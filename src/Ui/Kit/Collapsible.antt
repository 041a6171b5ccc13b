-- ===== src/Ui/Kit/Collapsible.antt =====
-- The parts of docs/src/components/ui/collapsible.tsx.
use quickspin.Prelude.{List, ◌∷◌}
use quickspin.Markup.{Attr, Node, elem, attribute}

module _ {M : Type 0} where
  unfoldable pub collapsible : List (Attr M) → List (Node M) → Node M
  collapsible props children =
      elem "CollapsiblePrimitive.Root" (attribute "data-slot" "collapsible" ∷ props) children

  unfoldable pub collapsible_trigger : List (Attr M) → List (Node M) → Node M
  collapsible_trigger props children =
      elem "CollapsiblePrimitive.Trigger" (attribute "data-slot" "collapsible-trigger" ∷ props)
        children

  unfoldable pub collapsible_content : List (Attr M) → List (Node M) → Node M
  collapsible_content props children =
      elem "CollapsiblePrimitive.Panel" (attribute "data-slot" "collapsible-content" ∷ props)
        children
