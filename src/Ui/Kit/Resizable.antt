-- ===== src/Ui/Kit/Resizable.antt =====
-- The parts of docs/src/components/ui/resizable.tsx.
use quickspin.Prelude.{Bool, false, Option, some, List, [], ◌∷◌, get_or}
use quickspin.Text.Units.{Text}
use quickspin.Markup.{Attr, attr, Node, elem, attribute, class_name, lit, when}
use quickspin.Ui.Styling.{Styling, cn}

module _ {M : Type 0} where
  unfoldable pub resizable_panel : List (Attr M) → List (Node M) → Node M
  resizable_panel props children =
      elem "ResizablePrimitive.Panel" (attribute "data-slot" "resizable-panel" ∷ props) children

module _ {M : Type 0} (styling : Styling) where
  unfoldable pub resizable_panel_group : Option Text → List (Attr M) → List (Node M) → Node M
  unfolding cn
  resizable_panel_group extra props children =
      elem "ResizablePrimitive.Group"
        (attribute "data-slot" "resizable-panel-group"
          ∷ attr (lit "className") (
              cn styling (
                (some (lit "flex h-full w-full aria-[orientation=vertical]:flex-col"))
                ∷ extra
                ∷ []))
          ∷ props)
        children

  unfoldable pub resizable_handle : Option Bool → Option Text → List (Attr M) → Node M
  unfolding cn
  resizable_handle with_handle extra props =
      elem "ResizablePrimitive.Separator"
        (attribute "data-slot" "resizable-handle"
          ∷ attr (lit "className") (
              cn styling (
                (some (
                  lit
                    "relative flex w-px items-center justify-center bg-border ring-offset-background after:absolute after:inset-y-0 after:left-1/2 after:w-1 after:-translate-x-1/2 focus-visible:ring-1 focus-visible:ring-ring focus-visible:outline-hidden aria-[orientation=horizontal]:h-px aria-[orientation=horizontal]:w-full aria-[orientation=horizontal]:after:left-0 aria-[orientation=horizontal]:after:h-1 aria-[orientation=horizontal]:after:w-full aria-[orientation=horizontal]:after:translate-x-0 aria-[orientation=horizontal]:after:-translate-y-1/2 [&[aria-orientation=horizontal]>div]:rotate-90"))
                ∷ extra
                ∷ []))
          ∷ props)
        (when (get_or with_handle false) (
          elem "div" (class_name "z-10 flex h-6 w-1 shrink-0 rounded-none bg-border" ∷ []) [] ∷ []))
