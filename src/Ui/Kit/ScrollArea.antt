-- ===== src/Ui/Kit/ScrollArea.antt =====
-- The parts of docs/src/components/ui/scroll-area.tsx.
use quickspin.Prelude.{Option, some, List, [], ◌∷◌, get_or}
use quickspin.Text.Units.{Text}
use quickspin.Markup.{Attr, attr, Node, elem, attribute, class_name, lit}
use quickspin.Ui.Styling.{Styling, cn}

module _ {M : Type 0} (styling : Styling) where
  unfoldable pub scroll_area : Option Text → List (Attr M) → List (Node M) → Node M
  unfolding cn
  scroll_area extra props children =
      elem "ScrollAreaPrimitive.Root"
        (attribute "data-slot" "scroll-area"
          ∷ attr (lit "className") (cn styling ((some (lit "relative")) ∷ extra ∷ []))
          ∷ props)
        (elem "ScrollAreaPrimitive.Viewport"
            (attribute "data-slot" "scroll-area-viewport"
              ∷ class_name
                  "size-full rounded-[inherit] transition-[color,box-shadow] outline-none focus-visible:ring-[3px] focus-visible:ring-ring/50 focus-visible:outline-1"
              ∷ [])
            children
          ∷ elem "ScrollBar" [] []
          ∷ elem "ScrollAreaPrimitive.Corner" [] []
          ∷ [])

  unfoldable pub scroll_bar : Option Text → Option Text → List (Attr M) → Node M
  unfolding cn
  scroll_bar extra orientation props =
      elem "ScrollAreaPrimitive.Scrollbar"
        (attribute "data-slot" "scroll-area-scrollbar"
          ∷ attr (lit "data-orientation") (get_or orientation (lit "vertical"))
          ∷ attr (lit "orientation") (get_or orientation (lit "vertical"))
          ∷ attr (lit "className") (
              cn styling (
                (some (
                  lit
                    "flex touch-none p-px transition-colors select-none data-horizontal:h-2.5 data-horizontal:flex-col data-horizontal:border-t data-horizontal:border-t-transparent data-vertical:h-full data-vertical:w-2.5 data-vertical:border-l data-vertical:border-l-transparent"))
                ∷ extra
                ∷ []))
          ∷ props)
        (elem "ScrollAreaPrimitive.Thumb"
            (attribute "data-slot" "scroll-area-thumb"
              ∷ class_name "relative flex-1 rounded-none bg-border"
              ∷ [])
            []
          ∷ [])
