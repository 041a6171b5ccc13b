-- ===== src/Ui/Kit/Sheet.antt =====
-- The parts of docs/src/components/ui/sheet.tsx.
use quickspin.Prelude.{Bool, true, Option, some, List, [], ◌∷◌, ◌++◌, get_or}
use quickspin.Text.Units.{Text}
use quickspin.Markup.{Attr, attr, Node, elem, attribute, class_name, lit, say, when}
use quickspin.Ui.Styling.{Styling, cn}

module _ {M : Type 0} where
  unfoldable pub sheet : List (Attr M) → List (Node M) → Node M
  sheet props children = elem "SheetPrimitive.Root" (attribute "data-slot" "sheet" ∷ props) children

  unfoldable pub sheet_trigger : List (Attr M) → List (Node M) → Node M
  sheet_trigger props children =
      elem "SheetPrimitive.Trigger" (attribute "data-slot" "sheet-trigger" ∷ props) children

  unfoldable pub sheet_close : List (Attr M) → List (Node M) → Node M
  sheet_close props children =
      elem "SheetPrimitive.Close" (attribute "data-slot" "sheet-close" ∷ props) children

  unfoldable pub sheet_portal : List (Attr M) → List (Node M) → Node M
  sheet_portal props children =
      elem "SheetPrimitive.Portal" (attribute "data-slot" "sheet-portal" ∷ props) children

module _ {M : Type 0} (styling : Styling) where
  unfoldable pub sheet_overlay : Option Text → List (Attr M) → List (Node M) → Node M
  unfolding cn
  sheet_overlay extra props children =
      elem "SheetPrimitive.Backdrop"
        (attribute "data-slot" "sheet-overlay"
          ∷ attr (lit "className") (
              cn styling (
                (some (
                  lit
                    "fixed inset-0 z-50 bg-black/10 text-xs/relaxed transition-opacity duration-150 data-ending-style:opacity-0 data-starting-style:opacity-0 supports-backdrop-filter:backdrop-blur-xs"))
                ∷ extra
                ∷ []))
          ∷ props)
        children

  unfoldable pub sheet_content :
      Option Text → Option Text → Option Bool → List (Attr M) → List (Node M) → Node M
  unfolding cn
  sheet_content extra side show_close_button props children = elem "SheetPortal" [] (
      elem "SheetOverlay" [] []
      ∷ (elem "SheetPrimitive.Popup"
            (attribute "data-slot" "sheet-content"
              ∷ attr (lit "data-side") (get_or side (lit "right"))
              ∷ attr (lit "className") (
                  cn styling (
                    (some (
                      lit
                        "fixed z-50 flex flex-col bg-popover bg-clip-padding text-xs/relaxed text-popover-foreground shadow-lg transition duration-200 ease-in-out data-ending-style:opacity-0 data-starting-style:opacity-0 data-[side=bottom]:inset-x-0 data-[side=bottom]:bottom-0 data-[side=bottom]:h-auto data-[side=bottom]:border-t data-[side=bottom]:data-ending-style:translate-y-[2.5rem] data-[side=bottom]:data-starting-style:translate-y-[2.5rem] data-[side=left]:inset-y-0 data-[side=left]:left-0 data-[side=left]:h-full data-[side=left]:w-3/4 data-[side=left]:border-r data-[side=left]:data-ending-style:translate-x-[-2.5rem] data-[side=left]:data-starting-style:translate-x-[-2.5rem] data-[side=right]:inset-y-0 data-[side=right]:right-0 data-[side=right]:h-full data-[side=right]:w-3/4 data-[side=right]:border-l data-[side=right]:data-ending-style:translate-x-[2.5rem] data-[side=right]:data-starting-style:translate-x-[2.5rem] data-[side=top]:inset-x-0 data-[side=top]:top-0 data-[side=top]:h-auto data-[side=top]:border-b data-[side=top]:data-ending-style:translate-y-[-2.5rem] data-[side=top]:data-starting-style:translate-y-[-2.5rem] data-[side=left]:sm:max-w-sm data-[side=right]:sm:max-w-sm"))
                    ∷ extra
                    ∷ []))
              ∷ props)
            (children
              ++ (when (get_or show_close_button true) (
                  elem "SheetPrimitive.Close" (attribute "data-slot" "sheet-close" ∷ []) (
                    elem "render" [] (
                      elem "Button"
                        (attribute "variant" "ghost"
                          ∷ class_name "absolute top-3 right-3"
                          ∷ attribute "size" "icon-sm"
                          ∷ [])
                        []
                      ∷ [])
                    ∷ elem "XIcon" [] []
                    ∷ elem "span" (class_name "sr-only" ∷ []) (say "Close" ∷ [])
                    ∷ [])
                  ∷ [])))
          ∷ []))

  unfoldable pub sheet_header : Option Text → List (Attr M) → List (Node M) → Node M
  unfolding cn
  sheet_header extra props children =
      elem "div"
        (attribute "data-slot" "sheet-header"
          ∷ attr (lit "className")
              (cn styling ((some (lit "flex flex-col gap-0.5 p-4")) ∷ extra ∷ []))
          ∷ props)
        children

  unfoldable pub sheet_footer : Option Text → List (Attr M) → List (Node M) → Node M
  unfolding cn
  sheet_footer extra props children =
      elem "div"
        (attribute "data-slot" "sheet-footer"
          ∷ attr (lit "className")
              (cn styling ((some (lit "mt-auto flex flex-col gap-2 p-4")) ∷ extra ∷ []))
          ∷ props)
        children

  unfoldable pub sheet_title : Option Text → List (Attr M) → List (Node M) → Node M
  unfolding cn
  sheet_title extra props children =
      elem "SheetPrimitive.Title"
        (attribute "data-slot" "sheet-title"
          ∷ attr (lit "className")
              (cn styling ((some (lit "text-sm font-medium text-foreground")) ∷ extra ∷ []))
          ∷ props)
        children

  unfoldable pub sheet_description : Option Text → List (Attr M) → List (Node M) → Node M
  unfolding cn
  sheet_description extra props children =
      elem "SheetPrimitive.Description"
        (attribute "data-slot" "sheet-description"
          ∷ attr (lit "className")
              (cn styling ((some (lit "text-xs/relaxed text-muted-foreground")) ∷ extra ∷ []))
          ∷ props)
        children
