-- ===== src/Ui/Kit/Tooltip.antt =====
-- The parts of docs/src/components/ui/tooltip.tsx.
use quickspin.Prelude.{ℕ, Option, some, List, [], ◌∷◌, ◌++◌, get_or}
use quickspin.Text.{decimal}
use quickspin.Text.Units.{Text}
use quickspin.Markup.{Attr, attr, Node, elem, attribute, class_name, lit}
use quickspin.Ui.Styling.{Styling, cn}

module _ {M : Type 0} where
  unfoldable pub tooltip_provider : Option ℕ → List (Attr M) → List (Node M) → Node M
  tooltip_provider delay props children =
      elem "TooltipPrimitive.Provider"
        (attribute "data-slot" "tooltip-provider"
          ∷ attr (lit "delay") (decimal (get_or delay 0))
          ∷ props)
        children

  unfoldable pub tooltip : List (Attr M) → List (Node M) → Node M
  tooltip props children =
      elem "TooltipPrimitive.Root" (attribute "data-slot" "tooltip" ∷ props) children

  unfoldable pub tooltip_trigger : List (Attr M) → List (Node M) → Node M
  tooltip_trigger props children =
      elem "TooltipPrimitive.Trigger" (attribute "data-slot" "tooltip-trigger" ∷ props) children

module _ {M : Type 0} (styling : Styling) where
  unfoldable pub tooltip_content :
      Option Text
      → Option Text
      → Option ℕ
      → Option Text
      → Option ℕ
      → List (Attr M)
      → List (Node M)
      → Node M
  unfolding cn
  tooltip_content extra side side_offset align align_offset props children =
      elem "TooltipPrimitive.Portal" [] (
        elem "TooltipPrimitive.Positioner"
          (attr (lit "align") (get_or align (lit "center"))
            ∷ attr (lit "alignOffset") (decimal (get_or align_offset 0))
            ∷ attr (lit "side") (get_or side (lit "top"))
            ∷ attr (lit "sideOffset") (decimal (get_or side_offset 4))
            ∷ class_name "isolate z-50"
            ∷ [])
          (elem "TooltipPrimitive.Popup"
              (attribute "data-slot" "tooltip-content"
                ∷ attr (lit "className") (
                    cn styling (
                      (some (
                        lit
                          "z-50 inline-flex w-fit max-w-xs origin-(--transform-origin) items-center gap-1.5 rounded-none bg-foreground px-3 py-1.5 text-xs text-background has-data-[slot=kbd]:pr-1.5 data-[side=bottom]:slide-in-from-top-2 data-[side=inline-end]:slide-in-from-left-2 data-[side=inline-start]:slide-in-from-right-2 data-[side=left]:slide-in-from-right-2 data-[side=right]:slide-in-from-left-2 data-[side=top]:slide-in-from-bottom-2 **:data-[slot=kbd]:relative **:data-[slot=kbd]:isolate **:data-[slot=kbd]:z-50 **:data-[slot=kbd]:rounded-none data-[state=delayed-open]:animate-in data-[state=delayed-open]:fade-in-0 data-[state=delayed-open]:zoom-in-95 data-open:animate-in data-open:fade-in-0 data-open:zoom-in-95 data-closed:animate-out data-closed:fade-out-0 data-closed:zoom-out-95"))
                      ∷ extra
                      ∷ []))
                ∷ props)
              (children
                ++ (elem "TooltipPrimitive.Arrow"
                      (class_name
                          "z-50 size-2.5 translate-y-[calc(-50%-2px)] rotate-45 rounded-none bg-foreground fill-foreground data-[side=bottom]:top-1 data-[side=inline-end]:top-1/2! data-[side=inline-end]:-left-1 data-[side=inline-end]:-translate-y-1/2 data-[side=inline-start]:top-1/2! data-[side=inline-start]:-right-1 data-[side=inline-start]:-translate-y-1/2 data-[side=left]:top-1/2! data-[side=left]:-right-1 data-[side=left]:-translate-y-1/2 data-[side=right]:top-1/2! data-[side=right]:-left-1 data-[side=right]:-translate-y-1/2 data-[side=top]:-bottom-2.5"
                        ∷ [])
                      []
                    ∷ []))
            ∷ [])
        ∷ [])
