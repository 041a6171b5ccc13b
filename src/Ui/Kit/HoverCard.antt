-- ===== src/Ui/Kit/HoverCard.antt =====
-- The parts of docs/src/components/ui/hover-card.tsx.
use quickspin.Prelude.{ℕ, Option, some, List, [], ◌∷◌, get_or}
use quickspin.Text.{decimal}
use quickspin.Text.Units.{Text}
use quickspin.Markup.{Attr, attr, Node, elem, attribute, class_name, lit}
use quickspin.Ui.Styling.{Styling, cn}

module _ {M : Type 0} where
  unfoldable pub hover_card : List (Attr M) → List (Node M) → Node M
  hover_card props children =
      elem "PreviewCardPrimitive.Root" (attribute "data-slot" "hover-card" ∷ props) children

  unfoldable pub hover_card_trigger : List (Attr M) → List (Node M) → Node M
  hover_card_trigger props children =
      elem "PreviewCardPrimitive.Trigger" (attribute "data-slot" "hover-card-trigger" ∷ props)
        children

module _ {M : Type 0} (styling : Styling) where
  unfoldable pub hover_card_content :
      Option Text
      → Option Text
      → Option ℕ
      → Option Text
      → Option ℕ
      → List (Attr M)
      → List (Node M)
      → Node M
  unfolding cn
  hover_card_content extra side side_offset align align_offset props children =
      elem "PreviewCardPrimitive.Portal" (attribute "data-slot" "hover-card-portal" ∷ []) (
        elem "PreviewCardPrimitive.Positioner"
          (attr (lit "align") (get_or align (lit "center"))
            ∷ attr (lit "alignOffset") (decimal (get_or align_offset 4))
            ∷ attr (lit "side") (get_or side (lit "bottom"))
            ∷ attr (lit "sideOffset") (decimal (get_or side_offset 4))
            ∷ class_name "isolate z-50"
            ∷ [])
          (elem "PreviewCardPrimitive.Popup"
              (attribute "data-slot" "hover-card-content"
                ∷ attr (lit "className") (
                    cn styling (
                      (some (
                        lit
                          "z-50 w-64 origin-(--transform-origin) rounded-none bg-popover p-2.5 text-xs/relaxed text-popover-foreground shadow-md ring-1 ring-foreground/10 outline-hidden duration-100 data-[side=bottom]:slide-in-from-top-2 data-[side=inline-end]:slide-in-from-left-2 data-[side=inline-start]:slide-in-from-right-2 data-[side=left]:slide-in-from-right-2 data-[side=right]:slide-in-from-left-2 data-[side=top]:slide-in-from-bottom-2 data-open:animate-in data-open:fade-in-0 data-open:zoom-in-95 data-closed:animate-out data-closed:fade-out-0 data-closed:zoom-out-95"))
                      ∷ extra
                      ∷ []))
                ∷ props)
              children
            ∷ [])
        ∷ [])
