-- ===== src/Ui/Kit/Popover.antt =====
-- The parts of docs/src/components/ui/popover.tsx.
use quickspin.Prelude.{ℕ, Option, some, List, [], ◌∷◌, get_or}
use quickspin.Text.{decimal}
use quickspin.Text.Units.{Text}
use quickspin.Markup.{Attr, attr, Node, elem, attribute, class_name, lit}
use quickspin.Ui.Styling.{Styling, cn}

module _ {M : Type 0} where
  unfoldable pub popover : List (Attr M) → List (Node M) → Node M
  popover props children =
      elem "PopoverPrimitive.Root" (attribute "data-slot" "popover" ∷ props) children

  unfoldable pub popover_trigger : List (Attr M) → List (Node M) → Node M
  popover_trigger props children =
      elem "PopoverPrimitive.Trigger" (attribute "data-slot" "popover-trigger" ∷ props) children

module _ {M : Type 0} (styling : Styling) where
  unfoldable pub popover_content :
      Option Text
      → Option Text
      → Option ℕ
      → Option Text
      → Option ℕ
      → List (Attr M)
      → List (Node M)
      → Node M
  unfolding cn
  popover_content extra align align_offset side side_offset props children =
      elem "PopoverPrimitive.Portal" [] (
        elem "PopoverPrimitive.Positioner"
          (attr (lit "align") (get_or align (lit "center"))
            ∷ attr (lit "alignOffset") (decimal (get_or align_offset 0))
            ∷ attr (lit "side") (get_or side (lit "bottom"))
            ∷ attr (lit "sideOffset") (decimal (get_or side_offset 4))
            ∷ class_name "isolate z-50"
            ∷ [])
          (elem "PopoverPrimitive.Popup"
              (attribute "data-slot" "popover-content"
                ∷ attr (lit "className") (
                    cn styling (
                      (some (
                        lit
                          "z-50 flex w-72 origin-(--transform-origin) flex-col gap-2.5 rounded-none bg-popover p-2.5 text-xs text-popover-foreground shadow-md ring-1 ring-foreground/10 outline-hidden duration-100 data-[side=bottom]:slide-in-from-top-2 data-[side=inline-end]:slide-in-from-left-2 data-[side=inline-start]:slide-in-from-right-2 data-[side=left]:slide-in-from-right-2 data-[side=right]:slide-in-from-left-2 data-[side=top]:slide-in-from-bottom-2 data-open:animate-in data-open:fade-in-0 data-open:zoom-in-95 data-closed:animate-out data-closed:fade-out-0 data-closed:zoom-out-95"))
                      ∷ extra
                      ∷ []))
                ∷ props)
              children
            ∷ [])
        ∷ [])

  unfoldable pub popover_header : Option Text → List (Attr M) → List (Node M) → Node M
  unfolding cn
  popover_header extra props children =
      elem "div"
        (attribute "data-slot" "popover-header"
          ∷ attr (lit "className")
              (cn styling ((some (lit "flex flex-col gap-1 text-xs")) ∷ extra ∷ []))
          ∷ props)
        children

  unfoldable pub popover_title : Option Text → List (Attr M) → List (Node M) → Node M
  unfolding cn
  popover_title extra props children =
      elem "PopoverPrimitive.Title"
        (attribute "data-slot" "popover-title"
          ∷ attr (lit "className") (cn styling ((some (lit "text-sm font-medium")) ∷ extra ∷ []))
          ∷ props)
        children

  unfoldable pub popover_description : Option Text → List (Attr M) → List (Node M) → Node M
  unfolding cn
  popover_description extra props children =
      elem "PopoverPrimitive.Description"
        (attribute "data-slot" "popover-description"
          ∷ attr (lit "className")
              (cn styling ((some (lit "text-xs/relaxed text-muted-foreground")) ∷ extra ∷ []))
          ∷ props)
        children
