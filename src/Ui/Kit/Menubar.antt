-- ===== src/Ui/Kit/Menubar.antt =====
-- Parts of docs/src/components/ui/menubar.tsx; not modelled here: MenubarContent, MenubarItem.
use quickspin.Prelude.{Bool, Option, some, List, [], ◌∷◌, ◌++◌}
use quickspin.Text.Units.{Text}
use quickspin.Markup.{Attr, attr, Node, elem, attribute, class_name, lit, optional_flag}
use quickspin.Ui.Styling.{Styling, cn}

module _ {M : Type 0} where
  unfoldable pub menubar_menu : List (Attr M) → List (Node M) → Node M
  menubar_menu props children =
      elem "DropdownMenu" (attribute "data-slot" "menubar-menu" ∷ props) children

  unfoldable pub menubar_group : List (Attr M) → List (Node M) → Node M
  menubar_group props children =
      elem "DropdownMenuGroup" (attribute "data-slot" "menubar-group" ∷ props) children

  unfoldable pub menubar_portal : List (Attr M) → List (Node M) → Node M
  menubar_portal props children =
      elem "DropdownMenuPortal" (attribute "data-slot" "menubar-portal" ∷ props) children

  unfoldable pub menubar_radio_group : List (Attr M) → List (Node M) → Node M
  menubar_radio_group props children =
      elem "DropdownMenuRadioGroup" (attribute "data-slot" "menubar-radio-group" ∷ props) children

  unfoldable pub menubar_sub : List (Attr M) → List (Node M) → Node M
  menubar_sub props children =
      elem "DropdownMenuSub" (attribute "data-slot" "menubar-sub" ∷ props) children

module _ {M : Type 0} (styling : Styling) where
  unfoldable pub menubar : Option Text → List (Attr M) → List (Node M) → Node M
  unfolding cn
  menubar extra props children =
      elem "MenubarPrimitive"
        (attribute "data-slot" "menubar"
          ∷ attr (lit "className") (
              cn styling
                ((some (lit "flex h-8 items-center gap-0.5 rounded-none border p-1")) ∷ extra ∷ []))
          ∷ props)
        children

  unfoldable pub menubar_trigger : Option Text → List (Attr M) → List (Node M) → Node M
  unfolding cn
  menubar_trigger extra props children =
      elem "DropdownMenuTrigger"
        (attribute "data-slot" "menubar-trigger"
          ∷ attr (lit "className") (
              cn styling (
                (some (
                  lit
                    "flex items-center rounded-none px-1.5 py-[calc(--spacing(0.8))] text-xs font-medium outline-hidden select-none hover:bg-muted aria-expanded:bg-muted"))
                ∷ extra
                ∷ []))
          ∷ props)
        children

  unfoldable pub menubar_checkbox_item :
      Option Text → Option Bool → Option Bool → List (Attr M) → List (Node M) → Node M
  unfolding cn
  menubar_checkbox_item extra checked inset props children =
      elem "MenuPrimitive.CheckboxItem"
        (attribute "data-slot" "menubar-checkbox-item"
          ∷ (optional_flag "data-inset" inset
              ++ (attr (lit "className") (
                    cn styling (
                      (some (
                        lit
                          "relative flex cursor-default items-center gap-2 rounded-none py-2 pr-28 pl-8 text-xs outline-hidden select-none focus:bg-accent focus:text-accent-foreground focus:**:text-accent-foreground data-inset:pl-8 data-disabled:pointer-events-none data-disabled:opacity-50 [&_svg]:pointer-events-none [&_svg]:shrink-0"))
                      ∷ extra
                      ∷ []))
                  ∷ (optional_flag "checked" checked ++ props))))
        (elem "span"
            (class_name
                "pointer-events-none absolute left-1.5 flex size-4 items-center justify-center [&_svg:not([class*='size-'])]:size-4"
              ∷ [])
            (elem "MenuPrimitive.CheckboxItemIndicator" [] (elem "CheckIcon" [] [] ∷ []) ∷ [])
          ∷ children)

  unfoldable pub menubar_radio_item :
      Option Text → Option Bool → List (Attr M) → List (Node M) → Node M
  unfolding cn
  menubar_radio_item extra inset props children =
      elem "MenuPrimitive.RadioItem"
        (attribute "data-slot" "menubar-radio-item"
          ∷ (optional_flag "data-inset" inset
              ++ (attr (lit "className") (
                    cn styling (
                      (some (
                        lit
                          "relative flex cursor-default items-center gap-2 rounded-none py-2 pr-2 pl-8 text-xs outline-hidden select-none focus:bg-accent focus:text-accent-foreground focus:**:text-accent-foreground data-inset:pl-8 data-disabled:pointer-events-none data-disabled:opacity-50 [&_svg]:pointer-events-none [&_svg]:shrink-0 [&_svg:not([class*='size-'])]:size-4"))
                      ∷ extra
                      ∷ []))
                  ∷ props)))
        (elem "span"
            (class_name
                "pointer-events-none absolute left-1.5 flex size-4 items-center justify-center [&_svg:not([class*='size-'])]:size-4"
              ∷ [])
            (elem "MenuPrimitive.RadioItemIndicator" [] (elem "CheckIcon" [] [] ∷ []) ∷ [])
          ∷ children)

  unfoldable pub menubar_label : Option Text → Option Bool → List (Attr M) → List (Node M) → Node M
  unfolding cn
  menubar_label extra inset props children =
      elem "DropdownMenuLabel"
        (attribute "data-slot" "menubar-label"
          ∷ (optional_flag "data-inset" inset
              ++ (attr (lit "className")
                    (cn styling ((some (lit "px-2 py-2 text-xs data-inset:pl-8")) ∷ extra ∷ []))
                  ∷ props)))
        children

  unfoldable pub menubar_separator : Option Text → List (Attr M) → List (Node M) → Node M
  unfolding cn
  menubar_separator extra props children =
      elem "DropdownMenuSeparator"
        (attribute "data-slot" "menubar-separator"
          ∷ attr (lit "className")
              (cn styling ((some (lit "-mx-1 my-1 h-px bg-border")) ∷ extra ∷ []))
          ∷ props)
        children

  unfoldable pub menubar_shortcut : Option Text → List (Attr M) → List (Node M) → Node M
  unfolding cn
  menubar_shortcut extra props children =
      elem "DropdownMenuShortcut"
        (attribute "data-slot" "menubar-shortcut"
          ∷ attr (lit "className") (
              cn styling (
                (some (
                  lit
                    "ml-auto text-xs tracking-widest text-muted-foreground group-focus/menubar-item:text-accent-foreground"))
                ∷ extra
                ∷ []))
          ∷ props)
        children

  unfoldable pub menubar_sub_trigger :
      Option Text → Option Bool → List (Attr M) → List (Node M) → Node M
  unfolding cn
  menubar_sub_trigger extra inset props children =
      elem "DropdownMenuSubTrigger"
        (attribute "data-slot" "menubar-sub-trigger"
          ∷ (optional_flag "data-inset" inset
              ++ (attr (lit "className") (
                    cn styling (
                      (some (
                        lit
                          "gap-2 rounded-none px-2 py-2 text-xs focus:bg-accent focus:text-accent-foreground data-inset:pl-8 data-open:bg-accent data-open:text-accent-foreground [&_svg:not([class*='size-'])]:size-4"))
                      ∷ extra
                      ∷ []))
                  ∷ props)))
        children

  unfoldable pub menubar_sub_content : Option Text → List (Attr M) → List (Node M) → Node M
  unfolding cn
  menubar_sub_content extra props children =
      elem "DropdownMenuSubContent"
        (attribute "data-slot" "menubar-sub-content"
          ∷ attr (lit "className") (
              cn styling (
                (some (
                  lit
                    "min-w-32 rounded-none bg-popover text-popover-foreground shadow-lg ring-1 ring-foreground/10 duration-100 data-[side=bottom]:slide-in-from-top-2 data-[side=left]:slide-in-from-right-2 data-[side=right]:slide-in-from-left-2 data-[side=top]:slide-in-from-bottom-2 data-open:animate-in data-open:fade-in-0 data-open:zoom-in-95 data-closed:animate-out data-closed:fade-out-0 data-closed:zoom-out-95"))
                ∷ extra
                ∷ []))
          ∷ props)
        children
