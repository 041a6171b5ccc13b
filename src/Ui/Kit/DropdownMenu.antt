-- ===== src/Ui/Kit/DropdownMenu.antt =====
-- Parts of docs/src/components/ui/dropdown-menu.tsx; not modelled here: DropdownMenuSubContent.
use quickspin.Prelude.{ℕ, Bool, Option, some, List, [], ◌∷◌, ◌++◌, get_or}
use quickspin.Text.{decimal}
use quickspin.Text.Units.{Text}
use quickspin.Markup.{Attr, attr, Node, elem, attribute, class_name, lit, optional_flag}
use quickspin.Ui.Styling.{Styling, cn}

module _ {M : Type 0} where
  unfoldable pub dropdown_menu : List (Attr M) → List (Node M) → Node M
  dropdown_menu props children =
      elem "MenuPrimitive.Root" (attribute "data-slot" "dropdown-menu" ∷ props) children

  unfoldable pub dropdown_menu_portal : List (Attr M) → List (Node M) → Node M
  dropdown_menu_portal props children =
      elem "MenuPrimitive.Portal" (attribute "data-slot" "dropdown-menu-portal" ∷ props) children

  unfoldable pub dropdown_menu_trigger : List (Attr M) → List (Node M) → Node M
  dropdown_menu_trigger props children =
      elem "MenuPrimitive.Trigger" (attribute "data-slot" "dropdown-menu-trigger" ∷ props) children

  unfoldable pub dropdown_menu_group : List (Attr M) → List (Node M) → Node M
  dropdown_menu_group props children =
      elem "MenuPrimitive.Group" (attribute "data-slot" "dropdown-menu-group" ∷ props) children

  unfoldable pub dropdown_menu_sub : List (Attr M) → List (Node M) → Node M
  dropdown_menu_sub props children =
      elem "MenuPrimitive.SubmenuRoot" (attribute "data-slot" "dropdown-menu-sub" ∷ props) children

  unfoldable pub dropdown_menu_radio_group : List (Attr M) → List (Node M) → Node M
  dropdown_menu_radio_group props children =
      elem "MenuPrimitive.RadioGroup" (attribute "data-slot" "dropdown-menu-radio-group" ∷ props)
        children

module _ {M : Type 0} (styling : Styling) where
  unfoldable pub dropdown_menu_content :
      Option Text
      → Option ℕ
      → Option Text
      → Option ℕ
      → Option Text
      → List (Attr M)
      → List (Node M)
      → Node M
  unfolding cn
  dropdown_menu_content align align_offset side side_offset extra props children =
      elem "MenuPrimitive.Portal" [] (
        elem "MenuPrimitive.Positioner"
          (class_name "isolate z-50 outline-none"
            ∷ attr (lit "align") (get_or align (lit "start"))
            ∷ attr (lit "alignOffset") (decimal (get_or align_offset 0))
            ∷ attr (lit "side") (get_or side (lit "bottom"))
            ∷ attr (lit "sideOffset") (decimal (get_or side_offset 4))
            ∷ [])
          (elem "MenuPrimitive.Popup"
              (attribute "data-slot" "dropdown-menu-content"
                ∷ attr (lit "className") (
                    cn styling (
                      (some (
                        lit
                          "z-50 max-h-(--available-height) w-(--anchor-width) min-w-32 origin-(--transform-origin) overflow-x-hidden overflow-y-auto rounded-none bg-popover text-popover-foreground shadow-md ring-1 ring-foreground/10 duration-100 outline-none data-[side=bottom]:slide-in-from-top-2 data-[side=inline-end]:slide-in-from-left-2 data-[side=inline-start]:slide-in-from-right-2 data-[side=left]:slide-in-from-right-2 data-[side=right]:slide-in-from-left-2 data-[side=top]:slide-in-from-bottom-2 data-open:animate-in data-open:fade-in-0 data-open:zoom-in-95 data-closed:animate-out data-closed:overflow-hidden data-closed:fade-out-0 data-closed:zoom-out-95"))
                      ∷ extra
                      ∷ []))
                ∷ props)
              children
            ∷ [])
        ∷ [])

  unfoldable pub dropdown_menu_label :
      Option Text → Option Bool → List (Attr M) → List (Node M) → Node M
  unfolding cn
  dropdown_menu_label extra inset props children =
      elem "MenuPrimitive.GroupLabel"
        (attribute "data-slot" "dropdown-menu-label"
          ∷ (optional_flag "data-inset" inset
              ++ (attr (lit "className") (
                    cn styling (
                      (some (lit "px-2 py-2 text-xs text-muted-foreground data-inset:pl-7"))
                      ∷ extra
                      ∷ []))
                  ∷ props)))
        children

  unfoldable pub dropdown_menu_item :
      Option Text → Option Bool → Option Text → List (Attr M) → List (Node M) → Node M
  unfolding cn
  dropdown_menu_item extra inset variant props children =
      elem "MenuPrimitive.Item"
        (attribute "data-slot" "dropdown-menu-item"
          ∷ (optional_flag "data-inset" inset
              ++ (attr (lit "data-variant") (get_or variant (lit "default"))
                  ∷ attr (lit "className") (
                      cn styling (
                        (some (
                          lit
                            "group/dropdown-menu-item relative flex cursor-default items-center gap-2 rounded-none px-2 py-2 text-xs outline-hidden select-none focus:bg-accent focus:text-accent-foreground not-data-[variant=destructive]:focus:**:text-accent-foreground data-inset:pl-7 data-[variant=destructive]:text-destructive data-[variant=destructive]:focus:bg-destructive/10 data-[variant=destructive]:focus:text-destructive dark:data-[variant=destructive]:focus:bg-destructive/20 data-disabled:pointer-events-none data-disabled:opacity-50 [&_svg]:pointer-events-none [&_svg]:shrink-0 [&_svg:not([class*='size-'])]:size-4 data-[variant=destructive]:*:[svg]:text-destructive"))
                        ∷ extra
                        ∷ []))
                  ∷ props)))
        children

  unfoldable pub dropdown_menu_sub_trigger :
      Option Text → Option Bool → List (Attr M) → List (Node M) → Node M
  unfolding cn
  dropdown_menu_sub_trigger extra inset props children =
      elem "MenuPrimitive.SubmenuTrigger"
        (attribute "data-slot" "dropdown-menu-sub-trigger"
          ∷ (optional_flag "data-inset" inset
              ++ (attr (lit "className") (
                    cn styling (
                      (some (
                        lit
                          "flex cursor-default items-center gap-2 rounded-none px-2 py-2 text-xs outline-hidden select-none focus:bg-accent focus:text-accent-foreground not-data-[variant=destructive]:focus:**:text-accent-foreground data-inset:pl-7 data-popup-open:bg-accent data-popup-open:text-accent-foreground data-open:bg-accent data-open:text-accent-foreground [&_svg]:pointer-events-none [&_svg]:shrink-0 [&_svg:not([class*='size-'])]:size-4"))
                      ∷ extra
                      ∷ []))
                  ∷ props)))
        (children ++ (elem "ChevronRightIcon" (class_name "ml-auto" ∷ []) [] ∷ []))

  unfoldable pub dropdown_menu_checkbox_item :
      Option Text → Option Bool → Option Bool → List (Attr M) → List (Node M) → Node M
  unfolding cn
  dropdown_menu_checkbox_item extra checked inset props children =
      elem "MenuPrimitive.CheckboxItem"
        (attribute "data-slot" "dropdown-menu-checkbox-item"
          ∷ (optional_flag "data-inset" inset
              ++ (attr (lit "className") (
                    cn styling (
                      (some (
                        lit
                          "relative flex cursor-default items-center gap-2 rounded-none py-2 pr-8 pl-2 text-xs outline-hidden select-none focus:bg-accent focus:text-accent-foreground focus:**:text-accent-foreground data-inset:pl-7 data-disabled:pointer-events-none data-disabled:opacity-50 [&_svg]:pointer-events-none [&_svg]:shrink-0 [&_svg:not([class*='size-'])]:size-4"))
                      ∷ extra
                      ∷ []))
                  ∷ (optional_flag "checked" checked ++ props))))
        (elem "span"
            (class_name "pointer-events-none absolute right-2 flex items-center justify-center"
              ∷ attribute "data-slot" "dropdown-menu-checkbox-item-indicator"
              ∷ [])
            (elem "MenuPrimitive.CheckboxItemIndicator" [] (elem "CheckIcon" [] [] ∷ []) ∷ [])
          ∷ children)

  unfoldable pub dropdown_menu_radio_item :
      Option Text → Option Bool → List (Attr M) → List (Node M) → Node M
  unfolding cn
  dropdown_menu_radio_item extra inset props children =
      elem "MenuPrimitive.RadioItem"
        (attribute "data-slot" "dropdown-menu-radio-item"
          ∷ (optional_flag "data-inset" inset
              ++ (attr (lit "className") (
                    cn styling (
                      (some (
                        lit
                          "relative flex cursor-default items-center gap-2 rounded-none py-2 pr-8 pl-2 text-xs outline-hidden select-none focus:bg-accent focus:text-accent-foreground focus:**:text-accent-foreground data-inset:pl-7 data-disabled:pointer-events-none data-disabled:opacity-50 [&_svg]:pointer-events-none [&_svg]:shrink-0 [&_svg:not([class*='size-'])]:size-4"))
                      ∷ extra
                      ∷ []))
                  ∷ props)))
        (elem "span"
            (class_name "pointer-events-none absolute right-2 flex items-center justify-center"
              ∷ attribute "data-slot" "dropdown-menu-radio-item-indicator"
              ∷ [])
            (elem "MenuPrimitive.RadioItemIndicator" [] (elem "CheckIcon" [] [] ∷ []) ∷ [])
          ∷ children)

  unfoldable pub dropdown_menu_separator : Option Text → List (Attr M) → List (Node M) → Node M
  unfolding cn
  dropdown_menu_separator extra props children =
      elem "MenuPrimitive.Separator"
        (attribute "data-slot" "dropdown-menu-separator"
          ∷ attr (lit "className") (cn styling ((some (lit "-mx-1 h-px bg-border")) ∷ extra ∷ []))
          ∷ props)
        children

  unfoldable pub dropdown_menu_shortcut : Option Text → List (Attr M) → List (Node M) → Node M
  unfolding cn
  dropdown_menu_shortcut extra props children =
      elem "span"
        (attribute "data-slot" "dropdown-menu-shortcut"
          ∷ attr (lit "className") (
              cn styling (
                (some (
                  lit
                    "ml-auto text-xs tracking-widest text-muted-foreground group-focus/dropdown-menu-item:text-accent-foreground"))
                ∷ extra
                ∷ []))
          ∷ props)
        children
