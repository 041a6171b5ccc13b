-- ===== src/Ui/Kit/ContextMenu.antt =====
-- The parts of docs/src/components/ui/context-menu.tsx.
use quickspin.Prelude.{ℕ, Bool, Option, some, List, [], ◌∷◌, ◌++◌, get_or}
use quickspin.Text.{decimal}
use quickspin.Text.Units.{Text}
use quickspin.Markup.{Attr, attr, Node, elem, attribute, class_name, lit, optional_flag}
use quickspin.Ui.Styling.{Styling, cn}

module _ {M : Type 0} where
  unfoldable pub context_menu : List (Attr M) → List (Node M) → Node M
  context_menu props children =
      elem "ContextMenuPrimitive.Root" (attribute "data-slot" "context-menu" ∷ props) children

  unfoldable pub context_menu_portal : List (Attr M) → List (Node M) → Node M
  context_menu_portal props children =
      elem "ContextMenuPrimitive.Portal" (attribute "data-slot" "context-menu-portal" ∷ props)
        children

  unfoldable pub context_menu_group : List (Attr M) → List (Node M) → Node M
  context_menu_group props children =
      elem "ContextMenuPrimitive.Group" (attribute "data-slot" "context-menu-group" ∷ props)
        children

  unfoldable pub context_menu_sub : List (Attr M) → List (Node M) → Node M
  context_menu_sub props children =
      elem "ContextMenuPrimitive.SubmenuRoot" (attribute "data-slot" "context-menu-sub" ∷ props)
        children

  unfoldable pub context_menu_sub_content : List (Attr M) → List (Node M) → Node M
  context_menu_sub_content props children =
      elem "ContextMenuContent"
        (attribute "data-slot" "context-menu-sub-content"
          ∷ class_name "shadow-lg"
          ∷ attribute "side" "right"
          ∷ props)
        children

  unfoldable pub context_menu_radio_group : List (Attr M) → List (Node M) → Node M
  context_menu_radio_group props children =
      elem "ContextMenuPrimitive.RadioGroup"
        (attribute "data-slot" "context-menu-radio-group" ∷ props) children

module _ {M : Type 0} (styling : Styling) where
  unfoldable pub context_menu_trigger : Option Text → List (Attr M) → List (Node M) → Node M
  unfolding cn
  context_menu_trigger extra props children =
      elem "ContextMenuPrimitive.Trigger"
        (attribute "data-slot" "context-menu-trigger"
          ∷ attr (lit "className") (cn styling ((some (lit "select-none")) ∷ extra ∷ []))
          ∷ props)
        children

  unfoldable pub context_menu_content :
      Option Text
      → Option Text
      → Option ℕ
      → Option Text
      → Option ℕ
      → List (Attr M)
      → List (Node M)
      → Node M
  unfolding cn
  context_menu_content extra align align_offset side side_offset props children =
      elem "ContextMenuPrimitive.Portal" [] (
        elem "ContextMenuPrimitive.Positioner"
          (class_name "isolate z-50 outline-none"
            ∷ attr (lit "align") (get_or align (lit "start"))
            ∷ attr (lit "alignOffset") (decimal (get_or align_offset 4))
            ∷ attr (lit "side") (get_or side (lit "right"))
            ∷ attr (lit "sideOffset") (decimal (get_or side_offset 0))
            ∷ [])
          (elem "ContextMenuPrimitive.Popup"
              (attribute "data-slot" "context-menu-content"
                ∷ attr (lit "className") (
                    cn styling (
                      (some (
                        lit
                          "z-50 max-h-(--available-height) min-w-36 origin-(--transform-origin) overflow-x-hidden overflow-y-auto rounded-none bg-popover text-popover-foreground shadow-md ring-1 ring-foreground/10 duration-100 outline-none data-[side=bottom]:slide-in-from-top-2 data-[side=inline-end]:slide-in-from-left-2 data-[side=inline-start]:slide-in-from-right-2 data-[side=left]:slide-in-from-right-2 data-[side=right]:slide-in-from-left-2 data-[side=top]:slide-in-from-bottom-2 data-open:animate-in data-open:fade-in-0 data-open:zoom-in-95 data-closed:animate-out data-closed:fade-out-0 data-closed:zoom-out-95"))
                      ∷ extra
                      ∷ []))
                ∷ props)
              children
            ∷ [])
        ∷ [])

  unfoldable pub context_menu_label :
      Option Text → Option Bool → List (Attr M) → List (Node M) → Node M
  unfolding cn
  context_menu_label extra inset props children =
      elem "ContextMenuPrimitive.GroupLabel"
        (attribute "data-slot" "context-menu-label"
          ∷ (optional_flag "data-inset" inset
              ++ (attr (lit "className") (
                    cn styling (
                      (some (lit "px-2 py-2 text-xs text-muted-foreground data-inset:pl-7"))
                      ∷ extra
                      ∷ []))
                  ∷ props)))
        children

  unfoldable pub context_menu_item :
      Option Text → Option Bool → Option Text → List (Attr M) → List (Node M) → Node M
  unfolding cn
  context_menu_item extra inset variant props children =
      elem "ContextMenuPrimitive.Item"
        (attribute "data-slot" "context-menu-item"
          ∷ (optional_flag "data-inset" inset
              ++ (attr (lit "data-variant") (get_or variant (lit "default"))
                  ∷ attr (lit "className") (
                      cn styling (
                        (some (
                          lit
                            "group/context-menu-item relative flex cursor-default items-center gap-2 rounded-none px-2 py-2 text-xs outline-hidden select-none focus:bg-accent focus:text-accent-foreground data-inset:pl-7 data-[variant=destructive]:text-destructive data-[variant=destructive]:focus:bg-destructive/10 data-[variant=destructive]:focus:text-destructive dark:data-[variant=destructive]:focus:bg-destructive/20 data-disabled:pointer-events-none data-disabled:opacity-50 [&_svg]:pointer-events-none [&_svg]:shrink-0 [&_svg:not([class*='size-'])]:size-4 focus:*:[svg]:text-accent-foreground data-[variant=destructive]:*:[svg]:text-destructive"))
                        ∷ extra
                        ∷ []))
                  ∷ props)))
        children

  unfoldable pub context_menu_sub_trigger :
      Option Text → Option Bool → List (Attr M) → List (Node M) → Node M
  unfolding cn
  context_menu_sub_trigger extra inset props children =
      elem "ContextMenuPrimitive.SubmenuTrigger"
        (attribute "data-slot" "context-menu-sub-trigger"
          ∷ (optional_flag "data-inset" inset
              ++ (attr (lit "className") (
                    cn styling (
                      (some (
                        lit
                          "flex cursor-default items-center gap-2 rounded-none px-2 py-2 text-xs outline-hidden select-none focus:bg-accent focus:text-accent-foreground data-inset:pl-7 data-open:bg-accent data-open:text-accent-foreground [&_svg]:pointer-events-none [&_svg]:shrink-0 [&_svg:not([class*='size-'])]:size-4"))
                      ∷ extra
                      ∷ []))
                  ∷ props)))
        (children ++ (elem "ChevronRightIcon" (class_name "ml-auto" ∷ []) [] ∷ []))

  unfoldable pub context_menu_checkbox_item :
      Option Text → Option Bool → Option Bool → List (Attr M) → List (Node M) → Node M
  unfolding cn
  context_menu_checkbox_item extra checked inset props children =
      elem "ContextMenuPrimitive.CheckboxItem"
        (attribute "data-slot" "context-menu-checkbox-item"
          ∷ (optional_flag "data-inset" inset
              ++ (attr (lit "className") (
                    cn styling (
                      (some (
                        lit
                          "relative flex cursor-default items-center gap-2 rounded-none py-2 pr-8 pl-2 text-xs outline-hidden select-none focus:bg-accent focus:text-accent-foreground data-inset:pl-7 data-disabled:pointer-events-none data-disabled:opacity-50 [&_svg]:pointer-events-none [&_svg]:shrink-0 [&_svg:not([class*='size-'])]:size-4"))
                      ∷ extra
                      ∷ []))
                  ∷ (optional_flag "checked" checked ++ props))))
        (elem "span" (class_name "pointer-events-none absolute right-2" ∷ []) (
            elem "ContextMenuPrimitive.CheckboxItemIndicator" [] (elem "CheckIcon" [] [] ∷ []) ∷ [])
          ∷ children)

  unfoldable pub context_menu_radio_item :
      Option Text → Option Bool → List (Attr M) → List (Node M) → Node M
  unfolding cn
  context_menu_radio_item extra inset props children =
      elem "ContextMenuPrimitive.RadioItem"
        (attribute "data-slot" "context-menu-radio-item"
          ∷ (optional_flag "data-inset" inset
              ++ (attr (lit "className") (
                    cn styling (
                      (some (
                        lit
                          "relative flex cursor-default items-center gap-2 rounded-none py-2 pr-8 pl-2 text-xs outline-hidden select-none focus:bg-accent focus:text-accent-foreground data-inset:pl-7 data-disabled:pointer-events-none data-disabled:opacity-50 [&_svg]:pointer-events-none [&_svg]:shrink-0 [&_svg:not([class*='size-'])]:size-4"))
                      ∷ extra
                      ∷ []))
                  ∷ props)))
        (elem "span" (class_name "pointer-events-none absolute right-2" ∷ [])
            (elem "ContextMenuPrimitive.RadioItemIndicator" [] (elem "CheckIcon" [] [] ∷ []) ∷ [])
          ∷ children)

  unfoldable pub context_menu_separator : Option Text → List (Attr M) → List (Node M) → Node M
  unfolding cn
  context_menu_separator extra props children =
      elem "ContextMenuPrimitive.Separator"
        (attribute "data-slot" "context-menu-separator"
          ∷ attr (lit "className") (cn styling ((some (lit "-mx-1 h-px bg-border")) ∷ extra ∷ []))
          ∷ props)
        children

  unfoldable pub context_menu_shortcut : Option Text → List (Attr M) → List (Node M) → Node M
  unfolding cn
  context_menu_shortcut extra props children =
      elem "span"
        (attribute "data-slot" "context-menu-shortcut"
          ∷ attr (lit "className") (
              cn styling (
                (some (
                  lit
                    "ml-auto text-xs tracking-widest text-muted-foreground group-focus/context-menu-item:text-accent-foreground"))
                ∷ extra
                ∷ []))
          ∷ props)
        children
