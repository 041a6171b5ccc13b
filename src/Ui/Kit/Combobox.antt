-- ===== src/Ui/Kit/Combobox.antt =====
-- Parts of docs/src/components/ui/combobox.tsx; not modelled here: ComboboxContent, useComboboxAnchor.
use quickspin.Prelude.{Bool, true, false, Option, some, List, [], ◌∷◌, ◌++◌, get_or}
use quickspin.Text.Units.{Text}
use quickspin.Markup.{Attr, attr, Node, elem, attribute, class_name, flag, lit, when}
use quickspin.Ui.Styling.{Styling, cn}

module _ {M : Type 0} where
  unfoldable pub combobox_value : List (Attr M) → List (Node M) → Node M
  combobox_value props children =
      elem "ComboboxPrimitive.Value" (attribute "data-slot" "combobox-value" ∷ props) children

  unfoldable pub combobox_collection : List (Attr M) → List (Node M) → Node M
  combobox_collection props children =
      elem "ComboboxPrimitive.Collection" (attribute "data-slot" "combobox-collection" ∷ props)
        children

module _ {M : Type 0} (styling : Styling) where
  unfoldable pub combobox_trigger : Option Text → List (Attr M) → List (Node M) → Node M
  unfolding cn
  combobox_trigger extra props children =
      elem "ComboboxPrimitive.Trigger"
        (attribute "data-slot" "combobox-trigger"
          ∷ attr (lit "className")
              (cn styling ((some (lit "[&_svg:not([class*='size-'])]:size-4")) ∷ extra ∷ []))
          ∷ props)
        (children
          ++ (elem "ChevronDownIcon"
                (class_name "pointer-events-none size-4 text-muted-foreground" ∷ []) []
              ∷ []))

  unfoldable pub combobox_clear : Option Text → List (Attr M) → Node M
  unfolding cn
  combobox_clear extra props =
      elem "ComboboxPrimitive.Clear"
        (attribute "data-slot" "combobox-clear"
          ∷ attr (lit "className") (cn styling (extra ∷ []))
          ∷ props)
        (elem "render" [] (
            elem "InputGroupButton" (attribute "variant" "ghost" ∷ attribute "size" "icon-xs" ∷ [])
              []
            ∷ [])
          ∷ elem "XIcon" (class_name "pointer-events-none" ∷ []) []
          ∷ [])

  unfoldable pub combobox_input :
      Option Text → Option Bool → Option Bool → Option Bool → List (Attr M) → List (Node M) → Node M
  unfolding cn
  combobox_input extra disabled show_trigger show_clear props children =
      elem "InputGroup"
        (attr (lit "className") (cn styling ((some (lit "w-auto")) ∷ extra ∷ [])) ∷ [])
        (elem "ComboboxPrimitive.Input" props (
            elem "render" []
              (elem "InputGroupInput" (flag (lit "disabled") (get_or disabled false) ∷ []) [] ∷ [])
            ∷ children)
          ∷ (elem "InputGroupAddon" (attribute "align" "inline-end" ∷ []) (
                when (get_or show_trigger true) (
                  elem "InputGroupButton"
                    (attribute "size" "icon-xs"
                      ∷ attribute "variant" "ghost"
                      ∷ attribute "data-slot" "input-group-button"
                      ∷ class_name
                          "group-has-data-[slot=combobox-clear]/input-group:hidden data-pressed:bg-transparent"
                      ∷ flag (lit "disabled") (get_or disabled false)
                      ∷ [])
                    (elem "render" [] (elem "ComboboxTrigger" [] [] ∷ []) ∷ [])
                  ∷ [])
                ++ (when (get_or show_clear false) (
                    elem "ComboboxClear" (flag (lit "disabled") (get_or disabled false) ∷ []) []
                    ∷ [])))
              ∷ children))

  unfoldable pub combobox_list : Option Text → List (Attr M) → List (Node M) → Node M
  unfolding cn
  combobox_list extra props children =
      elem "ComboboxPrimitive.List"
        (attribute "data-slot" "combobox-list"
          ∷ attr (lit "className") (
              cn styling (
                (some (
                  lit
                    "no-scrollbar max-h-[min(calc(--spacing(72)---spacing(9)),calc(var(--available-height)---spacing(9)))] scroll-py-1 overflow-y-auto overscroll-contain data-empty:p-0"))
                ∷ extra
                ∷ []))
          ∷ props)
        children

  unfoldable pub combobox_item : Option Text → List (Attr M) → List (Node M) → Node M
  unfolding cn
  combobox_item extra props children =
      elem "ComboboxPrimitive.Item"
        (attribute "data-slot" "combobox-item"
          ∷ attr (lit "className") (
              cn styling (
                (some (
                  lit
                    "relative flex w-full cursor-default items-center gap-2 rounded-none py-2 pr-8 pl-2 text-xs outline-hidden select-none data-highlighted:bg-accent data-highlighted:text-accent-foreground not-data-[variant=destructive]:data-highlighted:**:text-accent-foreground data-disabled:pointer-events-none data-disabled:opacity-50 [&_svg]:pointer-events-none [&_svg]:shrink-0 [&_svg:not([class*='size-'])]:size-4"))
                ∷ extra
                ∷ []))
          ∷ props)
        (children
          ++ (elem "ComboboxPrimitive.ItemIndicator" [] (
                elem "render" [] (
                  elem "span"
                    (class_name
                        "pointer-events-none absolute right-2 flex size-4 items-center justify-center"
                      ∷ [])
                    []
                  ∷ [])
                ∷ elem "CheckIcon" (class_name "pointer-events-none" ∷ []) []
                ∷ [])
              ∷ []))

  unfoldable pub combobox_group : Option Text → List (Attr M) → List (Node M) → Node M
  unfolding cn
  combobox_group extra props children =
      elem "ComboboxPrimitive.Group"
        (attribute "data-slot" "combobox-group"
          ∷ attr (lit "className") (cn styling (extra ∷ []))
          ∷ props)
        children

  unfoldable pub combobox_label : Option Text → List (Attr M) → List (Node M) → Node M
  unfolding cn
  combobox_label extra props children =
      elem "ComboboxPrimitive.GroupLabel"
        (attribute "data-slot" "combobox-label"
          ∷ attr (lit "className")
              (cn styling ((some (lit "px-2 py-2 text-xs text-muted-foreground")) ∷ extra ∷ []))
          ∷ props)
        children

  unfoldable pub combobox_empty : Option Text → List (Attr M) → List (Node M) → Node M
  unfolding cn
  combobox_empty extra props children =
      elem "ComboboxPrimitive.Empty"
        (attribute "data-slot" "combobox-empty"
          ∷ attr (lit "className") (
              cn styling (
                (some (
                  lit
                    "hidden w-full justify-center py-2 text-center text-xs text-muted-foreground group-data-empty/combobox-content:flex"))
                ∷ extra
                ∷ []))
          ∷ props)
        children

  unfoldable pub combobox_separator : Option Text → List (Attr M) → List (Node M) → Node M
  unfolding cn
  combobox_separator extra props children =
      elem "ComboboxPrimitive.Separator"
        (attribute "data-slot" "combobox-separator"
          ∷ attr (lit "className") (cn styling ((some (lit "-mx-1 h-px bg-border")) ∷ extra ∷ []))
          ∷ props)
        children

  unfoldable pub combobox_chips : Option Text → List (Attr M) → List (Node M) → Node M
  unfolding cn
  combobox_chips extra props children =
      elem "ComboboxPrimitive.Chips"
        (attribute "data-slot" "combobox-chips"
          ∷ attr (lit "className") (
              cn styling (
                (some (
                  lit
                    "flex min-h-8 flex-wrap items-center gap-1 rounded-none border border-input bg-transparent bg-clip-padding px-2.5 py-1 text-xs transition-colors focus-within:border-ring focus-within:ring-1 focus-within:ring-ring/50 has-aria-invalid:border-destructive has-aria-invalid:ring-1 has-aria-invalid:ring-destructive/20 has-data-[slot=combobox-chip]:px-1 dark:bg-input/30 dark:has-aria-invalid:border-destructive/50 dark:has-aria-invalid:ring-destructive/40"))
                ∷ extra
                ∷ []))
          ∷ props)
        children

  unfoldable pub combobox_chip : Option Text → Option Bool → List (Attr M) → List (Node M) → Node M
  unfolding cn
  combobox_chip extra show_remove props children =
      elem "ComboboxPrimitive.Chip"
        (attribute "data-slot" "combobox-chip"
          ∷ attr (lit "className") (
              cn styling (
                (some (
                  lit
                    "flex h-[calc(--spacing(5.25))] w-fit items-center justify-center gap-1 rounded-none bg-muted px-1.5 text-xs font-medium whitespace-nowrap text-foreground has-disabled:pointer-events-none has-disabled:cursor-not-allowed has-disabled:opacity-50 has-data-[slot=combobox-chip-remove]:pr-0"))
                ∷ extra
                ∷ []))
          ∷ props)
        (children
          ++ (when (get_or show_remove true) (
              elem "ComboboxPrimitive.ChipRemove"
                (class_name "-ml-1 opacity-50 hover:opacity-100"
                  ∷ attribute "data-slot" "combobox-chip-remove"
                  ∷ [])
                (elem "render" [] (
                    elem "Button" (attribute "variant" "ghost" ∷ attribute "size" "icon-xs" ∷ []) []
                    ∷ [])
                  ∷ elem "XIcon" (class_name "pointer-events-none" ∷ []) []
                  ∷ [])
              ∷ [])))

  unfoldable pub combobox_chips_input : Option Text → List (Attr M) → List (Node M) → Node M
  unfolding cn
  combobox_chips_input extra props children =
      elem "ComboboxPrimitive.Input"
        (attribute "data-slot" "combobox-chip-input"
          ∷ attr (lit "className")
              (cn styling ((some (lit "min-w-16 flex-1 outline-none")) ∷ extra ∷ []))
          ∷ props)
        children
