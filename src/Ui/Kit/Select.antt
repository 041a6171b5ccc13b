-- ===== src/Ui/Kit/Select.antt =====
-- The parts of docs/src/components/ui/select.tsx.
use quickspin.Prelude.{ℕ, Bool, true, Option, some, List, [], ◌∷◌, ◌++◌, get_or}
use quickspin.Text.{decimal}
use quickspin.Text.Units.{Text}
use quickspin.Markup.{Attr, attr, Node, elem, attribute, class_name, flag, lit}
use quickspin.Ui.Styling.{Styling, cn}

module _ {M : Type 0} (styling : Styling) where
  unfoldable pub select_group : Option Text → List (Attr M) → List (Node M) → Node M
  unfolding cn
  select_group extra props children =
      elem "SelectPrimitive.Group"
        (attribute "data-slot" "select-group"
          ∷ attr (lit "className") (cn styling ((some (lit "scroll-my-1")) ∷ extra ∷ []))
          ∷ props)
        children

  unfoldable pub select_value : Option Text → List (Attr M) → List (Node M) → Node M
  unfolding cn
  select_value extra props children =
      elem "SelectPrimitive.Value"
        (attribute "data-slot" "select-value"
          ∷ attr (lit "className") (cn styling ((some (lit "flex flex-1 text-left")) ∷ extra ∷ []))
          ∷ props)
        children

  unfoldable pub select_trigger : Option Text → Option Text → List (Attr M) → List (Node M) → Node M
  unfolding cn
  select_trigger extra size props children =
      elem "SelectPrimitive.Trigger"
        (attribute "data-slot" "select-trigger"
          ∷ attr (lit "data-size") (get_or size (lit "default"))
          ∷ attr (lit "className") (
              cn styling (
                (some (
                  lit
                    "flex w-fit items-center justify-between gap-1.5 rounded-none border border-input bg-transparent py-2 pr-2 pl-2.5 text-xs whitespace-nowrap transition-colors outline-none select-none focus-visible:border-ring focus-visible:ring-1 focus-visible:ring-ring/50 disabled:cursor-not-allowed disabled:opacity-50 aria-invalid:border-destructive aria-invalid:ring-1 aria-invalid:ring-destructive/20 data-placeholder:text-muted-foreground data-[size=default]:h-8 data-[size=sm]:h-7 data-[size=sm]:rounded-none *:data-[slot=select-value]:line-clamp-1 *:data-[slot=select-value]:flex *:data-[slot=select-value]:items-center *:data-[slot=select-value]:gap-1.5 dark:bg-input/30 dark:hover:bg-input/50 dark:aria-invalid:border-destructive/50 dark:aria-invalid:ring-destructive/40 [&_svg]:pointer-events-none [&_svg]:shrink-0 [&_svg:not([class*='size-'])]:size-4"))
                ∷ extra
                ∷ []))
          ∷ props)
        (children
          ++ (elem "SelectPrimitive.Icon" [] (
                elem "render" [] (
                  elem "ChevronDownIcon"
                    (class_name "pointer-events-none size-4 text-muted-foreground" ∷ []) []
                  ∷ [])
                ∷ [])
              ∷ []))

  unfoldable pub select_content :
      Option Text
      → Option Text
      → Option ℕ
      → Option Text
      → Option ℕ
      → Option Bool
      → List (Attr M)
      → List (Node M)
      → Node M
  unfolding cn
  select_content extra side side_offset align align_offset align_item_with_trigger props children =
      elem "SelectPrimitive.Portal" [] (
        elem "SelectPrimitive.Positioner"
          (attr (lit "side") (get_or side (lit "bottom"))
            ∷ attr (lit "sideOffset") (decimal (get_or side_offset 4))
            ∷ attr (lit "align") (get_or align (lit "center"))
            ∷ attr (lit "alignOffset") (decimal (get_or align_offset 0))
            ∷ flag (lit "alignItemWithTrigger") (get_or align_item_with_trigger true)
            ∷ class_name "isolate z-50"
            ∷ [])
          (elem "SelectPrimitive.Popup"
              (attribute "data-slot" "select-content"
                ∷ flag (lit "data-align-trigger") (get_or align_item_with_trigger true)
                ∷ attr (lit "className") (
                    cn styling (
                      (some (
                        lit
                          "relative isolate z-50 max-h-(--available-height) w-(--anchor-width) min-w-36 origin-(--transform-origin) overflow-x-hidden overflow-y-auto rounded-none bg-popover text-popover-foreground shadow-md ring-1 ring-foreground/10 duration-100 data-[align-trigger=true]:animate-none data-[side=bottom]:slide-in-from-top-2 data-[side=inline-end]:slide-in-from-left-2 data-[side=inline-start]:slide-in-from-right-2 data-[side=left]:slide-in-from-right-2 data-[side=right]:slide-in-from-left-2 data-[side=top]:slide-in-from-bottom-2 data-open:animate-in data-open:fade-in-0 data-open:zoom-in-95 data-closed:animate-out data-closed:fade-out-0 data-closed:zoom-out-95"))
                      ∷ extra
                      ∷ []))
                ∷ props)
              (elem "SelectScrollUpButton" [] []
                ∷ elem "SelectPrimitive.List" [] children
                ∷ elem "SelectScrollDownButton" [] []
                ∷ [])
            ∷ [])
        ∷ [])

  unfoldable pub select_label : Option Text → List (Attr M) → List (Node M) → Node M
  unfolding cn
  select_label extra props children =
      elem "SelectPrimitive.GroupLabel"
        (attribute "data-slot" "select-label"
          ∷ attr (lit "className")
              (cn styling ((some (lit "px-2 py-2 text-xs text-muted-foreground")) ∷ extra ∷ []))
          ∷ props)
        children

  unfoldable pub select_item : Option Text → List (Attr M) → List (Node M) → Node M
  unfolding cn
  select_item extra props children =
      elem "SelectPrimitive.Item"
        (attribute "data-slot" "select-item"
          ∷ attr (lit "className") (
              cn styling (
                (some (
                  lit
                    "relative flex w-full cursor-default items-center gap-2 rounded-none py-2 pr-8 pl-2 text-xs outline-hidden select-none focus:bg-accent focus:text-accent-foreground not-data-[variant=destructive]:focus:**:text-accent-foreground data-disabled:pointer-events-none data-disabled:opacity-50 [&_svg]:pointer-events-none [&_svg]:shrink-0 [&_svg:not([class*='size-'])]:size-4 *:[span]:last:flex *:[span]:last:items-center *:[span]:last:gap-2"))
                ∷ extra
                ∷ []))
          ∷ props)
        (elem "SelectPrimitive.ItemText"
            (class_name "flex flex-1 shrink-0 gap-2 whitespace-nowrap" ∷ []) children
          ∷ elem "SelectPrimitive.ItemIndicator" [] (
              elem "render" [] (
                elem "span"
                  (class_name
                      "pointer-events-none absolute right-2 flex size-4 items-center justify-center"
                    ∷ [])
                  []
                ∷ [])
              ∷ elem "CheckIcon" (class_name "pointer-events-none" ∷ []) []
              ∷ [])
          ∷ [])

  unfoldable pub select_separator : Option Text → List (Attr M) → List (Node M) → Node M
  unfolding cn
  select_separator extra props children =
      elem "SelectPrimitive.Separator"
        (attribute "data-slot" "select-separator"
          ∷ attr (lit "className")
              (cn styling ((some (lit "pointer-events-none -mx-1 h-px bg-border")) ∷ extra ∷ []))
          ∷ props)
        children

  unfoldable pub select_scroll_up_button : Option Text → List (Attr M) → Node M
  unfolding cn
  select_scroll_up_button extra props =
      elem "SelectPrimitive.ScrollUpArrow"
        (attribute "data-slot" "select-scroll-up-button"
          ∷ attr (lit "className") (
              cn styling (
                (some (
                  lit
                    "top-0 z-10 flex w-full cursor-default items-center justify-center bg-popover py-1 [&_svg:not([class*='size-'])]:size-4"))
                ∷ extra
                ∷ []))
          ∷ props)
        (elem "ChevronUpIcon" [] [] ∷ [])

  unfoldable pub select_scroll_down_button : Option Text → List (Attr M) → Node M
  unfolding cn
  select_scroll_down_button extra props =
      elem "SelectPrimitive.ScrollDownArrow"
        (attribute "data-slot" "select-scroll-down-button"
          ∷ attr (lit "className") (
              cn styling (
                (some (
                  lit
                    "bottom-0 z-10 flex w-full cursor-default items-center justify-center bg-popover py-1 [&_svg:not([class*='size-'])]:size-4"))
                ∷ extra
                ∷ []))
          ∷ props)
        (elem "ChevronDownIcon" [] [] ∷ [])
