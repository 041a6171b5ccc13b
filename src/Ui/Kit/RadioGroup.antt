-- ===== src/Ui/Kit/RadioGroup.antt =====
-- The parts of docs/src/components/ui/radio-group.tsx.
use quickspin.Prelude.{Option, some, List, [], ◌∷◌}
use quickspin.Text.Units.{Text}
use quickspin.Markup.{Attr, attr, Node, elem, attribute, class_name, lit}
use quickspin.Ui.Styling.{Styling, cn}

module _ {M : Type 0} (styling : Styling) where
  unfoldable pub radio_group : Option Text → List (Attr M) → List (Node M) → Node M
  unfolding cn
  radio_group extra props children =
      elem "RadioGroupPrimitive"
        (attribute "data-slot" "radio-group"
          ∷ attr (lit "className") (cn styling ((some (lit "grid w-full gap-2")) ∷ extra ∷ []))
          ∷ props)
        children

  unfoldable pub radio_group_item : Option Text → List (Attr M) → Node M
  unfolding cn
  radio_group_item extra props =
      elem "RadioPrimitive.Root"
        (attribute "data-slot" "radio-group-item"
          ∷ attr (lit "className") (
              cn styling (
                (some (
                  lit
                    "group/radio-group-item peer relative flex aspect-square size-4 shrink-0 rounded-full border border-input outline-none after:absolute after:-inset-x-3 after:-inset-y-2 focus-visible:border-ring focus-visible:ring-3 focus-visible:ring-ring/50 disabled:cursor-not-allowed disabled:opacity-50 aria-invalid:border-destructive aria-invalid:ring-3 aria-invalid:ring-destructive/20 aria-invalid:aria-checked:border-primary dark:bg-input/30 dark:aria-invalid:border-destructive/50 dark:aria-invalid:ring-destructive/40 data-checked:border-primary data-checked:bg-primary data-checked:text-primary-foreground dark:data-checked:bg-primary"))
                ∷ extra
                ∷ []))
          ∷ props)
        (elem "RadioPrimitive.Indicator"
            (attribute "data-slot" "radio-group-indicator"
              ∷ class_name "flex size-4 items-center justify-center"
              ∷ [])
            (elem "span"
                (class_name
                    "absolute top-1/2 left-1/2 size-2 -translate-x-1/2 -translate-y-1/2 rounded-full bg-primary-foreground"
                  ∷ [])
                []
              ∷ [])
          ∷ [])
