-- ===== src/Ui/Kit/Checkbox.antt =====
-- The parts of docs/src/components/ui/checkbox.tsx.
use quickspin.Prelude.{Option, some, List, [], ◌∷◌}
use quickspin.Text.Units.{Text}
use quickspin.Markup.{Attr, attr, Node, elem, attribute, class_name, lit}
use quickspin.Ui.Styling.{Styling, cn}

module _ {M : Type 0} (styling : Styling) where
  unfoldable pub checkbox : Option Text → List (Attr M) → Node M
  unfolding cn
  checkbox extra props =
      elem "CheckboxPrimitive.Root"
        (attribute "data-slot" "checkbox"
          ∷ attr (lit "className") (
              cn styling (
                (some (
                  lit
                    "peer relative flex size-4 shrink-0 items-center justify-center rounded-none border border-input transition-colors outline-none group-has-disabled/field:opacity-50 after:absolute after:-inset-x-3 after:-inset-y-2 focus-visible:border-ring focus-visible:ring-1 focus-visible:ring-ring/50 disabled:cursor-not-allowed disabled:opacity-50 aria-invalid:border-destructive aria-invalid:ring-1 aria-invalid:ring-destructive/20 aria-invalid:aria-checked:border-primary dark:bg-input/30 dark:aria-invalid:border-destructive/50 dark:aria-invalid:ring-destructive/40 data-checked:border-primary data-checked:bg-primary data-checked:text-primary-foreground dark:data-checked:bg-primary"))
                ∷ extra
                ∷ []))
          ∷ props)
        (elem "CheckboxPrimitive.Indicator"
            (attribute "data-slot" "checkbox-indicator"
              ∷ class_name "grid place-content-center text-current transition-none [&>svg]:size-3.5"
              ∷ [])
            (elem "CheckIcon" [] [] ∷ [])
          ∷ [])
