-- ===== src/Ui/Kit/Textarea.antt =====
-- The parts of docs/src/components/ui/textarea.tsx.
use quickspin.Prelude.{Option, some, List, [], ◌∷◌}
use quickspin.Text.Units.{Text}
use quickspin.Markup.{Attr, attr, Node, elem, attribute, lit}
use quickspin.Ui.Styling.{Styling, cn}

module _ {M : Type 0} (styling : Styling) where
  unfoldable pub textarea : Option Text → List (Attr M) → List (Node M) → Node M
  unfolding cn
  textarea extra props children =
      elem "textarea"
        (attribute "data-slot" "textarea"
          ∷ attr (lit "className") (
              cn styling (
                (some (
                  lit
                    "flex field-sizing-content min-h-16 w-full rounded-none border border-input bg-transparent px-2.5 py-2 text-xs transition-colors outline-none placeholder:text-muted-foreground focus-visible:border-ring focus-visible:ring-1 focus-visible:ring-ring/50 disabled:cursor-not-allowed disabled:bg-input/50 disabled:opacity-50 aria-invalid:border-destructive aria-invalid:ring-1 aria-invalid:ring-destructive/20 md:text-xs dark:bg-input/30 dark:disabled:bg-input/80 dark:aria-invalid:border-destructive/50 dark:aria-invalid:ring-destructive/40"))
                ∷ extra
                ∷ []))
          ∷ props)
        children
