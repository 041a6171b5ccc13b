-- ===== src/Ui/Kit/Kbd.antt =====
-- The parts of docs/src/components/ui/kbd.tsx.
use quickspin.Prelude.{Option, some, List, [], ◌∷◌}
use quickspin.Text.Units.{Text}
use quickspin.Markup.{Attr, attr, Node, elem, attribute, lit}
use quickspin.Ui.Styling.{Styling, cn}

module _ {M : Type 0} (styling : Styling) where
  unfoldable pub kbd : Option Text → List (Attr M) → List (Node M) → Node M
  unfolding cn
  kbd extra props children =
      elem "kbd"
        (attribute "data-slot" "kbd"
          ∷ attr (lit "className") (
              cn styling (
                (some (
                  lit
                    "pointer-events-none inline-flex h-5 w-fit min-w-5 items-center justify-center gap-1 rounded-none bg-muted px-1 font-sans text-xs font-medium text-muted-foreground select-none in-data-[slot=tooltip-content]:bg-background/20 in-data-[slot=tooltip-content]:text-background dark:in-data-[slot=tooltip-content]:bg-background/10 [&_svg:not([class*='size-'])]:size-3"))
                ∷ extra
                ∷ []))
          ∷ props)
        children

  unfoldable pub kbd_group : Option Text → List (Attr M) → List (Node M) → Node M
  unfolding cn
  kbd_group extra props children =
      elem "kbd"
        (attribute "data-slot" "kbd-group"
          ∷ attr (lit "className")
              (cn styling ((some (lit "inline-flex items-center gap-1")) ∷ extra ∷ []))
          ∷ props)
        children
