-- ===== src/Ui/Kit/Progress.antt =====
-- Parts of docs/src/components/ui/progress.tsx; not modelled here: Progress.
use quickspin.Prelude.{Option, some, List, [], ◌∷◌}
use quickspin.Text.Units.{Text}
use quickspin.Markup.{Attr, attr, Node, elem, attribute, lit}
use quickspin.Ui.Styling.{Styling, cn}

module _ {M : Type 0} (styling : Styling) where
  unfoldable pub progress_track : Option Text → List (Attr M) → List (Node M) → Node M
  unfolding cn
  progress_track extra props children =
      elem "ProgressPrimitive.Track"
        (attr (lit "className") (
            cn styling (
              (some (
                lit
                  "relative flex h-1 w-full items-center overflow-x-hidden rounded-none bg-muted"))
              ∷ extra
              ∷ []))
          ∷ attribute "data-slot" "progress-track"
          ∷ props)
        children

  unfoldable pub progress_indicator : Option Text → List (Attr M) → List (Node M) → Node M
  unfolding cn
  progress_indicator extra props children =
      elem "ProgressPrimitive.Indicator"
        (attribute "data-slot" "progress-indicator"
          ∷ attr (lit "className")
              (cn styling ((some (lit "h-full bg-primary transition-all")) ∷ extra ∷ []))
          ∷ props)
        children

  unfoldable pub progress_label : Option Text → List (Attr M) → List (Node M) → Node M
  unfolding cn
  progress_label extra props children =
      elem "ProgressPrimitive.Label"
        (attr (lit "className") (cn styling ((some (lit "text-xs")) ∷ extra ∷ []))
          ∷ attribute "data-slot" "progress-label"
          ∷ props)
        children

  unfoldable pub progress_value : Option Text → List (Attr M) → List (Node M) → Node M
  unfolding cn
  progress_value extra props children =
      elem "ProgressPrimitive.Value"
        (attr (lit "className") (
            cn styling
              ((some (lit "ml-auto text-xs text-muted-foreground tabular-nums")) ∷ extra ∷ []))
          ∷ attribute "data-slot" "progress-value"
          ∷ props)
        children
