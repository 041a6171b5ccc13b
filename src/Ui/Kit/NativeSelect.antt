-- ===== src/Ui/Kit/NativeSelect.antt =====
-- The parts of docs/src/components/ui/native-select.tsx.
use quickspin.Prelude.{Option, some, List, [], ◌∷◌, get_or}
use quickspin.Text.Units.{Text}
use quickspin.Markup.{Attr, attr, Node, elem, attribute, class_name, lit}
use quickspin.Ui.Styling.{Styling, cn}

module _ {M : Type 0} (styling : Styling) where
  unfoldable pub native_select : Option Text → Option Text → List (Attr M) → List (Node M) → Node M
  unfolding cn
  native_select extra size props children =
      elem "div"
        (attr (lit "className") (
            cn styling (
              (some (lit "group/native-select relative w-fit has-[select:disabled]:opacity-50"))
              ∷ extra
              ∷ []))
          ∷ attribute "data-slot" "native-select-wrapper"
          ∷ attr (lit "data-size") (get_or size (lit "default"))
          ∷ [])
        (elem "select"
            (attribute "data-slot" "native-select"
              ∷ attr (lit "data-size") (get_or size (lit "default"))
              ∷ class_name
                  "h-8 w-full min-w-0 appearance-none rounded-none border border-input bg-transparent py-1 pr-8 pl-2.5 text-xs transition-colors outline-none select-none selection:bg-primary selection:text-primary-foreground placeholder:text-muted-foreground focus-visible:border-ring focus-visible:ring-1 focus-visible:ring-ring/50 disabled:pointer-events-none disabled:cursor-not-allowed aria-invalid:border-destructive aria-invalid:ring-1 aria-invalid:ring-destructive/20 data-[size=sm]:h-7 data-[size=sm]:rounded-none data-[size=sm]:py-0.5 dark:bg-input/30 dark:hover:bg-input/50 dark:aria-invalid:border-destructive/50 dark:aria-invalid:ring-destructive/40"
              ∷ props)
            children
          ∷ elem "ChevronDownIcon"
              (class_name
                  "pointer-events-none absolute top-1/2 right-2.5 size-4 -translate-y-1/2 text-muted-foreground select-none"
                ∷ attribute "aria-hidden" "true"
                ∷ attribute "data-slot" "native-select-icon"
                ∷ [])
              []
          ∷ [])

  unfoldable pub native_select_option : Option Text → List (Attr M) → List (Node M) → Node M
  unfolding cn
  native_select_option extra props children =
      elem "option"
        (attribute "data-slot" "native-select-option"
          ∷ attr (lit "className")
              (cn styling ((some (lit "bg-[Canvas] text-[CanvasText]")) ∷ extra ∷ []))
          ∷ props)
        children

  unfoldable pub native_select_opt_group : Option Text → List (Attr M) → List (Node M) → Node M
  unfolding cn
  native_select_opt_group extra props children =
      elem "optgroup"
        (attribute "data-slot" "native-select-optgroup"
          ∷ attr (lit "className")
              (cn styling ((some (lit "bg-[Canvas] text-[CanvasText]")) ∷ extra ∷ []))
          ∷ props)
        children
