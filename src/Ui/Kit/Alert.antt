-- ===== src/Ui/Kit/Alert.antt =====
-- The parts of docs/src/components/ui/alert.tsx.
use quickspin.Prelude.{Option, some, List, [], ◌∷◌}
use quickspin.Text.Units.{Text}
use quickspin.Markup.{Attr, attr, Node, elem, attribute, lit}
use quickspin.Ui.Styling.{Styling, cn, Cva}

abbrev pub alert_variants : Cva
alert_variants = record {
  classes =
      lit
        "group/alert relative grid w-full gap-0.5 rounded-none border px-2.5 py-2 text-left text-xs has-data-[slot=alert-action]:relative has-data-[slot=alert-action]:pr-18 has-[>svg]:grid-cols-[auto_1fr] has-[>svg]:gap-x-2 *:[svg]:row-span-2 *:[svg]:translate-y-0 *:[svg]:text-current *:[svg:not([class*='size-'])]:size-4";
  variants =
      (
        lit "variant",
        (lit "default", lit "bg-card text-card-foreground")
            ∷ (
              lit "destructive",
              lit
                  "bg-card text-destructive *:data-[slot=alert-description]:text-destructive/90 *:[svg]:text-current",
            )
            ∷ [],
      )
      ∷ [];
  defaults = (lit "variant", lit "default") ∷ [];
}

module _ {M : Type 0} (styling : Styling) where
  unfoldable pub alert : Option Text → Option Text → List (Attr M) → List (Node M) → Node M
  unfolding cn
  alert extra variant props children =
      elem "div"
        (attribute "data-slot" "alert"
          ∷ attribute "role" "alert"
          ∷ attr (lit "className") (
              cn styling
                ((some (styling.cva alert_variants ((lit "variant", variant) ∷ []))) ∷ extra ∷ []))
          ∷ props)
        children

  unfoldable pub alert_title : Option Text → List (Attr M) → List (Node M) → Node M
  unfolding cn
  alert_title extra props children =
      elem "div"
        (attribute "data-slot" "alert-title"
          ∷ attr (lit "className") (
              cn styling (
                (some (
                  lit
                    "font-medium group-has-[>svg]/alert:col-start-2 [&_a]:underline [&_a]:underline-offset-3 [&_a]:hover:text-foreground"))
                ∷ extra
                ∷ []))
          ∷ props)
        children

  unfoldable pub alert_description : Option Text → List (Attr M) → List (Node M) → Node M
  unfolding cn
  alert_description extra props children =
      elem "div"
        (attribute "data-slot" "alert-description"
          ∷ attr (lit "className") (
              cn styling (
                (some (
                  lit
                    "text-xs/relaxed text-balance text-muted-foreground md:text-pretty [&_a]:underline [&_a]:underline-offset-3 [&_a]:hover:text-foreground [&_p:not(:last-child)]:mb-2"))
                ∷ extra
                ∷ []))
          ∷ props)
        children

  unfoldable pub alert_action : Option Text → List (Attr M) → List (Node M) → Node M
  unfolding cn
  alert_action extra props children =
      elem "div"
        (attribute "data-slot" "alert-action"
          ∷ attr (lit "className") (
              cn styling (
                (some (lit "absolute top-[calc(--spacing(1.25))] right-[calc(--spacing(1.25))]"))
                ∷ extra
                ∷ []))
          ∷ props)
        children
