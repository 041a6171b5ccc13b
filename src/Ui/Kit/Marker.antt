-- ===== src/Ui/Kit/Marker.antt =====
-- The parts of docs/src/components/ui/marker.tsx.
use quickspin.Prelude.{Option, some, List, [], ◌∷◌, get_or}
use quickspin.Text.Units.{Text}
use quickspin.Markup.{Attr, attr, Node, elem, attribute, lit}
use quickspin.Ui.Styling.{Styling, cn, Cva, BaseUi}

abbrev pub marker_variants : Cva
marker_variants = record {
  classes =
      lit
        "group/marker relative flex min-h-4 w-full items-center gap-2 text-left text-xs text-muted-foreground [&_svg:not([class*='size-'])]:size-3.5 [a]:underline [a]:underline-offset-3 [a]:hover:text-foreground";
  variants =
      (
        lit "variant",
        (lit "default", lit "")
            ∷ (
              lit "separator",
              lit
                  "before:mr-1 before:h-px before:min-w-0 before:flex-1 before:bg-border after:ml-1 after:h-px after:min-w-0 after:flex-1 after:bg-border",
            )
            ∷ (lit "border", lit "border-b border-border pb-2")
            ∷ [],
      )
      ∷ [];
  defaults = [];
}

module _ {M : Type 0} (styling : Styling) where
  unfoldable pub marker_icon : Option Text → List (Attr M) → List (Node M) → Node M
  unfolding cn
  marker_icon extra props children =
      elem "span"
        (attribute "data-slot" "marker-icon"
          ∷ attribute "aria-hidden" "true"
          ∷ attr (lit "className") (
              cn styling (
                (some (lit "size-3.5 shrink-0 [&_svg:not([class*='size-'])]:size-3.5"))
                ∷ extra
                ∷ []))
          ∷ props)
        children

  unfoldable pub marker_content : Option Text → List (Attr M) → List (Node M) → Node M
  unfolding cn
  marker_content extra props children =
      elem "span"
        (attribute "data-slot" "marker-content"
          ∷ attr (lit "className") (
              cn styling (
                (some (
                  lit
                    "min-w-0 wrap-break-word group-data-[variant=separator]/marker:flex-none group-data-[variant=separator]/marker:text-center *:[a]:underline *:[a]:underline-offset-3 *:[a]:hover:text-foreground"))
                ∷ extra
                ∷ []))
          ∷ props)
        children

module _ {M : Type 0} (styling : Styling) (base : BaseUi M) where
  unfoldable pub marker :
      Option Text → Option Text → Option (Node M) → List (Attr M) → List (Node M) → Node M
  unfolding cn
  marker extra variant render props children =
      base.use_render (lit "div") render
        (attribute "slot" "marker" ∷ attr (lit "variant") (get_or variant (lit "default")) ∷ [])
        (base.merge_props
          (attr (lit "className") (
              cn styling (
                (some (
                  styling.cva marker_variants (
                    (lit "variant", (some (get_or variant (lit "default"))))
                    ∷ (lit "className", extra)
                    ∷ [])))
                ∷ []))
            ∷ [])
          props)
        children
