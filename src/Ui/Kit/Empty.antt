-- ===== src/Ui/Kit/Empty.antt =====
-- The parts of docs/src/components/ui/empty.tsx.
use quickspin.Prelude.{Option, some, List, [], ◌∷◌, get_or}
use quickspin.Text.Units.{Text}
use quickspin.Markup.{Attr, attr, Node, elem, attribute, lit}
use quickspin.Ui.Styling.{Styling, cn, Cva}

abbrev pub empty_media_variants : Cva
empty_media_variants = record {
  classes =
      lit
        "mb-2 flex shrink-0 items-center justify-center [&_svg]:pointer-events-none [&_svg]:shrink-0";
  variants =
      (
        lit "variant",
        (lit "default", lit "bg-transparent")
            ∷ (
              lit "icon",
              lit
                  "flex size-8 shrink-0 items-center justify-center rounded-none bg-muted text-foreground [&_svg:not([class*='size-'])]:size-4",
            )
            ∷ [],
      )
      ∷ [];
  defaults = (lit "variant", lit "default") ∷ [];
}

module _ {M : Type 0} (styling : Styling) where
  unfoldable pub empty : Option Text → List (Attr M) → List (Node M) → Node M
  unfolding cn
  empty extra props children =
      elem "div"
        (attribute "data-slot" "empty"
          ∷ attr (lit "className") (
              cn styling (
                (some (
                  lit
                    "flex w-full min-w-0 flex-1 flex-col items-center justify-center gap-4 rounded-none border-dashed p-6 text-center text-balance"))
                ∷ extra
                ∷ []))
          ∷ props)
        children

  unfoldable pub empty_header : Option Text → List (Attr M) → List (Node M) → Node M
  unfolding cn
  empty_header extra props children =
      elem "div"
        (attribute "data-slot" "empty-header"
          ∷ attr (lit "className")
              (cn styling ((some (lit "flex max-w-sm flex-col items-center gap-2")) ∷ extra ∷ []))
          ∷ props)
        children

  unfoldable pub empty_media : Option Text → Option Text → List (Attr M) → List (Node M) → Node M
  unfolding cn
  empty_media extra variant props children =
      elem "div"
        (attribute "data-slot" "empty-icon"
          ∷ attr (lit "data-variant") (get_or variant (lit "default"))
          ∷ attr (lit "className") (
              cn styling (
                (some (
                  styling.cva empty_media_variants (
                    (lit "variant", (some (get_or variant (lit "default"))))
                    ∷ (lit "className", extra)
                    ∷ [])))
                ∷ []))
          ∷ props)
        children

  unfoldable pub empty_title : Option Text → List (Attr M) → List (Node M) → Node M
  unfolding cn
  empty_title extra props children =
      elem "div"
        (attribute "data-slot" "empty-title"
          ∷ attr (lit "className") (cn styling ((some (lit "text-sm font-medium")) ∷ extra ∷ []))
          ∷ props)
        children

  unfoldable pub empty_description : Option Text → List (Attr M) → List (Node M) → Node M
  unfolding cn
  empty_description extra props children =
      elem "div"
        (attribute "data-slot" "empty-description"
          ∷ attr (lit "className") (
              cn styling (
                (some (
                  lit
                    "text-xs/relaxed text-muted-foreground [&>a]:underline [&>a]:underline-offset-4 [&>a:hover]:text-primary"))
                ∷ extra
                ∷ []))
          ∷ props)
        children

  unfoldable pub empty_content : Option Text → List (Attr M) → List (Node M) → Node M
  unfolding cn
  empty_content extra props children =
      elem "div"
        (attribute "data-slot" "empty-content"
          ∷ attr (lit "className") (
              cn styling (
                (some (
                  lit
                    "flex w-full max-w-sm min-w-0 flex-col items-center gap-2.5 text-xs text-balance"))
                ∷ extra
                ∷ []))
          ∷ props)
        children
