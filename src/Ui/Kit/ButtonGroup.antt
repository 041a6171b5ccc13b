-- ===== src/Ui/Kit/ButtonGroup.antt =====
-- The parts of docs/src/components/ui/button-group.tsx.
use quickspin.Prelude.{Option, some, List, [], ◌∷◌, ◌++◌, get_or}
use quickspin.Text.Units.{Text}
use quickspin.Markup.{Attr, attr, Node, elem, attribute, lit, optional}
use quickspin.Ui.Styling.{Styling, cn, Cva, BaseUi}

abbrev pub button_group_variants : Cva
button_group_variants = record {
  classes =
      lit
        "flex w-fit items-stretch rounded-none *:focus-visible:relative *:focus-visible:z-10 has-[>[data-slot=button-group]]:gap-2 has-[select[aria-hidden=true]:last-child]:[&>[data-slot=select-trigger]:last-of-type]:rounded-none [&>[data-slot=select-trigger]:not([class*='w-'])]:w-fit [&>input]:flex-1";
  variants =
      (
        lit "orientation",
        (
          lit "horizontal",
          lit
              "*:data-slot:rounded-r-none [&>[data-slot]~[data-slot]]:rounded-l-none [&>[data-slot]~[data-slot]]:border-l-0",
        )
            ∷ (
              lit "vertical",
              lit
                  "flex-col *:data-slot:rounded-b-none [&>[data-slot]~[data-slot]]:rounded-t-none [&>[data-slot]~[data-slot]]:border-t-0",
            )
            ∷ [],
      )
      ∷ [];
  defaults = (lit "orientation", lit "horizontal") ∷ [];
}

module _ {M : Type 0} (styling : Styling) where
  unfoldable pub button_group : Option Text → Option Text → List (Attr M) → List (Node M) → Node M
  unfolding cn
  button_group extra orientation props children =
      elem "div"
        (attribute "role" "group"
          ∷ (attribute "data-slot" "button-group"
              ∷ (optional "data-orientation" orientation
                  ++ (attr (lit "className") (
                        cn styling (
                          (some (
                            styling.cva button_group_variants
                              ((lit "orientation", orientation) ∷ [])))
                          ∷ extra
                          ∷ []))
                      ∷ props))))
        children

  unfoldable pub button_group_separator :
      Option Text → Option Text → List (Attr M) → List (Node M) → Node M
  unfolding cn
  button_group_separator extra orientation props children =
      elem "Separator"
        (attribute "data-slot" "button-group-separator"
          ∷ attr (lit "orientation") (get_or orientation (lit "vertical"))
          ∷ attr (lit "className") (
              cn styling (
                (some (
                  lit
                    "relative self-stretch bg-input data-horizontal:mx-px data-horizontal:w-auto data-vertical:my-px data-vertical:h-auto"))
                ∷ extra
                ∷ []))
          ∷ props)
        children

module _ {M : Type 0} (styling : Styling) (base : BaseUi M) where
  unfoldable pub button_group_text :
      Option Text → Option (Node M) → List (Attr M) → List (Node M) → Node M
  unfolding cn
  button_group_text extra render props children =
      base.use_render (lit "div") render (attribute "slot" "button-group-text" ∷ [])
        (base.merge_props
          (attr (lit "className") (
              cn styling (
                (some (
                  lit
                    "flex items-center gap-2 rounded-none border bg-muted px-2.5 text-xs font-medium [&_svg]:pointer-events-none [&_svg:not([class*='size-'])]:size-4"))
                ∷ extra
                ∷ []))
            ∷ [])
          props)
        children
