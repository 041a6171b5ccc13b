-- ===== src/Ui/Kit/Card.antt =====
-- The parts of docs/src/components/ui/card.tsx.
use quickspin.Prelude.{Option, some, List, [], ◌∷◌, get_or}
use quickspin.Text.Units.{Text}
use quickspin.Markup.{Attr, attr, Node, elem, attribute, lit}
use quickspin.Ui.Styling.{Styling, cn}

module _ {M : Type 0} (styling : Styling) where
  unfoldable pub card : Option Text → Option Text → List (Attr M) → List (Node M) → Node M
  unfolding cn
  card extra size props children =
      elem "div"
        (attribute "data-slot" "card"
          ∷ attr (lit "data-size") (get_or size (lit "default"))
          ∷ attr (lit "className") (
              cn styling (
                (some (
                  lit
                    "group/card flex flex-col gap-(--card-spacing) overflow-hidden rounded-none bg-card py-(--card-spacing) text-xs/relaxed text-card-foreground ring-1 ring-foreground/10 [--card-spacing:--spacing(4)] has-data-[slot=card-footer]:pb-0 has-[>img:first-child]:pt-0 data-[size=sm]:[--card-spacing:--spacing(3)] data-[size=sm]:has-data-[slot=card-footer]:pb-0 *:[img:first-child]:rounded-none *:[img:last-child]:rounded-none"))
                ∷ extra
                ∷ []))
          ∷ props)
        children

  unfoldable pub card_header : Option Text → List (Attr M) → List (Node M) → Node M
  unfolding cn
  card_header extra props children =
      elem "div"
        (attribute "data-slot" "card-header"
          ∷ attr (lit "className") (
              cn styling (
                (some (
                  lit
                    "group/card-header @container/card-header grid auto-rows-min items-start gap-1 rounded-none px-(--card-spacing) has-data-[slot=card-action]:grid-cols-[1fr_auto] has-data-[slot=card-description]:grid-rows-[auto_auto] [.border-b]:pb-(--card-spacing)"))
                ∷ extra
                ∷ []))
          ∷ props)
        children

  unfoldable pub card_title : Option Text → List (Attr M) → List (Node M) → Node M
  unfolding cn
  card_title extra props children =
      elem "div"
        (attribute "data-slot" "card-title"
          ∷ attr (lit "className") (
              cn styling
                ((some (lit "text-sm font-medium group-data-[size=sm]/card:text-sm")) ∷ extra ∷ []))
          ∷ props)
        children

  unfoldable pub card_description : Option Text → List (Attr M) → List (Node M) → Node M
  unfolding cn
  card_description extra props children =
      elem "div"
        (attribute "data-slot" "card-description"
          ∷ attr (lit "className")
              (cn styling ((some (lit "text-xs/relaxed text-muted-foreground")) ∷ extra ∷ []))
          ∷ props)
        children

  unfoldable pub card_action : Option Text → List (Attr M) → List (Node M) → Node M
  unfolding cn
  card_action extra props children =
      elem "div"
        (attribute "data-slot" "card-action"
          ∷ attr (lit "className") (
              cn styling (
                (some (lit "col-start-2 row-span-2 row-start-1 self-start justify-self-end"))
                ∷ extra
                ∷ []))
          ∷ props)
        children

  unfoldable pub card_content : Option Text → List (Attr M) → List (Node M) → Node M
  unfolding cn
  card_content extra props children =
      elem "div"
        (attribute "data-slot" "card-content"
          ∷ attr (lit "className") (cn styling ((some (lit "px-(--card-spacing)")) ∷ extra ∷ []))
          ∷ props)
        children

  unfoldable pub card_footer : Option Text → List (Attr M) → List (Node M) → Node M
  unfolding cn
  card_footer extra props children =
      elem "div"
        (attribute "data-slot" "card-footer"
          ∷ attr (lit "className") (
              cn styling (
                (some (lit "flex items-center rounded-none border-t p-(--card-spacing)"))
                ∷ extra
                ∷ []))
          ∷ props)
        children
