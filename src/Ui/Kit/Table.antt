-- ===== src/Ui/Kit/Table.antt =====
-- The parts of docs/src/components/ui/table.tsx.
use quickspin.Prelude.{Option, some, List, [], ◌∷◌}
use quickspin.Text.Units.{Text}
use quickspin.Markup.{Attr, attr, Node, elem, attribute, class_name, lit}
use quickspin.Ui.Styling.{Styling, cn}

module _ {M : Type 0} (styling : Styling) where
  unfoldable pub table : Option Text → List (Attr M) → List (Node M) → Node M
  unfolding cn
  table extra props children =
      elem "div"
        (attribute "data-slot" "table-container"
          ∷ class_name "relative w-full overflow-x-auto"
          ∷ [])
        (elem "table"
            (attribute "data-slot" "table"
              ∷ attr (lit "className")
                  (cn styling ((some (lit "w-full caption-bottom text-xs")) ∷ extra ∷ []))
              ∷ props)
            children
          ∷ [])

  unfoldable pub table_header : Option Text → List (Attr M) → List (Node M) → Node M
  unfolding cn
  table_header extra props children =
      elem "thead"
        (attribute "data-slot" "table-header"
          ∷ attr (lit "className") (cn styling ((some (lit "[&_tr]:border-b")) ∷ extra ∷ []))
          ∷ props)
        children

  unfoldable pub table_body : Option Text → List (Attr M) → List (Node M) → Node M
  unfolding cn
  table_body extra props children =
      elem "tbody"
        (attribute "data-slot" "table-body"
          ∷ attr (lit "className")
              (cn styling ((some (lit "[&_tr:last-child]:border-0")) ∷ extra ∷ []))
          ∷ props)
        children

  unfoldable pub table_footer : Option Text → List (Attr M) → List (Node M) → Node M
  unfolding cn
  table_footer extra props children =
      elem "tfoot"
        (attribute "data-slot" "table-footer"
          ∷ attr (lit "className") (
              cn styling (
                (some (lit "border-t bg-muted/50 font-medium [&>tr]:last:border-b-0"))
                ∷ extra
                ∷ []))
          ∷ props)
        children

  unfoldable pub table_row : Option Text → List (Attr M) → List (Node M) → Node M
  unfolding cn
  table_row extra props children =
      elem "tr"
        (attribute "data-slot" "table-row"
          ∷ attr (lit "className") (
              cn styling (
                (some (
                  lit
                    "border-b transition-colors hover:bg-muted/50 has-aria-expanded:bg-muted/50 data-[state=selected]:bg-muted"))
                ∷ extra
                ∷ []))
          ∷ props)
        children

  unfoldable pub table_head : Option Text → List (Attr M) → List (Node M) → Node M
  unfolding cn
  table_head extra props children =
      elem "th"
        (attribute "data-slot" "table-head"
          ∷ attr (lit "className") (
              cn styling (
                (some (
                  lit
                    "h-10 px-2 text-left align-middle font-medium whitespace-nowrap text-foreground [&:has([role=checkbox])]:pr-0"))
                ∷ extra
                ∷ []))
          ∷ props)
        children

  unfoldable pub table_cell : Option Text → List (Attr M) → List (Node M) → Node M
  unfolding cn
  table_cell extra props children =
      elem "td"
        (attribute "data-slot" "table-cell"
          ∷ attr (lit "className") (
              cn styling (
                (some (lit "p-2 align-middle whitespace-nowrap [&:has([role=checkbox])]:pr-0"))
                ∷ extra
                ∷ []))
          ∷ props)
        children

  unfoldable pub table_caption : Option Text → List (Attr M) → List (Node M) → Node M
  unfolding cn
  table_caption extra props children =
      elem "caption"
        (attribute "data-slot" "table-caption"
          ∷ attr (lit "className")
              (cn styling ((some (lit "mt-4 text-xs text-muted-foreground")) ∷ extra ∷ []))
          ∷ props)
        children
