-- ===== src/Ui/Kit/Pagination.antt =====
-- Parts of docs/src/components/ui/pagination.tsx; not modelled here: PaginationLink.
use quickspin.Prelude.{true, Option, some, List, [], ◌∷◌, get_or}
use quickspin.Text.Units.{Text}
use quickspin.Markup.{Attr, attr, Node, elem, attribute, class_name, flag, lit, say, text}
use quickspin.Ui.Styling.{Styling, cn}

module _ {M : Type 0} where
  unfoldable pub pagination_item : List (Attr M) → List (Node M) → Node M
  pagination_item props children =
      elem "li" (attribute "data-slot" "pagination-item" ∷ props) children

module _ {M : Type 0} (styling : Styling) where
  unfoldable pub pagination : Option Text → List (Attr M) → List (Node M) → Node M
  unfolding cn
  pagination extra props children =
      elem "nav"
        (attribute "role" "navigation"
          ∷ attribute "aria-label" "pagination"
          ∷ attribute "data-slot" "pagination"
          ∷ attr (lit "className")
              (cn styling ((some (lit "mx-auto flex w-full justify-center")) ∷ extra ∷ []))
          ∷ props)
        children

  unfoldable pub pagination_content : Option Text → List (Attr M) → List (Node M) → Node M
  unfolding cn
  pagination_content extra props children =
      elem "ul"
        (attribute "data-slot" "pagination-content"
          ∷ attr (lit "className")
              (cn styling ((some (lit "flex items-center gap-0.5")) ∷ extra ∷ []))
          ∷ props)
        children

  unfoldable pub pagination_previous : Option Text → Option Text → List (Attr M) → Node M
  unfolding cn
  pagination_previous extra text' props =
      elem "PaginationLink"
        (attribute "aria-label" "Go to previous page"
          ∷ attribute "size" "default"
          ∷ attr (lit "className") (cn styling ((some (lit "pl-1.5!")) ∷ extra ∷ []))
          ∷ props)
        (elem "ChevronLeftIcon" (attribute "data-icon" "inline-start" ∷ []) []
          ∷ elem "span" (class_name "hidden sm:block" ∷ [])
              (text (get_or text' (lit "Previous")) ∷ [])
          ∷ [])

  unfoldable pub pagination_next : Option Text → Option Text → List (Attr M) → Node M
  unfolding cn
  pagination_next extra text' props =
      elem "PaginationLink"
        (attribute "aria-label" "Go to next page"
          ∷ attribute "size" "default"
          ∷ attr (lit "className") (cn styling ((some (lit "pr-1.5!")) ∷ extra ∷ []))
          ∷ props)
        (elem "span" (class_name "hidden sm:block" ∷ []) (text (get_or text' (lit "Next")) ∷ [])
          ∷ elem "ChevronRightIcon" (attribute "data-icon" "inline-end" ∷ []) []
          ∷ [])

  unfoldable pub pagination_ellipsis : Option Text → List (Attr M) → Node M
  unfolding cn
  pagination_ellipsis extra props =
      elem "span"
        (flag (lit "aria-hidden") true
          ∷ attribute "data-slot" "pagination-ellipsis"
          ∷ attr (lit "className") (
              cn styling (
                (some (
                  lit
                    "flex size-8 items-center justify-center [&_svg:not([class*='size-'])]:size-4"))
                ∷ extra
                ∷ []))
          ∷ props)
        (elem "MoreHorizontalIcon" [] []
          ∷ elem "span" (class_name "sr-only" ∷ []) (say "More pages" ∷ [])
          ∷ [])
