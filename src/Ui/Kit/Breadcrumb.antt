-- ===== src/Ui/Kit/Breadcrumb.antt =====
-- The parts of docs/src/components/ui/breadcrumb.tsx.
use quickspin.Prelude.{Option, some, List, [], ◌∷◌, ltb, if◌then◌else◌, length}
use quickspin.Text.Units.{Text}
use quickspin.Markup.{Attr, attr, Node, elem, attribute, class_name, lit, say}
use quickspin.Ui.Styling.{Styling, cn, BaseUi}

module _ {M : Type 0} (styling : Styling) where
  unfoldable pub breadcrumb : Option Text → List (Attr M) → List (Node M) → Node M
  unfolding cn
  breadcrumb extra props children =
      elem "nav"
        (attribute "aria-label" "breadcrumb"
          ∷ attribute "data-slot" "breadcrumb"
          ∷ attr (lit "className") (cn styling (extra ∷ []))
          ∷ props)
        children

  unfoldable pub breadcrumb_list : Option Text → List (Attr M) → List (Node M) → Node M
  unfolding cn
  breadcrumb_list extra props children =
      elem "ol"
        (attribute "data-slot" "breadcrumb-list"
          ∷ attr (lit "className") (
              cn styling (
                (some (
                  lit
                    "flex flex-wrap items-center gap-1.5 text-xs wrap-break-word text-muted-foreground"))
                ∷ extra
                ∷ []))
          ∷ props)
        children

  unfoldable pub breadcrumb_item : Option Text → List (Attr M) → List (Node M) → Node M
  unfolding cn
  breadcrumb_item extra props children =
      elem "li"
        (attribute "data-slot" "breadcrumb-item"
          ∷ attr (lit "className")
              (cn styling ((some (lit "inline-flex items-center gap-1")) ∷ extra ∷ []))
          ∷ props)
        children

  unfoldable pub breadcrumb_page : Option Text → List (Attr M) → List (Node M) → Node M
  unfolding cn
  breadcrumb_page extra props children =
      elem "span"
        (attribute "data-slot" "breadcrumb-page"
          ∷ attribute "role" "link"
          ∷ attribute "aria-disabled" "true"
          ∷ attribute "aria-current" "page"
          ∷ attr (lit "className")
              (cn styling ((some (lit "font-normal text-foreground")) ∷ extra ∷ []))
          ∷ props)
        children

  unfoldable pub breadcrumb_separator : Option Text → List (Attr M) → List (Node M) → Node M
  unfolding cn
  breadcrumb_separator extra props children =
      elem "li"
        (attribute "data-slot" "breadcrumb-separator"
          ∷ attribute "role" "presentation"
          ∷ attribute "aria-hidden" "true"
          ∷ attr (lit "className") (cn styling ((some (lit "[&>svg]:size-3.5")) ∷ extra ∷ []))
          ∷ props)
        ((if ltb 0 (length children) then children else elem "ChevronRightIcon" [] [] ∷ []))

  unfoldable pub breadcrumb_ellipsis : Option Text → List (Attr M) → Node M
  unfolding cn
  breadcrumb_ellipsis extra props =
      elem "span"
        (attribute "data-slot" "breadcrumb-ellipsis"
          ∷ attribute "role" "presentation"
          ∷ attribute "aria-hidden" "true"
          ∷ attr (lit "className") (
              cn styling (
                (some (lit "flex size-5 items-center justify-center [&>svg]:size-4")) ∷ extra ∷ []))
          ∷ props)
        (elem "MoreHorizontalIcon" [] []
          ∷ elem "span" (class_name "sr-only" ∷ []) (say "More" ∷ [])
          ∷ [])

module _ {M : Type 0} (styling : Styling) (base : BaseUi M) where
  unfoldable pub breadcrumb_link :
      Option Text → Option (Node M) → List (Attr M) → List (Node M) → Node M
  unfolding cn
  breadcrumb_link extra render props children =
      base.use_render (lit "a") render (attribute "slot" "breadcrumb-link" ∷ [])
        (base.merge_props
          (attr (lit "className")
              (cn styling ((some (lit "transition-colors hover:text-foreground")) ∷ extra ∷ []))
            ∷ [])
          props)
        children
