-- ===== src/Ui/Kit/MessageScroller.antt =====
-- Parts of docs/src/components/ui/message-scroller.tsx; not modelled here: MessageScrollerProvider, MessageScrollerButton.
use quickspin.Prelude.{Bool, false, Option, some, List, [], ◌∷◌, get_or}
use quickspin.Text.Units.{Text}
use quickspin.Markup.{Attr, attr, Node, elem, attribute, flag, lit}
use quickspin.Ui.Styling.{Styling, cn}

module _ {M : Type 0} (styling : Styling) where
  unfoldable pub message_scroller : Option Text → List (Attr M) → List (Node M) → Node M
  unfolding cn
  message_scroller extra props children =
      elem "MessageScrollerPrimitive.Root"
        (attribute "data-slot" "message-scroller"
          ∷ attr (lit "className") (
              cn styling (
                (some (
                  lit
                    "group/message-scroller relative flex size-full min-h-0 flex-col overflow-hidden"))
                ∷ extra
                ∷ []))
          ∷ props)
        children

  unfoldable pub message_scroller_viewport : Option Text → List (Attr M) → List (Node M) → Node M
  unfolding cn
  message_scroller_viewport extra props children =
      elem "MessageScrollerPrimitive.Viewport"
        (attribute "data-slot" "message-scroller-viewport"
          ∷ attr (lit "className") (
              cn styling (
                (some (
                  lit
                    "size-full min-h-0 min-w-0 scroll-fade-b scrollbar-thin scrollbar-gutter-stable overflow-y-auto overscroll-contain contain-content data-autoscrolling:scrollbar-thumb-transparent data-autoscrolling:scrollbar-track-transparent"))
                ∷ extra
                ∷ []))
          ∷ props)
        children

  unfoldable pub message_scroller_content : Option Text → List (Attr M) → List (Node M) → Node M
  unfolding cn
  message_scroller_content extra props children =
      elem "MessageScrollerPrimitive.Content"
        (attribute "data-slot" "message-scroller-content"
          ∷ attr (lit "className")
              (cn styling ((some (lit "flex h-max min-h-full flex-col gap-6")) ∷ extra ∷ []))
          ∷ props)
        children

  unfoldable pub message_scroller_item :
      Option Text → Option Bool → List (Attr M) → List (Node M) → Node M
  unfolding cn
  message_scroller_item extra scroll_anchor props children =
      elem "MessageScrollerPrimitive.Item"
        (attribute "data-slot" "message-scroller-item"
          ∷ flag (lit "scrollAnchor") (get_or scroll_anchor false)
          ∷ attr (lit "className") (
              cn styling (
                (some (
                  lit
                    "min-w-0 shrink-0 [contain-intrinsic-size:auto_10rem] [content-visibility:auto]"))
                ∷ extra
                ∷ []))
          ∷ props)
        children
