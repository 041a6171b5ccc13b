-- ===== src/Ui/Kit/Message.antt =====
-- The parts of docs/src/components/ui/message.tsx.
use quickspin.Prelude.{Option, some, List, [], ◌∷◌, get_or}
use quickspin.Text.Units.{Text}
use quickspin.Markup.{Attr, attr, Node, elem, attribute, lit}
use quickspin.Ui.Styling.{Styling, cn}

module _ {M : Type 0} (styling : Styling) where
  unfoldable pub message_group : Option Text → List (Attr M) → List (Node M) → Node M
  unfolding cn
  message_group extra props children =
      elem "div"
        (attribute "data-slot" "message-group"
          ∷ attr (lit "className")
              (cn styling ((some (lit "flex min-w-0 flex-col gap-1.5")) ∷ extra ∷ []))
          ∷ props)
        children

  unfoldable pub message : Option Text → Option Text → List (Attr M) → List (Node M) → Node M
  unfolding cn
  message extra align props children =
      elem "div"
        (attribute "data-slot" "message"
          ∷ attr (lit "data-align") (get_or align (lit "start"))
          ∷ attr (lit "className") (
              cn styling (
                (some (
                  lit
                    "group/message relative flex w-full min-w-0 gap-1.5 text-xs data-[align=end]:flex-row-reverse"))
                ∷ extra
                ∷ []))
          ∷ props)
        children

  unfoldable pub message_avatar : Option Text → List (Attr M) → List (Node M) → Node M
  unfolding cn
  message_avatar extra props children =
      elem "div"
        (attribute "data-slot" "message-avatar"
          ∷ attr (lit "className") (
              cn styling (
                (some (
                  lit
                    "flex w-fit min-w-8 shrink-0 items-center justify-center self-end overflow-hidden rounded-full bg-muted group-has-data-[slot=message-footer]/message:-translate-y-8"))
                ∷ extra
                ∷ []))
          ∷ props)
        children

  unfoldable pub message_content : Option Text → List (Attr M) → List (Node M) → Node M
  unfolding cn
  message_content extra props children =
      elem "div"
        (attribute "data-slot" "message-content"
          ∷ attr (lit "className") (
              cn styling (
                (some (
                  lit
                    "flex w-full min-w-0 flex-col gap-2 wrap-break-word group-data-[align=end]/message:*:data-slot:self-end"))
                ∷ extra
                ∷ []))
          ∷ props)
        children

  unfoldable pub message_header : Option Text → List (Attr M) → List (Node M) → Node M
  unfolding cn
  message_header extra props children =
      elem "div"
        (attribute "data-slot" "message-header"
          ∷ attr (lit "className") (
              cn styling (
                (some (
                  lit
                    "flex max-w-full min-w-0 items-center px-2.5 text-xs font-medium text-muted-foreground group-has-data-[variant=ghost]/message:px-0"))
                ∷ extra
                ∷ []))
          ∷ props)
        children

  unfoldable pub message_footer : Option Text → List (Attr M) → List (Node M) → Node M
  unfolding cn
  message_footer extra props children =
      elem "div"
        (attribute "data-slot" "message-footer"
          ∷ attr (lit "className") (
              cn styling (
                (some (
                  lit
                    "flex max-w-full min-w-0 items-center px-2.5 text-xs font-medium text-muted-foreground group-has-data-[variant=ghost]/message:px-0 group-data-[align=end]/message:justify-end"))
                ∷ extra
                ∷ []))
          ∷ props)
        children
