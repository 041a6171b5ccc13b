-- ===== src/Ui/Kit/Dialog.antt =====
-- The parts of docs/src/components/ui/dialog.tsx.
use quickspin.Prelude.{Bool, true, false, Option, some, List, [], ◌∷◌, ◌++◌, get_or}
use quickspin.Text.Units.{Text}
use quickspin.Markup.{Attr, attr, Node, elem, attribute, class_name, lit, say, when}
use quickspin.Ui.Styling.{Styling, cn}

module _ {M : Type 0} where
  unfoldable pub dialog : List (Attr M) → List (Node M) → Node M
  dialog props children =
      elem "DialogPrimitive.Root" (attribute "data-slot" "dialog" ∷ props) children

  unfoldable pub dialog_trigger : List (Attr M) → List (Node M) → Node M
  dialog_trigger props children =
      elem "DialogPrimitive.Trigger" (attribute "data-slot" "dialog-trigger" ∷ props) children

  unfoldable pub dialog_portal : List (Attr M) → List (Node M) → Node M
  dialog_portal props children =
      elem "DialogPrimitive.Portal" (attribute "data-slot" "dialog-portal" ∷ props) children

  unfoldable pub dialog_close : List (Attr M) → List (Node M) → Node M
  dialog_close props children =
      elem "DialogPrimitive.Close" (attribute "data-slot" "dialog-close" ∷ props) children

module _ {M : Type 0} (styling : Styling) where
  unfoldable pub dialog_overlay : Option Text → List (Attr M) → List (Node M) → Node M
  unfolding cn
  dialog_overlay extra props children =
      elem "DialogPrimitive.Backdrop"
        (attribute "data-slot" "dialog-overlay"
          ∷ attr (lit "className") (
              cn styling (
                (some (
                  lit
                    "fixed inset-0 isolate z-50 bg-black/10 duration-100 supports-backdrop-filter:backdrop-blur-xs data-open:animate-in data-open:fade-in-0 data-closed:animate-out data-closed:fade-out-0"))
                ∷ extra
                ∷ []))
          ∷ props)
        children

  unfoldable pub dialog_content : Option Text → Option Bool → List (Attr M) → List (Node M) → Node M
  unfolding cn
  dialog_content extra show_close_button props children = elem "DialogPortal" [] (
      elem "DialogOverlay" [] []
      ∷ (elem "DialogPrimitive.Popup"
            (attribute "data-slot" "dialog-content"
              ∷ attr (lit "className") (
                  cn styling (
                    (some (
                      lit
                        "fixed top-1/2 left-1/2 z-50 grid w-full max-w-[calc(100%-2rem)] -translate-x-1/2 -translate-y-1/2 gap-4 rounded-none bg-popover p-4 text-xs/relaxed text-popover-foreground ring-1 ring-foreground/10 duration-100 outline-none sm:max-w-sm data-open:animate-in data-open:fade-in-0 data-open:zoom-in-95 data-closed:animate-out data-closed:fade-out-0 data-closed:zoom-out-95"))
                    ∷ extra
                    ∷ []))
              ∷ props)
            (children
              ++ (when (get_or show_close_button true) (
                  elem "DialogPrimitive.Close" (attribute "data-slot" "dialog-close" ∷ []) (
                    elem "render" [] (
                      elem "Button"
                        (attribute "variant" "ghost"
                          ∷ class_name "absolute top-2 right-2"
                          ∷ attribute "size" "icon-sm"
                          ∷ [])
                        []
                      ∷ [])
                    ∷ elem "XIcon" [] []
                    ∷ elem "span" (class_name "sr-only" ∷ []) (say "Close" ∷ [])
                    ∷ [])
                  ∷ [])))
          ∷ []))

  unfoldable pub dialog_header : Option Text → List (Attr M) → List (Node M) → Node M
  unfolding cn
  dialog_header extra props children =
      elem "div"
        (attribute "data-slot" "dialog-header"
          ∷ attr (lit "className")
              (cn styling ((some (lit "flex flex-col gap-1 text-left")) ∷ extra ∷ []))
          ∷ props)
        children

  unfoldable pub dialog_footer : Option Text → Option Bool → List (Attr M) → List (Node M) → Node M
  unfolding cn
  dialog_footer extra show_close_button props children =
      elem "div"
        (attribute "data-slot" "dialog-footer"
          ∷ attr (lit "className") (
              cn styling (
                (some (lit "flex flex-col-reverse gap-2 sm:flex-row sm:justify-end")) ∷ extra ∷ []))
          ∷ props)
        (children
          ++ (when (get_or show_close_button false) (
              elem "DialogPrimitive.Close" [] (
                elem "render" [] (elem "Button" (attribute "variant" "outline" ∷ []) [] ∷ [])
                ∷ say "Close"
                ∷ [])
              ∷ [])))

  unfoldable pub dialog_title : Option Text → List (Attr M) → List (Node M) → Node M
  unfolding cn
  dialog_title extra props children =
      elem "DialogPrimitive.Title"
        (attribute "data-slot" "dialog-title"
          ∷ attr (lit "className") (cn styling ((some (lit "text-sm font-medium")) ∷ extra ∷ []))
          ∷ props)
        children

  unfoldable pub dialog_description : Option Text → List (Attr M) → List (Node M) → Node M
  unfolding cn
  dialog_description extra props children =
      elem "DialogPrimitive.Description"
        (attribute "data-slot" "dialog-description"
          ∷ attr (lit "className") (
              cn styling (
                (some (
                  lit
                    "text-xs/relaxed text-muted-foreground *:[a]:underline *:[a]:underline-offset-3 *:[a]:hover:text-foreground"))
                ∷ extra
                ∷ []))
          ∷ props)
        children
