-- ===== src/Ui/Kit/AlertDialog.antt =====
-- The parts of docs/src/components/ui/alert-dialog.tsx.
use quickspin.Prelude.{Option, some, List, [], ◌∷◌, get_or}
use quickspin.Text.Units.{Text}
use quickspin.Markup.{Attr, attr, Node, elem, attribute, lit}
use quickspin.Ui.Styling.{Styling, cn}

module _ {M : Type 0} where
  unfoldable pub alert_dialog : List (Attr M) → List (Node M) → Node M
  alert_dialog props children =
      elem "AlertDialogPrimitive.Root" (attribute "data-slot" "alert-dialog" ∷ props) children

  unfoldable pub alert_dialog_trigger : List (Attr M) → List (Node M) → Node M
  alert_dialog_trigger props children =
      elem "AlertDialogPrimitive.Trigger" (attribute "data-slot" "alert-dialog-trigger" ∷ props)
        children

  unfoldable pub alert_dialog_portal : List (Attr M) → List (Node M) → Node M
  alert_dialog_portal props children =
      elem "AlertDialogPrimitive.Portal" (attribute "data-slot" "alert-dialog-portal" ∷ props)
        children

module _ {M : Type 0} (styling : Styling) where
  unfoldable pub alert_dialog_overlay : Option Text → List (Attr M) → List (Node M) → Node M
  unfolding cn
  alert_dialog_overlay extra props children =
      elem "AlertDialogPrimitive.Backdrop"
        (attribute "data-slot" "alert-dialog-overlay"
          ∷ attr (lit "className") (
              cn styling (
                (some (
                  lit
                    "fixed inset-0 isolate z-50 bg-black/10 duration-100 supports-backdrop-filter:backdrop-blur-xs data-open:animate-in data-open:fade-in-0 data-closed:animate-out data-closed:fade-out-0"))
                ∷ extra
                ∷ []))
          ∷ props)
        children

  unfoldable pub alert_dialog_content :
      Option Text → Option Text → List (Attr M) → List (Node M) → Node M
  unfolding cn
  alert_dialog_content extra size props children = elem "AlertDialogPortal" [] (
      elem "AlertDialogOverlay" [] []
      ∷ elem "AlertDialogPrimitive.Popup"
          (attribute "data-slot" "alert-dialog-content"
            ∷ attr (lit "data-size") (get_or size (lit "default"))
            ∷ attr (lit "className") (
                cn styling (
                  (some (
                    lit
                      "group/alert-dialog-content fixed top-1/2 left-1/2 z-50 grid w-full -translate-x-1/2 -translate-y-1/2 gap-4 rounded-none bg-popover p-4 text-popover-foreground ring-1 ring-foreground/10 duration-100 outline-none data-[size=default]:max-w-xs data-[size=sm]:max-w-xs data-[size=default]:sm:max-w-sm data-open:animate-in data-open:fade-in-0 data-open:zoom-in-95 data-closed:animate-out data-closed:fade-out-0 data-closed:zoom-out-95"))
                  ∷ extra
                  ∷ []))
            ∷ props)
          children
      ∷ [])

  unfoldable pub alert_dialog_header : Option Text → List (Attr M) → List (Node M) → Node M
  unfolding cn
  alert_dialog_header extra props children =
      elem "div"
        (attribute "data-slot" "alert-dialog-header"
          ∷ attr (lit "className") (
              cn styling (
                (some (
                  lit
                    "grid grid-rows-[auto_1fr] place-items-center gap-1.5 text-center has-data-[slot=alert-dialog-media]:grid-rows-[auto_auto_1fr] has-data-[slot=alert-dialog-media]:gap-x-4 sm:group-data-[size=default]/alert-dialog-content:place-items-start sm:group-data-[size=default]/alert-dialog-content:text-left sm:group-data-[size=default]/alert-dialog-content:has-data-[slot=alert-dialog-media]:grid-rows-[auto_1fr]"))
                ∷ extra
                ∷ []))
          ∷ props)
        children

  unfoldable pub alert_dialog_footer : Option Text → List (Attr M) → List (Node M) → Node M
  unfolding cn
  alert_dialog_footer extra props children =
      elem "div"
        (attribute "data-slot" "alert-dialog-footer"
          ∷ attr (lit "className") (
              cn styling (
                (some (
                  lit
                    "flex flex-col-reverse gap-2 group-data-[size=sm]/alert-dialog-content:grid group-data-[size=sm]/alert-dialog-content:grid-cols-2 sm:flex-row sm:justify-end"))
                ∷ extra
                ∷ []))
          ∷ props)
        children

  unfoldable pub alert_dialog_media : Option Text → List (Attr M) → List (Node M) → Node M
  unfolding cn
  alert_dialog_media extra props children =
      elem "div"
        (attribute "data-slot" "alert-dialog-media"
          ∷ attr (lit "className") (
              cn styling (
                (some (
                  lit
                    "mb-2 inline-flex size-10 items-center justify-center rounded-none bg-muted sm:group-data-[size=default]/alert-dialog-content:row-span-2 *:[svg:not([class*='size-'])]:size-6"))
                ∷ extra
                ∷ []))
          ∷ props)
        children

  unfoldable pub alert_dialog_title : Option Text → List (Attr M) → List (Node M) → Node M
  unfolding cn
  alert_dialog_title extra props children =
      elem "AlertDialogPrimitive.Title"
        (attribute "data-slot" "alert-dialog-title"
          ∷ attr (lit "className") (
              cn styling (
                (some (
                  lit
                    "text-sm font-medium sm:group-data-[size=default]/alert-dialog-content:group-has-data-[slot=alert-dialog-media]/alert-dialog-content:col-start-2"))
                ∷ extra
                ∷ []))
          ∷ props)
        children

  unfoldable pub alert_dialog_description : Option Text → List (Attr M) → List (Node M) → Node M
  unfolding cn
  alert_dialog_description extra props children =
      elem "AlertDialogPrimitive.Description"
        (attribute "data-slot" "alert-dialog-description"
          ∷ attr (lit "className") (
              cn styling (
                (some (
                  lit
                    "text-xs/relaxed text-balance text-muted-foreground md:text-pretty *:[a]:underline *:[a]:underline-offset-3 *:[a]:hover:text-foreground"))
                ∷ extra
                ∷ []))
          ∷ props)
        children

  unfoldable pub alert_dialog_action : Option Text → List (Attr M) → List (Node M) → Node M
  unfolding cn
  alert_dialog_action extra props children =
      elem "Button"
        (attribute "data-slot" "alert-dialog-action"
          ∷ attr (lit "className") (cn styling (extra ∷ []))
          ∷ props)
        children

  unfoldable pub alert_dialog_cancel :
      Option Text → Option Text → Option Text → List (Attr M) → List (Node M) → Node M
  unfolding cn
  alert_dialog_cancel extra variant size props children =
      elem "AlertDialogPrimitive.Close"
        (attribute "data-slot" "alert-dialog-cancel"
          ∷ attr (lit "className") (cn styling (extra ∷ []))
          ∷ props)
        (elem "render" [] (
            elem "Button"
              (attr (lit "variant") (get_or variant (lit "outline"))
                ∷ attr (lit "size") (get_or size (lit "default"))
                ∷ [])
              []
            ∷ [])
          ∷ children)
