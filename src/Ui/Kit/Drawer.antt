-- ===== src/Ui/Kit/Drawer.antt =====
-- Parts of docs/src/components/ui/drawer.tsx; not modelled here: useDrawer, Drawer, DrawerContent.
use quickspin.Prelude.{Option, some, List, [], ◌∷◌}
use quickspin.Text.Units.{Text}
use quickspin.Markup.{Attr, attr, Node, elem, attribute, lit}
use quickspin.Ui.Styling.{Styling, cn}

module _ {M : Type 0} where
  unfoldable pub drawer_trigger : List (Attr M) → List (Node M) → Node M
  drawer_trigger props children =
      elem "DrawerPrimitive.Trigger" (attribute "data-slot" "drawer-trigger" ∷ props) children

  unfoldable pub drawer_portal : List (Attr M) → List (Node M) → Node M
  drawer_portal props children =
      elem "DrawerPrimitive.Portal" (attribute "data-slot" "drawer-portal" ∷ props) children

  unfoldable pub drawer_close : List (Attr M) → List (Node M) → Node M
  drawer_close props children =
      elem "DrawerPrimitive.Close" (attribute "data-slot" "drawer-close" ∷ props) children

module _ {M : Type 0} (styling : Styling) where
  unfoldable pub drawer_overlay : Option Text → List (Attr M) → List (Node M) → Node M
  unfolding cn
  drawer_overlay extra props children =
      elem "DrawerPrimitive.Backdrop"
        (attribute "data-slot" "drawer-overlay"
          ∷ attr (lit "className") (
              cn styling (
                (some (
                  lit
                    "fixed inset-0 z-50 min-h-dvh bg-black/10 opacity-[max(var(--drawer-overlay-min-opacity,0),calc(1-var(--drawer-swipe-progress)))] transition-opacity duration-450 ease-[cubic-bezier(0.32,0.72,0,1)] select-none data-ending-style:pointer-events-none data-ending-style:opacity-0 data-ending-style:duration-[calc(var(--drawer-swipe-strength)*400ms)] data-snap-points:[--drawer-overlay-min-opacity:0.5] data-starting-style:opacity-0 data-swiping:duration-0 supports-backdrop-filter:backdrop-blur-xs supports-[-webkit-touch-callout:none]:absolute"))
                ∷ extra
                ∷ []))
          ∷ props)
        children

  unfoldable pub drawer_swipe_handle : Option Text → List (Attr M) → List (Node M) → Node M
  unfolding cn
  drawer_swipe_handle extra props children =
      elem "div"
        (attribute "data-slot" "drawer-swipe-handle"
          ∷ attribute "aria-hidden" "true"
          ∷ attr (lit "className") (
              cn styling (
                (some (
                  lit
                    "relative z-10 flex shrink-0 cursor-grab transition-opacity duration-200 group-data-nested-drawer-open/drawer-popup:opacity-0 group-data-nested-drawer-swiping/drawer-popup:opacity-100 group-data-[swipe-axis=x]/drawer-popup:h-full group-data-[swipe-axis=x]/drawer-popup:w-3 group-data-[swipe-axis=x]/drawer-popup:items-center group-data-[swipe-axis=y]/drawer-popup:h-3 group-data-[swipe-axis=y]/drawer-popup:w-full group-data-[swipe-axis=y]/drawer-popup:justify-center group-data-[swipe-direction=down]/drawer-popup:items-end group-data-[swipe-direction=left]/drawer-popup:order-last group-data-[swipe-direction=left]/drawer-popup:justify-start group-data-[swipe-direction=right]/drawer-popup:justify-end group-data-[swipe-direction=up]/drawer-popup:order-last group-data-[swipe-direction=up]/drawer-popup:items-start after:block after:shrink-0 after:rounded-none after:bg-muted group-data-[swipe-axis=x]/drawer-popup:after:h-12 group-data-[swipe-axis=x]/drawer-popup:after:w-1 group-data-[swipe-axis=y]/drawer-popup:after:h-1 group-data-[swipe-axis=y]/drawer-popup:after:w-12 active:cursor-grabbing"))
                ∷ extra
                ∷ []))
          ∷ props)
        children

  unfoldable pub drawer_header : Option Text → List (Attr M) → List (Node M) → Node M
  unfolding cn
  drawer_header extra props children =
      elem "div"
        (attribute "data-slot" "drawer-header"
          ∷ attr (lit "className") (
              cn styling (
                (some (
                  lit
                    "flex shrink-0 flex-col gap-0.5 p-4 pb-0 group-data-[swipe-axis=y]/drawer-popup:text-center md:gap-0.5 md:text-left"))
                ∷ extra
                ∷ []))
          ∷ props)
        children

  unfoldable pub drawer_footer : Option Text → List (Attr M) → List (Node M) → Node M
  unfolding cn
  drawer_footer extra props children =
      elem "div"
        (attribute "data-slot" "drawer-footer"
          ∷ attr (lit "className") (
              cn styling
                ((some (lit "mt-auto flex shrink-0 flex-col gap-2 p-4 pt-0")) ∷ extra ∷ []))
          ∷ props)
        children

  unfoldable pub drawer_title : Option Text → List (Attr M) → List (Node M) → Node M
  unfolding cn
  drawer_title extra props children =
      elem "DrawerPrimitive.Title"
        (attribute "data-slot" "drawer-title"
          ∷ attr (lit "className")
              (cn styling ((some (lit "text-sm font-medium text-foreground")) ∷ extra ∷ []))
          ∷ props)
        children

  unfoldable pub drawer_description : Option Text → List (Attr M) → List (Node M) → Node M
  unfolding cn
  drawer_description extra props children =
      elem "DrawerPrimitive.Description"
        (attribute "data-slot" "drawer-description"
          ∷ attr (lit "className") (
              cn styling
                ((some (lit "text-xs/relaxed text-balance text-muted-foreground")) ∷ extra ∷ []))
          ∷ props)
        children
