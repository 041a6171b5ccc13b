-- ===== src/Ui/Kit/NavigationMenu.antt =====
-- Parts of docs/src/components/ui/navigation-menu.tsx; not modelled here: NavigationMenuTrigger.
use quickspin.Prelude.{ℕ, Option, some, List, [], ◌∷◌, ◌++◌, get_or}
use quickspin.Text.{decimal}
use quickspin.Text.Units.{Text}
use quickspin.Markup.{Attr, attr, Node, elem, attribute, class_name, lit}
use quickspin.Ui.Styling.{Styling, cn}

module _ {M : Type 0} (styling : Styling) where
  unfoldable pub navigation_menu :
      Option Text → Option Text → List (Attr M) → List (Node M) → Node M
  unfolding cn
  navigation_menu align extra props children =
      elem "NavigationMenuPrimitive.Root"
        (attribute "data-slot" "navigation-menu"
          ∷ attr (lit "className") (
              cn styling (
                (some (
                  lit
                    "group/navigation-menu relative flex max-w-max flex-1 items-center justify-center"))
                ∷ extra
                ∷ []))
          ∷ props)
        (children
          ++ (elem "NavigationMenuPositioner" (attr (lit "align") (get_or align (lit "start")) ∷ [])
                []
              ∷ []))

  unfoldable pub navigation_menu_list : Option Text → List (Attr M) → List (Node M) → Node M
  unfolding cn
  navigation_menu_list extra props children =
      elem "NavigationMenuPrimitive.List"
        (attribute "data-slot" "navigation-menu-list"
          ∷ attr (lit "className") (
              cn styling (
                (some (lit "group flex flex-1 list-none items-center justify-center gap-0"))
                ∷ extra
                ∷ []))
          ∷ props)
        children

  unfoldable pub navigation_menu_item : Option Text → List (Attr M) → List (Node M) → Node M
  unfolding cn
  navigation_menu_item extra props children =
      elem "NavigationMenuPrimitive.Item"
        (attribute "data-slot" "navigation-menu-item"
          ∷ attr (lit "className") (cn styling ((some (lit "relative")) ∷ extra ∷ []))
          ∷ props)
        children

  unfoldable pub navigation_menu_content : Option Text → List (Attr M) → List (Node M) → Node M
  unfolding cn
  navigation_menu_content extra props children =
      elem "NavigationMenuPrimitive.Content"
        (attribute "data-slot" "navigation-menu-content"
          ∷ attr (lit "className") (
              cn styling (
                (some (
                  lit
                    "data-ending-style:data-activation-direction=left:translate-x-[50%] data-ending-style:data-activation-direction=right:translate-x-[-50%] data-starting-style:data-activation-direction=left:translate-x-[-50%] data-starting-style:data-activation-direction=right:translate-x-[50%] h-full w-auto p-1 transition-[opacity,transform,translate] duration-[0.35s] ease-[cubic-bezier(0.22,1,0.36,1)] group-data-[viewport=false]/navigation-menu:rounded-none group-data-[viewport=false]/navigation-menu:bg-popover group-data-[viewport=false]/navigation-menu:text-popover-foreground group-data-[viewport=false]/navigation-menu:shadow group-data-[viewport=false]/navigation-menu:ring-1 group-data-[viewport=false]/navigation-menu:ring-foreground/10 group-data-[viewport=false]/navigation-menu:duration-300 data-ending-style:opacity-0 data-starting-style:opacity-0 data-[motion=from-end]:slide-in-from-right-52 data-[motion=from-start]:slide-in-from-left-52 data-[motion=to-end]:slide-out-to-right-52 data-[motion=to-start]:slide-out-to-left-52 data-[motion^=from-]:animate-in data-[motion^=from-]:fade-in data-[motion^=to-]:animate-out data-[motion^=to-]:fade-out **:data-[slot=navigation-menu-link]:focus:ring-0 **:data-[slot=navigation-menu-link]:focus:outline-none group-data-[viewport=false]/navigation-menu:data-open:animate-in group-data-[viewport=false]/navigation-menu:data-open:fade-in-0 group-data-[viewport=false]/navigation-menu:data-open:zoom-in-95 group-data-[viewport=false]/navigation-menu:data-closed:animate-out group-data-[viewport=false]/navigation-menu:data-closed:fade-out-0 group-data-[viewport=false]/navigation-menu:data-closed:zoom-out-95"))
                ∷ extra
                ∷ []))
          ∷ props)
        children

  unfoldable pub navigation_menu_positioner :
      Option Text → Option Text → Option ℕ → Option Text → Option ℕ → List (Attr M) → Node M
  unfolding cn
  navigation_menu_positioner extra side side_offset align align_offset props =
      elem "NavigationMenuPrimitive.Portal" [] (
        elem "NavigationMenuPrimitive.Positioner"
          (attr (lit "side") (get_or side (lit "bottom"))
            ∷ attr (lit "sideOffset") (decimal (get_or side_offset 8))
            ∷ attr (lit "align") (get_or align (lit "start"))
            ∷ attr (lit "alignOffset") (decimal (get_or align_offset 0))
            ∷ attr (lit "className") (
                cn styling (
                  (some (
                    lit
                      "isolate z-50 h-(--positioner-height) w-(--positioner-width) max-w-(--available-width) transition-[top,left,right,bottom] duration-[0.35s] ease-[cubic-bezier(0.22,1,0.36,1)] data-instant:transition-none data-[side=bottom]:before:top-[-10px] data-[side=bottom]:before:right-0 data-[side=bottom]:before:left-0"))
                  ∷ extra
                  ∷ []))
            ∷ props)
          (elem "NavigationMenuPrimitive.Popup"
              (class_name
                  "data-[ending-style]:easing-[ease] xs:w-(--popup-width) relative h-(--popup-height) w-(--popup-width) origin-(--transform-origin) rounded-none bg-popover text-popover-foreground shadow ring-1 ring-foreground/10 transition-[opacity,transform,width,height,scale,translate] duration-[0.35s] ease-[cubic-bezier(0.22,1,0.36,1)] outline-none data-ending-style:scale-90 data-ending-style:opacity-0 data-ending-style:duration-150 data-starting-style:scale-90 data-starting-style:opacity-0"
                ∷ [])
              (elem "NavigationMenuPrimitive.Viewport"
                  (class_name "relative size-full overflow-hidden" ∷ []) []
                ∷ [])
            ∷ [])
        ∷ [])

  unfoldable pub navigation_menu_link : Option Text → List (Attr M) → List (Node M) → Node M
  unfolding cn
  navigation_menu_link extra props children =
      elem "NavigationMenuPrimitive.Link"
        (attribute "data-slot" "navigation-menu-link"
          ∷ attr (lit "className") (
              cn styling (
                (some (
                  lit
                    "flex items-center gap-2 rounded-none p-2 text-xs transition-all outline-none hover:bg-muted focus:bg-muted focus-visible:ring-1 focus-visible:ring-ring/50 focus-visible:outline-1 in-data-[slot=navigation-menu-content]:rounded-none data-active:bg-muted/50 data-active:hover:bg-muted data-active:focus:bg-muted [&_svg:not([class*='size-'])]:size-4"))
                ∷ extra
                ∷ []))
          ∷ props)
        children

  unfoldable pub navigation_menu_indicator : Option Text → List (Attr M) → Node M
  unfolding cn
  navigation_menu_indicator extra props =
      elem "NavigationMenuPrimitive.Icon"
        (attribute "data-slot" "navigation-menu-indicator"
          ∷ attr (lit "className") (
              cn styling (
                (some (
                  lit
                    "top-full z-1 flex h-1.5 items-end justify-center overflow-hidden data-[state=hidden]:animate-out data-[state=hidden]:fade-out data-[state=visible]:animate-in data-[state=visible]:fade-in"))
                ∷ extra
                ∷ []))
          ∷ props)
        (elem "div"
            (class_name "relative top-[60%] h-2 w-2 rotate-45 rounded-none bg-border shadow-md"
              ∷ [])
            []
          ∷ [])
