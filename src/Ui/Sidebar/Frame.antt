-- ===== src/Ui/Sidebar/Frame.antt =====
-- What `SidebarProvider`, `Sidebar`, `SidebarTrigger`, `SidebarRail` and `SidebarMenuSkeleton` of
-- docs/src/components/ui/sidebar.tsx render. An entry of a style is an attribute whose name starts
-- with `style:`; of two attributes of one name the later counts.
use quickspin.Text.{text_eq}
use quickspin.Text.Units.{Text, codes}
use quickspin.Prelude.{
  Bool, true, false, Option, none, some, List, [], ◌∷◌, ◌++◌, if◌then◌else◌, get_or,
}
use quickspin.Markup.{
  Attr, attr, on_flag, Node, elem, attribute, class_name, flag, on_click, lit, say, optional,
}
use quickspin.Ui.Styling.{Styling, cn}
use quickspin.Ui.Sidebar.{SidebarContext, SidebarEvent, toggled, sheet_changed}

pub data Side : Type 0 where
  left_side right_side : Side

pub data Variant : Type 0 where
  sidebar_variant floating inset : Variant

pub data Collapsible : Type 0 where
  offcanvas icon not_collapsible : Collapsible

abbrev side_text : Side → Text
side_text left_side = codes "left"
side_text right_side = codes "right"

abbrev variant_text : Variant → Text
variant_text sidebar_variant = codes "sidebar"
variant_text floating = codes "floating"
variant_text inset = codes "inset"

abbrev collapsible_text : Collapsible → Text
collapsible_text offcanvas = codes "offcanvas"
collapsible_text icon = codes "icon"
collapsible_text not_collapsible = codes "none"

-- `variant === "floating" || variant === "inset"`
abbrev is_raised : Variant → Bool
is_raised sidebar_variant = false
is_raised floating = true
is_raised inset = true

abbrev is_fixed : Collapsible → Bool
is_fixed not_collapsible = true
is_fixed _ = false

module _ (styling : Styling) where
  unfoldable pub provider_frame :
      List (Attr SidebarEvent)
      → Option Text
      → List (Attr SidebarEvent)
      → List (Node SidebarEvent)
      → Node SidebarEvent
  unfolding cn
  provider_frame style extra props children =
      elem "div"
        (attribute "data-slot" "sidebar-wrapper"
            ∷ attribute "style:--sidebar-width" "16rem"
            ∷ attribute "style:--sidebar-width-icon" "3rem"
            ∷ style
          ++ attr (lit "className") (
              cn styling (
                some (
                  lit
                    "group/sidebar-wrapper flex min-h-svh w-full has-data-[variant=inset]:bg-sidebar")
                ∷ extra
                ∷ []))
            ∷ props)
        children

  -- The sidebar that does not fold.
  abbrev fixed_sidebar :
      Option Text → List (Attr SidebarEvent) → List (Node SidebarEvent) → Node SidebarEvent
  fixed_sidebar extra props children =
      elem "div"
        (attribute "data-slot" "sidebar"
          ∷ attr (lit "className") (
              styling.tw_merge (
                styling.clsx (
                  some (
                    lit
                      "flex h-full w-(--sidebar-width) flex-col bg-sidebar text-sidebar-foreground")
                  ∷ extra
                  ∷ [])))
          ∷ props)
        children

  -- The sheet of a small screen.
  abbrev sheet_sidebar :
      SidebarContext
      → Side
      → Option Text
      → List (Attr SidebarEvent)
      → List (Node SidebarEvent)
      → Node SidebarEvent
  sheet_sidebar c side dir props children =
      elem "Sheet"
        (flag (lit "open") c.mobile_open ∷ on_flag (lit "openChange") sheet_changed ∷ props)
        (elem "SheetContent"
            (optional "dir" dir
              ++ attribute "data-sidebar" "sidebar"
                ∷ attribute "data-slot" "sidebar"
                ∷ attribute "data-mobile" "true"
                ∷ class_name
                    "w-(--sidebar-width) bg-sidebar p-0 text-sidebar-foreground [&>button]:hidden"
                ∷ attribute "style:--sidebar-width" "18rem"
                ∷ attr (lit "side") (side_text side)
                ∷ [])
            (elem "SheetHeader" (class_name "sr-only" ∷ []) (
                elem "SheetTitle" [] (say "Sidebar" ∷ [])
                ∷ elem "SheetDescription" [] (say "Displays the mobile sidebar." ∷ [])
                ∷ [])
              ∷ elem "div" (class_name "flex h-full w-full flex-col" ∷ []) children
              ∷ [])
          ∷ [])

  abbrev sidebar_gap : Variant → Node SidebarEvent
  sidebar_gap variant =
      elem "div"
        (attribute "data-slot" "sidebar-gap"
          ∷ attr (lit "className") (
              styling.tw_merge (
                styling.clsx (
                  some (
                    lit
                      "relative w-(--sidebar-width) bg-transparent transition-[width] duration-200 ease-linear")
                  ∷ some (lit "group-data-[collapsible=offcanvas]:w-0")
                  ∷ some (lit "group-data-[side=right]:rotate-180")
                  ∷ (if is_raised variant
                      then some (
                          lit
                            "group-data-[collapsible=icon]:w-[calc(var(--sidebar-width-icon)+(--spacing(4)))]")
                      else some (lit "group-data-[collapsible=icon]:w-(--sidebar-width-icon)"))
                  ∷ [])))
          ∷ [])
        []

  abbrev sidebar_container :
      Side
      → Variant
      → Option Text
      → List (Attr SidebarEvent)
      → List (Node SidebarEvent)
      → Node SidebarEvent
  sidebar_container side variant extra props children =
      elem "div"
        (attribute "data-slot" "sidebar-container"
          ∷ attr (lit "data-side") (side_text side)
          ∷ attr (lit "className") (
              styling.tw_merge (
                styling.clsx (
                  some (
                    lit
                      "fixed inset-y-0 z-10 hidden h-svh w-(--sidebar-width) transition-[left,right,width] duration-200 ease-linear data-[side=left]:left-0 data-[side=left]:group-data-[collapsible=offcanvas]:left-[calc(var(--sidebar-width)*-1)] data-[side=right]:right-0 data-[side=right]:group-data-[collapsible=offcanvas]:right-[calc(var(--sidebar-width)*-1)] md:flex")
                  ∷ (if is_raised variant
                      then some (
                          lit
                            "p-2 group-data-[collapsible=icon]:w-[calc(var(--sidebar-width-icon)+(--spacing(4))+2px)]")
                      else some (
                          lit
                            "group-data-[collapsible=icon]:w-(--sidebar-width-icon) group-data-[side=left]:border-r group-data-[side=right]:border-l"))
                  ∷ extra
                  ∷ [])))
          ∷ props)
        (elem "div"
            (attribute "data-sidebar" "sidebar"
              ∷ attribute "data-slot" "sidebar-inner"
              ∷ class_name
                  "flex size-full flex-col bg-sidebar group-data-[variant=floating]:rounded-none group-data-[variant=floating]:shadow-sm group-data-[variant=floating]:ring-1 group-data-[variant=floating]:ring-sidebar-border"
              ∷ [])
            children
          ∷ [])

  abbrev wide_sidebar :
      SidebarContext
      → Side
      → Variant
      → Collapsible
      → Option Text
      → List (Attr SidebarEvent)
      → List (Node SidebarEvent)
      → Node SidebarEvent
  wide_sidebar c side variant collapsible extra props children =
      elem "div"
        (class_name "group peer hidden text-sidebar-foreground md:block"
          ∷ attr (lit "data-state") c.state
          ∷ attr (lit "data-collapsible")
              (if text_eq c.state (codes "collapsed") then collapsible_text collapsible else [])
          ∷ attr (lit "data-variant") (variant_text variant)
          ∷ attr (lit "data-side") (side_text side)
          ∷ attribute "data-slot" "sidebar"
          ∷ [])
        (sidebar_gap variant ∷ sidebar_container side variant extra props children ∷ [])

  -- `Sidebar`, whose properties have the defaults left, sidebar and offcanvas.
  unfoldable pub sidebar :
      SidebarContext
      → Option Side
      → Option Variant
      → Option Collapsible
      → Option Text
      → Option Text
      → List (Attr SidebarEvent)
      → List (Node SidebarEvent)
      → Node SidebarEvent
  sidebar c side variant collapsible extra dir props children =
      let side' = get_or side left_side in
      let variant' = get_or variant sidebar_variant in
      let collapsible' = get_or collapsible offcanvas in
      if is_fixed collapsible'
      then fixed_sidebar extra props children
      else if c.mobile
      then sheet_sidebar c side' dir props children
      else wide_sidebar c side' variant' collapsible' extra props children

  -- The handler that the button is given runs before the toggle.
  unfoldable pub sidebar_trigger :
      Option Text → Option SidebarEvent → List (Attr SidebarEvent) → Node SidebarEvent
  unfolding cn
  sidebar_trigger extra handler props =
      elem "Button"
        (attribute "data-sidebar" "trigger"
            ∷ attribute "data-slot" "sidebar-trigger"
            ∷ attribute "variant" "ghost"
            ∷ attribute "size" "icon-sm"
            ∷ attr (lit "className") (cn styling (extra ∷ []))
            ∷ handlers handler
          ++ on_click toggled ∷ props)
        (elem "PanelLeftIcon" [] []
          ∷ elem "span" (class_name "sr-only" ∷ []) (say "Toggle Sidebar" ∷ [])
          ∷ [])
    where
      handlers : Option SidebarEvent → List (Attr SidebarEvent)
      handlers none = []
      handlers (some e) = on_click e ∷ []

  unfoldable pub sidebar_rail :
      Option Text → List (Attr SidebarEvent) → List (Node SidebarEvent) → Node SidebarEvent
  unfolding cn
  sidebar_rail extra props children =
      elem "button"
        (attribute "data-sidebar" "rail"
          ∷ attribute "data-slot" "sidebar-rail"
          ∷ attribute "aria-label" "Toggle Sidebar"
          ∷ attribute "tabIndex" "-1"
          ∷ on_click toggled
          ∷ attribute "title" "Toggle Sidebar"
          ∷ attr (lit "className") (
              cn styling (
                some (
                  lit
                    "absolute inset-y-0 z-20 hidden w-4 transition-all ease-linear group-data-[side=left]:-right-4 group-data-[side=right]:left-0 after:absolute after:inset-y-0 after:start-1/2 after:w-[2px] hover:after:bg-sidebar-border sm:flex ltr:-translate-x-1/2 rtl:-translate-x-1/2")
                ∷ some
                    (lit "in-data-[side=left]:cursor-w-resize in-data-[side=right]:cursor-e-resize")
                ∷ some (
                    lit
                      "[[data-side=left][data-state=collapsed]_&]:cursor-e-resize [[data-side=right][data-state=collapsed]_&]:cursor-w-resize")
                ∷ some (
                    lit
                      "group-data-[collapsible=offcanvas]:translate-x-0 group-data-[collapsible=offcanvas]:after:left-full hover:group-data-[collapsible=offcanvas]:bg-sidebar")
                ∷ some (lit "[[data-side=left][data-collapsible=offcanvas]_&]:-right-2")
                ∷ some (lit "[[data-side=right][data-collapsible=offcanvas]_&]:-left-2")
                ∷ extra
                ∷ []))
          ∷ props)
        children
