-- ===== src/Ui/Sidebar/Menu.antt =====
-- The parts of docs/src/components/ui/sidebar.tsx that another element can stand in for (`useRender` and
-- `mergeProps` of the package base-ui, which are parameters), and the menu's buttons.
use quickspin.Text.{text_eq, decimal}
use quickspin.Text.Units.{Text, codes}
use quickspin.Prelude.{
  ℕ, ◌+◌, String, Bool, true, false, not, ◌||◌, Option, none, some, List, [], ◌∷◌, ◌++◌,
  if◌then◌else◌, get_or,
}
use quickspin.Markup.{Attr, attr, Node, elem, attribute, class_name, flag, lit, text, when}
use quickspin.Ui.Styling.{Styling, cn, Cva, BaseUi}
use quickspin.Ui.Sidebar.{SidebarContext}

pub data ButtonVariant : Type 0 where
  default_variant outline : ButtonVariant

pub data ButtonSize : Type 0 where
  default_size sm lg : ButtonSize

abbrev variant_text : ButtonVariant → Text
variant_text default_variant = codes "default"
variant_text outline = codes "outline"

abbrev size_text : ButtonSize → Text
size_text default_size = codes "default"
size_text sm = codes "sm"
size_text lg = codes "lg"

pub data SubSize : Type 0 where
  sub_sm sub_md : SubSize

abbrev sub_size_text : SubSize → Text
sub_size_text sub_sm = codes "sm"
sub_size_text sub_md = codes "md"

-- A tooltip is a text or the properties of `TooltipContent`; the empty text is none.
pub data Tooltip (M : Type 0) : Type 0 where
  tooltip_text : Text → Tooltip M
  tooltip_props : List (Attr M) → List (Node M) → Tooltip M

abbrev has_tooltip : {M : Type 0} → Option (Tooltip M) → Bool
has_tooltip none = false
has_tooltip (some (tooltip_text t)) = not (text_eq t [])
has_tooltip (some (tooltip_props _ _)) = true

-- The content is hidden unless the sidebar is collapsed on a wide screen.
abbrev content_attrs : {M : Type 0} → SidebarContext → List (Attr M)
content_attrs c =
    attribute "side" "right"
    ∷ attribute "align" "center"
    ∷ flag (lit "hidden") (not (text_eq c.state (codes "collapsed")) || c.mobile)
    ∷ []

abbrev pub sidebar_menu_button_variants : Cva
sidebar_menu_button_variants = record {
  classes =
      lit
        "peer/menu-button group/menu-button flex w-full items-center gap-2 overflow-hidden rounded-none p-2 text-left text-xs ring-sidebar-ring outline-hidden transition-[width,height,padding] group-has-data-[sidebar=menu-action]/menu-item:pr-8 group-data-[collapsible=icon]:size-8! group-data-[collapsible=icon]:p-2! hover:bg-sidebar-accent hover:text-sidebar-accent-foreground focus-visible:ring-2 active:bg-sidebar-accent active:text-sidebar-accent-foreground disabled:pointer-events-none disabled:opacity-50 aria-disabled:pointer-events-none aria-disabled:opacity-50 data-open:hover:bg-sidebar-accent data-open:hover:text-sidebar-accent-foreground data-active:bg-sidebar-accent data-active:font-medium data-active:text-sidebar-accent-foreground [&_svg]:size-4 [&_svg]:shrink-0 [&>span:last-child]:truncate";
  variants =
      (
        lit "variant",
        (lit "default", lit "hover:bg-sidebar-accent hover:text-sidebar-accent-foreground")
            ∷ (
              lit "outline",
              lit
                  "bg-background shadow-[0_0_0_1px_var(--sidebar-border)] hover:bg-sidebar-accent hover:text-sidebar-accent-foreground hover:shadow-[0_0_0_1px_var(--sidebar-accent)]",
            )
            ∷ [],
      )
      ∷ (
        lit "size",
        (lit "default", lit "h-8 text-xs")
            ∷ (lit "sm", lit "h-7 text-xs")
            ∷ (lit "lg", lit "h-12 text-xs group-data-[collapsible=icon]:p-0!")
            ∷ [],
      )
      ∷ [];
  defaults = (lit "variant", lit "default") ∷ (lit "size", lit "default") ∷ [];
}

module _ {M : Type 0} (styling : Styling) (base : BaseUi M) where
  abbrev rendered :
      String
      → List (Option Text)
      → Option (Node M)
      → List (Attr M)
      → List (Attr M)
      → List (Node M)
      → Node M
  rendered tag classes render state props children =
      base.use_render (lit tag) render state
        (base.merge_props (attr (lit "className") (styling.tw_merge (styling.clsx classes)) ∷ [])
          props)
        children

  unfoldable pub sidebar_group_label :
      Option Text → Option (Node M) → List (Attr M) → List (Node M) → Node M
  sidebar_group_label extra render props children =
      rendered "div"
        (some (
            lit
              "flex h-8 shrink-0 items-center rounded-none px-2 text-xs text-sidebar-foreground/70 ring-sidebar-ring outline-hidden transition-[margin,opacity] duration-200 ease-linear group-data-[collapsible=icon]:-mt-8 group-data-[collapsible=icon]:opacity-0 focus-visible:ring-2 [&>svg]:size-4 [&>svg]:shrink-0")
          ∷ extra
          ∷ [])
        render (attribute "slot" "sidebar-group-label" ∷ attribute "sidebar" "group-label" ∷ [])
        props children

  unfoldable pub sidebar_group_action :
      Option Text → Option (Node M) → List (Attr M) → List (Node M) → Node M
  sidebar_group_action extra render props children =
      rendered "button"
        (some (
            lit
              "absolute top-3.5 right-3 flex aspect-square w-5 items-center justify-center rounded-none p-0 text-sidebar-foreground ring-sidebar-ring outline-hidden transition-transform group-data-[collapsible=icon]:hidden after:absolute after:-inset-2 hover:bg-sidebar-accent hover:text-sidebar-accent-foreground focus-visible:ring-2 md:after:hidden [&>svg]:size-4 [&>svg]:shrink-0")
          ∷ extra
          ∷ [])
        render (attribute "slot" "sidebar-group-action" ∷ attribute "sidebar" "group-action" ∷ [])
        props children

  -- `TooltipTrigger` takes the place of the element that stands in.
  abbrev trigger : Option (Node M) → Node M
  trigger none = elem "TooltipTrigger" [] []
  trigger (some render) = elem "TooltipTrigger" [] (elem "render" [] (render ∷ []) ∷ [])

  abbrev tooltip_content : SidebarContext → Tooltip M → Node M
  tooltip_content c (tooltip_text t) = elem "TooltipContent" (content_attrs c) (text t ∷ [])
  tooltip_content c (tooltip_props props children) =
      elem "TooltipContent" (content_attrs c ++ props) children

  unfoldable pub sidebar_menu_button :
      SidebarContext
      → Option (Node M)
      → Option Bool
      → Option ButtonVariant
      → Option ButtonSize
      → Option (Tooltip M)
      → Option Text
      → List (Attr M)
      → List (Node M)
      → Node M
  sidebar_menu_button c render is_active variant size tooltip extra props children =
      let comp =
        rendered "button"
          (some (
              styling.cva sidebar_menu_button_variants (
                (lit "variant", some (variant_text (get_or variant default_variant)))
                ∷ (lit "size", some (size_text (get_or size default_size)))
                ∷ []))
            ∷ extra
            ∷ [])
          (if has_tooltip tooltip then some (trigger render) else render)
          (attribute "slot" "sidebar-menu-button"
            ∷ attribute "sidebar" "menu-button"
            ∷ attr (lit "size") (size_text (get_or size default_size))
            ∷ flag (lit "active") (get_or is_active false)
            ∷ [])
          props children in
      with_tooltip comp tooltip
    where
      with_tooltip : Node M → Option (Tooltip M) → Node M
      with_tooltip comp none = comp
      with_tooltip comp (some t) =
          if has_tooltip (some t) then elem "Tooltip" [] (comp ∷ tooltip_content c t ∷ []) else comp

  unfoldable pub sidebar_menu_action :
      Option Text → Option (Node M) → Option Bool → List (Attr M) → List (Node M) → Node M
  sidebar_menu_action extra render show_on_hover props children =
      rendered "button"
        (some (
            lit
              "absolute top-1.5 right-1 flex aspect-square w-5 items-center justify-center rounded-none p-0 text-sidebar-foreground ring-sidebar-ring outline-hidden transition-transform group-data-[collapsible=icon]:hidden peer-hover/menu-button:text-sidebar-accent-foreground peer-data-[size=default]/menu-button:top-1.5 peer-data-[size=lg]/menu-button:top-2.5 peer-data-[size=sm]/menu-button:top-1 after:absolute after:-inset-2 hover:bg-sidebar-accent hover:text-sidebar-accent-foreground focus-visible:ring-2 md:after:hidden [&>svg]:size-4 [&>svg]:shrink-0")
          ∷ (if get_or show_on_hover false
              then some (
                  lit
                    "group-focus-within/menu-item:opacity-100 group-hover/menu-item:opacity-100 peer-data-active/menu-button:text-sidebar-accent-foreground aria-expanded:opacity-100 md:opacity-0")
              else none)
          ∷ extra
          ∷ [])
        render (attribute "slot" "sidebar-menu-action" ∷ attribute "sidebar" "menu-action" ∷ [])
        props children

  unfoldable pub sidebar_menu_sub_button :
      Option (Node M)
      → Option SubSize
      → Option Bool
      → Option Text
      → List (Attr M)
      → List (Node M)
      → Node M
  sidebar_menu_sub_button render size is_active extra props children =
      rendered "a"
        (some (
            lit
              "flex h-7 min-w-0 -translate-x-px items-center gap-2 overflow-hidden rounded-none px-2 text-sidebar-foreground ring-sidebar-ring outline-hidden group-data-[collapsible=icon]:hidden hover:bg-sidebar-accent hover:text-sidebar-accent-foreground focus-visible:ring-2 active:bg-sidebar-accent active:text-sidebar-accent-foreground disabled:pointer-events-none disabled:opacity-50 aria-disabled:pointer-events-none aria-disabled:opacity-50 data-[size=md]:text-xs data-[size=sm]:text-xs data-active:bg-sidebar-accent data-active:text-sidebar-accent-foreground [&>span:last-child]:truncate [&>svg]:size-4 [&>svg]:shrink-0 [&>svg]:text-sidebar-accent-foreground")
          ∷ extra
          ∷ [])
        render
        (attribute "slot" "sidebar-menu-sub-button"
          ∷ attribute "sidebar" "menu-sub-button"
          ∷ attr (lit "size") (sub_size_text (get_or size sub_md))
          ∷ flag (lit "active") (get_or is_active false)
          ∷ [])
        props children

  -- The width is `Math.floor(Math.random() * 40) + 50` per cent; the first part is the argument.
  unfoldable pub sidebar_menu_skeleton : ℕ → Option Text → Option Bool → List (Attr M) → Node M
  unfolding cn
  sidebar_menu_skeleton drawn extra show_icon props =
      elem "div"
        (attribute "data-slot" "sidebar-menu-skeleton"
          ∷ attribute "data-sidebar" "menu-skeleton"
          ∷ attr (lit "className")
              (cn styling (some (lit "flex h-8 items-center gap-2 rounded-none px-2") ∷ extra ∷ []))
          ∷ props)
        (when (get_or show_icon false) (
            elem "Skeleton"
              (class_name "size-4 rounded-none"
                ∷ attribute "data-sidebar" "menu-skeleton-icon"
                ∷ [])
              []
            ∷ [])
          ++ elem "Skeleton"
              (class_name "h-4 max-w-(--skeleton-width) flex-1"
                ∷ attribute "data-sidebar" "menu-skeleton-text"
                ∷ attr (lit "style:--skeleton-width") (decimal (drawn + 50) ++ lit "%")
                ∷ [])
              []
            ∷ [])
