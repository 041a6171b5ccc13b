-- ===== src/Ui/Sidebar/Parts.antt =====
-- The parts of docs/src/components/ui/sidebar.tsx that put classes on an element. Properties that a
-- part passes on follow its own, and the later of two of one name counts.
use quickspin.Text.Units.{Text}
use quickspin.Prelude.{String, Option, some, List, [], ◌∷◌, ◌++◌}
use quickspin.Markup.{Attr, attr, Node, elem, attribute, lit}
use quickspin.Ui.Styling.{Styling, cn}

module _ {M : Type 0} (styling : Styling) where
  unfoldable pub part :
      String → List (Attr M) → String → Option Text → List (Attr M) → List (Node M) → Node M
  unfolding cn
  part tag attrs classes extra props children =
      elem tag
        (attrs ++ attr (lit "className") (cn styling (some (lit classes) ∷ extra ∷ [])) ∷ props)
        children

  unfoldable pub sidebar_inset : Option Text → List (Attr M) → List (Node M) → Node M
  unfolding part
  sidebar_inset =
      part "main" (attribute "data-slot" "sidebar-inset" ∷ [])
        "relative flex w-full flex-1 flex-col bg-background md:peer-data-[variant=inset]:m-2 md:peer-data-[variant=inset]:ml-0 md:peer-data-[variant=inset]:rounded-none md:peer-data-[variant=inset]:shadow-sm md:peer-data-[variant=inset]:peer-data-[state=collapsed]:ml-2"

  unfoldable pub sidebar_input : Option Text → List (Attr M) → List (Node M) → Node M
  unfolding part
  sidebar_input =
      part "Input" (attribute "data-slot" "sidebar-input" ∷ attribute "data-sidebar" "input" ∷ [])
        "h-8 w-full bg-background shadow-none"

  unfoldable pub sidebar_header : Option Text → List (Attr M) → List (Node M) → Node M
  unfolding part
  sidebar_header =
      part "div" (attribute "data-slot" "sidebar-header" ∷ attribute "data-sidebar" "header" ∷ [])
        "flex flex-col gap-2 p-2"

  unfoldable pub sidebar_footer : Option Text → List (Attr M) → List (Node M) → Node M
  unfolding part
  sidebar_footer =
      part "div" (attribute "data-slot" "sidebar-footer" ∷ attribute "data-sidebar" "footer" ∷ [])
        "flex flex-col gap-2 p-2"

  unfoldable pub sidebar_separator : Option Text → List (Attr M) → List (Node M) → Node M
  unfolding part
  sidebar_separator =
      part "Separator"
        (attribute "data-slot" "sidebar-separator" ∷ attribute "data-sidebar" "separator" ∷ [])
        "mx-2 w-auto bg-sidebar-border"

  unfoldable pub sidebar_content : Option Text → List (Attr M) → List (Node M) → Node M
  unfolding part
  sidebar_content =
      part "div" (attribute "data-slot" "sidebar-content" ∷ attribute "data-sidebar" "content" ∷ [])
        "no-scrollbar flex min-h-0 flex-1 flex-col gap-0 overflow-auto group-data-[collapsible=icon]:overflow-hidden"

  unfoldable pub sidebar_group : Option Text → List (Attr M) → List (Node M) → Node M
  unfolding part
  sidebar_group =
      part "div" (attribute "data-slot" "sidebar-group" ∷ attribute "data-sidebar" "group" ∷ [])
        "relative flex w-full min-w-0 flex-col p-2"

  unfoldable pub sidebar_group_content : Option Text → List (Attr M) → List (Node M) → Node M
  unfolding part
  sidebar_group_content =
      part "div"
        (attribute "data-slot" "sidebar-group-content"
          ∷ attribute "data-sidebar" "group-content"
          ∷ [])
        "w-full text-xs"

  unfoldable pub sidebar_menu : Option Text → List (Attr M) → List (Node M) → Node M
  unfolding part
  sidebar_menu =
      part "ul" (attribute "data-slot" "sidebar-menu" ∷ attribute "data-sidebar" "menu" ∷ [])
        "flex w-full min-w-0 flex-col gap-0"

  unfoldable pub sidebar_menu_item : Option Text → List (Attr M) → List (Node M) → Node M
  unfolding part
  sidebar_menu_item =
      part "li"
        (attribute "data-slot" "sidebar-menu-item" ∷ attribute "data-sidebar" "menu-item" ∷ [])
        "group/menu-item relative"

  unfoldable pub sidebar_menu_badge : Option Text → List (Attr M) → List (Node M) → Node M
  unfolding part
  sidebar_menu_badge =
      part "div"
        (attribute "data-slot" "sidebar-menu-badge" ∷ attribute "data-sidebar" "menu-badge" ∷ [])
        "pointer-events-none absolute right-1 flex h-5 min-w-5 items-center justify-center rounded-none px-1 text-xs font-medium text-sidebar-foreground tabular-nums select-none group-data-[collapsible=icon]:hidden peer-hover/menu-button:text-sidebar-accent-foreground peer-data-[size=default]/menu-button:top-1.5 peer-data-[size=lg]/menu-button:top-2.5 peer-data-[size=sm]/menu-button:top-1 peer-data-active/menu-button:text-sidebar-accent-foreground"

  unfoldable pub sidebar_menu_sub : Option Text → List (Attr M) → List (Node M) → Node M
  unfolding part
  sidebar_menu_sub =
      part "ul"
        (attribute "data-slot" "sidebar-menu-sub" ∷ attribute "data-sidebar" "menu-sub" ∷ [])
        "mx-3.5 flex min-w-0 translate-x-px flex-col gap-1 border-l border-sidebar-border px-2.5 py-0.5 group-data-[collapsible=icon]:hidden"

  unfoldable pub sidebar_menu_sub_item : Option Text → List (Attr M) → List (Node M) → Node M
  unfolding part
  sidebar_menu_sub_item =
      part "li"
        (attribute "data-slot" "sidebar-menu-sub-item"
          ∷ attribute "data-sidebar" "menu-sub-item"
          ∷ [])
        "group/menu-sub-item relative"
