-- ===== src/Reader/View/Sidebar.antt =====
-- `Sidebar` of docs/src/App.tsx.
use quickspin.Text.{text_eq, decimal, pad_start}
use quickspin.Text.Units.{Text}
use quickspin.Prelude.{
  ℕ, suc, Bool, not, none, some, List, [], ◌∷◌, ◌++◌, ltb, ◌==◌, if◌then◌else◌, length,
}
use quickspin.Markup.{
  attr, flag, on_text, Node, el, text, elem, class_name, attribute, on_click, say, lit, nodes, when,
  optional,
}
use quickspin.Documents.Roadmap.{number_text}
use quickspin.Documents.Catalog.{ReaderDocument}
use quickspin.Reader.State.{Event, set_query, nav_item, home, close_menu, toggle_collapsed}
use quickspin.Reader.View.Status.{is_completed}

pub record SidebarProps : Type 0 where
  pub active : ReaderDocument
  pub query : Text
  pub open_menu : Bool
  pub collapsed : Bool
  pub collapse_locked : Bool

-- The entry of the document at an index of the filtered list.
unfoldable pub nav_entry : SidebarProps → ℕ → ReaderDocument → Node Event
nav_entry p i d =
    let is_active = text_eq d.path p.active.path in
    el (lit "button")
      (attr (lit "className")
            (lit "nav-item " ++ (if is_active then lit "nav-item--active" else []))
          ∷ on_click (nav_item i)
          ∷ optional "aria-current" (if is_active then some (lit "page") else none)
        ++ optional "title" (if p.collapsed then some d.nav_title else none))
      (nodes (
        elem "span" (class_name "nav-item__number" ∷ []) (text (number_text d.roadmap) ∷ [])
        ∷ elem "span" (class_name "nav-item__label" ∷ []) (text d.nav_title ∷ [])
        ∷ when (is_completed d.roadmap) (
            elem "span"
              (class_name "nav-item__complete" ∷ attribute "title" "Completed roadmap" ∷ [])
              (elem "CheckIcon" [] []
                ∷ elem "span" (class_name "sr-only" ∷ []) (say "Completed roadmap" ∷ [])
                ∷ [])
            ∷ [])))

unfoldable pub nav_entries : SidebarProps → ℕ → List ReaderDocument → List (Node Event)
nav_entries p i [] = []
nav_entries p i (d ∷ ds) = nav_entry p i d ∷ nav_entries p (suc i) ds

unfoldable pub navigation : SidebarProps → List ReaderDocument → Node Event
navigation p found =
    elem "nav"
      (attribute "id" "document-navigation"
        ∷ class_name "document-nav"
        ∷ attribute "aria-label" "Roadmap"
        ∷ [])
      (when (ltb 0 (length found)) (
          elem "section" (class_name "nav-section" ∷ []) (
            elem "div" (class_name "nav-section__heading" ∷ []) (
              elem "span" [] (say "Roadmap" ∷ [])
              ∷ elem "small" [] (text (pad_start (decimal (length found))) ∷ [])
              ∷ [])
            ∷ nav_entries p 0 found)
          ∷ [])
        ++ when (length found == 0) (
            elem "div" (class_name "search-empty" ∷ []) (
              elem "span" [] (say "Nothing indexed under" ∷ [])
              ∷ elem "strong" [] (text (lit "“" ++ p.query ++ lit "”") ∷ [])
              ∷ [])
            ∷ []))

unfoldable pub brand : SidebarProps → Node Event
brand p = elem "header" (class_name "brand" ∷ []) (
    elem "button"
      (class_name "brand__mark"
        ∷ on_click home
        ∷ attribute "aria-label" "Quickspin documentation home"
        ∷ optional "title" (if p.collapsed then some (lit "Quickspin home") else none))
      (elem "span" [] (say "Q" ∷ []) ∷ [])
    ∷ elem "div" []
        (elem "p" [] (say "Quickspin" ∷ []) ∷ elem "span" [] (say "Platform roadmap" ∷ []) ∷ [])
    ∷ elem "button"
        (class_name "sidebar__close"
          ∷ on_click close_menu
          ∷ attribute "aria-label" "Close navigation"
          ∷ [])
        (elem "CloseIcon" [] [] ∷ [])
    ∷ [])

unfoldable pub collapse_button : SidebarProps → Node Event
collapse_button p =
    let label = if p.collapsed then lit "Expand navigation" else lit "Collapse navigation" in
    elem "button"
      (class_name "sidebar__collapse"
        ∷ on_click toggle_collapsed
        ∷ attribute "aria-controls" "documentation-sidebar"
        ∷ flag (lit "aria-expanded") (not p.collapsed)
        ∷ attr (lit "aria-label") label
        ∷ attr (lit "title") label
        ∷ [])
      (elem "ChevronIcon" [] [] ∷ [])

unfoldable pub search_field : SidebarProps → Node Event
search_field p = elem "label" (class_name "search" ∷ []) (
    elem "SearchIcon" [] []
    ∷ elem "input"
        (attr (lit "value") p.query
          ∷ on_text (lit "change") set_query
          ∷ attribute "placeholder" "Search the roadmap"
          ∷ attribute "aria-label" "Search documentation"
          ∷ [])
        []
    ∷ elem "kbd" [] (say "/" ∷ [])
    ∷ [])

unfoldable pub sidebar : SidebarProps → List ReaderDocument → List (Node Event)
sidebar p found =
    el (lit "button")
      (attr (lit "className")
          (lit "sidebar-scrim " ++ (if p.open_menu then lit "sidebar-scrim--visible" else []))
        ∷ on_click close_menu
        ∷ attribute "aria-label" "Close navigation"
        ∷ [])
      (nodes [])
    ∷ el (lit "aside")
        (attribute "id" "documentation-sidebar"
          ∷ attr (lit "className") (
              lit "sidebar "
              ++ (if p.open_menu then lit "sidebar--open" else [])
              ++ lit " "
              ++ (if p.collapsed then lit "sidebar--collapsed" else []))
          ∷ [])
        (nodes (
          brand p ∷ when (not p.collapse_locked) (collapse_button p ∷ [])
          ++ search_field p
            ∷ navigation p found
            ∷ elem "footer" (class_name "sidebar__footer" ∷ []) (
                elem "span" [] (say "MDX reader" ∷ [])
                ∷ elem "span" (class_name "pulse-dot" ∷ []) []
                ∷ elem "span" [] (say "local" ∷ [])
                ∷ [])
            ∷ []))
    ∷ []
