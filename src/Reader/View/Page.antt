-- ===== src/Reader/View/Page.antt =====
-- The page around a document, and the whole of what `App` renders (docs/src/App.tsx).
use quickspin.Text.{decimal, pad_start}
use quickspin.Text.Units.{Text}
use quickspin.Prelude.{
  ℕ, ◌+◌, Option, none, some, List, [], ◌∷◌, ◌++◌, ltb, ◌==◌, if◌then◌else◌, length,
}
use quickspin.Markup.{attr, Node, el, text, elem, class_name, attribute, on_click, say, lit, nodes}
use quickspin.Text.Unicode.{Unicode}
use quickspin.Documents.Source.{DocumentHeading}
use quickspin.Documents.Catalog.{ReaderDocument}
use quickspin.Reader.Preferences.{JsonCodec, size_text}
use quickspin.Reader.Links.{Browser}
use quickspin.Reader.Search.{filtered}
use quickspin.Reader.State.{
  App, Progress, Event, is_collapsed, previous_page, next_page, open_menu, scroll_to, documents,
  active_index, previous, next,
}
use quickspin.Reader.View.Status.{is_completed, roadmap_status}
use quickspin.Reader.View.Sidebar.{SidebarProps, sidebar}
use quickspin.Reader.View.Settings.{reader_controls}

-- `String(activeIndex + 1).padStart(2, "0")`, where no index is -1
unfoldable pub page_number : Option ℕ → Text
page_number none = pad_start (decimal 0)
page_number (some i) = pad_start (decimal (i + 1))

unfoldable pub document_meta : ReaderDocument → Node Event
document_meta d = elem "div" (class_name "document-meta" ∷ []) (
    elem "span" []
      ((if is_completed d.roadmap then say "Completed roadmap" else say "Roadmap") ∷ [])
    ∷ elem "span" [] (text (decimal d.reading_minutes ++ lit " min read") ∷ [])
    ∷ elem "span" [] (text d.path ∷ [])
    ∷ [])

unfoldable pub previous_button : Option ReaderDocument → Node Event
previous_button none = elem "span" [] []
previous_button (some d) =
    elem "button" (class_name "page-turner__previous" ∷ on_click previous_page ∷ []) (
      elem "ArrowIcon" [] []
      ∷ elem "span" [] (elem "small" [] (say "Previous" ∷ []) ∷ text d.title ∷ [])
      ∷ [])

unfoldable pub next_button : Option ReaderDocument → List (Node Event)
next_button none = []
next_button (some d) =
    elem "button" (class_name "page-turner__next" ∷ on_click next_page ∷ []) (
      elem "span" [] (elem "small" [] (say "Next" ∷ []) ∷ text d.title ∷ [])
      ∷ elem "ArrowIcon" [] []
      ∷ [])
    ∷ []

unfoldable pub outline_entry : DocumentHeading → Node Event
outline_entry h =
    elem "button"
      (attr (lit "className") (if h.depth == 3 then lit "outline__nested" else [])
        ∷ on_click (scroll_to h.id)
        ∷ [])
      (text h.title ∷ [])

unfoldable pub outline_entries : List DocumentHeading → List (Node Event)
outline_entries [] = []
outline_entries (h ∷ hs) = outline_entry h ∷ outline_entries hs

unfoldable pub outline : ReaderDocument → Option ℕ → Node Event
unfolding outline_entries
outline d index = elem "aside" (class_name "outline" ∷ []) (
    elem "p" [] (say "On this page" ∷ [])
    ∷ elem "nav" [] (
        if ltb 0 (length d.headings)
        then outline_entries d.headings
        else elem "span" [] (say "No sections indexed." ∷ []) ∷ [])
    ∷ elem "div" (class_name "outline__rule" ∷ []) []
    ∷ elem "p" (class_name "outline__folio" ∷ []) (text (lit "QS / " ++ page_number index) ∷ [])
    ∷ [])

unfoldable pub mobile_header : Option ℕ → Node Event
mobile_header index = elem "header" (class_name "mobile-header" ∷ []) (
    elem "button" (on_click open_menu ∷ attribute "aria-label" "Open navigation" ∷ [])
      (elem "MenuIcon" [] [] ∷ [])
    ∷ elem "span" [] (say "Quickspin / roadmap" ∷ [])
    ∷ elem "span" (class_name "mobile-header__page" ∷ []) (text (page_number index) ∷ [])
    ∷ [])

-- The compiled document itself is a parameter.
unfoldable pub document_body : Node Event → Node Event
document_body content =
    elem "div" (class_name "document-body" ∷ [])
      (elem "MDXProvider" [] (elem "Suspense" [] (content ∷ []) ∷ []) ∷ [])

unfoldable pub sidebar_props : App → SidebarProps
unfolding is_collapsed
sidebar_props s = record {
  active = s.active;
  query = s.query;
  open_menu = s.menu_open;
  collapsed = is_collapsed s;
  collapse_locked = s.preferences.reader_mode;
}

module _ (u : Unicode) (b : Browser) (codec : JsonCodec) (first : ReaderDocument)
    (others : List ReaderDocument) (format : Text → Text)
    (component : ReaderDocument → Node Event) where
  unfoldable pub paper : App → Node Event
  unfolding previous_button next_button document_body document_meta
  paper s = elem "article" (class_name "paper" ∷ []) (
      document_meta s.active
      ∷ roadmap_status format s.active.roadmap
      ∷ document_body (component s.active)
      ∷ elem "nav"
          (class_name "page-turner" ∷ attribute "aria-label" "Previous and next document" ∷ [])
          (previous_button (previous u b codec first others s)
            ∷ next_button (next u b codec first others s))
      ∷ [])

  unfoldable pub shell_class : App → Text
  unfolding is_collapsed
  shell_class s =
      lit "app-shell reader-font--"
      ++ size_text s.preferences.font_size
      ++ lit " "
      ++ (if is_collapsed s then lit "app-shell--sidebar-collapsed" else [])
      ++ lit " "
      ++ (if s.preferences.reader_mode then lit "app-shell--reader-mode" else [])

  -- The width of the bar is a fraction; it is written as the two numbers.
  unfoldable pub progress_bar : Progress → Node Event
  progress_bar p =
      elem "div"
        (class_name "reading-progress"
          ∷ attr (lit "width") (
              (if p.negative then lit "-" else [])
              ++ decimal p.num
              ++ lit "/"
              ++ decimal p.den
              ++ lit "%")
          ∷ [])
        []

  unfoldable pub app_view : App → Node Event
  app_view s =
      let index = active_index u b codec first others s in
      el (lit "div") (attr (lit "className") (shell_class s) ∷ []) (
        nodes (
          progress_bar s.reading_progress
            ∷ sidebar (sidebar_props s) (filtered u (documents u b codec first others) s.query)
          ++ mobile_header index
            ∷ elem "main" (class_name "reader" ∷ []) (paper s ∷ outline s.active index ∷ [])
            ∷ reader_controls s
            ∷ []))
