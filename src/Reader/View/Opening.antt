-- ===== src/Reader/View/Opening.antt =====
-- What a click on each button of the sidebar shows.
use quickspin.Prelude.{
  ℕ, suc, ◌+◌, ◌≡◌, ◌≢◌, refl, ◌∙◌, subst, inl, inr, Bool, true, false, not, some, List, [], ◌∷◌,
  ◌++◌, map, arith, if◌then◌else◌, get_elem?, In, All, All-In,
}
use mathlib.Core.Path.{ap₂}
use quickspin.Text.Unicode.{Unicode}
use quickspin.Text.{strip_suffix, strip_extension}
use quickspin.Markup.{nodes}
use quickspin.Markup.Queries.{messages_of}
use quickspin.Documents.Catalog.{ReaderDocument, normalize_route}
use quickspin.Documents.Catalog.Resolve.{IsPlain, resolve_document_total}
use quickspin.Reader.Preferences.{JsonCodec}
use quickspin.Reader.Links.{Browser}
use quickspin.Reader.Search.{filtered}
use quickspin.Reader.State.{
  App, Event, nav_item, home, close_menu, toggle_collapsed, navigate, navigate_to, set_preferences,
  settle, handle, step,
}
use quickspin.Reader.View.Sidebar.{sidebar}
use quickspin.Reader.View.Page.{sidebar_props}
use quickspin.Reader.View.Buttons.{entry_messages, sidebar-messages}

-- The document that is shown, whether the menu is open and whether the sidebar is folded.
abbrev pub Sight : Type 0
Sight = ReaderDocument × Bool × Bool

abbrev pub sight : App → Sight
sight s = (s.active, s.menu_open, s.preferences.sidebar_collapsed)

here : (i : ℕ) → i + 0 ≡ i
here i = omega arith

from_zero : (j : ℕ) → j ≡ 0 + j
from_zero j = omega arith

onwards : (i j : ℕ) → i + suc j ≡ suc i + j
onwards i j = omega arith

root_route : normalize_route (some []) ≡ []
unfolding normalize_route strip_suffix strip_extension
root_route = refl

module _ (u : Unicode) (b : Browser) (codec : JsonCodec) (first : ReaderDocument)
    (others : List ReaderDocument) where
  abbrev clicked : App → Event → Sight
  clicked s e = sight (step u b codec first others s e)

  nav_item-sight :
      (s : App) (i : ℕ) (d : ReaderDocument)
      → get_elem? (filtered u (first ∷ others) s.query) i ≡ some d
      → clicked s (nav_item i) ≡ (d, false, s.preferences.sidebar_collapsed)
  unfolding step handle navigate_to navigate settle
  nav_item-sight s i d h = rw (h, navigate_to) refl

  -- The entries from an index on, of documents that stand in the found list from there on.
  entries-sight :
      (s : App) (i : ℕ) (ds : List ReaderDocument)
      → ((j : ℕ) (d : ReaderDocument)
          → get_elem? ds j ≡ some d
          → get_elem? (filtered u (first ∷ others) s.query) (i + j) ≡ some d)
      → map (clicked s) (entry_messages i ds)
        ≡ map (λ d. (d, false, s.preferences.sidebar_collapsed)) ds
  entries-sight s i [] h = refl
  entries-sight s i (d ∷ ds) h =
      let found = filtered u (first ∷ others) s.query in
      ap₂ ◌∷◌ (nav_item-sight s i d (subst (λ n. get_elem? found n ≡ some d) (here i) (h 0 d refl)))
        (entries-sight s (suc i) ds
          (λ j e at. subst (λ n. get_elem? found n ≡ some e) (onwards i j) (h (suc j) e at)))

  no_empty :
      All (λ d. IsPlain d.route) (first ∷ others)
      → (d : ReaderDocument) → In d (first ∷ others)
      → d.route ≢ []
  no_empty plain d i = (All-In (λ e. IsPlain e.route) (first ∷ others) plain i).nonempty

  home-sight :
      (s : App)
      → All (λ d. IsPlain d.route) (first ∷ others)
      → clicked s home ≡ (first, false, s.preferences.sidebar_collapsed)
  unfolding step handle navigate_to navigate settle
  home-sight s plain =
      let (found, at, there, from) = resolve_document_total first others (some []) in
      let same : found ≡ first = elim from [
        | inl empty ↦ absurd (no_empty plain found there (empty ∙ root_route))
        | inr e ↦ e
      ] in
      rw (at, navigate_to) (rw same refl)

  close_menu-sight :
      (s : App) → clicked s close_menu ≡ (s.active, false, s.preferences.sidebar_collapsed)
  unfolding step handle settle
  close_menu-sight s = refl

  toggle_collapsed-sight :
      (s : App)
      → clicked s toggle_collapsed ≡ (s.active, s.menu_open, not s.preferences.sidebar_collapsed)
  unfolding step handle set_preferences settle
  toggle_collapsed-sight s = refl

  found-sight :
      (s : App)
      → let found = filtered u (first ∷ others) s.query in
        map (clicked s) (entry_messages 0 found)
        ≡ map (λ d. (d, false, s.preferences.sidebar_collapsed)) found
  found-sight s =
      let found = filtered u (first ∷ others) s.query in
      entries-sight s 0 found (λ j d at. subst (λ n. get_elem? found n ≡ some d) (from_zero j) at)

  lower-sight :
      (s : App) (locked : Bool)
      → let folded = s.preferences.sidebar_collapsed in
        let found = filtered u (first ∷ others) s.query in
        map (clicked s) ((if locked then [] else toggle_collapsed ∷ []) ++ entry_messages 0 found)
        ≡ (if locked then [] else (s.active, s.menu_open, not folded) ∷ [])
          ++ map (λ d. (d, false, folded)) found
  lower-sight s true = found-sight s
  lower-sight s false = ap₂ ◌∷◌ (toggle_collapsed-sight s) (found-sight s)

  -- What a click on each button of the sidebar shows, in the order of the page. The scrim closes the menu;
  -- the mark opens the first document, if the routes are plain; the cross closes the menu; a button folds
  -- the sidebar or unfolds it, unless reader mode locks it; then there is one button for each document
  -- that the search leaves, which opens that document. Each that opens a document closes the menu.
  pub sidebar-sight :
      (s : App)
      → All (λ d. IsPlain d.route) (first ∷ others)
      → let folded = s.preferences.sidebar_collapsed in
        let found = filtered u (first ∷ others) s.query in
        map (clicked s) (messages_of (nodes (sidebar (sidebar_props s) found)))
        ≡ (s.active, false, folded)
            ∷ (first, false, folded)
            ∷ (s.active, false, folded)
            ∷ (if s.preferences.reader_mode then [] else (s.active, s.menu_open, not folded) ∷ [])
          ++ map (λ d. (d, false, folded)) found
  unfolding sidebar_props
  sidebar-sight s plain =
      let found = filtered u (first ∷ others) s.query in
      rw (sidebar-messages (sidebar_props s) found) (
        ap₂ ◌∷◌ (close_menu-sight s) (
          ap₂ ◌∷◌ (home-sight s plain)
            (ap₂ ◌∷◌ (close_menu-sight s) (lower-sight s s.preferences.reader_mode))))
