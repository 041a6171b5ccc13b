-- ===== src/Reader/State.antt =====
-- The state of the reader and its event handlers (docs/src/App.tsx). The list of documents is not
-- empty: `first` is `documents[0]`.
pub mod Synced
pub mod Pages
pub mod Controls
pub mod History
pub mod Persistence
use quickspin.Text.{text_eq}
use quickspin.Text.Units.{Text, codes}
use quickspin.Prelude.{
  ℕ, suc, ◌+◌, ◌-◌, ◌*◌, Bool, true, false, not, ◌&&◌, ◌||◌, Option, none, some, List, [], ◌∷◌,
  ◌++◌, ltb, ◌==◌, if◌then◌else◌, ◌>>=◌, get_or, length, get_elem?,
}
use quickspin.Text.Unicode.{Unicode}
use quickspin.Documents.Roadmap.{Result, ok, throw}
use quickspin.Documents.Catalog.{ReaderDocument, resolve_document}
use quickspin.Reader.Preferences.{
  ReaderFontSize, ReaderPreferences, JsonCodec, Stored, load_reader_preferences,
  save_reader_preferences,
}
use quickspin.Reader.Links.{Browser, href_for, current_route, resolve_relative_document}
use quickspin.Reader.Search.{filtered}

-- `window.scrollY`, a fraction of which the denominator is one more than `den_pred`; it is below 0 where a
-- browser scrolls past the top.
pub record Scroll : Type 0 where
  pub negative : Bool
  pub num : ℕ
  pub den_pred : ℕ

-- What `updateProgress` reads off the page.
pub record Viewport : Type 0 where
  pub scroll_height : ℕ
  pub inner_height : ℕ
  pub scroll_y : Scroll

-- The progress in percent, as a fraction, which JavaScript rounds.
pub record Progress : Type 0 where
  pub negative : Bool
  pub num : ℕ
  pub den : ℕ

abbrev pub no_progress : Progress
no_progress = record { negative = false; num = 0; den = 1 }

-- The difference stops at 0, where the source's goes below; both fail its test.
unfoldable pub progress_of : Viewport → Progress
progress_of v =
    let scrollable = v.scroll_height - v.inner_height in
    if ltb 0 scrollable
    then record {
      negative = v.scroll_y.negative;
      num = v.scroll_y.num * 100;
      den = suc v.scroll_y.den_pred * scrollable;
    }
    else no_progress

pub record App : Type 0 where
  pub active : ReaderDocument
  pub query : Text
  pub menu_open : Bool
  pub reading_progress : Progress
  pub preferences : ReaderPreferences
  pub settings_open : Bool
  -- outside React: the address, the entries of the history behind it, the page's title, the storage,
  -- whether the search field has the focus or is to get it with the next frame, the page's measures
  pub address : Text
  pub past : List Text
  pub page_title : Text
  pub storage : Stored
  pub search_focused : Bool
  pub frame_due : Bool
  pub viewport : Viewport

-- `sidebarCollapsed`
unfoldable pub is_collapsed : App → Bool
is_collapsed s = s.preferences.sidebar_collapsed || s.preferences.reader_mode

pub data Key : Type 0 where
  slash escape other : Key

pub data Event : Type 0 where
  set_query : Text → Event
  nav_item : ℕ → Event
  home previous_page next_page : Event
  open_menu close_menu : Event
  go_back : Event
  pop_state : (address : Text) → Event
  pointer_down : (inside : Bool) → Event
  key_down : Key → (in_other_field : Bool) → Event
  next_frame : Event
  measure : Viewport → Event
  document_click : (href : Option Text) → Event
  toggle_collapsed toggle_settings toggle_reader_mode : Event
  choose_font_size : ReaderFontSize → Event
  -- a click in the outline, which only scrolls the page
  scroll_to : (id : Text) → Event

module _ (u : Unicode) (b : Browser) (codec : JsonCodec) (first : ReaderDocument)
    (others : List ReaderDocument) where
  abbrev pub documents : List ReaderDocument
  documents = first ∷ others

  -- `resolveDocument` over this list, which always finds a document.
  unfoldable pub resolve : Text → ReaderDocument
  resolve address = get_or (resolve_document documents (current_route b address)) first

  -- The effects that run after a render: the page's title, the storage, the progress.
  unfoldable pub settle : App → App
  settle s = record s {
    page_title = s.active.title ++ codes " · Quickspin";
    storage = save_reader_preferences codec s.preferences s.storage;
    reading_progress = progress_of s.viewport;
  }

  unfoldable pub initial : Text → Stored → Viewport → App
  unfolding settle
  initial address storage viewport = settle (record {
    active = resolve address;
    query = [];
    menu_open = false;
    reading_progress = no_progress;
    preferences = load_reader_preferences codec storage;
    settings_open = false;
    address = address;
    past = [];
    page_title = [];
    storage = storage;
    search_focused = false;
    frame_due = false;
    viewport = viewport;
  })

  unfoldable pub navigate : ReaderDocument → Bool → App → App
  navigate d replace s = record s {
    address = href_for b d;
    past = if replace then s.past else s.address ∷ s.past;
    active = d;
    menu_open = false;
  }

  unfoldable pub navigate_to : Option ReaderDocument → App → App
  unfolding navigate
  navigate_to none s = s
  navigate_to (some d) s = navigate d false s

  -- `documents.findIndex(…)`, where `none` is -1
  unfoldable pub index_of : List ReaderDocument → Text → Option ℕ
  index_of [] path = none
  index_of (d ∷ ds) path =
      if text_eq d.path path then some 0 else (index_of ds path >>= λ i. some (suc i))

  unfoldable pub active_index : App → Option ℕ
  active_index s = index_of documents s.active.path

  unfoldable pub previous : App → Option ReaderDocument
  previous s = elim (active_index s) [
    | none ↦ none
    | some i ↦ if ltb 0 i then get_elem? documents (i - 1) else none
  ]

  unfoldable pub next : App → Option ReaderDocument
  next s = elim (active_index s) [
    | none ↦ get_elem? documents 0
    | some i ↦ if ltb i (length documents - 1) then get_elem? documents (i + 1) else none
  ]

  -- `handlePopState`, once the browser shows the address
  unfoldable pub handle_pop_state : Text → App → App
  handle_pop_state address s = record s { address = address; active = resolve address }

  unfoldable pub handle_back : List Text → App → App
  unfolding handle_pop_state
  handle_back [] s = s
  handle_back (address ∷ past) s = handle_pop_state address (record s { past = past })

  -- The listener is there only while the settings are open.
  unfoldable pub handle_pointer_down : Bool → App → App
  handle_pointer_down inside s =
      if s.settings_open && not inside then record s { settings_open = false } else s

  unfoldable pub handle_key_down : Key → Bool → App → App × Bool
  handle_key_down slash in_other_field s =
      if s.search_focused || in_other_field then (s, false) else (
        record s {
          preferences = record (s.preferences) { reader_mode = false; sidebar_collapsed = false };
          frame_due = true;
        },
        true,
      )
  handle_key_down escape in_other_field s = (
    record s { query = []; menu_open = false; settings_open = false; search_focused = false },
    false,
  )
  handle_key_down other in_other_field s = (s, false)

  unfoldable pub handle_frame : App → App
  handle_frame s = if s.frame_due then record s { search_focused = true; frame_due = false } else s

  -- The end of the click handler, once the link is resolved. Where `decodeURIComponent` throws, the
  -- handler ends there.
  unfoldable pub open_link : Result (Option ReaderDocument) → App → App × Bool
  open_link (throw e) s = (s, false)
  open_link (ok none) s = (s, false)
  open_link (ok (some d)) s = (navigate d false s, true)

  -- A click on an anchor of the document; the flag says that the browser's own action is prevented.
  unfoldable pub handle_document_click : Option Text → App → App × Bool
  handle_document_click none s = (s, false)
  handle_document_click (some []) s = (s, false)
  handle_document_click (some (c ∷ t)) s =
      if c == b'#'
      then (record s { address = href_for b s.active ++ c ∷ t }, true)
      else open_link (resolve_relative_document b documents s.active (c ∷ t)) s

  unfoldable pub set_preferences : (ReaderPreferences → ReaderPreferences) → App → App
  set_preferences f s = record s { preferences = f s.preferences }

  -- The handler of each event, before the effects.
  unfoldable pub handle : Event → App → App × Bool
  handle (set_query q) s = (record s { query = q }, false)
  handle (nav_item i) s = (navigate_to (get_elem? (filtered u documents s.query) i) s, false)
  handle home s = (navigate_to (resolve_document documents (some [])) s, false)
  handle previous_page s = (navigate_to (previous s) s, false)
  handle next_page s = (navigate_to (next s) s, false)
  handle open_menu s = (record s { menu_open = true }, false)
  handle close_menu s = (record s { menu_open = false }, false)
  handle go_back s = (handle_back s.past s, false)
  handle (pop_state address) s = (handle_pop_state address s, false)
  handle (pointer_down inside) s = (handle_pointer_down inside s, false)
  handle (key_down k in_other_field) s = handle_key_down k in_other_field s
  handle next_frame s = (handle_frame s, false)
  handle (measure v) s = (record s { viewport = v }, false)
  handle (document_click href) s = handle_document_click href s
  handle toggle_collapsed s =
      (set_preferences (λ p. record p { sidebar_collapsed = not p.sidebar_collapsed }) s, false)
  handle toggle_settings s = (record s { settings_open = not s.settings_open }, false)
  handle toggle_reader_mode s = (
    record (set_preferences (λ p. record p { reader_mode = not p.reader_mode }) s) {
      settings_open = false;
    },
    false,
  )
  handle (choose_font_size size) s = (set_preferences (λ p. record p { font_size = size }) s, false)
  handle (scroll_to id) s = (s, false)

  unfoldable pub step : App → Event → App
  step s e = settle (handle e s).0

  unfoldable pub run : App → List Event → App
  run s [] = s
  run s (e ∷ es) = run (step s e) es
