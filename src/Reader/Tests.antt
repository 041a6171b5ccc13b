-- ===== src/Reader/Tests.antt =====
-- The reader's theorems at concrete inputs: two documents, a browser that escapes the parameter by
-- a shift, and a storage that holds the preferences as three numbers.
use quickspin.Text.{trim, text_eq, includes, strip_suffix, strip_extension}
use quickspin.Text.Units.{Text, codes}
use quickspin.Prelude.{
  ℕ, ◌+◌, ◌-◌, ◌*◌, ◌≤◌, ◌<◌, ◌≡◌, ◌≢◌, refl, sym, ap, ◌∙◌, ◌↔◌, ◌⊎◌, inl, inr, Bool, true, false,
  not, ◌||◌, Option, none, some, List, [], ◌∷◌, ◌++◌, map, arith, ◌==◌, if◌then◌else◌, drop,
  take_while, In, All,
}
use quickspin.Documents.Roadmap.{ok}
use quickspin.Documents.Catalog.Resolve.{IsPlain}
use quickspin.Documents.Tests.{
  ascii, first_page, second_page, two_pages, distinct_routes, plain_first, plain_second, text_ne,
}
use quickspin.Reader.Preferences.{
  ReaderFontSize, xs, sm, md, lg, xl, ReaderPreferences, default_reader_preferences, Json,
  JsonCodec, denied, missing, load_reader_preferences, save_reader_preferences, preferences_from,
  preferences_json,
}
use quickspin.Reader.Preferences.Laws.{IsCodec, load-save, preferences_from-json}
use mathlib.Core.List.{cons-ne-nil}
use quickspin.Reader.Links.{Browser, resolve_relative_document, is_foreign}
use quickspin.Reader.Links.Relative.{
  resolve_relative_document-fragment, resolve_relative_document-ups,
}
use quickspin.Reader.Search.{filtered}
use quickspin.Reader.Search.Matches.{filtered_iff, Occurs}
use quickspin.Reader.State.{
  App, Event, Viewport, slash, key_down, next_frame, next_page, previous_page, go_back, nav_item,
  toggle_settings, document_click, initial, run, step, handle, resolve, progress_of,
}
use quickspin.Documents.Catalog.{resolve_document, normalize_route, has_route}
use quickspin.Reader.Links.{current_route}
use quickspin.Reader.Links.Walk.{IsName}
use quickspin.Reader.Links.Relative.{HasNoSlash}
use quickspin.Reader.State.{settle, home}
use quickspin.Reader.View.Sidebar.{sidebar}
use quickspin.Reader.View.Page.{sidebar_props}
use quickspin.Reader.View.Opening.{sight, sidebar-sight}
use quickspin.Markup.{nodes}
use quickspin.Markup.Queries.{messages_of}
use quickspin.Reader.State.Synced.{IsBrowser, run-initial-Located, Located}
use quickspin.Reader.State.Pages.{
  HasDistinctPaths, run-next_page, run-previous_page-next_page, turns, ShowsPage,
}
use quickspin.Reader.State.Controls.{slash_focuses, progress_of_lem}
use quickspin.Reader.State.History.{Opens, by_mark, go_back_undoes}
use quickspin.Reader.State.{is_collapsed}
use quickspin.Reader.Links.{href_for}
use quickspin.Reader.State.Persistence.{run-initial-Persists, Persists}

-- A code of the values that the program writes.
abbrev size_code : ReaderFontSize → ℕ
size_code xs = 1
size_code sm = 2
size_code md = 3
size_code lg = 4
size_code xl = 5

abbrev size_from : ℕ → ReaderFontSize
size_from n =
    if n == 1 then xs else if n == 2 then sm else if n == 3 then md else if n == 4 then lg else xl

abbrev bit : Bool → ℕ
bit b = if b then 1 else 0

abbrev encode : Option ReaderPreferences → Text
encode none = 0 ∷ []
encode (some p) = size_code p.font_size ∷ bit p.reader_mode ∷ bit p.sidebar_collapsed ∷ []

abbrev decode : Text → Option Json
decode (a ∷ b ∷ c ∷ []) = some (
    preferences_json
      (record { font_size = size_from a; reader_mode = b == 1; sidebar_collapsed = c == 1 }))
decode _ = none

abbrev pub codec : JsonCodec
codec = record { parse = decode; stringify = λ v. encode (preferences_from v) }

size_from_code : (s : ReaderFontSize) → size_from (size_code s) ≡ s
size_from_code xs = refl
size_from_code sm = refl
size_from_code md = refl
size_from_code lg = refl
size_from_code xl = refl

bit_lem : (b : Bool) → (bit b == 1) ≡ b
bit_lem true = refl
bit_lem false = refl

codec-IsCodec : IsCodec codec
codec-IsCodec = record {
  parse-stringify = λ p. rw (
    preferences_from-json p,
    size_from_code p.font_size,
    bit_lem p.reader_mode,
    bit_lem p.sidebar_collapsed,
  );
  stringify-ne-nil = λ p. λ e. cons-ne-nil _ _ (sym (ap encode (preferences_from-json p)) ∙ e);
}

load-save_example :
    load_reader_preferences codec (save_reader_preferences codec default_reader_preferences missing)
    ≡ default_reader_preferences
load-save_example = load-save codec codec-IsCodec default_reader_preferences missing

abbrev shift : Text → Text
shift s = map (λ c. c + 36) s

abbrev unshift : Text → Text
unshift s = map (λ c. c - 36) (take_while (λ c. not (c == b'#')) s)

abbrev pub browser : Browser
browser = record {
  encode_component = shift;
  decode_component = λ s. some s;
  doc_parameter = λ s. some (unshift (drop 6 s));
  pathname = codes "/";
}

unshift-shift : (s : Text) → unshift (shift s) ≡ s
unshift-shift [] = refl
unshift-shift (c ∷ s) = ground (arith, unshift-shift s)

unshift_fragment : (s t : Text) → unshift (shift s ++ b'#' ∷ t) ≡ s
unshift_fragment [] t = refl
unshift_fragment (c ∷ s) t = ground (arith, unshift_fragment s t)

browser-IsBrowser : IsBrowser browser
browser-IsBrowser = record {
  doc_parameter_lem = λ route. ap some (unshift-shift route);
  doc_parameter_fragment = λ route t. ap some (unshift_fragment route t);
}

fragment_free : All (λ c. c ≢ b'#') (codes "../b.mdx")
fragment_free = ground arith

resolve_relative_document-fragment_example :
    resolve_relative_document browser two_pages first_page (codes "../b.mdx" ++ b'#' ∷ codes "x")
    ≡ resolve_relative_document browser two_pages first_page (codes "../b.mdx")
resolve_relative_document-fragment_example =
    resolve_relative_document-fragment browser two_pages first_page (codes "../b.mdx") (codes "x")
      fragment_free

filtered_iff_example : In second_page (filtered ascii two_pages (codes " CLOSED ")) ↔ (
    In second_page two_pages
    × Occurs (ascii.to_lower (trim (codes " CLOSED "))) second_page.search_text)
filtered_iff_example = filtered_iff ascii two_pages (codes " CLOSED ") second_page

abbrev plain_routes : All (λ d. IsPlain d.route) two_pages
plain_routes = (plain_first, (plain_second, tt))

abbrev window : Viewport
window = record {
  scroll_height = 1000;
  inner_height = 600;
  scroll_y = record { negative = false; num = 201; den_pred = 1 };
}

abbrev start : App
start = initial ascii browser codec first_page (second_page ∷ []) (codes "/") missing window

abbrev events : List Event
events = nav_item 1 ∷ document_click (some (codes "#x")) ∷ go_back ∷ toggle_settings ∷ []

run-initial-Located_example :
    Located ascii browser codec first_page
      (second_page ∷ [])
      browser-IsBrowser
      distinct_routes
      plain_routes
      (run ascii browser codec first_page (second_page ∷ []) start events)
run-initial-Located_example =
    run-initial-Located ascii browser codec first_page (second_page ∷ []) browser-IsBrowser
      distinct_routes plain_routes (codes "/") missing window events

distinct_paths : HasDistinctPaths two_pages
distinct_paths = ((text_ne second_page.path first_page.path refl, tt), (tt, tt))

start_page : ShowsPage ascii browser codec first_page (second_page ∷ []) distinct_paths 0 start
unfolding initial resolve resolve_document current_route settle normalize_route has_route
    strip_suffix strip_extension
start_page = refl

run-next_page_example :
    ShowsPage ascii browser codec first_page
      (second_page ∷ [])
      distinct_paths
      1
      (run ascii browser codec first_page (second_page ∷ []) start (turns 1 next_page))
run-next_page_example =
    run-next_page ascii browser codec first_page (second_page ∷ []) distinct_paths 1 0 start
      start_page (ground arith)

run-previous_page-next_page_example :
    ShowsPage ascii browser codec first_page (second_page ∷ []) distinct_paths 0 (
      run ascii browser codec first_page
        (second_page ∷ [])
        (run ascii browser codec first_page (second_page ∷ []) start (turns 1 next_page))
        (turns 1 previous_page))
run-previous_page-next_page_example =
    run-previous_page-next_page ascii browser codec first_page (second_page ∷ []) distinct_paths 1 0
      start start_page (ground arith)

-- After a click on the second entry, the mark leads back to the first document.
abbrev opening : List Event
opening = nav_item 1 ∷ []

abbrev opened_second : App
opened_second = run ascii browser codec first_page (second_page ∷ []) start opening

mark-Opens : Opens ascii browser codec first_page (second_page ∷ []) opened_second home first_page
unfolding resolve_document normalize_route has_route strip_suffix strip_extension
mark-Opens = by_mark refl

go_back_undoes_example :
    let opened = step ascii browser codec first_page (second_page ∷ []) opened_second home in
    let back = step ascii browser codec first_page (second_page ∷ []) opened go_back in
    (opened.active ≡ first_page)
    × (opened.address ≡ href_for browser first_page)
    × (opened.past ≡ opened_second.address ∷ opened_second.past)
    × (back.active ≡ opened_second.active)
    × (back.address ≡ opened_second.address)
    × (back.past ≡ opened_second.past)
go_back_undoes_example =
    go_back_undoes ascii browser codec first_page (second_page ∷ []) browser-IsBrowser
      distinct_routes plain_routes (codes "/") missing window opening home first_page mark-Opens

slash_focuses_example :
    let pressed =
      handle ascii browser codec first_page (second_page ∷ []) (key_down slash false) start in
    let shown =
      run ascii browser codec first_page
        (second_page ∷ [])
        start
        (key_down slash false ∷ next_frame ∷ []) in
    ((start.search_focused || false ≡ true) × (pressed ≡ (start, false)))
    ⊎ ((start.search_focused || false ≡ false)
        × (pressed.1 ≡ true)
        × (is_collapsed shown ≡ false)
        × (shown.preferences.reader_mode ≡ false)
        × (shown.search_focused ≡ true)
        × (shown.menu_open ≡ start.menu_open)
        × ((handle ascii browser codec first_page (second_page ∷ []) (key_down slash false) shown).1
            ≡ false))
slash_focuses_example = slash_focuses ascii browser codec first_page (second_page ∷ []) start false

progress_of_lem_example :
    let overflow = (window.scroll_height - window.inner_height) * 2 in
    ((window.scroll_height ≤ window.inner_height) × ((progress_of window).num ≡ 0))
    ⊎ ((window.inner_height < window.scroll_height)
        × (0 < (progress_of window).den)
        × ((progress_of window).negative ≡ false)
        × (((progress_of window).num ≡ 100 * (progress_of window).den)
            ↔ (window.scroll_y.num ≡ overflow))
        × ((100 * (progress_of window).den < (progress_of window).num)
            ↔ (overflow < window.scroll_y.num)))
progress_of_lem_example = progress_of_lem window

missing_ne_denied : missing ≢ denied
missing_ne_denied = λ e. cc

run-initial-Persists_example :
    Persists ascii browser codec first_page
      (second_page ∷ [])
      codec-IsCodec
      (run ascii browser codec first_page (second_page ∷ []) start events)
run-initial-Persists_example =
    run-initial-Persists ascii browser codec first_page (second_page ∷ []) codec-IsCodec (codes "/")
      missing window events missing_ne_denied

sidebar-sight_example :
    let found = filtered ascii two_pages opened_second.query in
    map
      (λ e. sight (step ascii browser codec first_page (second_page ∷ []) opened_second e))
      (messages_of (nodes (sidebar (sidebar_props opened_second) found)))
    ≡ (opened_second.active, false, opened_second.preferences.sidebar_collapsed)
        ∷ (first_page, false, opened_second.preferences.sidebar_collapsed)
        ∷ (opened_second.active, false, opened_second.preferences.sidebar_collapsed)
        ∷ (if opened_second.preferences.reader_mode
            then []
            else (
              opened_second.active,
              opened_second.menu_open,
              not opened_second.preferences.sidebar_collapsed,
            )
              ∷ [])
      ++ map (λ d. (d, false, opened_second.preferences.sidebar_collapsed)) found
sidebar-sight_example =
    sidebar-sight ascii browser codec first_page (second_page ∷ []) opened_second plain_routes

-- The two documents lie in sibling folders; the second is two names below the common folder.
abbrev up_link : Text
up_link = codes "../closed/02-b.mdx"

abbrev dirs : List Text
dirs = codes "open" ∷ []

abbrev above : List Text
above = codes "plans" ∷ []

abbrev names : List Text
names = codes "closed" ∷ codes "02-b.mdx" ∷ []

name_lem :
    (s : Text)
    → text_eq s [] ≡ false
    → text_eq s (codes ".") ≡ false
    → text_eq s (codes "..") ≡ false
    → IsName s
name_lem s a b c = (text_ne s [] a, text_ne s (codes ".") b, text_ne s (codes "..") c)

names-IsName : All IsName names
names-IsName =
    (name_lem (codes "closed") refl refl refl, (name_lem (codes "02-b.mdx") refl refl refl, tt))

names-HasNoSlash : All HasNoSlash names
names-HasNoSlash = ground arith

path-HasNoSlash : All HasNoSlash ((above ++ dirs) ++ codes "01-a.mdx" ∷ [])
path-HasNoSlash = ground arith

resolve_relative_document-ups_example :
    resolve_relative_document browser two_pages first_page up_link ≡ ok (some second_page)
unfolding strip_extension is_foreign includes strip_suffix
resolve_relative_document-ups_example =
    resolve_relative_document-ups above dirs names (codes "01-a.mdx") names-IsName names-HasNoSlash
      (cons-ne-nil _ _) path-HasNoSlash browser two_pages first_page second_page up_link
      distinct_routes (inr (inl refl)) refl refl refl refl
