-- ===== src/Reader/State/History.antt =====
-- The way back in the history.
use quickspin.Prelude.{ℕ, ◌≡◌, refl, false, some, List, [], ◌∷◌, ◌==◌, get_elem?, All}
use quickspin.Text.Unicode.{Unicode}
use quickspin.Text.Units.{Text}
use quickspin.Documents.Roadmap.{ok}
use quickspin.Documents.Catalog.{ReaderDocument, resolve_document}
use quickspin.Documents.Catalog.Resolve.{IsPlain, HasDistinctRoutes}
use quickspin.Reader.Preferences.{JsonCodec, Stored}
use quickspin.Reader.Links.{Browser, href_for, resolve_relative_document}
use quickspin.Reader.Search.{filtered}
use quickspin.Reader.State.{
  Viewport, App, Event, nav_item, home, previous_page, next_page, document_click, go_back, settle,
  initial, navigate, navigate_to, open_link, previous, next, handle_back, handle_pop_state,
  handle_document_click, handle, step, run,
}
use quickspin.Reader.State.Synced.{IsBrowser, run-initial-Located}

module _ (u : Unicode) (b : Browser) (codec : JsonCodec) (first : ReaderDocument)
    (others : List ReaderDocument) where
  -- The events that open a document, with the document: an entry of the sidebar, the mark, the buttons
  -- for the page before and after, and a link in the text.
  pub data Opens (s : App) : Event → ReaderDocument → Type 0 where
    by_entry :
        {i : ℕ} {d : ReaderDocument}
        → get_elem? (filtered u (first ∷ others) s.query) i ≡ some d
        → Opens s (nav_item i) d
    by_mark :
        {d : ReaderDocument} → resolve_document (first ∷ others) (some []) ≡ some d → Opens s home d
    by_previous :
        {d : ReaderDocument} → previous u b codec first others s ≡ some d → Opens s previous_page d
    by_next : {d : ReaderDocument} → next u b codec first others s ≡ some d → Opens s next_page d
    by_link :
        {c : ℕ} {t : Text} {d : ReaderDocument}
        → (c == b'#') ≡ false
        → resolve_relative_document b (first ∷ others) s.active (c ∷ t) ≡ ok (some d)
        → Opens s (document_click (some (c ∷ t))) d

  handle-Opens :
      {s : App} {e : Event} {d : ReaderDocument}
      → Opens s e d
      → (handle u b codec first others e s).0 ≡ navigate u b codec first others d false s
  unfolding handle navigate_to handle_document_click open_link
  handle-Opens (by_entry h) = rw (h, navigate_to) refl
  handle-Opens (by_mark h) = rw (h, navigate_to) refl
  handle-Opens (by_previous h) = rw (h, navigate_to) refl
  handle-Opens (by_next h) = rw (h, navigate_to) refl
  handle-Opens (by_link k h) = rw (k, handle_document_click) (rw (h, open_link) refl)

  module _ (browser : IsBrowser b) (distinct : HasDistinctRoutes (first ∷ others))
      (plain : All (λ d. IsPlain d.route) (first ∷ others)) where
    -- After any events, an event that opens a document shows it under its address, with the address before
    -- it in the history, and going back then restores the document, the address and the history, if the
    -- routes of the documents are distinct and plain and the browser reads back the parameter that the
    -- program writes into an address.
    pub go_back_undoes :
        (address : Text) (storage : Stored) (viewport : Viewport) (es : List Event) (e : Event)
        (d : ReaderDocument)
        → Opens
            (run u b codec first others
              (initial u b codec first others address storage viewport)
              es)
            e
            d
        → let s =
            run u b codec first others
              (initial u b codec first others address storage viewport)
              es in
          let opened = step u b codec first others s e in
          let back = step u b codec first others opened go_back in
          (opened.active ≡ d)
          × (opened.address ≡ href_for b d)
          × (opened.past ≡ s.address ∷ s.past)
          × (back.active ≡ s.active)
          × (back.address ≡ s.address)
          × (back.past ≡ s.past)
    unfolding step handle handle_back handle_pop_state navigate settle
    go_back_undoes address storage viewport es e d h =
        let s =
          run u b codec first others (initial u b codec first others address storage viewport) es in
        let (_, same) =
          run-initial-Located u b codec first others browser distinct plain address storage viewport
            es in
        rw (handle-Opens h) (refl, refl, refl, same, refl, refl)
