-- ===== src/Reader/State/Persistence.antt =====
-- The preferences in the storage, over every run of the reader.
use quickspin.Text.Units.{Text}
use quickspin.Prelude.{◌≡◌, ◌≢◌, refl, sym, subst, Option, none, some, List, [], ◌∷◌, arith}
use quickspin.Reader.Preferences.Laws.{IsCodec, load-save}
use quickspin.Reader.Preferences.{
  JsonCodec, ReaderPreferences, Stored, load_reader_preferences, save_reader_preferences, denied,
  missing, saved,
}
use quickspin.Documents.Roadmap.{Result, ok, throw}
use quickspin.Text.Unicode.{Unicode}
use quickspin.Documents.Catalog.{ReaderDocument}
use quickspin.Reader.Links.{Browser, resolve_relative_document}
use quickspin.Reader.State.{
  Viewport, App, Event, slash, escape, other, nav_item, home, previous_page, next_page, go_back,
  pointer_down, key_down, next_frame, document_click, settle, initial, navigate, navigate_to,
  open_link, handle_pop_state, handle_back, handle_pointer_down, handle_key_down, handle_frame,
  handle_document_click, set_preferences, handle, step, run,
}

module _ (u : Unicode) (b : Browser) (codec : JsonCodec) (first : ReaderDocument)
    (others : List ReaderDocument) where
  navigate_to-storage :
      (o : Option ReaderDocument) (s : App)
      → (navigate_to u b codec first others o s).storage ≡ s.storage
  unfolding navigate_to
  navigate_to-storage none s = refl
  navigate_to-storage (some d) s = refl

  open_link-storage :
      (r : Result (Option ReaderDocument)) (s : App)
      → (open_link u b codec first others r s).0.storage ≡ s.storage
  unfolding open_link navigate
  open_link-storage (throw e) s = refl
  open_link-storage (ok none) s = refl
  open_link-storage (ok (some d)) s = refl

  click-storage :
      (href : Option Text) (s : App)
      → (handle_document_click u b codec first others href s).0.storage ≡ s.storage
  unfolding handle_document_click
  click-storage none s = refl
  click-storage (some []) s = refl
  click-storage (some (c ∷ t)) s =
      ground
        (arith, open_link-storage (resolve_relative_document b (first ∷ others) s.active (c ∷ t)) s)

  handle_back-storage :
      (past : List Text) (s : App) → (handle_back u b codec first others past s).storage ≡ s.storage
  unfolding handle_back
  handle_back-storage [] s = refl
  handle_back-storage (address ∷ past) s = refl

  handle-storage : (e : Event) (s : App) → (handle u b codec first others e s).0.storage ≡ s.storage
  unfolding handle handle_pointer_down handle_key_down handle_frame handle_pop_state set_preferences
  handle-storage (nav_item i) s = navigate_to-storage _ s
  handle-storage home s = navigate_to-storage _ s
  handle-storage previous_page s = navigate_to-storage _ s
  handle-storage next_page s = navigate_to-storage _ s
  handle-storage go_back s = handle_back-storage s.past s
  handle-storage (document_click href) s = click-storage href s
  handle-storage (pointer_down inside) s = ground arith
  handle-storage (key_down slash in_other_field) s = ground arith
  handle-storage (key_down escape in_other_field) s = refl
  handle-storage (key_down other in_other_field) s = refl
  handle-storage next_frame s = ground arith
  handle-storage e s = refl

  module _ (laws : IsCodec codec) where
    -- The storage holds what a reload turns into the preferences of now.
    abbrev pub Persists : App → Type 0
    Persists s = (s.storage ≢ denied) × (load_reader_preferences codec s.storage ≡ s.preferences)

    saved_Persists :
        (p : ReaderPreferences) (before : Stored)
        → before ≢ denied
        → (save_reader_preferences codec p before ≢ denied)
          × (load_reader_preferences codec (save_reader_preferences codec p before) ≡ p)
    saved_Persists p denied h = absurd (h refl)
    saved_Persists p missing h =
        (unfold save_reader_preferences in (λ e. cc), load-save codec laws p missing)
    saved_Persists p (saved t) h =
        (unfold save_reader_preferences in (λ e. cc), load-save codec laws p (saved t))

    settle-Persists : (s : App) → s.storage ≢ denied → Persists (settle u b codec first others s)
    unfolding settle
    settle-Persists s h = saved_Persists s.preferences s.storage h

    run-Persists :
        (s : App) (es : List Event) → Persists s → Persists (run u b codec first others s es)
    unfolding run step
    run-Persists s [] h = h
    run-Persists s (e ∷ es) h =
        let s' = (handle u b codec first others e s).0 in
        run-Persists (settle u b codec first others s') es
          (settle-Persists s' (subst (λ x. x ≢ denied) (sym (handle-storage e s)) h.0))

    initial-Persists :
        (address : Text) (storage : Stored) (viewport : Viewport)
        → storage ≢ denied
        → Persists (initial u b codec first others address storage viewport)
    unfolding initial
    initial-Persists address storage viewport h =
        saved_Persists (load_reader_preferences codec storage) storage h

    -- At every moment a reload of the page would find the preferences of that moment in the storage, if
    -- the storage works and JSON reads back what it wrote.
    pub run-initial-Persists :
        (address : Text) (storage : Stored) (viewport : Viewport) (es : List Event)
        → storage ≢ denied
        → Persists (
            run u b codec first others (initial u b codec first others address storage viewport) es)
    run-initial-Persists address storage viewport es h =
        run-Persists (initial u b codec first others address storage viewport) es
          (initial-Persists address storage viewport h)
