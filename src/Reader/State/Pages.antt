-- ===== src/Reader/State/Pages.antt =====
-- Turning the pages: the previous and the next document, and the way back in the history.
use quickspin.Text.{text_eq}
use quickspin.Prelude.{
  ℕ, zero, suc, ◌+◌, ◌<◌, ◌≡◌, ◌≢◌, refl, sym, ap, ◌∙◌, subst, inl, inr, some, List, [], ◌∷◌, arith,
  Bool-cases, length, get_elem?, In, All, All-In,
}
use native.Mathlib.Nat.{add-zero}
use quickspin.Text.Unicode.{Unicode}
use quickspin.Text.Equality.{text_eq_self, eq_of_text_eq}
use quickspin.Documents.Catalog.{ReaderDocument}
use quickspin.Reader.Preferences.{JsonCodec}
use quickspin.Reader.Links.{Browser}
use quickspin.Reader.State.{
  App, Event, previous_page, next_page, settle, navigate_to, index_of, active_index, previous, next,
  handle, step, run,
}

abbrev pub HasDistinctPaths : List ReaderDocument → Type 0
HasDistinctPaths [] = Unit
HasDistinctPaths (d ∷ ds) = All (λ e. e.path ≢ d.path) ds × HasDistinctPaths ds

get_elem?-In :
    (ds : List ReaderDocument) (i : ℕ) (d : ReaderDocument) → get_elem? ds i ≡ some d → In d ds
get_elem?-In [] i d h = cc
get_elem?-In (e ∷ ds) zero d h = ground arith
get_elem?-In (e ∷ ds) (suc i) d h = inr (get_elem?-In ds i d h)

get_elem?_lt :
    (ds : List ReaderDocument) (i : ℕ)
    → i < length ds
    → (d : ReaderDocument) × (get_elem? ds i ≡ some d)
get_elem?_lt [] i h = elim h [ ]
get_elem?_lt (d ∷ ds) zero h = (d, refl)
get_elem?_lt (d ∷ ds) (suc i) h = get_elem?_lt ds i (omega arith)

lt_of_get_elem? :
    (ds : List ReaderDocument) (i : ℕ) (d : ReaderDocument)
    → get_elem? ds i ≡ some d
    → i < length ds
lt_of_get_elem? [] i d h = cc
lt_of_get_elem? (e ∷ ds) zero d h = omega arith
lt_of_get_elem? (e ∷ ds) (suc i) d h = omega (arith, lt_of_get_elem? ds i d h)

-- So many turns of the page.
abbrev pub turns : ℕ → Event → List Event
turns zero e = []
turns (suc k) e = e ∷ turns k e

module _ (u : Unicode) (b : Browser) (codec : JsonCodec) (first : ReaderDocument)
    (others : List ReaderDocument) where
  -- The index that is found is that of the document, if the paths are distinct.
  index_of-get_elem? :
      (ds : List ReaderDocument) (i : ℕ) (d : ReaderDocument)
      → HasDistinctPaths ds
      → get_elem? ds i ≡ some d
      → index_of u b codec first others ds d.path ≡ some i
  unfolding index_of
  index_of-get_elem? [] i d p h = cc
  index_of-get_elem? (e ∷ ds) zero d p h =
      let same : e ≡ d = ground arith in
      rw (ap (λ (x : ReaderDocument). x.path) same, text_eq_self d.path)
  index_of-get_elem? (e ∷ ds) (suc i) d (p, ps) h = elim (Bool-cases (text_eq e.path d.path)) [
    | inl k ↦ absurd (
        All-In (λ f. f.path ≢ e.path) ds p (get_elem?-In ds i d h)
          (sym (eq_of_text_eq e.path d.path k)))
    | inr k ↦ rw (k, index_of-get_elem? ds i d ps h)
  ]

  module _ (distinct : HasDistinctPaths (first ∷ others)) where
    abbrev docs : List ReaderDocument
    docs = first ∷ others

    -- The reader shows the document at an index.
    abbrev pub ShowsPage : ℕ → App → Type 0
    ShowsPage i s = get_elem? docs i ≡ some s.active

    active_index_lem :
        (i : ℕ) (s : App) → ShowsPage i s → active_index u b codec first others s ≡ some i
    unfolding active_index
    active_index_lem i s h = index_of-get_elem? docs i s.active distinct h

    next_lem :
        (i : ℕ) (s : App)
        → ShowsPage i s
        → suc i < length docs
        → next u b codec first others s ≡ get_elem? docs (suc i)
    unfolding next
    next_lem i s h lt = rw (active_index_lem i s h, next) (ground arith)

    previous_lem :
        (i : ℕ) (s : App)
        → ShowsPage (suc i) s
        → previous u b codec first others s ≡ get_elem? docs i
    unfolding previous
    previous_lem i s h = rw (active_index_lem (suc i) s h, previous) (ground arith)

    shows_after :
        (j : ℕ) (s : App) (d : ReaderDocument)
        → get_elem? docs j ≡ some d
        → ShowsPage j
            (settle u b codec first others (navigate_to u b codec first others (some d) s))
    unfolding settle navigate_to
    shows_after j s d h = h

    -- Each button shows the document that it names and puts the address before on the history.
    step_next :
        (i : ℕ) (s : App)
        → ShowsPage i s
        → suc i < length docs
        → ShowsPage (suc i) (step u b codec first others s next_page)
    unfolding step handle
    step_next i s h lt =
        let (d, e) = get_elem?_lt docs (suc i) lt in
        rw (next_lem i s h lt ∙ e) (shows_after (suc i) s d e)

    step_previous :
        (i : ℕ) (s : App)
        → ShowsPage (suc i) s
        → ShowsPage i (step u b codec first others s previous_page)
    unfolding step handle
    step_previous i s h =
        let (d, e) = get_elem?_lt docs i (omega (arith, lt_of_get_elem? docs (suc i) s.active h)) in
        rw (previous_lem i s h ∙ e) (shows_after i s d e)

    -- From the document at one index, so many clicks on "Next" show the one that stands as many places
    -- further on, as long as there is one and the documents' paths are distinct.
    pub run-next_page :
        (k i : ℕ) (s : App)
        → ShowsPage i s
        → i + k < length docs
        → ShowsPage (i + k) (run u b codec first others s (turns k next_page))
    unfolding run
    run-next_page zero i s h lt = rw (add-zero i) h
    run-next_page (suc k) i s h lt =
        let after = step u b codec first others s next_page in
        subst (λ j. ShowsPage j (run u b codec first others after (turns k next_page)))
          (let e : suc i + k ≡ i + suc k = omega arith in e)
          (run-next_page k (suc i) after (step_next i s h (omega arith)) (omega arith))

    run_back :
        (k i : ℕ) (s : App)
        → ShowsPage (i + k) s
        → ShowsPage i (run u b codec first others s (turns k previous_page))
    unfolding run
    run_back zero i s h = rw (add-zero i) at h
    run_back (suc k) i s h =
        run_back k i (step u b codec first others s previous_page)
          (step_previous (i + k) s (rw (let e : i + suc k ≡ suc (i + k) = omega arith in e) at h))

    -- Turning back as often as forward shows the document of the start again, if the paths are
    -- distinct and there are so many documents behind it.
    pub run-previous_page-next_page :
        (k i : ℕ) (s : App)
        → ShowsPage i s
        → i + k < length docs
        → ShowsPage i (
            run u b codec first others
              (run u b codec first others s (turns k next_page))
              (turns k previous_page))
    run-previous_page-next_page k i s h lt =
        run_back k i (run u b codec first others s (turns k next_page)) (run-next_page k i s h lt)
