-- ===== src/Reader/State/Synced.antt =====
-- The active document is a document of the list, and the one that the address names.
use quickspin.Text.Units.{Text, codes}
use quickspin.Prelude.{
  ℕ, zero, suc, ◌+◌, ◌-◌, ◌≡◌, refl, sym, ◌∙◌, subst, inl, inr, true, false, Option, none, some,
  List, [], ◌∷◌, ◌++◌, append-nil, arith, ◌==◌, ==_iff, Bool-cases, Option-cases, get_or, get_elem?,
  In, All, All-In,
}
use quickspin.Text.Unicode.{Unicode}
use quickspin.Documents.Roadmap.{Result, ok, throw}
use quickspin.Documents.Catalog.{ReaderDocument, has_route, resolve_document}
use quickspin.Documents.Catalog.Resolve.{
  bare, IsPlain, HasDistinctRoutes, resolve_document-spelled, resolve_document_total, find-In,
}
use quickspin.Reader.Preferences.{JsonCodec, Stored}
use quickspin.Reader.Links.{
  Browser, href_for, current_route, resolve_relative_document, look_up, is_foreign, raw_path,
  target_route,
}
use quickspin.Reader.Search.{filtered}
use quickspin.Reader.Search.Matches.{filtered_iff}
use quickspin.Reader.State.{
  Viewport, App, Event, slash, escape, other, set_query, nav_item, home, previous_page, next_page,
  go_back, pop_state, pointer_down, key_down, next_frame, document_click, resolve, settle, initial,
  navigate, navigate_to, open_link, active_index, previous, next, handle_pop_state, handle_back,
  handle_pointer_down, handle_key_down, handle_frame, handle_document_click, set_preferences,
  handle, step, run,
}

-- What the program relies on of the browser: the parameter of an address that it wrote is the
-- route that it was written for, whether or not a fragment follows.
pub record IsBrowser (b : Browser) : Type 0 where
  pub doc_parameter_lem :
      (route : Text)
      → b.doc_parameter (b.pathname ++ codes "?doc=" ++ b.encode_component route) ≡ some route
  pub doc_parameter_fragment :
      (route t : Text)
      → b.doc_parameter ((b.pathname ++ codes "?doc=" ++ b.encode_component route) ++ b'#' ∷ t)
        ≡ some route

module _ (u : Unicode) (b : Browser) (codec : JsonCodec) (first : ReaderDocument)
    (others : List ReaderDocument) (browser : IsBrowser b)
    (distinct : HasDistinctRoutes (first ∷ others))
    (plain : All (λ d. IsPlain d.route) (first ∷ others)) where
  abbrev docs : List ReaderDocument
  docs = first ∷ others

  resolve_route : (d : ReaderDocument) → In d docs → resolve_document docs (some d.route) ≡ some d
  resolve_route d i =
      subst (λ r. resolve_document docs (some r) ≡ some d)
        (append-nil (d.route ++ []) ∙ append-nil d.route)
        (resolve_document-spelled docs d false bare false distinct i
          (All-In (λ e. IsPlain e.route) docs plain i))

  -- The two halves of the invariant.
  abbrev pub Located : App → Type 0
  Located s = In s.active docs × (resolve u b codec first others s.address ≡ s.active)

  resolve-href_for :
      (d : ReaderDocument) → In d docs → resolve u b codec first others (href_for b d) ≡ d
  unfolding resolve href_for current_route
  resolve-href_for d i = rw (browser.doc_parameter_lem d.route, resolve_route d i)

  resolve-fragment :
      (d : ReaderDocument) (t : Text)
      → In d docs
      → resolve u b codec first others (href_for b d ++ b'#' ∷ t) ≡ d
  unfolding resolve href_for current_route
  resolve-fragment d t i = rw (browser.doc_parameter_fragment d.route t, resolve_route d i)

  resolve-In : (address : Text) → In (resolve u b codec first others address) docs
  unfolding resolve
  resolve-In address =
      let (d, e, i, k) = resolve_document_total first others (current_route b address) in
      subst (λ o. In (get_or o first) docs) (sym e) i

  navigate_to-Located :
      (o : Option ReaderDocument) (s : App)
      → ((d : ReaderDocument) → o ≡ some d → In d docs)
      → Located s
      → Located (navigate_to u b codec first others o s)
  unfolding navigate_to
  navigate_to-Located none s known h = h
  navigate_to-Located (some d) s known h = (known d refl, resolve-href_for d (known d refl))

  get_elem?-In :
      (ds : List ReaderDocument) (i : ℕ) (d : ReaderDocument) → get_elem? ds i ≡ some d → In d ds
  get_elem?-In [] i d h = cc
  get_elem?-In (e ∷ ds) zero d h = ground arith
  get_elem?-In (e ∷ ds) (suc i) d h = inr (get_elem?-In ds i d h)

  get_elem?-documents : (i : ℕ) (d : ReaderDocument) → get_elem? docs i ≡ some d → In d docs
  get_elem?-documents i d h = get_elem?-In docs i d h

  previous-In :
      (s : App) (d : ReaderDocument) → previous u b codec first others s ≡ some d → In d docs
  unfolding previous
  previous-In s d h = elim (Option-cases (active_index u b codec first others s)) [
    | inl e ↦ let bad = rw (e, previous) at h in cc
    | inr (i, e) ↦ get_elem?-In docs (i - 1) d (ground arith)
  ]

  next-In : (s : App) (d : ReaderDocument) → next u b codec first others s ≡ some d → In d docs
  unfolding next
  next-In s d h = elim (Option-cases (active_index u b codec first others s)) [
    | inl e ↦ get_elem?-In docs 0 d (ground arith)
    | inr (i, e) ↦ get_elem?-In docs (i + 1) d (ground arith)
  ]

  resolve_document-In :
      (route : Option Text) (d : ReaderDocument) → resolve_document docs route ≡ some d → In d docs
  resolve_document-In route d h =
      let (f, e, i, k) = resolve_document_total first others route in
      let same : f ≡ d = ground arith in subst (λ x. In x docs) same i

  look_up-In :
      (current_path : Text) (decoded : Option Text) (d : ReaderDocument)
      → look_up docs current_path decoded ≡ ok (some d)
      → In d docs
  unfolding look_up
  look_up-In current_path none d h = cc
  look_up-In current_path (some decoded) d h =
      (find-In (has_route (target_route current_path decoded)) docs {d = d} (ground arith)).0

  relative-In :
      (current : ReaderDocument) (href : Text) (d : ReaderDocument)
      → resolve_relative_document b docs current href ≡ ok (some d)
      → In d docs
  unfolding resolve_relative_document
  relative-In current href d h = elim (Bool-cases (is_foreign (raw_path href))) [
    | inl k ↦ let bad = rw (k, resolve_relative_document) at h in cc
    | inr k ↦
        look_up-In current.path (b.decode_component (raw_path href)) d
          (rw (k, resolve_relative_document) at h)
  ]

  open_link-Located :
      (r : Result (Option ReaderDocument)) (s : App)
      → ((d : ReaderDocument) → r ≡ ok (some d) → In d docs)
      → Located s
      → Located (open_link u b codec first others r s).0
  unfolding open_link navigate
  open_link-Located (throw e) s known h = h
  open_link-Located (ok none) s known h = h
  open_link-Located (ok (some d)) s known h = (known d refl, resolve-href_for d (known d refl))

  click_fragment :
      (s : App) (c : ℕ) (t : Text)
      → (c == b'#') ≡ true
      → handle_document_click u b codec first others (some (c ∷ t)) s
        ≡ (record s { address = href_for b s.active ++ c ∷ t }, true)
  unfolding handle_document_click
  click_fragment s c t k = rw k

  click_link :
      (s : App) (c : ℕ) (t : Text)
      → (c == b'#') ≡ false
      → handle_document_click u b codec first others (some (c ∷ t)) s
        ≡ open_link u b codec first others (resolve_relative_document b docs s.active (c ∷ t)) s
  unfolding handle_document_click
  click_link s c t k = rw k

  click-Located :
      (s : App) (href : Option Text)
      → Located s
      → Located (handle_document_click u b codec first others href s).0
  unfolding handle_document_click
  click-Located s none h = h
  click-Located s (some []) h = h
  click-Located s (some (c ∷ t)) (i, h) = elim (Bool-cases (c == b'#')) [
    | inl k ↦
        subst (λ r. Located r.0) (sym (click_fragment s c t k))
          (
            i,
            subst (λ x. resolve u b codec first others (href_for b s.active ++ x ∷ t) ≡ s.active)
                (sym ((==_iff c b'#').0 k)) (resolve-fragment s.active t i),
          )
    | inr k ↦
        subst (λ r. Located r.0) (sym (click_link s c t k))
          (open_link-Located (resolve_relative_document b docs s.active (c ∷ t)) s
            (relative-In s.active (c ∷ t)) (i, h))
  ]

  handle-Located : (s : App) (e : Event) → Located s → Located (handle u b codec first others e s).0
  unfolding handle set_preferences handle_pop_state handle_back handle_pointer_down handle_key_down
      handle_frame
  handle-Located s (nav_item i) h =
      navigate_to-Located (get_elem? (filtered u docs s.query) i) s
        (λ d k. ((filtered_iff u docs s.query d).0 (get_elem?-In _ i d k)).0) h
  handle-Located s home h =
      navigate_to-Located (resolve_document docs (some [])) s (resolve_document-In (some [])) h
  handle-Located s previous_page h =
      navigate_to-Located (previous u b codec first others s) s (previous-In s) h
  handle-Located s next_page h = navigate_to-Located (next u b codec first others s) s (next-In s) h
  handle-Located s go_back h = back s.past
    where
      back : (past : List Text) → Located (handle_back u b codec first others past s)
      back [] = h
      back (address ∷ past) = (resolve-In address, refl)
  handle-Located s (pop_state address) h = (resolve-In address, refl)
  handle-Located s (pointer_down inside) h = ground arith
  handle-Located s (key_down slash in_other_field) h = ground arith
  handle-Located s (key_down escape in_other_field) h = h
  handle-Located s (key_down other in_other_field) h = h
  handle-Located s (document_click href) h = click-Located s href h
  handle-Located s next_frame h = ground arith
  handle-Located s (set_query q) h = h
  handle-Located s e h = h

  settle-Located : (s : App) → Located s → Located (settle u b codec first others s)
  unfolding settle
  settle-Located s h = h

  -- A state that some events lead to from the one at the start.
  abbrev at_start : Text → Stored → Viewport → App
  at_start address storage viewport = initial u b codec first others address storage viewport

  initial-Located :
      (address : Text) (storage : Stored) (viewport : Viewport)
      → Located (at_start address storage viewport)
  unfolding initial
  initial-Located address storage viewport = (resolve-In address, refl)

  run-Located : (s : App) (es : List Event) → Located s → Located (run u b codec first others s es)
  unfolding run step
  run-Located s [] h = h
  run-Located s (e ∷ es) h =
      run-Located (settle u b codec first others (handle u b codec first others e s).0) es
        (settle-Located (handle u b codec first others e s).0 (handle-Located s e h))

  -- Wherever the reader starts and whatever events follow, the active document is one of the list and
  -- is the one that the page's address resolves to, if the routes of the documents are distinct and
  -- plain and the browser reads back the parameter that the program writes into an address.
  pub run-initial-Located :
      (address : Text) (storage : Stored) (viewport : Viewport) (es : List Event)
      → Located
          (run u b codec first others (initial u b codec first others address storage viewport) es)
  run-initial-Located address storage viewport es =
      run-Located (at_start address storage viewport) es (initial-Located address storage viewport)
