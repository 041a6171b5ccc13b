-- ===== src/Documents/Catalog/Resolve.antt =====
-- Looking up a document by its route, and the building of the list.
use quickspin.Text.{text_eq, after_prefix, strip_suffix, strip_extension}
use quickspin.Text.Units.{Text, codes}
use quickspin.Prelude.{
  ◌≡◌, ◌≢◌, refl, sym, subst, ◌⊎◌, inl, inr, Bool, true, false, Option, none, some, List, [], ◌∷◌,
  ◌++◌, append_assoc, append-nil, arith, Bool-cases, Option-cases, get_or, find, In, All, All-In,
}
use mathlib.Core.List.{reverse, reverse-append}
use quickspin.Text.Equality.{text_eq_self, eq_of_text_eq, strip_suffix-append}
use quickspin.Documents.Catalog.{ReaderDocument, normalize_route, has_route, resolve_document}

-- What may stand behind a route.
pub data Ending : Type 0 where
  bare md mdx : Ending

abbrev pub ending : Ending → Text
ending bare = []
ending md = codes ".md"
ending mdx = codes ".mdx"

abbrev pub slash : Bool → Text
slash true = codes "/"
slash false = []

-- A route as `route_for` makes it: no slash at either end, and no extension.
pub record IsPlain (route : Text) : Type 0 where
  pub nonempty : route ≢ []
  pub unled : after_prefix (codes "/") route ≡ none
  pub unended : strip_suffix (codes "/") route ≡ none
  pub unextended : strip_extension route ≡ route

-- A route as a link may spell it.
abbrev pub spelled : Bool → Text → Ending → Bool → Text
spelled led route e ended = slash led ++ ((route ++ ending e) ++ slash ended)

unled_append :
    (s t : Text)
    → s ≢ []
    → after_prefix (codes "/") s ≡ none
    → after_prefix (codes "/") (s ++ t) ≡ none
unled_append [] t n h = absurd (n refl)
unled_append (c ∷ s) t n h = ground arith

abbrev drop_lead : Text → Text
drop_lead s = get_or (after_prefix (codes "/") s) s

drop_lead_lem :
    (led : Bool) (route t : Text)
    → IsPlain route
    → drop_lead (slash led ++ (route ++ t)) ≡ route ++ t
drop_lead_lem true route t p = refl
drop_lead_lem false route t p = rw (unled_append route t p.nonempty p.unled)

strip_suffix_other :
    (e s t : Text)
    → after_prefix (reverse e) (reverse t ++ reverse s) ≡ none
    → strip_suffix e (s ++ t) ≡ none
unfolding strip_suffix
strip_suffix_other e s t h = rw (reverse-append s t, h)

abbrev drop_end : Text → Text
drop_end s = get_or (strip_suffix (codes "/") s) s

drop_end_bare :
    (route : Text) (e : Ending) → IsPlain route → drop_end (route ++ ending e) ≡ route ++ ending e
drop_end_bare route bare p = rw (append-nil, p.unended)
drop_end_bare route md p = rw (strip_suffix_other (codes "/") route (codes ".md") refl)
drop_end_bare route mdx p = rw (strip_suffix_other (codes "/") route (codes ".mdx") refl)

drop_end_lem :
    (ended : Bool) (route : Text) (e : Ending)
    → IsPlain route
    → drop_end ((route ++ ending e) ++ slash ended) ≡ route ++ ending e
drop_end_lem true route e p = rw (strip_suffix-append (codes "/") (route ++ ending e))
drop_end_lem false route e p = rw (append-nil (route ++ ending e)) (drop_end_bare route e p)

strip_extension_lem :
    (route : Text) (e : Ending) → IsPlain route → strip_extension (route ++ ending e) ≡ route
strip_extension_lem route bare p = rw (append-nil route) p.unextended
strip_extension_lem route md p =
    unfold strip_extension in
    rw (
      strip_suffix_other (codes ".mdx") route (codes ".md") refl,
      strip_suffix-append (codes ".md") route,
    )
strip_extension_lem route mdx p =
    unfold strip_extension in rw (strip_suffix-append (codes ".mdx") route)

normalize_route-spelled :
    (led : Bool) (route : Text) (e : Ending) (ended : Bool)
    → IsPlain route
    → normalize_route (some (spelled led route e ended)) ≡ route
unfolding normalize_route
normalize_route-spelled led route e ended p =
    rw
      (
        append_assoc route (ending e) (slash ended),
        drop_lead_lem led route (ending e ++ slash ended) p,
        ← append_assoc route (ending e) (slash ended),
        drop_end_lem ended route e p,
      )
      (strip_extension_lem route e p)

abbrev pub HasDistinctRoutes : List ReaderDocument → Type 0
HasDistinctRoutes [] = Unit
HasDistinctRoutes (d ∷ ds) = All (λ e. e.route ≢ d.route) ds × HasDistinctRoutes ds

pub find_lem :
    (d : ReaderDocument) (ds : List ReaderDocument)
    → In d ds
    → HasDistinctRoutes ds
    → find (has_route d.route) ds ≡ some d
unfolding has_route
find_lem d (e ∷ ds) (inl i) h = rw (← i, text_eq_self d.route)
find_lem d (e ∷ ds) (inr i) (h, hs) = elim (Bool-cases (text_eq e.route d.route)) [
  | inl k ↦ absurd (All-In (λ f. f.route ≢ e.route) ds h i (sym (eq_of_text_eq e.route d.route k)))
  | inr k ↦ rw k (find_lem d ds i hs)
]
find_lem d [] i h = elim i [ ]

-- Each document is found by its own route, also with a slash in front or behind and with either
-- extension, if the routes are distinct and that route is plain.
pub resolve_document-spelled :
    (ds : List ReaderDocument) (d : ReaderDocument) (led : Bool) (e : Ending) (ended : Bool)
    → HasDistinctRoutes ds
    → In d ds
    → IsPlain d.route
    → resolve_document ds (some (spelled led d.route e ended)) ≡ some d
unfolding resolve_document
resolve_document-spelled ds d led e ended h i p =
    rw (normalize_route-spelled led d.route e ended p, find_lem d ds i h)

pub find-In :
    (p : ReaderDocument → Bool) (ds : List ReaderDocument) {d : ReaderDocument}
    → find p ds ≡ some d
    → In d ds × (p d ≡ true)
find-In p [] h = cc
find-In p (e ∷ ds) {d} h = elim (Bool-cases (p e)) [
  | inl k ↦ let same : e ≡ d = ground arith in (inl (sym same), subst (λ x. p x ≡ true) same k)
  | inr k ↦ let (i, q) = find-In p ds {d = d} (ground arith) in (inr i, q)
]

-- With at least one document, every route, also a missing or unknown one, resolves to a document of the
-- list, and to the first one unless some document has the normalised route.
pub resolve_document_total :
    (d : ReaderDocument) (ds : List ReaderDocument) (route : Option Text)
    → (found : ReaderDocument) × (resolve_document (d ∷ ds) route ≡ some found)
      × In found (d ∷ ds)
      × ((found.route ≡ normalize_route route) ⊎ (found ≡ d))
unfolding resolve_document
resolve_document_total d ds route =
    elim (Option-cases (find (has_route (normalize_route route)) (d ∷ ds))) [
      | inl e ↦ (d, rw e, inl refl, inr refl)
      | inr (f, e) ↦
          let (i, k) = find-In (has_route (normalize_route route)) (d ∷ ds) e in
          (f, rw e, i, inl (unfold has_route in eq_of_text_eq f.route (normalize_route route) k))
    ]
