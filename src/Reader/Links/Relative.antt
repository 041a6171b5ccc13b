-- ===== src/Reader/Links/Relative.antt =====
-- What a relative link resolves to.
use quickspin.Text.{split, join, strip_extension}
use quickspin.Text.Units.{Text, codes}
use quickspin.Prelude.{
  ℕ, zero, suc, ◌≡◌, ◌≢◌, refl, ap, ◌∙◌, false, some, List, [], ◌∷◌, ◌++◌, arith, length, init, In,
  All, All-append,
}
use quickspin.Reader.Links.{
  Browser, raw_path, is_foreign, target_route, look_up, resolve_relative_document, walk,
}
use quickspin.Documents.Catalog.Resolve.{HasDistinctRoutes, find_lem}
use quickspin.Reader.Links.Walk.{IsName, ups, walk-ups, init_append}
use quickspin.Text.Equality.{split_one, split_part}
use mathlib.Core.Path.{ap₂}
use mathlib.Core.List.{cons-ne-nil, concat-ne-nil}
use quickspin.Documents.Roadmap.{ok}
use quickspin.Documents.Catalog.{ReaderDocument}

abbrev pub HasNoSlash : Text → Type 0
HasNoSlash s = All (λ c. c ≢ b'/') s

-- Splitting undoes joining, if there is a part and none holds a slash.
split-join : (ps : List Text) → ps ≢ [] → All HasNoSlash ps → split b'/' (join b'/' ps) ≡ ps
unfolding split
split-join [] n h = absurd (n refl)
split-join (p ∷ []) n (h, _) = split_one b'/' [] p h
split-join (p ∷ q ∷ ps) n (h, hs) =
    split_part b'/' [] p (join b'/' (q ∷ ps)) h
    ∙ ap (λ t. p ∷ t) (split-join (q ∷ ps) (cons-ne-nil q ps) hs)

ups-All : (n : ℕ) → All HasNoSlash (ups n)
ups-All zero = tt
ups-All (suc n) = (ground arith, ups-All n)

ups-ne-nil : (n : ℕ) (names : List Text) → names ≢ [] → ups n ++ names ≢ []
ups-ne-nil zero names h = h
ups-ne-nil (suc n) names h = cons-ne-nil (codes "..") (ups n ++ names)

take_while-append : (s t : Text) → All (λ c. c ≢ b'#') s → raw_path (s ++ b'#' ∷ t) ≡ raw_path s
take_while-append [] t h = refl
take_while-append (c ∷ s) t (n, h) = ground (arith, take_while-append s t h)

-- A fragment behind a link changes nothing in the document that it leads to.
pub resolve_relative_document-fragment :
    (b : Browser) (ds : List ReaderDocument) (current : ReaderDocument) (href fragment : Text)
    → All (λ c. c ≢ b'#') href
    → resolve_relative_document b ds current (href ++ b'#' ∷ fragment)
      ≡ resolve_relative_document b ds current href
unfolding resolve_relative_document
resolve_relative_document-fragment b ds current href fragment h =
    rw (take_while-append href fragment h)

module _ (above dirs names : List Text) (file : Text) (named : All IsName names)
    (plain : All HasNoSlash names) (some_name : names ≢ [])
    (slashes : All HasNoSlash ((above ++ dirs) ++ file ∷ [])) where
  target_route_lem :
      target_route
        (join b'/' ((above ++ dirs) ++ file ∷ []))
        (join b'/' (ups (length dirs) ++ names))
      ≡ strip_extension (join b'/' (above ++ names))
  unfolding target_route
  target_route_lem =
      ap (λ p. strip_extension (join b'/' p))
        (ap₂ walk
            (ap init (split-join _ (concat-ne-nil file (above ++ dirs)) slashes)
              ∙ init_append (above ++ dirs) file)
            (split-join (ups (length dirs) ++ names) (ups-ne-nil (length dirs) names some_name)
              (All-append HasNoSlash (ups (length dirs)) names (ups-All (length dirs)) plain))
          ∙ walk-ups above dirs names named)

  -- A document lies in some folders, of which `dirs` are the innermost. A link from it that goes
  -- up once for each of these, and then down along names to where another document of the list
  -- lies, leads to that document. The link's path is near (not empty, not absolute, with no "://")
  -- and is what the browser decodes; the documents' routes are distinct, and the other document's
  -- route is its place without the extension.
  pub resolve_relative_document-ups :
      (b : Browser) (ds : List ReaderDocument) (current d : ReaderDocument) (href : Text)
      → HasDistinctRoutes ds
      → In d ds
      → current.path ≡ join b'/' ((above ++ dirs) ++ file ∷ [])
      → d.route ≡ strip_extension (join b'/' (above ++ names))
      → is_foreign (raw_path href) ≡ false
      → b.decode_component (raw_path href) ≡ some (join b'/' (ups (length dirs) ++ names))
      → resolve_relative_document b ds current href ≡ ok (some d)
  unfolding resolve_relative_document look_up
  resolve_relative_document-ups b ds current d href distinct i at route near decoded = rw (
    near,
    resolve_relative_document,
    decoded,
    look_up,
    at,
    target_route_lem,
    ← route,
    find_lem d ds i distinct,
  )
