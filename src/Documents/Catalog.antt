-- ===== src/Documents/Catalog.antt =====
-- The list of documents and its lookup (docs/src/documents.tsx). The compiled modules and their
-- sources, which the bundler collects, are arguments; a document's component is told by its path.
pub mod Order
pub mod Resolve
pub mod Build
use quickspin.Text.{text_eq, after_prefix, strip_suffix, strip_extension}
use quickspin.Text.Units.{Text, codes}
use quickspin.Prelude.{
  ℕ, Bool, true, false, not, Option, List, [], ◌∷◌, ◌++◌, ◌==◌, if◌then◌else◌, get_or, or_else,
  get_elem?, find,
}
use Prim.Native.Nat.{compare, Ordering}
use quickspin.Text.Unicode.{Unicode}
use quickspin.Documents.Source.{
  DocumentHeading, title_for, description_for, headings_for, reading_minutes_for,
}
use quickspin.Documents.Roadmap.{
  Roadmap, Result, ok, and_then, file_path, route_for, roadmap_for, order_for, nav_title_of,
}

pub record ReaderDocument : Type 0 where
  pub path : Text
  pub route : Text
  pub title : Text
  pub nav_title : Text
  pub roadmap : Roadmap
  pub description : Text
  pub order : ℕ
  pub reading_minutes : ℕ
  pub headings : List DocumentHeading
  pub source : Text
  pub search_text : Text

module _ (u : Unicode) where
  -- The record that `buildDocument` returns, given its roadmap entry.
  unfoldable pub document_from : Text → Text → Roadmap → ReaderDocument
  document_from path source roadmap =
      let title = title_for path source in
      let description = description_for source in
      record {
        path = path;
        route = route_for path;
        title = title;
        nav_title = nav_title_of title;
        roadmap = roadmap;
        description = description;
        order = order_for path;
        reading_minutes = reading_minutes_for source;
        headings = headings_for u source;
        source = source;
        search_text = u.to_lower (title ++ codes " " ++ description ++ codes " " ++ source);
      }

  unfoldable pub build_document : Text → Text → Result ReaderDocument
  unfolding document_from
  build_document path source =
      and_then (roadmap_for path source) (λ r. ok (document_from path source r))

  -- `Object.entries(compiledModules).map(…)`: the first document that throws ends it. `raw` is
  -- the table of sources, with `?? ""` for a missing one.
  unfoldable pub build_all : (Text → Option Text) → List Text → Result (List ReaderDocument)
  build_all raw [] = ok []
  build_all raw (module_path ∷ rest) =
      and_then (build_document (file_path module_path) (get_or (raw module_path) []))
        λ d. and_then (build_all raw rest) λ ds. ok (d ∷ ds)

-- `a.localeCompare(b, undefined, { numeric: true })` is a parameter.
module _ (locale_compare : Text → Text → Ordering) where
  unfoldable pub comparator : ReaderDocument → ReaderDocument → Ordering
  comparator a b =
      if not (a.order == b.order) then compare a.order b.order else locale_compare a.title b.title

  -- `a` may stand before `b`.
  unfoldable pub in_order : ReaderDocument → ReaderDocument → Bool
  unfolding comparator
  in_order a b = elim (comparator a b) [ Ordering.gt ↦ false | _ ↦ true ]

  -- The stable sort of the language, as an insertion sort.
  unfoldable pub insert_document : ReaderDocument → List ReaderDocument → List ReaderDocument
  insert_document d [] = d ∷ []
  insert_document d (e ∷ es) =
      let rest = insert_document d es in if in_order d e then d ∷ e ∷ es else e ∷ rest

  unfoldable pub sort_documents : List ReaderDocument → List ReaderDocument
  sort_documents [] = []
  sort_documents (d ∷ ds) = insert_document d (sort_documents ds)

-- `(route ?? "").replace(/^\/|\/$/g, "").replace(/\.(md|mdx)$/, "")`
unfoldable pub normalize_route : Option Text → Text
normalize_route route =
    let text = get_or route [] in
    let unled = get_or (after_prefix (codes "/") text) text in
    strip_extension (get_or (strip_suffix (codes "/") unled) unled)

unfoldable pub has_route : Text → ReaderDocument → Bool
has_route route d = text_eq d.route route

-- `documents[0]` is undefined only for the empty list.
unfoldable pub resolve_document : List ReaderDocument → Option Text → Option ReaderDocument
resolve_document documents route =
    or_else (find (has_route (normalize_route route)) documents) (get_elem? documents 0)
