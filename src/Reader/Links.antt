-- ===== src/Reader/Links.antt =====
-- Addresses and links between documents (docs/src/App.tsx). The encoding of address parts and the
-- reading of the query are the browser's, and arguments.
pub mod Walk
pub mod Relative
use quickspin.Text.{text_eq, starts_with, includes, split, join, strip_extension}
use quickspin.Text.Units.{Text, codes}
use quickspin.Prelude.{
  Bool, not, ◌||◌, Option, none, some, List, [], ◌∷◌, ◌++◌, ◌==◌, if◌then◌else◌, find, take_while,
  init,
}
use quickspin.Documents.Roadmap.{Result, ok, throw}
use quickspin.Documents.Catalog.{ReaderDocument, has_route}

pub record Browser : Type 0 where
  pub encode_component : Text → Text
  -- `decodeURIComponent`; `none` is a URIError.
  pub decode_component : Text → Option Text
  -- `new URLSearchParams(window.location.search).get("doc")` at an address
  pub doc_parameter : Text → Option Text
  -- `window.location.pathname`, which no step of the program changes
  pub pathname : Text

unfoldable pub href_for : Browser → ReaderDocument → Text
href_for b d = b.pathname ++ codes "?doc=" ++ b.encode_component d.route

unfoldable pub current_route : Browser → Text → Option Text
current_route b address = b.doc_parameter address

-- One round of the loop over the segments.
unfoldable pub follow : List Text → Text → List Text
follow parts segment =
    if text_eq segment [] || text_eq segment (codes ".")
    then parts
    else if text_eq segment (codes "..")
    then init parts
    else parts ++ segment ∷ []

unfoldable pub walk : List Text → List Text → List Text
walk parts [] = parts
walk parts (segment ∷ segments) = walk (follow parts segment) segments

-- `const [rawPath] = href.split("#")`
abbrev pub raw_path : Text → Text
raw_path href = take_while (λ c. not (c == b'#')) href

-- Links that are not between documents: a bare fragment, an absolute path, another site.
unfoldable pub is_foreign : Text → Bool
is_foreign raw = text_eq raw [] || starts_with (codes "/") raw || includes (codes "://") raw

-- The route that a relative path leads to from a document.
unfoldable pub target_route : Text → Text → Text
target_route current_path decoded =
    strip_extension (join b'/' (walk (init (split b'/' current_path)) (split b'/' decoded)))

-- What follows the decoding of the path; `none` is the error that it throws.
unfoldable pub look_up : List ReaderDocument → Text → Option Text → Result (Option ReaderDocument)
look_up documents current_path none = throw (codes "URI malformed")
look_up documents current_path (some decoded) =
    ok (find (has_route (target_route current_path decoded)) documents)

unfoldable pub resolve_relative_document :
    Browser → List ReaderDocument → ReaderDocument → Text → Result (Option ReaderDocument)
resolve_relative_document b documents current href =
    let raw = raw_path href in
    if is_foreign raw then ok none else look_up documents current.path (b.decode_component raw)
