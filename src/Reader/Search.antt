-- ===== src/Reader/Search.antt =====
-- The search of the sidebar (docs/src/App.tsx).
pub mod Matches
use quickspin.Text.{text_eq, includes, trim}
use quickspin.Text.Units.{Text}
use quickspin.Prelude.{List, [], if◌then◌else◌, keep}
use quickspin.Text.Unicode.{Unicode}
use quickspin.Documents.Catalog.{ReaderDocument}

unfoldable pub needle_of : Unicode → Text → Text
needle_of u query = u.to_lower (trim query)

unfoldable pub filtered : Unicode → List ReaderDocument → Text → List ReaderDocument
filtered u documents query =
    let needle = needle_of u query in
    if text_eq needle [] then documents else keep (λ d. includes needle d.search_text) documents
