-- ===== src/Documents/Catalog/Build.antt =====
-- The building of the list of documents.
use quickspin.Text.Units.{Text}
use quickspin.Prelude.{◌≡◌, ◌≢◌, none, List, [], ◌∷◌}
use quickspin.Text.Unicode.{Unicode}
use quickspin.Documents.Roadmap.{Roadmap, file_path, route_for, roadmap_number}
use quickspin.Documents.Catalog.{ReaderDocument}

-- What is kept of a module's path in the document built from it.
abbrev pub Describes : Text → ReaderDocument → Type 0
Describes module_path d =
    (d.path ≡ file_path module_path) × (d.route ≡ route_for (file_path module_path))

-- The documents are those of the modules, one each and in their order.
abbrev pub Describe : List Text → List ReaderDocument → Type 0
Describe [] [] = Unit
Describe (m ∷ ms) (d ∷ ds) = Describes m d × Describe ms ds
Describe _ _ = ⊥

abbrev pub HasNumber : Text → Type 0
HasNumber module_path = roadmap_number (file_path module_path) ≢ none
