-- ===== src/Text.antt =====
-- Texts as the docs reader handles them (docs/src/documents.tsx, mdx-components.tsx, App.tsx): the
-- list of a string's UTF-16 code units, for text of the basic plane also its code points. The string
-- methods and the regular expressions' global replace and split are those of the language.
pub mod Units
pub mod Unicode
pub mod Equality
pub mod Runs
mod Search
mod Slices
unfoldable pub use Search.*
unfoldable pub use Slices.*
