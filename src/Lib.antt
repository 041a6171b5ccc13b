-- ===== src/Lib.antt =====
-- Quickspin's documentation reader (docs/): a single page that collects the roadmap documents, lists
-- and searches them, and shows one at a time with the components of its MDX.
--
-- The program's parts and the files that model them:
--
--   * docs/src/documents.tsx, in Documents: Patterns holds its regular expressions as matchers,
--     Source what is read off a document's text (titleFor, descriptionFor, headingsFor,
--     readingMinutesFor), Roadmap what is read off its path (filePath, routeFor, roadmapFor,
--     orderFor), Catalog the records, their order and resolveDocument.
--   * docs/src/App.tsx, in Reader: Preferences is loadReaderPreferences and the effect that saves,
--     Links is currentRoute, hrefFor and resolveRelativeDocument, Search the filter of Sidebar, State
--     the state of App with one event for each handler, and View what Sidebar, RoadmapStatus and App
--     render. The view's handlers send the events, and `step` runs a handler and then the effects.
--   * docs/src/mdx-components.tsx, in Mdx: Slug is slugify, which Documents uses too, Prose the
--     components for running text, Tasks, Hints and Resources the lists, Mermaid the diagrams: the
--     promises of loadMermaid and renderMermaid, the runs of the effect, and what a diagram renders.
--   * docs/src/components/ui/sidebar.tsx, docs/src/hooks/use-mobile.ts and docs/src/lib/utils.ts, in Ui:
--     Sidebar is the provider's state, Sidebar/Frame, Sidebar/Parts and Sidebar/Menu what is
--     rendered, Styling is cn.
--   * The other files of docs/src/components/ui, in Ui: Carousel is the state machine of carousel.tsx,
--     Chart the lookup, the style sheet, the tooltip and the legend of chart.tsx, FieldError the errors
--     of field.tsx, and Kit has a module for each further file, with a definition for each part.
--   * docs/src/icons.tsx, in Icons.
--
-- Diagrams and the carousel depend on what a library does and when. There a state is changed by one event
-- at a time, and a run is a list of events in any order.
--
-- Prelude holds the names and lemmas that all share, Text the operations on strings, Markup the
-- elements that components render. A string is the list of its codes; a character outside the basic
-- plane counts as one where JavaScript counts two. Numbers are natural, but for scrollY, a fraction with a
-- sign; the only difference that could go below 0, in updateProgress, stops there, and its test fails in
-- either case.
--
-- Loops are recursion on the list that they read. The matchers for regular expressions skip what they
-- took by a count, so each round drops one unit of the text; `decimal` has the number itself as
-- fuel, which is more than its digits.
--
-- Parameters: the tables of Unicode (lower case, letters and numbers), localeCompare, the URL functions
-- of the browser, JSON for the values that the program writes, the collected modules and their
-- sources, the page's style, clsx, tailwind-merge, class-variance-authority and base-ui. The elements
-- of other packages stand by their names, and an instance of the carousel's package is a number. A
-- hypothesis on a parameter stands in a record: IsCollation, IsCodec, IsBrowser.
--
-- Not modelled: smooth scrolling, which changes no state; the registration of the reader's listeners,
-- each of which lasts as long as the page or the state that its handler tests; of docs/src/components/ui
-- the files aspect-ratio, calendar, direction, input, slider, sonner and toggle-group and the parts that
-- a module of Kit names as left out, all adapters of other packages; the build configuration; and the
-- platform in Go under cmd/ and internal/.
pub mod Prelude
pub mod Text
pub mod Markup
pub mod Icons
pub mod Mdx
pub mod Documents
pub mod Reader
pub mod Ui
