-- ===== src/Icons.antt =====
-- docs/src/icons.tsx: drawings in an `svg` element whose properties the caller may replace.
use quickspin.Prelude.{List, [], ◌∷◌}
use quickspin.Markup.{Attr, Node, elem, attribute}

module _ {M : Type 0} where
  unfoldable pub icon : List (Attr M) → List (Node M) → Node M
  icon props children =
      elem "svg"
        (attribute "viewBox" "0 0 24 24"
          ∷ attribute "fill" "none"
          ∷ attribute "stroke" "currentColor"
          ∷ attribute "strokeWidth" "1.8"
          ∷ attribute "strokeLinecap" "round"
          ∷ attribute "strokeLinejoin" "round"
          ∷ attribute "aria-hidden" "true"
          ∷ props)
        children

  unfoldable pub search_icon : List (Attr M) → Node M
  unfolding icon
  search_icon props = icon props (
      elem "circle" (attribute "cx" "11" ∷ attribute "cy" "11" ∷ attribute "r" "7" ∷ []) []
      ∷ elem "path" (attribute "d" "m20 20-4-4" ∷ []) []
      ∷ [])

  unfoldable pub menu_icon : List (Attr M) → Node M
  unfolding icon
  menu_icon props = icon props (elem "path" (attribute "d" "M4 7h16M4 12h16M4 17h16" ∷ []) [] ∷ [])

  unfoldable pub close_icon : List (Attr M) → Node M
  unfolding icon
  close_icon props = icon props (elem "path" (attribute "d" "m6 6 12 12M18 6 6 18" ∷ []) [] ∷ [])

  unfoldable pub arrow_icon : List (Attr M) → Node M
  unfolding icon
  arrow_icon props = icon props (elem "path" (attribute "d" "M5 12h14M13 6l6 6-6 6" ∷ []) [] ∷ [])

  unfoldable pub check_icon : List (Attr M) → Node M
  unfolding icon
  check_icon props = icon props (elem "path" (attribute "d" "m5 12 4 4L19 6" ∷ []) [] ∷ [])

  unfoldable pub chevron_icon : List (Attr M) → Node M
  unfolding icon
  chevron_icon props = icon props (elem "path" (attribute "d" "m15 18-6-6 6-6" ∷ []) [] ∷ [])

  unfoldable pub reader_mode_icon : List (Attr M) → Node M
  unfolding icon
  reader_mode_icon props = icon props (
      elem "path" (attribute "d" "M4 5.5c2.8-.7 5.4 0 8 2.1v11c-2.6-2.1-5.2-2.8-8-2.1z" ∷ []) []
      ∷ elem "path" (attribute "d" "M20 5.5c-2.8-.7-5.4 0-8 2.1v11c2.6-2.1 5.2-2.8 8-2.1z" ∷ []) []
      ∷ [])

  unfoldable pub settings_icon : List (Attr M) → Node M
  unfolding icon
  settings_icon props = icon props (
      elem "circle" (attribute "cx" "12" ∷ attribute "cy" "12" ∷ attribute "r" "3" ∷ []) []
      ∷ elem "path"
          (attribute "d"
              "M19.4 15a1.7 1.7 0 0 0 .3 1.9l.1.1-2.8 2.8-.1-.1a1.7 1.7 0 0 0-1.9-.3 1.7 1.7 0 0 0-1 1.6v.2h-4V21a1.7 1.7 0 0 0-1-1.6 1.7 1.7 0 0 0-1.9.3l-.1.1L4.2 17l.1-.1a1.7 1.7 0 0 0 .3-1.9A1.7 1.7 0 0 0 3 14H2.8v-4H3a1.7 1.7 0 0 0 1.6-1 1.7 1.7 0 0 0-.3-1.9L4.2 7 7 4.2l.1.1A1.7 1.7 0 0 0 9 4.6 1.7 1.7 0 0 0 10 3v-.2h4V3a1.7 1.7 0 0 0 1 1.6 1.7 1.7 0 0 0 1.9-.3l.1-.1L19.8 7l-.1.1a1.7 1.7 0 0 0-.3 1.9 1.7 1.7 0 0 0 1.6 1h.2v4H21a1.7 1.7 0 0 0-1.6 1Z"
            ∷ [])
          []
      ∷ [])
