-- ===== src/Mdx/Resources.antt =====
-- The list of resources (docs/src/mdx-components.tsx).
use quickspin.Text.{text_eq}
use quickspin.Text.Units.{Text, codes}
use quickspin.Prelude.{not, Option, List, [], ◌∷◌, ◌++◌, ltb, if◌then◌else◌, get_or, length}
use quickspin.Markup.{attr, Node, text, elem, class_name, attribute, say, lit, when}

pub data ResourceKind : Type 0 where
  docs article book video paper : ResourceKind

unfoldable pub kind_text : ResourceKind → Text
kind_text docs = codes "docs"
kind_text article = codes "article"
kind_text book = codes "book"
kind_text video = codes "video"
kind_text paper = codes "paper"

unfoldable pub resource_kind_label : ResourceKind → Text
resource_kind_label docs = codes "Docs"
resource_kind_label article = codes "Article"
resource_kind_label book = codes "Book"
resource_kind_label video = codes "Video"
resource_kind_label paper = codes "Paper"

unfoldable pub resources : {M : Type 0} → List (Node M) → Node M
resources children = elem "ul" (class_name "resource-list" ∷ []) children

-- An empty address or author counts as none.
unfoldable pub resource :
    {M : Type 0} → Option ResourceKind → Text → Text → Text → List (Node M) → Node M
resource kind title href by children =
    let kind' = get_or kind article in
    elem "li" (attr (lit "className") (lit "resource resource--" ++ kind_text kind') ∷ []) (
      elem "span" (class_name "resource__kind" ∷ []) (text (resource_kind_label kind') ∷ [])
      ∷ elem "div" (class_name "resource__body" ∷ []) (
          elem "span" (class_name "resource__title" ∷ []) (
            (if text_eq href []
              then text title
              else elem "a"
                  (attr (lit "href") href
                    ∷ attribute "target" "_blank"
                    ∷ attribute "rel" "noreferrer"
                    ∷ [])
                  (text title ∷ elem "span" (class_name "external-mark" ∷ []) (say "↗" ∷ []) ∷ []))
            ∷ when (not (text_eq by []))
                (elem "span" (class_name "resource__by" ∷ []) (text (lit " — " ++ by) ∷ []) ∷ []))
          ∷ when (ltb 0 (length children))
              (elem "span" (class_name "resource__note" ∷ []) children ∷ []))
      ∷ [])
