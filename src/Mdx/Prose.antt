-- ===== src/Mdx/Prose.antt =====
-- The components for running text (docs/src/mdx-components.tsx): headings, links, callouts, prompts,
-- steps and comparisons. Properties that a component only passes on are its first argument.
use quickspin.Text.{text_eq, starts_with}
use quickspin.Text.Units.{Text, codes}
use quickspin.Prelude.{
  Bool, true, false, not, Option, none, some, List, [], ◌∷◌, ◌++◌, if◌then◌else◌, get_or,
}
use quickspin.Text.Unicode.{Unicode}
use quickspin.Mdx.Slug.{slugify}
use quickspin.Markup.{
  Attr, attr, Node, el, text, Nodes, nil, cons, elem, class_name, attribute, say, lit, nodes, when,
  optional,
}

-- The text of a node is that of its parts; what renders nothing has none.
unfoldable mutual
  pub child_text : {M : Type 0} → Node M → Text
  child_text (el tag attrs children) = child_texts children
  child_text (text t) = t

  pub child_texts : {M : Type 0} → Nodes M → Text
  child_texts nil = []
  child_texts (cons x xs) = child_text x ++ child_texts xs

pub data Level : Type 0 where
  h1 h2 h3 h4 : Level

abbrev pub level_tag : Level → Text
level_tag h1 = codes "h1"
level_tag h2 = codes "h2"
level_tag h3 = codes "h3"
level_tag h4 = codes "h4"

abbrev is_nested : Level → Bool
is_nested h1 = false
is_nested _ = true

pub data CalloutTone : Type 0 where
  note idea warning system : CalloutTone

unfoldable pub tone_text : CalloutTone → Text
tone_text note = codes "note"
tone_text idea = codes "idea"
tone_text warning = codes "warning"
tone_text system = codes "system"

unfoldable pub tone_label : CalloutTone → Text
tone_label note = codes "Field note"
tone_label idea = codes "Working idea"
tone_label warning = codes "Watch the edge"
tone_label system = codes "System behavior"

-- `props.href?.startsWith("http")`
unfoldable pub is_external : Option Text → Bool
is_external none = false
is_external (some href) = starts_with (codes "http") href

module _ {M : Type 0} where
  -- `id ?? slugify(childText(children))`
  unfoldable pub anchor_of : Unicode → Option Text → List (Node M) → Text
  unfolding child_texts
  anchor_of u id children = get_or id (slugify u (child_texts (nodes children)))

  unfoldable pub heading : Unicode → List (Attr M) → Level → Option Text → List (Node M) → Node M
  unfolding anchor_of
  heading u props level id children =
      let anchor = anchor_of u id children in
      el (level_tag level) (attr (lit "id") anchor ∷ props) (
        nodes (
          when (is_nested level) (
            elem "a"
              (class_name "heading-anchor"
                ∷ attr (lit "href") (codes "#" ++ anchor)
                ∷ attribute "aria-label" "Link to this section"
                ∷ [])
              (say "#" ∷ [])
            ∷ [])
          ++ children))

  unfoldable pub smart_link : List (Attr M) → Option Text → List (Node M) → Node M
  unfolding is_external
  smart_link props href children =
      let external = is_external href in
      elem "a"
        (optional "href" href
          ++ props
          ++ (if external
              then attribute "target" "_blank" ∷ attribute "rel" "noreferrer" ∷ []
              else []))
        (children
          ++ when external (elem "span" (class_name "external-mark" ∷ []) (say "↗" ∷ []) ∷ []))

  unfoldable pub callout : Option CalloutTone → Option Text → List (Node M) → Node M
  callout tone title children =
      let tone' = get_or tone note in
      elem "aside" (attr (lit "className") (lit "callout callout--" ++ tone_text tone') ∷ []) (
        elem "div" (class_name "callout__label" ∷ []) (text (get_or title (tone_label tone')) ∷ [])
        ∷ elem "div" (class_name "callout__body" ∷ []) children
        ∷ [])

  unfoldable pub study_prompt : Text → Option Text → List (Node M) → Node M
  study_prompt question label children = elem "section" (class_name "study-prompt" ∷ []) (
      elem "p" (class_name "study-prompt__eyebrow" ∷ []) (say "Pause & reason" ∷ [])
      ∷ elem "h3" [] (text question ∷ [])
      ∷ elem "details" [] (
          elem "summary" [] (text (get_or label (lit "Reveal a hint")) ∷ [])
          ∷ elem "div" (class_name "study-prompt__answer" ∷ []) children
          ∷ [])
      ∷ [])

  unfoldable pub key_point : Option Text → List (Node M) → Node M
  key_point label children =
      elem "div" (class_name "key-point" ∷ [])
        (elem "span" [] (text (get_or label (lit "Key point")) ∷ []) ∷ elem "div" [] children ∷ [])

  unfoldable pub steps : List (Node M) → Node M
  steps children = elem "ol" (class_name "study-steps" ∷ []) children

  unfoldable pub step : Text → List (Node M) → Node M
  step title children = elem "li" [] (
      elem "div" (class_name "study-step__marker" ∷ attribute "aria-hidden" "true" ∷ []) []
      ∷ elem "div" [] (elem "strong" [] (text title ∷ []) ∷ elem "div" [] children ∷ [])
      ∷ [])

  unfoldable pub compare_grid : List (Node M) → Node M
  compare_grid children = elem "div" (class_name "compare-grid" ∷ []) children

  -- An empty eyebrow shows nothing.
  unfoldable pub compare_item : Text → Option Text → List (Node M) → Node M
  compare_item title eyebrow children = elem "section" (class_name "compare-card" ∷ []) (
      when (not (text_eq (get_or eyebrow []) []))
        (elem "span" [] (text (get_or eyebrow []) ∷ []) ∷ [])
      ++ elem "h3" [] (text title ∷ []) ∷ elem "div" [] children ∷ [])

  unfoldable pub figure : Option Text → List (Node M) → Node M
  figure caption children = elem "figure" (class_name "doc-figure" ∷ []) (
      elem "div" (class_name "doc-figure__canvas" ∷ []) children
      ∷ when (not (text_eq (get_or caption []) []))
          (elem "figcaption" [] (text (get_or caption []) ∷ []) ∷ []))

  -- The entries `table`, `pre` and `blockquote` of `mdxComponents`.
  unfoldable pub table : List (Attr M) → List (Node M) → Node M
  table props children =
      elem "div" (class_name "table-scroll" ∷ []) (elem "table" props children ∷ [])

  unfoldable pub pre : List (Attr M) → List (Node M) → Node M
  pre props children = elem "div" (class_name "code-frame" ∷ []) (
      elem "span" (class_name "code-frame__label" ∷ []) (say "working notes" ∷ [])
      ∷ elem "pre" props children
      ∷ [])

  unfoldable pub blockquote : List (Attr M) → List (Node M) → Node M
  blockquote props children = elem "blockquote" (class_name "document-quote" ∷ props) children
