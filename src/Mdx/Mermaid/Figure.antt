-- ===== src/Mdx/Mermaid/Figure.antt =====
-- What `Mermaid` of docs/src/mdx-components.tsx renders, and how `loadMermaid` sets the library up.
use quickspin.Text.{text_eq, trim}
use quickspin.Text.Units.{Text}
use quickspin.Prelude.{Bool, false, Option, none, some, List, [], ◌∷◌, if◌then◌else◌}
use quickspin.Markup.{attr, Node, elem, lit, text}
use quickspin.Mdx.Prose.{figure}
use quickspin.Mdx.Mermaid.{Outcome, svg, error}

unfoldable pub diagram : {M : Type 0} → Option Outcome → Option Text → Node M
unfolding figure
diagram (some (error reason)) caption =
    figure (some (lit "This diagram failed to render; its source has a syntax error."))
      (elem "pre" [] (text reason ∷ []) ∷ [])
diagram (some (svg drawing)) caption =
    figure caption (elem "div" (attr (lit "dangerouslySetInnerHTML") drawing ∷ []) [] ∷ [])
diagram none caption =
    figure caption (elem "div" (attr (lit "dangerouslySetInnerHTML") [] ∷ []) [] ∷ [])

-- `rootStyle.getPropertyValue(name).trim() || fallback`, with the page's style as a parameter
unfoldable pub token : (Text → Text) → Text → Text → Text
token root_style name fallback =
    let value = trim (root_style name) in if text_eq value [] then fallback else value

-- The entries of `themeVariables`.
unfoldable pub theme_variables : (Text → Text) → List (Text × Text)
unfolding token
theme_variables root_style =
    let ink = token root_style (lit "--ink") (lit "#18231f") in
    let accent = token root_style (lit "--accent") (lit "#cf5436") in
    let gold = token root_style (lit "--gold") (lit "#caa552") in
    (lit "primaryColor", lit "#f6f1e7")
    ∷ (lit "primaryTextColor", ink)
    ∷ (lit "primaryBorderColor", ink)
    ∷ (lit "lineColor", accent)
    ∷ (lit "secondaryColor", lit "#f6f1e7")
    ∷ (lit "tertiaryColor", lit "#faf7f0")
    ∷ (lit "noteBkgColor", lit "#f3e9d2")
    ∷ (lit "noteBorderColor", gold)
    ∷ (lit "actorBorder", ink)
    ∷ (lit "actorBkg", lit "#f6f1e7")
    ∷ (lit "signalColor", ink)
    ∷ (lit "signalTextColor", ink)
    ∷ (lit "labelBoxBkgColor", lit "#f3e9d2")
    ∷ (lit "labelBoxBorderColor", gold)
    ∷ (lit "activationBorderColor", gold)
    ∷ (lit "activationBkgColor", lit "#faf7f0")
    ∷ (lit "clusterBkg", lit "#faf7f0")
    ∷ (lit "clusterBorder", gold)
    ∷ (lit "edgeLabelBackground", lit "#faf7f0")
    ∷ []

-- The argument of `mermaid.initialize`.
pub record MermaidConfig : Type 0 where
  pub start_on_load : Bool
  pub theme : Text
  pub font_family : Text
  pub variables : List (Text × Text)

unfoldable pub mermaid_config : (Text → Text) → MermaidConfig
unfolding theme_variables
mermaid_config root_style = record {
  start_on_load = false;
  theme = lit "base";
  font_family = lit "inherit";
  variables = theme_variables root_style;
}
