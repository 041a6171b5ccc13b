-- ===== src/Markup.antt =====
-- The elements that the components render: a tag or a component's name, its properties and its
-- children. A handler is the message that it sends; null and false render nothing.
pub mod Queries
use quickspin.Prelude.{String, Bool, false, if◌then◌else◌, Option, none, some, List, [], ◌∷◌}
use quickspin.Text.{text_eq}
use quickspin.Text.Units.{Text, codes}

pub data Attr (M : Type 0) : Type 0 where
  attr : (name value : Text) → Attr M
  flag : (name : Text) → Bool → Attr M
  on : (event : Text) → M → Attr M
  on_text : (event : Text) → (Text → M) → Attr M
  on_flag : (event : Text) → (Bool → M) → Attr M

mutual
  pub data Node (M : Type 0) : Type 0 where
    el : Text → List (Attr M) → Nodes M → Node M
    text : Text → Node M

  pub data Nodes (M : Type 0) : Type 0 where
    nil : Nodes M
    cons : Node M → Nodes M → Nodes M

-- A text of the source.
unfoldable pub lit : String → Text
lit s = codes s

module _ {M : Type 0} where
  abbrev pub nodes : List (Node M) → Nodes M
  nodes [] = nil
  nodes (x ∷ xs) = cons x (nodes xs)

  -- An element with its children.
  abbrev pub elem : String → List (Attr M) → List (Node M) → Node M
  elem tag attrs children = el (lit tag) attrs (nodes children)

  abbrev pub class_name : String → Attr M
  class_name value = attr (lit "className") (lit value)

  abbrev pub attribute : String → String → Attr M
  attribute name value = attr (lit name) (lit value)

  abbrev pub on_click : M → Attr M
  on_click m = on (lit "click") m

  abbrev pub say : String → Node M
  say s = text (lit s)

  -- `{condition ? <…/> : null}`
  abbrev pub when : Bool → List (Node M) → List (Node M)
  when b children = if b then children else []

  -- `name={value}` where `value` may be undefined
  abbrev pub optional : String → Option Text → List (Attr M)
  optional name none = []
  optional name (some value) = attr (lit name) value ∷ []

  abbrev pub optional_flag : String → Option Bool → List (Attr M)
  optional_flag name none = []
  optional_flag name (some value) = flag (lit name) value ∷ []

-- `value === text` where `value` may be undefined
abbrev pub equals : Option Text → Text → Bool
equals none t = false
equals (some s) t = text_eq s t
