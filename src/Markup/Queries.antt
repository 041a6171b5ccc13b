-- ===== src/Markup/Queries.antt =====
-- What a rendered element holds: its text, its messages, and the elements of a name.
use quickspin.Prelude.{List, [], ◌∷◌, ◌++◌}
use quickspin.Markup.{Attr, attr, flag, on, on_text, on_flag, Node, el, text, Nodes, nil, cons}

module _ {M : Type 0} where
  -- The messages of the handlers that stand on an element.
  abbrev pub own_messages : List (Attr M) → List M
  own_messages [] = []
  own_messages (on event m ∷ attrs) = m ∷ own_messages attrs
  own_messages (attr _ _ ∷ attrs) = own_messages attrs
  own_messages (flag _ _ ∷ attrs) = own_messages attrs
  own_messages (on_text _ _ ∷ attrs) = own_messages attrs
  own_messages (on_flag _ _ ∷ attrs) = own_messages attrs

module _ {M : Type 0} where
  unfoldable mutual
    -- The messages in the order of the document.
    pub messages : Node M → List M
    messages (el tag attrs children) = own_messages attrs ++ messages_of children
    messages (text t) = []

    pub messages_of : Nodes M → List M
    messages_of nil = []
    messages_of (cons x xs) = messages x ++ messages_of xs
