-- ===== src/Mdx/Hints.antt =====
-- `HintSteps` of docs/src/mdx-components.tsx: hints that open one after the other.
pub mod Locked
use quickspin.Text.{decimal}
use quickspin.Text.Units.{Text}
use quickspin.Prelude.{
  ℕ, suc, ◌+◌, Option, none, some, List, [], ◌∷◌, ◌++◌, ltb, if◌then◌else◌, length,
}
use quickspin.Mdx.Tasks.{Child, valid_elements}
use quickspin.Markup.{attr, Node, text, elem, class_name, attribute, on_click, say, lit, when}

pub record HintProps (M : Type 0) : Type 0 where
  pub title : Text
  pub check : Option (Node M)
  pub children : List (Node M)

-- What the two buttons send.
pub data HintEvent : Type 0 where
  reveal hide_all : HintEvent

-- The number of hints that are open.
unfoldable pub update : HintEvent → ℕ → ℕ
update reveal count = count + 1
update hide_all count = 0

abbrev check_line : Option (Node HintEvent) → List (Node HintEvent)
check_line none = []
check_line (some check) =
    elem "p" (class_name "hint__check" ∷ [])
      (elem "strong" [] (say "Back on track when:" ∷ []) ∷ say " " ∷ check ∷ [])
    ∷ []

unfoldable pub hint_body : HintProps HintEvent → Node HintEvent
hint_body hint = elem "div" (class_name "hint__body" ∷ []) (hint.children ++ check_line hint.check)

unfoldable pub hint_item : ℕ → ℕ → HintProps HintEvent → Node HintEvent
hint_item revealed index hint =
    let is_open = ltb index revealed in
    elem "li"
      (attr (lit "className") (if is_open then lit "hint--open" else lit "hint--locked") ∷ [])
      (elem "div" (class_name "hint__title" ∷ []) (
          elem "span" (class_name "hint__number" ∷ []) (text (decimal (index + 1)) ∷ [])
          ∷ elem "span" [] (text hint.title ∷ [])
          ∷ [])
        ∷ when is_open (hint_body hint ∷ []))

unfoldable pub hint_items : ℕ → ℕ → List (HintProps HintEvent) → List (Node HintEvent)
hint_items revealed index [] = []
hint_items revealed index (hint ∷ hints) =
    hint_item revealed index hint ∷ hint_items revealed (suc index) hints

unfoldable pub hint_controls : ℕ → ℕ → Node HintEvent
hint_controls revealed count = elem "div" (class_name "hint-steps__controls" ∷ []) (
    when (ltb revealed count) (
      elem "button" (attribute "type" "button" ∷ on_click reveal ∷ [])
        (text (lit "Reveal hint " ++ decimal (revealed + 1)) ∷ [])
      ∷ [])
    ++ when (ltb 0 revealed) (
        elem "button"
          (attribute "type" "button" ∷ class_name "hint-steps__reset" ∷ on_click hide_all ∷ [])
          (say "Hide all" ∷ [])
        ∷ []))

unfoldable pub hint_steps : ℕ → List (Child (HintProps HintEvent)) → Node HintEvent
unfolding valid_elements
hint_steps revealed children =
    let hints = valid_elements children in
    elem "section" (class_name "hint-steps" ∷ []) (
      elem "header" (class_name "hint-steps__header" ∷ []) (
        elem "span" (class_name "hint-steps__eyebrow" ∷ []) (say "Progressive hints" ∷ [])
        ∷ elem "span" (class_name "hint-steps__count" ∷ []) (
            text (decimal revealed ++ lit " of " ++ decimal (length hints) ++ lit " revealed") ∷ [])
        ∷ [])
      ∷ elem "p" (class_name "hint-steps__note" ∷ []) (
          say
            "Consult these only when blocked. Hints unlock in order so a later hint cannot spoil an earlier task."
          ∷ [])
      ∷ elem "ol" (class_name "hint-steps__items" ∷ []) (hint_items revealed 0 hints)
      ∷ hint_controls revealed (length hints)
      ∷ [])
