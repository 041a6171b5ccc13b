-- ===== src/Mdx/Tasks.antt =====
-- Lists of tasks and of hints (docs/src/mdx-components.tsx). `Children.toArray(…).filter(isValidElement)`
-- keeps the elements among the children; a child is an element with its properties, or another node.
use quickspin.Text.{text_eq, decimal}
use quickspin.Text.Units.{Text}
use quickspin.Prelude.{ℕ, suc, Option, List, [], ◌∷◌, ltb, if◌then◌else◌, get_or, length}
use quickspin.Text.Unicode.{Unicode}
use quickspin.Mdx.Slug.{slugify}
use quickspin.Markup.{attr, Node, text, elem, class_name, say, lit, when}

pub data Child (P : Type 0) : Type 0 where
  element : P → Child P
  other : Child P

unfoldable pub valid_elements : {P : Type 0} → List (Child P) → List P
valid_elements [] = []
valid_elements (element p ∷ cs) = p ∷ valid_elements cs
valid_elements (other ∷ cs) = valid_elements cs

pub record TaskProps (M : Type 0) : Type 0 where
  pub title : Text
  pub id : Option Text
  pub children : List (Node M)

-- `task.props.id ?? (slugify(task.props.title) || index)`
unfoldable pub task_key : {M : Type 0} → Unicode → TaskProps M → ℕ → Text
task_key u task index =
    let slug = slugify u task.title in
    get_or task.id (if text_eq slug [] then decimal index else slug)

module _ {M : Type 0} (u : Unicode) where
  unfoldable pub task_item : ℕ → TaskProps M → Node M
  task_item index task = elem "li" (attr (lit "key") (task_key u task index) ∷ []) (
      elem "span" (class_name "task__body" ∷ []) (
        elem "strong" [] (text task.title ∷ [])
        ∷ when (ltb 0 (length task.children)) (elem "span" [] task.children ∷ []))
      ∷ [])

  unfoldable pub task_items : ℕ → List (TaskProps M) → List (Node M)
  task_items index [] = []
  task_items index (task ∷ tasks) = task_item index task ∷ task_items (suc index) tasks

  unfoldable pub task_list : List (Child (TaskProps M)) → Node M
  task_list children = elem "section" (class_name "task-list" ∷ []) (
      elem "header" (class_name "task-list__header" ∷ [])
        (elem "span" (class_name "task-list__eyebrow" ∷ []) (say "Implementation tasks" ∷ []) ∷ [])
      ∷ elem "ol" (class_name "task-list__items" ∷ []) (task_items 0 (valid_elements children))
      ∷ [])
