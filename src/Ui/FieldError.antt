-- ===== src/Ui/FieldError.antt =====
-- `FieldError` and `FieldSeparator` of docs/src/components/ui/field.tsx.
pub mod Unique
mod Tests
use quickspin.Text.{text_eq}
use quickspin.Text.Units.{Text}
use quickspin.Prelude.{
  Bool, true, false, Option, none, some, List, [], ◌∷◌, ◌++◌, ltb, if◌then◌else◌, length,
}
use quickspin.Markup.{Attr, attr, Node, elem, attribute, class_name, flag, lit, text, when}
use quickspin.Ui.Styling.{Styling, cn}

-- An error is missing or has a message, which may be missing.
pub record FieldIssue : Type 0 where
  pub message : Option Text

-- `error?.message`
abbrev pub message_of : Option FieldIssue → Option Text
message_of none = none
message_of (some issue) = issue.message

abbrev pub same_key : Option Text → Option Text → Bool
same_key none none = true
same_key (some s) (some t) = text_eq s t
same_key _ _ = false

-- `Map.prototype.set` with the message as the key: a key that is there keeps its place and takes the
-- later value, a new one comes last.
unfoldable pub set_entry : Option FieldIssue → List (Option FieldIssue) → List (Option FieldIssue)
set_entry issue [] = issue ∷ []
set_entry issue (x ∷ xs) =
    let rest = set_entry issue xs in
    if same_key (message_of x) (message_of issue) then issue ∷ xs else x ∷ rest

unfoldable pub set_entries :
    List (Option FieldIssue) → List (Option FieldIssue) → List (Option FieldIssue)
set_entries entries [] = entries
set_entries entries (issue ∷ issues) = set_entries (set_entry issue entries) issues

-- `[...new Map(errors.map((error) => [error?.message, error])).values()]`
unfoldable pub unique_errors : List (Option FieldIssue) → List (Option FieldIssue)
unfolding set_entries
unique_errors errors = set_entries [] errors

module _ {M : Type 0} where
  -- A missing or empty message shows nothing.
  abbrev pub message_text : Option Text → List (Node M)
  message_text none = []
  message_text (some []) = []
  message_text (some (c ∷ t)) = text (c ∷ t) ∷ []

  abbrev pub error_item : Option FieldIssue → List (Node M)
  error_item issue = elim (message_text (message_of issue)) [
    | [] ↦ []
    | x ∷ xs ↦ elem "li" [] (x ∷ xs) ∷ []
  ]

  abbrev pub error_items : List (Option FieldIssue) → List (Node M)
  error_items [] = []
  error_items (issue ∷ issues) = error_item issue ++ error_items issues

  abbrev pub error_list : List (Option FieldIssue) → List (Node M)
  error_list [] = []
  error_list (issue ∷ []) = message_text (message_of issue)
  error_list (x ∷ y ∷ issues) =
      elem "ul" (class_name "ml-4 flex list-disc flex-col gap-1" ∷ [])
        (error_items (x ∷ y ∷ issues))
      ∷ []

  -- What the alert holds: the children if there are any, else the messages.
  unfoldable pub error_content : List (Node M) → List (Option FieldIssue) → List (Node M)
  unfolding unique_errors
  error_content (x ∷ xs) errors = x ∷ xs
  error_content [] errors = error_list (unique_errors errors)

module _ {M : Type 0} (styling : Styling) where
  abbrev alert : Option Text → List (Attr M) → List (Node M) → Option (Node M)
  alert extra props [] = none
  alert extra props (x ∷ xs) = some (
      elem "div"
        (attribute "role" "alert"
          ∷ attribute "data-slot" "field-error"
          ∷ attr (lit "className") (
              styling.tw_merge
                (styling.clsx (some (lit "text-xs font-normal text-destructive") ∷ extra ∷ [])))
          ∷ props)
        (x ∷ xs))

  -- `errors` may be missing, which is as if it were empty.
  unfoldable pub field_error :
      Option Text → List (Node M) → List (Option FieldIssue) → List (Attr M) → Option (Node M)
  unfolding error_content
  field_error extra children errors props = alert extra props (error_content children errors)

  unfoldable pub field_separator : Option Text → List (Attr M) → List (Node M) → Node M
  unfolding cn
  field_separator extra props children =
      elem "div"
        (attribute "data-slot" "field-separator"
          ∷ flag (lit "data-content") (ltb 0 (length children))
          ∷ attr (lit "className") (
              cn styling (
                some
                  (lit "relative -my-2 h-5 text-xs group-data-[variant=outline]/field-group:-mb-2")
                ∷ extra
                ∷ []))
          ∷ props)
        (elem "Separator" (class_name "absolute inset-0 top-1/2" ∷ []) []
          ∷ when (ltb 0 (length children)) (
              elem "span"
                (class_name "relative mx-auto block w-fit bg-background px-2 text-muted-foreground"
                  ∷ attribute "data-slot" "field-separator-content"
                  ∷ [])
                children
              ∷ []))
