-- ===== src/Ui/Kit/Field.antt =====
-- Parts of docs/src/components/ui/field.tsx;
-- FieldSeparator and FieldError are in Ui/FieldError.antt.
use quickspin.Prelude.{Option, some, List, [], ◌∷◌, get_or}
use quickspin.Text.Units.{Text}
use quickspin.Markup.{Attr, attr, Node, elem, attribute, lit}
use quickspin.Ui.Styling.{Styling, cn, Cva}

abbrev pub field_variants : Cva
field_variants = record {
  classes = lit "group/field flex w-full gap-2 data-[invalid=true]:text-destructive";
  variants =
      (
        lit "orientation",
        (lit "vertical", lit "flex-col *:w-full [&>.sr-only]:w-auto")
            ∷ (
              lit "horizontal",
              lit
                  "flex-row items-center has-[>[data-slot=field-content]]:items-start *:data-[slot=field-label]:flex-auto has-[>[data-slot=field-content]]:[&>[role=checkbox],[role=radio]]:mt-px",
            )
            ∷ (
              lit "responsive",
              lit
                  "flex-col *:w-full @md/field-group:flex-row @md/field-group:items-center @md/field-group:*:w-auto @md/field-group:has-[>[data-slot=field-content]]:items-start @md/field-group:*:data-[slot=field-label]:flex-auto [&>.sr-only]:w-auto @md/field-group:has-[>[data-slot=field-content]]:[&>[role=checkbox],[role=radio]]:mt-px",
            )
            ∷ [],
      )
      ∷ [];
  defaults = (lit "orientation", lit "vertical") ∷ [];
}

module _ {M : Type 0} (styling : Styling) where
  unfoldable pub field_set : Option Text → List (Attr M) → List (Node M) → Node M
  unfolding cn
  field_set extra props children =
      elem "fieldset"
        (attribute "data-slot" "field-set"
          ∷ attr (lit "className") (
              cn styling (
                (some (
                  lit
                    "flex flex-col gap-4 has-[>[data-slot=checkbox-group]]:gap-3 has-[>[data-slot=radio-group]]:gap-3"))
                ∷ extra
                ∷ []))
          ∷ props)
        children

  unfoldable pub field_legend : Option Text → Option Text → List (Attr M) → List (Node M) → Node M
  unfolding cn
  field_legend extra variant props children =
      elem "legend"
        (attribute "data-slot" "field-legend"
          ∷ attr (lit "data-variant") (get_or variant (lit "legend"))
          ∷ attr (lit "className") (
              cn styling (
                (some (
                  lit
                    "mb-2.5 font-medium data-[variant=label]:text-xs data-[variant=legend]:text-sm"))
                ∷ extra
                ∷ []))
          ∷ props)
        children

  unfoldable pub field_group : Option Text → List (Attr M) → List (Node M) → Node M
  unfolding cn
  field_group extra props children =
      elem "div"
        (attribute "data-slot" "field-group"
          ∷ attr (lit "className") (
              cn styling (
                (some (
                  lit
                    "group/field-group @container/field-group flex w-full flex-col gap-5 data-[slot=checkbox-group]:gap-3 *:data-[slot=field-group]:gap-4"))
                ∷ extra
                ∷ []))
          ∷ props)
        children

  unfoldable pub field : Option Text → Option Text → List (Attr M) → List (Node M) → Node M
  unfolding cn
  field extra orientation props children =
      elem "div"
        (attribute "role" "group"
          ∷ attribute "data-slot" "field"
          ∷ attr (lit "data-orientation") (get_or orientation (lit "vertical"))
          ∷ attr (lit "className") (
              cn styling (
                (some (
                  styling.cva field_variants
                    ((lit "orientation", (some (get_or orientation (lit "vertical")))) ∷ [])))
                ∷ extra
                ∷ []))
          ∷ props)
        children

  unfoldable pub field_content : Option Text → List (Attr M) → List (Node M) → Node M
  unfolding cn
  field_content extra props children =
      elem "div"
        (attribute "data-slot" "field-content"
          ∷ attr (lit "className") (
              cn styling (
                (some (lit "group/field-content flex flex-1 flex-col gap-0.5 leading-snug"))
                ∷ extra
                ∷ []))
          ∷ props)
        children

  unfoldable pub field_label : Option Text → List (Attr M) → List (Node M) → Node M
  unfolding cn
  field_label extra props children =
      elem "Label"
        (attribute "data-slot" "field-label"
          ∷ attr (lit "className") (
              cn styling (
                (some (
                  lit
                    "group/field-label peer/field-label flex w-fit gap-2 leading-snug group-data-[disabled=true]/field:opacity-50 has-data-checked:border-primary/30 has-data-checked:bg-primary/5 has-[>[data-slot=field]]:rounded-none has-[>[data-slot=field]]:border *:data-[slot=field]:p-2 dark:has-data-checked:border-primary/20 dark:has-data-checked:bg-primary/10"))
                ∷ (some (lit "has-[>[data-slot=field]]:w-full has-[>[data-slot=field]]:flex-col"))
                ∷ extra
                ∷ []))
          ∷ props)
        children

  unfoldable pub field_title : Option Text → List (Attr M) → List (Node M) → Node M
  unfolding cn
  field_title extra props children =
      elem "div"
        (attribute "data-slot" "field-label"
          ∷ attr (lit "className") (
              cn styling (
                (some (
                  lit
                    "flex w-fit items-center gap-2 text-xs/relaxed group-data-[disabled=true]/field:opacity-50"))
                ∷ extra
                ∷ []))
          ∷ props)
        children

  unfoldable pub field_description : Option Text → List (Attr M) → List (Node M) → Node M
  unfolding cn
  field_description extra props children =
      elem "p"
        (attribute "data-slot" "field-description"
          ∷ attr (lit "className") (
              cn styling (
                (some (
                  lit
                    "text-left text-xs/relaxed leading-normal font-normal text-muted-foreground group-has-data-horizontal/field:text-balance [[data-variant=legend]+&]:-mt-1.5"))
                ∷ (some (lit "last:mt-0 nth-last-2:-mt-1"))
                ∷ (some (lit "[&>a]:underline [&>a]:underline-offset-4 [&>a:hover]:text-primary"))
                ∷ extra
                ∷ []))
          ∷ props)
        children
