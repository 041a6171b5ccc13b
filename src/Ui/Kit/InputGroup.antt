-- ===== src/Ui/Kit/InputGroup.antt =====
-- Parts of docs/src/components/ui/input-group.tsx; not modelled here: InputGroupAddon.
use quickspin.Prelude.{Option, some, List, [], ◌∷◌, get_or}
use quickspin.Text.Units.{Text}
use quickspin.Markup.{Attr, attr, Node, elem, attribute, lit}
use quickspin.Ui.Styling.{Styling, cn, Cva}

abbrev pub input_group_addon_variants : Cva
input_group_addon_variants = record {
  classes =
      lit
        "flex h-auto cursor-text items-center justify-center gap-2 py-1.5 text-xs font-medium text-muted-foreground select-none group-data-[disabled=true]/input-group:opacity-50 [&>kbd]:rounded-none [&>svg:not([class*='size-'])]:size-4";
  variants =
      (
        lit "align",
        (
          lit "inline-start",
          lit "order-first pl-2 has-[>button]:ml-[-0.3rem] has-[>kbd]:ml-[-0.15rem]",
        )
            ∷ (
              lit "inline-end",
              lit "order-last pr-2 has-[>button]:mr-[-0.3rem] has-[>kbd]:mr-[-0.15rem]",
            )
            ∷ (
              lit "block-start",
              lit
                  "order-first w-full justify-start px-2.5 pt-2 group-has-[>input]/input-group:pt-2 [.border-b]:pb-2",
            )
            ∷ (
              lit "block-end",
              lit
                  "order-last w-full justify-start px-2.5 pb-2 group-has-[>input]/input-group:pb-2 [.border-t]:pt-2",
            )
            ∷ [],
      )
      ∷ [];
  defaults = (lit "align", lit "inline-start") ∷ [];
}

abbrev pub input_group_button_variants : Cva
input_group_button_variants = record {
  classes = lit "flex items-center gap-2 text-xs shadow-none";
  variants =
      (
        lit "size",
        (lit "xs", lit "h-6 gap-1 rounded-none px-1.5 [&>svg:not([class*='size-'])]:size-3.5")
            ∷ (lit "sm", lit "gap-1")
            ∷ (lit "icon-xs", lit "size-6 rounded-none p-0 has-[>svg]:p-0")
            ∷ (lit "icon-sm", lit "size-7 p-0 has-[>svg]:p-0")
            ∷ [],
      )
      ∷ [];
  defaults = (lit "size", lit "xs") ∷ [];
}

module _ {M : Type 0} (styling : Styling) where
  unfoldable pub input_group : Option Text → List (Attr M) → List (Node M) → Node M
  unfolding cn
  input_group extra props children =
      elem "div"
        (attribute "data-slot" "input-group"
          ∷ attribute "role" "group"
          ∷ attr (lit "className") (
              cn styling (
                (some (
                  lit
                    "group/input-group relative flex h-8 w-full min-w-0 items-center rounded-none border border-input transition-colors outline-none in-data-[slot=combobox-content]:focus-within:border-inherit in-data-[slot=combobox-content]:focus-within:ring-0 has-disabled:bg-input/50 has-disabled:opacity-50 has-[[data-slot=input-group-control]:focus-visible]:border-ring has-[[data-slot=input-group-control]:focus-visible]:ring-1 has-[[data-slot=input-group-control]:focus-visible]:ring-ring/50 has-[[data-slot][aria-invalid=true]]:border-destructive has-[[data-slot][aria-invalid=true]]:ring-1 has-[[data-slot][aria-invalid=true]]:ring-destructive/20 has-[>[data-align=block-end]]:h-auto has-[>[data-align=block-end]]:flex-col has-[>[data-align=block-start]]:h-auto has-[>[data-align=block-start]]:flex-col has-[>textarea]:h-auto dark:bg-input/30 dark:has-disabled:bg-input/80 dark:has-[[data-slot][aria-invalid=true]]:ring-destructive/40 has-[>[data-align=block-end]]:[&>input]:pt-3 has-[>[data-align=block-start]]:[&>input]:pb-3 has-[>[data-align=inline-end]]:[&>input]:pr-1.5 has-[>[data-align=inline-start]]:[&>input]:pl-1.5"))
                ∷ extra
                ∷ []))
          ∷ props)
        children

  unfoldable pub input_group_button :
      Option Text → Option Text → Option Text → Option Text → List (Attr M) → List (Node M) → Node M
  unfolding cn
  input_group_button extra type variant size props children =
      elem "Button"
        (attr (lit "type") (get_or type (lit "button"))
          ∷ attr (lit "data-size") (get_or size (lit "xs"))
          ∷ attr (lit "variant") (get_or variant (lit "ghost"))
          ∷ attr (lit "className") (
              cn styling (
                (some (
                  styling.cva input_group_button_variants
                    ((lit "size", (some (get_or size (lit "xs")))) ∷ [])))
                ∷ extra
                ∷ []))
          ∷ props)
        children

  unfoldable pub input_group_text : Option Text → List (Attr M) → List (Node M) → Node M
  unfolding cn
  input_group_text extra props children =
      elem "span"
        (attr (lit "className") (
            cn styling (
              (some (
                lit
                  "flex items-center gap-2 text-xs text-muted-foreground [&_svg]:pointer-events-none [&_svg:not([class*='size-'])]:size-4"))
              ∷ extra
              ∷ []))
          ∷ props)
        children

  unfoldable pub input_group_input : Option Text → List (Attr M) → List (Node M) → Node M
  unfolding cn
  input_group_input extra props children =
      elem "Input"
        (attribute "data-slot" "input-group-control"
          ∷ attr (lit "className") (
              cn styling (
                (some (
                  lit
                    "flex-1 rounded-none border-0 bg-transparent shadow-none ring-0 focus-visible:ring-0 disabled:bg-transparent aria-invalid:ring-0 dark:bg-transparent dark:disabled:bg-transparent"))
                ∷ extra
                ∷ []))
          ∷ props)
        children

  unfoldable pub input_group_textarea : Option Text → List (Attr M) → List (Node M) → Node M
  unfolding cn
  input_group_textarea extra props children =
      elem "Textarea"
        (attribute "data-slot" "input-group-control"
          ∷ attr (lit "className") (
              cn styling (
                (some (
                  lit
                    "flex-1 resize-none rounded-none border-0 bg-transparent py-2 shadow-none ring-0 focus-visible:ring-0 disabled:bg-transparent aria-invalid:ring-0 dark:bg-transparent dark:disabled:bg-transparent"))
                ∷ extra
                ∷ []))
          ∷ props)
        children
