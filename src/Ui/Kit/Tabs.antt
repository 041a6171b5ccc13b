-- ===== src/Ui/Kit/Tabs.antt =====
-- The parts of docs/src/components/ui/tabs.tsx.
use quickspin.Prelude.{Option, some, List, [], ◌∷◌, get_or}
use quickspin.Text.Units.{Text}
use quickspin.Markup.{Attr, attr, Node, elem, attribute, lit}
use quickspin.Ui.Styling.{Styling, cn, Cva}

abbrev pub tabs_list_variants : Cva
tabs_list_variants = record {
  classes =
      lit
        "group/tabs-list inline-flex w-fit items-center justify-center rounded-none p-[3px] text-muted-foreground group-data-horizontal/tabs:h-8 group-data-vertical/tabs:h-fit group-data-vertical/tabs:flex-col data-[variant=line]:rounded-none";
  variants =
      (
        lit "variant",
        (lit "default", lit "bg-muted") ∷ (lit "line", lit "gap-1 bg-transparent") ∷ [],
      )
      ∷ [];
  defaults = (lit "variant", lit "default") ∷ [];
}

module _ {M : Type 0} (styling : Styling) where
  unfoldable pub tabs : Option Text → Option Text → List (Attr M) → List (Node M) → Node M
  unfolding cn
  tabs extra orientation props children =
      elem "TabsPrimitive.Root"
        (attribute "data-slot" "tabs"
          ∷ attr (lit "data-orientation") (get_or orientation (lit "horizontal"))
          ∷ attr (lit "className") (
              cn styling
                ((some (lit "group/tabs flex gap-2 data-horizontal:flex-col")) ∷ extra ∷ []))
          ∷ props)
        children

  unfoldable pub tabs_list : Option Text → Option Text → List (Attr M) → List (Node M) → Node M
  unfolding cn
  tabs_list extra variant props children =
      elem "TabsPrimitive.List"
        (attribute "data-slot" "tabs-list"
          ∷ attr (lit "data-variant") (get_or variant (lit "default"))
          ∷ attr (lit "className") (
              cn styling (
                (some (
                  styling.cva tabs_list_variants
                    ((lit "variant", (some (get_or variant (lit "default")))) ∷ [])))
                ∷ extra
                ∷ []))
          ∷ props)
        children

  unfoldable pub tabs_trigger : Option Text → List (Attr M) → List (Node M) → Node M
  unfolding cn
  tabs_trigger extra props children =
      elem "TabsPrimitive.Tab"
        (attribute "data-slot" "tabs-trigger"
          ∷ attr (lit "className") (
              cn styling (
                (some (
                  lit
                    "relative inline-flex h-[calc(100%-1px)] flex-1 items-center justify-center gap-1.5 rounded-none border border-transparent px-1.5 py-0.5 text-xs font-medium whitespace-nowrap text-foreground/60 transition-all group-data-vertical/tabs:w-full group-data-vertical/tabs:justify-start group-data-vertical/tabs:py-[calc(--spacing(1.25))] hover:text-foreground focus-visible:border-ring focus-visible:ring-[3px] focus-visible:ring-ring/50 focus-visible:outline-1 focus-visible:outline-ring disabled:pointer-events-none disabled:opacity-50 has-data-[icon=inline-end]:pr-1 has-data-[icon=inline-start]:pl-1 aria-disabled:pointer-events-none aria-disabled:opacity-50 dark:text-muted-foreground dark:hover:text-foreground [&_svg]:pointer-events-none [&_svg]:shrink-0 [&_svg:not([class*='size-'])]:size-4"))
                ∷ (some (
                    lit
                      "group-data-[variant=line]/tabs-list:bg-transparent group-data-[variant=line]/tabs-list:data-active:bg-transparent dark:group-data-[variant=line]/tabs-list:data-active:border-transparent dark:group-data-[variant=line]/tabs-list:data-active:bg-transparent"))
                ∷ (some (
                    lit
                      "data-active:bg-background data-active:text-foreground dark:data-active:border-input dark:data-active:bg-input/30 dark:data-active:text-foreground"))
                ∷ (some (
                    lit
                      "after:absolute after:bg-foreground after:opacity-0 after:transition-opacity group-data-horizontal/tabs:after:inset-x-0 group-data-horizontal/tabs:after:bottom-[-5px] group-data-horizontal/tabs:after:h-0.5 group-data-vertical/tabs:after:inset-y-0 group-data-vertical/tabs:after:-right-1 group-data-vertical/tabs:after:w-0.5 group-data-[variant=line]/tabs-list:data-active:after:opacity-100"))
                ∷ extra
                ∷ []))
          ∷ props)
        children

  unfoldable pub tabs_content : Option Text → List (Attr M) → List (Node M) → Node M
  unfolding cn
  tabs_content extra props children =
      elem "TabsPrimitive.Panel"
        (attribute "data-slot" "tabs-content"
          ∷ attr (lit "className")
              (cn styling ((some (lit "flex-1 text-xs/relaxed outline-none")) ∷ extra ∷ []))
          ∷ props)
        children
