-- ===== src/Ui/Kit/Badge.antt =====
-- The parts of docs/src/components/ui/badge.tsx.
use quickspin.Prelude.{Option, some, List, [], ◌∷◌, get_or}
use quickspin.Text.Units.{Text}
use quickspin.Markup.{Attr, attr, Node, attribute, lit}
use quickspin.Ui.Styling.{Styling, cn, Cva, BaseUi}

abbrev pub badge_variants : Cva
badge_variants = record {
  classes =
      lit
        "group/badge inline-flex h-5 w-fit shrink-0 items-center justify-center gap-1 overflow-hidden rounded-none border border-transparent px-2 py-0.5 text-xs font-medium whitespace-nowrap transition-all focus-visible:border-ring focus-visible:ring-[3px] focus-visible:ring-ring/50 has-data-[icon=inline-end]:pr-1.5 has-data-[icon=inline-start]:pl-1.5 aria-invalid:border-destructive aria-invalid:ring-destructive/20 dark:aria-invalid:ring-destructive/40 [&>svg]:pointer-events-none [&>svg]:size-3!";
  variants =
      (
        lit "variant",
        (lit "default", lit "bg-primary text-primary-foreground [a]:hover:bg-primary/80")
            ∷ (
              lit "secondary",
              lit "bg-secondary text-secondary-foreground [a]:hover:bg-secondary/80",
            )
            ∷ (
              lit "destructive",
              lit
                  "bg-destructive/10 text-destructive focus-visible:ring-destructive/20 dark:bg-destructive/20 dark:focus-visible:ring-destructive/40 [a]:hover:bg-destructive/20",
            )
            ∷ (
              lit "outline",
              lit
                  "border-border text-foreground [a]:hover:bg-muted [a]:hover:text-muted-foreground",
            )
            ∷ (lit "ghost", lit "hover:bg-muted hover:text-muted-foreground dark:hover:bg-muted/50")
            ∷ (lit "link", lit "text-primary underline-offset-4 hover:underline")
            ∷ [],
      )
      ∷ [];
  defaults = (lit "variant", lit "default") ∷ [];
}

module _ {M : Type 0} (styling : Styling) (base : BaseUi M) where
  unfoldable pub badge :
      Option Text → Option Text → Option (Node M) → List (Attr M) → List (Node M) → Node M
  unfolding cn
  badge extra variant render props children =
      base.use_render (lit "span") render
        (attribute "slot" "badge" ∷ attr (lit "variant") (get_or variant (lit "default")) ∷ [])
        (base.merge_props
          (attr (lit "className") (
              cn styling (
                (some (
                  styling.cva badge_variants
                    ((lit "variant", (some (get_or variant (lit "default")))) ∷ [])))
                ∷ extra
                ∷ []))
            ∷ [])
          props)
        children
