-- ===== src/Ui/Kit/Button.antt =====
-- The parts of docs/src/components/ui/button.tsx.
use quickspin.Prelude.{Option, some, List, [], ◌∷◌, get_or}
use quickspin.Text.Units.{Text}
use quickspin.Markup.{Attr, attr, Node, elem, attribute, lit}
use quickspin.Ui.Styling.{Styling, cn, Cva}

abbrev pub button_variants : Cva
button_variants = record {
  classes =
      lit
        "group/button inline-flex shrink-0 items-center justify-center rounded-none border border-transparent bg-clip-padding text-xs font-medium whitespace-nowrap transition-all outline-none select-none focus-visible:border-ring focus-visible:ring-1 focus-visible:ring-ring/50 active:not-aria-[haspopup]:translate-y-px disabled:pointer-events-none disabled:opacity-50 aria-invalid:border-destructive aria-invalid:ring-1 aria-invalid:ring-destructive/20 dark:aria-invalid:border-destructive/50 dark:aria-invalid:ring-destructive/40 [&_svg]:pointer-events-none [&_svg]:shrink-0 [&_svg:not([class*='size-'])]:size-4";
  variants =
      (
        lit "variant",
        (lit "default", lit "bg-primary text-primary-foreground hover:bg-primary/80")
            ∷ (
              lit "outline",
              lit
                  "border-border bg-background hover:bg-muted hover:text-foreground aria-expanded:bg-muted aria-expanded:text-foreground dark:border-input dark:bg-input/30 dark:hover:bg-input/50",
            )
            ∷ (
              lit "secondary",
              lit
                  "bg-secondary text-secondary-foreground hover:bg-[color-mix(in_oklch,var(--secondary),var(--foreground)_5%)] aria-expanded:bg-secondary aria-expanded:text-secondary-foreground",
            )
            ∷ (
              lit "ghost",
              lit
                  "hover:bg-muted hover:text-foreground aria-expanded:bg-muted aria-expanded:text-foreground dark:hover:bg-muted/50",
            )
            ∷ (
              lit "destructive",
              lit
                  "bg-destructive/10 text-destructive hover:bg-destructive/20 focus-visible:border-destructive/40 focus-visible:ring-destructive/20 dark:bg-destructive/20 dark:hover:bg-destructive/30 dark:focus-visible:ring-destructive/40",
            )
            ∷ (lit "link", lit "text-primary underline-offset-4 hover:underline")
            ∷ [],
      )
      ∷ (
        lit "size",
        (
          lit "default",
          lit
              "h-8 gap-1.5 px-2.5 has-data-[icon=inline-end]:pr-2 has-data-[icon=inline-start]:pl-2",
        )
            ∷ (
              lit "xs",
              lit
                  "h-6 gap-1 rounded-none px-2 text-xs has-data-[icon=inline-end]:pr-1.5 has-data-[icon=inline-start]:pl-1.5 [&_svg:not([class*='size-'])]:size-3",
            )
            ∷ (
              lit "sm",
              lit
                  "h-7 gap-1 rounded-none px-2.5 has-data-[icon=inline-end]:pr-1.5 has-data-[icon=inline-start]:pl-1.5 [&_svg:not([class*='size-'])]:size-3.5",
            )
            ∷ (
              lit "lg",
              lit
                  "h-9 gap-1.5 px-2.5 has-data-[icon=inline-end]:pr-2 has-data-[icon=inline-start]:pl-2",
            )
            ∷ (lit "icon", lit "size-8")
            ∷ (lit "icon-xs", lit "size-6 rounded-none [&_svg:not([class*='size-'])]:size-3")
            ∷ (lit "icon-sm", lit "size-7 rounded-none")
            ∷ (lit "icon-lg", lit "size-9")
            ∷ [],
      )
      ∷ [];
  defaults = (lit "variant", lit "default") ∷ (lit "size", lit "default") ∷ [];
}

module _ {M : Type 0} (styling : Styling) where
  unfoldable pub button :
      Option Text → Option Text → Option Text → List (Attr M) → List (Node M) → Node M
  unfolding cn
  button extra variant size props children =
      elem "ButtonPrimitive"
        (attribute "data-slot" "button"
          ∷ attr (lit "className") (
              cn styling (
                (some (
                  styling.cva button_variants (
                    (lit "variant", (some (get_or variant (lit "default"))))
                    ∷ (lit "size", (some (get_or size (lit "default"))))
                    ∷ (lit "className", extra)
                    ∷ [])))
                ∷ []))
          ∷ props)
        children
