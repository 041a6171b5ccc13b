-- ===== src/Ui/Kit/Toggle.antt =====
-- The parts of docs/src/components/ui/toggle.tsx.
use quickspin.Prelude.{Option, some, List, [], ◌∷◌, get_or}
use quickspin.Text.Units.{Text}
use quickspin.Markup.{Attr, attr, Node, elem, attribute, lit}
use quickspin.Ui.Styling.{Styling, cn, Cva}

abbrev pub toggle_variants : Cva
toggle_variants = record {
  classes =
      lit
        "group/toggle inline-flex items-center justify-center gap-1 rounded-none text-xs font-medium whitespace-nowrap transition-all outline-none hover:bg-muted hover:text-foreground focus-visible:border-ring focus-visible:ring-[3px] focus-visible:ring-ring/50 disabled:pointer-events-none disabled:opacity-50 aria-invalid:border-destructive aria-invalid:ring-destructive/20 aria-pressed:bg-muted data-[state=on]:bg-muted dark:aria-invalid:ring-destructive/40 [&_svg]:pointer-events-none [&_svg]:shrink-0 [&_svg:not([class*='size-'])]:size-4";
  variants =
      (
        lit "variant",
        (lit "default", lit "bg-transparent")
            ∷ (lit "outline", lit "border border-input bg-transparent hover:bg-muted")
            ∷ [],
      )
      ∷ (
        lit "size",
        (
          lit "default",
          lit
              "h-8 min-w-8 px-2.5 has-data-[icon=inline-end]:pr-2 has-data-[icon=inline-start]:pl-2",
        )
            ∷ (
              lit "sm",
              lit
                  "h-7 min-w-7 rounded-none px-2.5 has-data-[icon=inline-end]:pr-1.5 has-data-[icon=inline-start]:pl-1.5",
            )
            ∷ (
              lit "lg",
              lit
                  "h-9 min-w-9 px-2.5 has-data-[icon=inline-end]:pr-2 has-data-[icon=inline-start]:pl-2",
            )
            ∷ [],
      )
      ∷ [];
  defaults = (lit "variant", lit "default") ∷ (lit "size", lit "default") ∷ [];
}

module _ {M : Type 0} (styling : Styling) where
  unfoldable pub toggle :
      Option Text → Option Text → Option Text → List (Attr M) → List (Node M) → Node M
  unfolding cn
  toggle extra variant size props children =
      elem "TogglePrimitive"
        (attribute "data-slot" "toggle"
          ∷ attr (lit "className") (
              cn styling (
                (some (
                  styling.cva toggle_variants (
                    (lit "variant", (some (get_or variant (lit "default"))))
                    ∷ (lit "size", (some (get_or size (lit "default"))))
                    ∷ (lit "className", extra)
                    ∷ [])))
                ∷ []))
          ∷ props)
        children
