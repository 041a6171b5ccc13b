-- ===== src/Ui/Kit/Bubble.antt =====
-- The parts of docs/src/components/ui/bubble.tsx.
use quickspin.Prelude.{Option, some, List, [], ◌∷◌, get_or}
use quickspin.Text.Units.{Text}
use quickspin.Markup.{Attr, attr, Node, elem, attribute, lit}
use quickspin.Ui.Styling.{Styling, cn, Cva, BaseUi}

abbrev pub bubble_variants : Cva
bubble_variants = record {
  classes =
      lit
        "group/bubble relative flex w-fit max-w-[80%] min-w-0 flex-col gap-1 group-data-[align=end]/message:self-end data-[align=end]:self-end data-[variant=ghost]:max-w-full";
  variants =
      (
        lit "variant",
        (
          lit "default",
          lit
              "*:data-[slot=bubble-content]:bg-primary *:data-[slot=bubble-content]:text-primary-foreground [&>[data-slot=bubble-content]:is(button,a):hover]:bg-primary/80",
        )
            ∷ (
              lit "secondary",
              lit
                  "*:data-[slot=bubble-content]:bg-secondary *:data-[slot=bubble-content]:text-secondary-foreground [&>[data-slot=bubble-content]:is(button,a):hover]:bg-[color-mix(in_oklch,var(--secondary),var(--foreground)_5%)]",
            )
            ∷ (
              lit "muted",
              lit
                  "*:data-[slot=bubble-content]:bg-muted [&>[data-slot=bubble-content]:is(button,a):hover]:bg-[color-mix(in_oklch,var(--muted),var(--foreground)_5%)]",
            )
            ∷ (
              lit "tinted",
              lit
                  "*:data-[slot=bubble-content]:bg-[oklch(from_var(--primary)_0.93_calc(c*0.4)_h)] *:data-[slot=bubble-content]:text-foreground dark:*:data-[slot=bubble-content]:bg-[oklch(from_var(--primary)_0.3_calc(c*0.4)_h)] [&>[data-slot=bubble-content]:is(button,a):hover]:bg-[oklch(from_var(--primary)_0.88_calc(c*0.5)_h)] dark:[&>[data-slot=bubble-content]:is(button,a):hover]:bg-[oklch(from_var(--primary)_0.35_calc(c*0.5)_h)]",
            )
            ∷ (
              lit "outline",
              lit
                  "*:data-[slot=bubble-content]:border-border *:data-[slot=bubble-content]:bg-background [&>[data-slot=bubble-content]:is(button,a):hover]:bg-muted [&>[data-slot=bubble-content]:is(button,a):hover]:text-foreground dark:[&>[data-slot=bubble-content]:is(button,a):hover]:bg-input/30",
            )
            ∷ (
              lit "ghost",
              lit
                  "border-none *:data-[slot=bubble-content]:rounded-none *:data-[slot=bubble-content]:bg-transparent *:data-[slot=bubble-content]:p-0 [&>[data-slot=bubble-content]:is(button,a):hover]:bg-muted [&>[data-slot=bubble-content]:is(button,a):hover]:text-foreground dark:[&>[data-slot=bubble-content]:is(button,a):hover]:bg-muted/50",
            )
            ∷ (
              lit "destructive",
              lit
                  "*:data-[slot=bubble-content]:bg-destructive/10 *:data-[slot=bubble-content]:text-destructive dark:*:data-[slot=bubble-content]:bg-destructive/20 [&>[data-slot=bubble-content]:is(button,a):hover]:bg-destructive/20 dark:[&>[data-slot=bubble-content]:is(button,a):hover]:bg-destructive/30",
            )
            ∷ [],
      )
      ∷ [];
  defaults = (lit "variant", lit "default") ∷ [];
}

abbrev pub bubble_reactions_variants : Cva
bubble_reactions_variants = record {
  classes =
      lit
        "absolute z-10 flex w-fit shrink-0 items-center justify-center gap-1 rounded-none bg-muted px-1.5 py-0.5 text-xs ring-2 ring-card has-[button]:p-0";
  variants =
      (
        lit "side",
        (lit "top", lit "top-0 -translate-y-3/4")
            ∷ (lit "bottom", lit "bottom-0 translate-y-3/4")
            ∷ [],
      )
      ∷ (lit "align", (lit "start", lit "left-3") ∷ (lit "end", lit "right-3") ∷ [])
      ∷ [];
  defaults = (lit "side", lit "bottom") ∷ (lit "align", lit "end") ∷ [];
}

module _ {M : Type 0} (styling : Styling) where
  unfoldable pub bubble_group : Option Text → List (Attr M) → List (Node M) → Node M
  unfolding cn
  bubble_group extra props children =
      elem "div"
        (attribute "data-slot" "bubble-group"
          ∷ attr (lit "className")
              (cn styling ((some (lit "flex min-w-0 flex-col gap-2")) ∷ extra ∷ []))
          ∷ props)
        children

  unfoldable pub bubble :
      Option Text → Option Text → Option Text → List (Attr M) → List (Node M) → Node M
  unfolding cn
  bubble variant align extra props children =
      elem "div"
        (attribute "data-slot" "bubble"
          ∷ attr (lit "data-variant") (get_or variant (lit "default"))
          ∷ attr (lit "data-align") (get_or align (lit "start"))
          ∷ attr (lit "className") (
              cn styling (
                (some (
                  styling.cva bubble_variants
                    ((lit "variant", (some (get_or variant (lit "default")))) ∷ [])))
                ∷ extra
                ∷ []))
          ∷ props)
        children

  unfoldable pub bubble_reactions :
      Option Text → Option Text → Option Text → List (Attr M) → List (Node M) → Node M
  unfolding cn
  bubble_reactions side align extra props children =
      elem "div"
        (attribute "data-slot" "bubble-reactions"
          ∷ attr (lit "data-align") (get_or align (lit "end"))
          ∷ attr (lit "data-side") (get_or side (lit "bottom"))
          ∷ attr (lit "className") (
              cn styling (
                (some (
                  styling.cva bubble_reactions_variants (
                    (lit "side", (some (get_or side (lit "bottom"))))
                    ∷ (lit "align", (some (get_or align (lit "end"))))
                    ∷ [])))
                ∷ extra
                ∷ []))
          ∷ props)
        children

module _ {M : Type 0} (styling : Styling) (base : BaseUi M) where
  unfoldable pub bubble_content :
      Option Text → Option (Node M) → List (Attr M) → List (Node M) → Node M
  unfolding cn
  bubble_content extra render props children =
      base.use_render (lit "div") render (attribute "slot" "bubble-content" ∷ [])
        (base.merge_props
          (attr (lit "className") (
              cn styling (
                (some (
                  lit
                    "w-fit max-w-full min-w-0 overflow-hidden rounded-none border border-transparent px-2.5 py-2 text-xs leading-relaxed wrap-break-word group-data-[align=end]/bubble:self-end [button]:text-left [button,a]:transition-colors [button,a]:outline-none [button,a]:focus-visible:border-ring [button,a]:focus-visible:ring-1 [button,a]:focus-visible:ring-ring/50"))
                ∷ extra
                ∷ []))
            ∷ [])
          props)
        children
