-- ===== src/Ui/Kit/Attachment.antt =====
-- Parts of docs/src/components/ui/attachment.tsx; not modelled here: AttachmentAction, AttachmentTrigger.
use quickspin.Prelude.{Option, some, List, [], ◌∷◌, get_or}
use quickspin.Text.Units.{Text}
use quickspin.Markup.{Attr, attr, Node, elem, attribute, lit}
use quickspin.Ui.Styling.{Styling, cn, Cva}

abbrev pub attachment_variants : Cva
attachment_variants = record {
  classes =
      lit
        "group/attachment relative flex w-fit max-w-full min-w-0 shrink-0 flex-wrap rounded-none border bg-card text-card-foreground transition-colors focus-within:ring-1 focus-within:ring-ring/50 has-[>a,>button]:hover:bg-muted/50 data-[state=error]:border-destructive/30 data-[state=idle]:border-dashed";
  variants =
      (
        lit "size",
        (
          lit "default",
          lit
              "gap-2 text-xs has-data-[slot=attachment-content]:px-2 has-data-[slot=attachment-content]:py-1.5 has-data-[slot=attachment-media]:p-1.5",
        )
            ∷ (
              lit "sm",
              lit
                  "gap-2.5 text-xs has-data-[slot=attachment-content]:px-1.5 has-data-[slot=attachment-content]:py-1 has-data-[slot=attachment-media]:p-1",
            )
            ∷ (
              lit "xs",
              lit
                  "gap-1.5 rounded-none text-xs has-data-[slot=attachment-content]:px-1.5 has-data-[slot=attachment-content]:py-1 has-data-[slot=attachment-media]:p-1",
            )
            ∷ [],
      )
      ∷ (
        lit "orientation",
        (lit "horizontal", lit "min-w-40 items-center")
            ∷ (lit "vertical", lit "w-24 flex-col has-data-[slot=attachment-content]:w-30")
            ∷ [],
      )
      ∷ [];
  defaults = [];
}

abbrev pub attachment_media_variants : Cva
attachment_media_variants = record {
  classes =
      lit
        "relative flex aspect-square w-10 shrink-0 items-center justify-center overflow-hidden rounded-none bg-muted text-foreground group-data-[orientation=vertical]/attachment:w-full group-data-[size=sm]/attachment:w-8 group-data-[size=xs]/attachment:w-7 group-data-[size=xs]/attachment:rounded-none group-data-[state=error]/attachment:bg-destructive/10 group-data-[state=error]/attachment:text-destructive group-data-[orientation=vertical]/attachment:*:data-[slot=spinner]:size-6! [&_svg]:pointer-events-none [&_svg:not([class*='size-'])]:size-4 group-data-[orientation=vertical]/attachment:[&_svg:not([class*='size-'])]:size-6 group-data-[size=xs]/attachment:[&_svg:not([class*='size-'])]:size-3.5";
  variants =
      (
        lit "variant",
        (lit "icon", lit "")
            ∷ (
              lit "image",
              lit
                  "opacity-60 group-data-[state=done]/attachment:opacity-100 group-data-[state=idle]/attachment:opacity-100 *:[img]:aspect-square *:[img]:w-full *:[img]:object-cover",
            )
            ∷ [],
      )
      ∷ [];
  defaults = (lit "variant", lit "icon") ∷ [];
}

module _ {M : Type 0} (styling : Styling) where
  unfoldable pub attachment :
      Option Text → Option Text → Option Text → Option Text → List (Attr M) → List (Node M) → Node M
  unfolding cn
  attachment extra state size orientation props children =
      elem "div"
        (attribute "data-slot" "attachment"
          ∷ attr (lit "data-state") (get_or state (lit "done"))
          ∷ attr (lit "data-size") (get_or size (lit "default"))
          ∷ attr (lit "data-orientation") (get_or orientation (lit "horizontal"))
          ∷ attr (lit "className") (
              cn styling (
                (some (
                  styling.cva attachment_variants (
                    (lit "size", (some (get_or size (lit "default"))))
                    ∷ (lit "orientation", (some (get_or orientation (lit "horizontal"))))
                    ∷ [])))
                ∷ extra
                ∷ []))
          ∷ props)
        children

  unfoldable pub attachment_media :
      Option Text → Option Text → List (Attr M) → List (Node M) → Node M
  unfolding cn
  attachment_media extra variant props children =
      elem "div"
        (attribute "data-slot" "attachment-media"
          ∷ attr (lit "data-variant") (get_or variant (lit "icon"))
          ∷ attr (lit "className") (
              cn styling (
                (some (
                  styling.cva attachment_media_variants
                    ((lit "variant", (some (get_or variant (lit "icon")))) ∷ [])))
                ∷ extra
                ∷ []))
          ∷ props)
        children

  unfoldable pub attachment_content : Option Text → List (Attr M) → List (Node M) → Node M
  unfolding cn
  attachment_content extra props children =
      elem "div"
        (attribute "data-slot" "attachment-content"
          ∷ attr (lit "className") (
              cn styling (
                (some (
                  lit
                    "max-w-full min-w-0 flex-1 leading-tight group-data-[orientation=vertical]/attachment:px-1"))
                ∷ extra
                ∷ []))
          ∷ props)
        children

  unfoldable pub attachment_title : Option Text → List (Attr M) → List (Node M) → Node M
  unfolding cn
  attachment_title extra props children =
      elem "span"
        (attribute "data-slot" "attachment-title"
          ∷ attr (lit "className") (
              cn styling (
                (some (
                  lit
                    "block max-w-full min-w-0 truncate font-medium group-data-[state=processing]/attachment:shimmer group-data-[state=uploading]/attachment:shimmer"))
                ∷ extra
                ∷ []))
          ∷ props)
        children

  unfoldable pub attachment_description : Option Text → List (Attr M) → List (Node M) → Node M
  unfolding cn
  attachment_description extra props children =
      elem "span"
        (attribute "data-slot" "attachment-description"
          ∷ attr (lit "className") (
              cn styling (
                (some (
                  lit
                    "mt-0.5 block min-w-0 truncate text-xs text-muted-foreground group-data-[state=error]/attachment:text-destructive/80"))
                ∷ (some (lit "max-w-full"))
                ∷ extra
                ∷ []))
          ∷ props)
        children

  unfoldable pub attachment_actions : Option Text → List (Attr M) → List (Node M) → Node M
  unfolding cn
  attachment_actions extra props children =
      elem "div"
        (attribute "data-slot" "attachment-actions"
          ∷ attr (lit "className") (
              cn styling (
                (some (
                  lit
                    "relative z-20 flex shrink-0 items-center group-data-[orientation=vertical]/attachment:absolute group-data-[orientation=vertical]/attachment:top-3 group-data-[orientation=vertical]/attachment:right-3 group-data-[orientation=vertical]/attachment:gap-1"))
                ∷ extra
                ∷ []))
          ∷ props)
        children

  unfoldable pub attachment_group : Option Text → List (Attr M) → List (Node M) → Node M
  unfolding cn
  attachment_group extra props children =
      elem "div"
        (attribute "data-slot" "attachment-group"
          ∷ attr (lit "className") (
              cn styling (
                (some (
                  lit
                    "flex min-w-0 scroll-fade-x snap-x snap-mandatory scroll-px-1 scrollbar-none gap-3 overflow-x-auto overscroll-x-contain py-1 *:data-[slot=attachment]:flex-none *:data-[slot=attachment]:snap-start"))
                ∷ extra
                ∷ []))
          ∷ props)
        children
