-- ===== src/Ui/Kit/Item.antt =====
-- The parts of docs/src/components/ui/item.tsx.
use quickspin.Prelude.{Option, some, List, [], ◌∷◌, get_or}
use quickspin.Text.Units.{Text}
use quickspin.Markup.{Attr, attr, Node, elem, attribute, lit}
use quickspin.Ui.Styling.{Styling, cn, Cva, BaseUi}

abbrev pub item_variants : Cva
item_variants = record {
  classes =
      lit
        "group/item flex w-full flex-wrap items-center rounded-none border text-xs transition-colors duration-100 outline-none focus-visible:border-ring focus-visible:ring-[3px] focus-visible:ring-ring/50 [a]:transition-colors [a]:hover:bg-muted";
  variants =
      (
        lit "variant",
        (lit "default", lit "border-transparent")
            ∷ (lit "outline", lit "border-border")
            ∷ (lit "muted", lit "border-transparent bg-muted/50")
            ∷ [],
      )
      ∷ (
        lit "size",
        (lit "default", lit "gap-2.5 px-3 py-2.5")
            ∷ (lit "sm", lit "gap-2.5 px-3 py-2.5")
            ∷ (lit "xs", lit "gap-2 px-2.5 py-2 in-data-[slot=dropdown-menu-content]:p-0")
            ∷ [],
      )
      ∷ [];
  defaults = (lit "variant", lit "default") ∷ (lit "size", lit "default") ∷ [];
}

abbrev pub item_media_variants : Cva
item_media_variants = record {
  classes =
      lit
        "flex shrink-0 items-center justify-center gap-2 group-has-data-[slot=item-description]/item:translate-y-0.5 group-has-data-[slot=item-description]/item:self-start [&_svg]:pointer-events-none";
  variants =
      (
        lit "variant",
        (lit "default", lit "bg-transparent")
            ∷ (lit "icon", lit "[&_svg:not([class*='size-'])]:size-4")
            ∷ (
              lit "image",
              lit
                  "size-10 overflow-hidden rounded-none group-data-[size=sm]/item:size-8 group-data-[size=xs]/item:size-6 [&_img]:size-full [&_img]:object-cover",
            )
            ∷ [],
      )
      ∷ [];
  defaults = (lit "variant", lit "default") ∷ [];
}

module _ {M : Type 0} (styling : Styling) where
  unfoldable pub item_group : Option Text → List (Attr M) → List (Node M) → Node M
  unfolding cn
  item_group extra props children =
      elem "div"
        (attribute "role" "list"
          ∷ attribute "data-slot" "item-group"
          ∷ attr (lit "className") (
              cn styling (
                (some (
                  lit
                    "group/item-group flex w-full flex-col gap-4 has-data-[size=sm]:gap-2.5 has-data-[size=xs]:gap-2"))
                ∷ extra
                ∷ []))
          ∷ props)
        children

  unfoldable pub item_separator : Option Text → List (Attr M) → List (Node M) → Node M
  unfolding cn
  item_separator extra props children =
      elem "Separator"
        (attribute "data-slot" "item-separator"
          ∷ attribute "orientation" "horizontal"
          ∷ attr (lit "className") (cn styling ((some (lit "my-2")) ∷ extra ∷ []))
          ∷ props)
        children

  unfoldable pub item_media : Option Text → Option Text → List (Attr M) → List (Node M) → Node M
  unfolding cn
  item_media extra variant props children =
      elem "div"
        (attribute "data-slot" "item-media"
          ∷ attr (lit "data-variant") (get_or variant (lit "default"))
          ∷ attr (lit "className") (
              cn styling (
                (some (
                  styling.cva item_media_variants (
                    (lit "variant", (some (get_or variant (lit "default"))))
                    ∷ (lit "className", extra)
                    ∷ [])))
                ∷ []))
          ∷ props)
        children

  unfoldable pub item_content : Option Text → List (Attr M) → List (Node M) → Node M
  unfolding cn
  item_content extra props children =
      elem "div"
        (attribute "data-slot" "item-content"
          ∷ attr (lit "className") (
              cn styling (
                (some (
                  lit
                    "flex flex-1 flex-col gap-1 group-data-[size=xs]/item:gap-0 [&+[data-slot=item-content]]:flex-none"))
                ∷ extra
                ∷ []))
          ∷ props)
        children

  unfoldable pub item_title : Option Text → List (Attr M) → List (Node M) → Node M
  unfolding cn
  item_title extra props children =
      elem "div"
        (attribute "data-slot" "item-title"
          ∷ attr (lit "className") (
              cn styling (
                (some (
                  lit
                    "line-clamp-1 flex w-fit items-center gap-2 text-xs font-medium underline-offset-4"))
                ∷ extra
                ∷ []))
          ∷ props)
        children

  unfoldable pub item_description : Option Text → List (Attr M) → List (Node M) → Node M
  unfolding cn
  item_description extra props children =
      elem "p"
        (attribute "data-slot" "item-description"
          ∷ attr (lit "className") (
              cn styling (
                (some (
                  lit
                    "line-clamp-2 text-left text-xs/relaxed font-normal text-muted-foreground group-data-[size=xs]/item:text-xs/relaxed [&>a]:underline [&>a]:underline-offset-4 [&>a:hover]:text-primary"))
                ∷ extra
                ∷ []))
          ∷ props)
        children

  unfoldable pub item_actions : Option Text → List (Attr M) → List (Node M) → Node M
  unfolding cn
  item_actions extra props children =
      elem "div"
        (attribute "data-slot" "item-actions"
          ∷ attr (lit "className")
              (cn styling ((some (lit "flex items-center gap-2")) ∷ extra ∷ []))
          ∷ props)
        children

  unfoldable pub item_header : Option Text → List (Attr M) → List (Node M) → Node M
  unfolding cn
  item_header extra props children =
      elem "div"
        (attribute "data-slot" "item-header"
          ∷ attr (lit "className") (
              cn styling
                ((some (lit "flex basis-full items-center justify-between gap-2")) ∷ extra ∷ []))
          ∷ props)
        children

  unfoldable pub item_footer : Option Text → List (Attr M) → List (Node M) → Node M
  unfolding cn
  item_footer extra props children =
      elem "div"
        (attribute "data-slot" "item-footer"
          ∷ attr (lit "className") (
              cn styling
                ((some (lit "flex basis-full items-center justify-between gap-2")) ∷ extra ∷ []))
          ∷ props)
        children

module _ {M : Type 0} (styling : Styling) (base : BaseUi M) where
  unfoldable pub item :
      Option Text
      → Option Text
      → Option Text
      → Option (Node M)
      → List (Attr M)
      → List (Node M)
      → Node M
  unfolding cn
  item extra variant size render props children =
      base.use_render (lit "div") render
        (attribute "slot" "item"
          ∷ attr (lit "variant") (get_or variant (lit "default"))
          ∷ attr (lit "size") (get_or size (lit "default"))
          ∷ [])
        (base.merge_props
          (attr (lit "className") (
              cn styling (
                (some (
                  styling.cva item_variants (
                    (lit "variant", (some (get_or variant (lit "default"))))
                    ∷ (lit "size", (some (get_or size (lit "default"))))
                    ∷ (lit "className", extra)
                    ∷ [])))
                ∷ []))
            ∷ [])
          props)
        children
