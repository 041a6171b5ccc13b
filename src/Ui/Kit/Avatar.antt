-- ===== src/Ui/Kit/Avatar.antt =====
-- The parts of docs/src/components/ui/avatar.tsx.
use quickspin.Prelude.{Option, some, List, [], ◌∷◌, get_or}
use quickspin.Text.Units.{Text}
use quickspin.Markup.{Attr, attr, Node, elem, attribute, lit}
use quickspin.Ui.Styling.{Styling, cn}

module _ {M : Type 0} (styling : Styling) where
  unfoldable pub avatar : Option Text → Option Text → List (Attr M) → List (Node M) → Node M
  unfolding cn
  avatar extra size props children =
      elem "AvatarPrimitive.Root"
        (attribute "data-slot" "avatar"
          ∷ attr (lit "data-size") (get_or size (lit "default"))
          ∷ attr (lit "className") (
              cn styling (
                (some (
                  lit
                    "group/avatar relative flex size-8 shrink-0 rounded-full select-none after:absolute after:inset-0 after:rounded-full after:border after:border-border after:mix-blend-darken data-[size=lg]:size-10 data-[size=sm]:size-6 dark:after:mix-blend-lighten"))
                ∷ extra
                ∷ []))
          ∷ props)
        children

  unfoldable pub avatar_image : Option Text → List (Attr M) → List (Node M) → Node M
  unfolding cn
  avatar_image extra props children =
      elem "AvatarPrimitive.Image"
        (attribute "data-slot" "avatar-image"
          ∷ attr (lit "className") (
              cn styling
                ((some (lit "aspect-square size-full rounded-full object-cover")) ∷ extra ∷ []))
          ∷ props)
        children

  unfoldable pub avatar_fallback : Option Text → List (Attr M) → List (Node M) → Node M
  unfolding cn
  avatar_fallback extra props children =
      elem "AvatarPrimitive.Fallback"
        (attribute "data-slot" "avatar-fallback"
          ∷ attr (lit "className") (
              cn styling (
                (some (
                  lit
                    "flex size-full items-center justify-center rounded-full bg-muted text-sm text-muted-foreground group-data-[size=sm]/avatar:text-xs"))
                ∷ extra
                ∷ []))
          ∷ props)
        children

  unfoldable pub avatar_badge : Option Text → List (Attr M) → List (Node M) → Node M
  unfolding cn
  avatar_badge extra props children =
      elem "span"
        (attribute "data-slot" "avatar-badge"
          ∷ attr (lit "className") (
              cn styling (
                (some (
                  lit
                    "absolute right-0 bottom-0 z-10 inline-flex items-center justify-center rounded-full bg-primary text-primary-foreground bg-blend-color ring-2 ring-background select-none"))
                ∷ (some (
                    lit
                      "group-data-[size=sm]/avatar:size-2 group-data-[size=sm]/avatar:[&>svg]:hidden"))
                ∷ (some (
                    lit
                      "group-data-[size=default]/avatar:size-2.5 group-data-[size=default]/avatar:[&>svg]:size-2"))
                ∷ (some (
                    lit
                      "group-data-[size=lg]/avatar:size-3 group-data-[size=lg]/avatar:[&>svg]:size-2"))
                ∷ extra
                ∷ []))
          ∷ props)
        children

  unfoldable pub avatar_group : Option Text → List (Attr M) → List (Node M) → Node M
  unfolding cn
  avatar_group extra props children =
      elem "div"
        (attribute "data-slot" "avatar-group"
          ∷ attr (lit "className") (
              cn styling (
                (some (
                  lit
                    "group/avatar-group flex -space-x-2 *:data-[slot=avatar]:ring-2 *:data-[slot=avatar]:ring-background"))
                ∷ extra
                ∷ []))
          ∷ props)
        children

  unfoldable pub avatar_group_count : Option Text → List (Attr M) → List (Node M) → Node M
  unfolding cn
  avatar_group_count extra props children =
      elem "div"
        (attribute "data-slot" "avatar-group-count"
          ∷ attr (lit "className") (
              cn styling (
                (some (
                  lit
                    "relative flex size-8 shrink-0 items-center justify-center rounded-full bg-muted text-xs text-muted-foreground ring-2 ring-background group-has-data-[size=lg]/avatar-group:size-10 group-has-data-[size=sm]/avatar-group:size-6 [&>svg]:size-4 group-has-data-[size=lg]/avatar-group:[&>svg]:size-5 group-has-data-[size=sm]/avatar-group:[&>svg]:size-3"))
                ∷ extra
                ∷ []))
          ∷ props)
        children
