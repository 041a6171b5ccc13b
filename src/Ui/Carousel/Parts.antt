-- ===== src/Ui/Carousel/Parts.antt =====
-- The elements of docs/src/components/ui/carousel.tsx. The reference that the package gives is not
-- among the properties, which are data here.
use quickspin.Text.Units.{Text}
use quickspin.Prelude.{◌⊎◌, inl, inr, Bool, not, Option, none, some, List, [], ◌∷◌, get_or}
use quickspin.Markup.{Attr, attr, flag, on, Node, elem, attribute, class_name, lit, say}
use quickspin.Ui.Styling.{Styling, cn}
use quickspin.Ui.Kit.Button
use quickspin.Ui.Carousel.{CarouselState, Direction, previous, next}

pub data Orientation : Type 0 where
  horizontal vertical : Orientation

-- What the context hands down: the orientation and the flags of the state.
pub record CarouselContext : Type 0 where
  pub orientation : Orientation
  pub can_scroll : Bool × Bool

-- A part outside of a carousel throws.
unfoldable pub use_carousel : Option CarouselContext → Text ⊎ CarouselContext
use_carousel none = inl (lit "useCarousel must be used within a <Carousel />")
use_carousel (some context) = inr context

-- The messages: a button's, and the keys'.
pub data Message : Type 0 where
  scrolls : Direction → Message
  key_down : Message

abbrev oriented : Orientation → Text → Text → Text
oriented horizontal a b = a
oriented vertical a b = b

-- Without an orientation it is horizontal; `axis` of the options for the package.
abbrev pub orientation_or : Option Orientation → Orientation
orientation_or none = horizontal
orientation_or (some orientation) = orientation

abbrev pub axis : Orientation → Text
axis orientation = oriented orientation (lit "x") (lit "y")

module _ (styling : Styling) where
  unfoldable pub carousel_view :
      Option Text → List (Attr Message) → List (Node Message) → Node Message
  unfolding cn
  carousel_view extra props children =
      elem "div"
        (on (lit "keyDownCapture") key_down
          ∷ attr (lit "className") (cn styling (some (lit "relative") ∷ extra ∷ []))
          ∷ attribute "role" "region"
          ∷ attribute "aria-roledescription" "carousel"
          ∷ attribute "data-slot" "carousel"
          ∷ props)
        children

  unfoldable pub carousel_content :
      CarouselContext → Option Text → List (Attr Message) → List (Node Message) → Node Message
  unfolding cn
  carousel_content context extra props children =
      elem "div" (class_name "overflow-hidden" ∷ attribute "data-slot" "carousel-content" ∷ []) (
        elem "div"
          (attr (lit "className") (
              cn styling (
                some (lit "flex")
                ∷ some (oriented context.orientation (lit "-ml-4") (lit "-mt-4 flex-col"))
                ∷ extra
                ∷ []))
            ∷ props)
          children
        ∷ [])

  unfoldable pub carousel_item :
      CarouselContext → Option Text → List (Attr Message) → List (Node Message) → Node Message
  unfolding cn
  carousel_item context extra props children =
      elem "div"
        (attribute "role" "group"
          ∷ attribute "aria-roledescription" "slide"
          ∷ attribute "data-slot" "carousel-item"
          ∷ attr (lit "className") (
              cn styling (
                some (lit "min-w-0 shrink-0 grow-0 basis-full")
                ∷ some (oriented context.orientation (lit "pl-4") (lit "pt-4"))
                ∷ extra
                ∷ []))
          ∷ props)
        children

  unfoldable pub carousel_previous :
      CarouselContext → Option Text → Option Text → Option Text → List (Attr Message) → Node Message
  unfolding cn Button.button
  carousel_previous context extra variant size props =
      let (can_scroll_prev, _) = context.can_scroll in
      Button.button styling
        (some (
          cn styling (
            some (lit "absolute touch-manipulation")
            ∷ some (
                oriented context.orientation (lit "inset-y-0 -left-12 my-auto")
                  (lit "-top-12 left-1/2 -translate-x-1/2 rotate-90"))
            ∷ extra
            ∷ [])))
        (some (get_or variant (lit "outline"))) (some (get_or size (lit "icon-sm")))
        (attribute "data-slot" "carousel-previous"
          ∷ flag (lit "disabled") (not can_scroll_prev)
          ∷ on (lit "click") (scrolls previous)
          ∷ props)
        (elem "ChevronLeftIcon" [] []
          ∷ elem "span" (class_name "sr-only" ∷ []) (say "Previous slide" ∷ [])
          ∷ [])

  unfoldable pub carousel_next :
      CarouselContext → Option Text → Option Text → Option Text → List (Attr Message) → Node Message
  unfolding cn Button.button
  carousel_next context extra variant size props =
      let (_, can_scroll_next) = context.can_scroll in
      Button.button styling
        (some (
          cn styling (
            some (lit "absolute touch-manipulation")
            ∷ some (
                oriented context.orientation (lit "inset-y-0 -right-12 my-auto")
                  (lit "-bottom-12 left-1/2 -translate-x-1/2 rotate-90"))
            ∷ extra
            ∷ [])))
        (some (get_or variant (lit "outline"))) (some (get_or size (lit "icon-sm")))
        (attribute "data-slot" "carousel-next"
          ∷ flag (lit "disabled") (not can_scroll_next)
          ∷ on (lit "click") (scrolls next)
          ∷ props)
        (elem "ChevronRightIcon" [] []
          ∷ elem "span" (class_name "sr-only" ∷ []) (say "Next slide" ∷ [])
          ∷ [])

-- What the context's value is made of: the component's orientation and the state's flags.
unfoldable pub context_of : Option Orientation → CarouselState → CarouselContext
context_of orientation s = record {
  orientation = orientation_or orientation;
  can_scroll = s.can_scroll;
}
