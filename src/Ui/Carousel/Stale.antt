-- ===== src/Ui/Carousel/Stale.antt =====
-- The listeners that a carousel leaves behind (docs/src/components/ui/carousel.tsx).
use quickspin.Prelude.{ℕ, ◌≡◌, true}
use quickspin.Ui.Carousel.{CarouselState, re_init, listens}

module _ (b : ℕ) where
  abbrev Listened : CarouselState → Type 0
  Listened s = listens re_init b s.calls ≡ true
