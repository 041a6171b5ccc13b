-- ===== src/Ui/Carousel/Cases.antt =====
-- What the operations of a carousel can come to (docs/src/components/ui/carousel.tsx): a property of the
-- state after one follows from the property of each outcome.
use quickspin.Text.{text_eq}
use quickspin.Text.Units.{Text, codes}
use quickspin.Prelude.{
  put, ℕ, ◌≡◌, inl, inr, Bool, true, false, Option, none, some, List, ◌∷◌, ==_self, Bool-cases,
  Option-cases,
}
use quickspin.Ui.Carousel.{
  CarouselState, Signal, Direction, previous, next, scroll, is_told, on_select, tell, scroll_to,
  handle_key_down, listens, change,
}

module _ (P : CarouselState → Type 0) where
  pub tell_cases :
      (f a : Option ℕ) (s : CarouselState)
      → ((told : Option (ℕ × ℕ)) (given : List (ℕ × ℕ))
          → P (record s { told = told; given = given }))
      → P (tell f a s)
  unfolding tell
  tell_cases none a s h = h none s.given
  tell_cases (some f) none s h = h none s.given
  tell_cases (some f) (some a) s h = elim (Bool-cases (is_told s.told f a)) [
    | inl e ↦ rw (e, tell) (h s.told s.given)
    | inr e ↦ rw (e, tell) (h (some (f, a)) ((f, a) ∷ s.given))
  ]

  pub scroll_to_cases :
      (d : Direction) (s : CarouselState)
      → P s
      → ((a : ℕ) → P (record s { calls = scroll d a ∷ s.calls }))
      → P (scroll_to d s)
  unfolding scroll_to
  scroll_to_cases d s h k = elim (Option-cases s.api) [
    | inl e ↦ rw (e, scroll_to) h
    | inr (a, e) ↦ rw (e, scroll_to) (k a)
  ]

  pub handle_key_down_cases :
      (key : Text) (s : CarouselState)
      → P s
      → ((d : Direction) (a : ℕ) → P (record s { calls = scroll d a ∷ s.calls }))
      → P (handle_key_down key s).1
  unfolding handle_key_down
  handle_key_down_cases key s h k = elim (Bool-cases (text_eq key (codes "ArrowLeft"))) [
    | inl e ↦ rw (e, handle_key_down) (scroll_to_cases previous s h (k previous))
    | inr e ↦ elim (Bool-cases (text_eq key (codes "ArrowRight"))) [
      | inl f ↦
          rw (e, handle_key_down) (rw (f, handle_key_down) (scroll_to_cases next s h (k next)))
      | inr f ↦ rw (e, handle_key_down) (rw (f, handle_key_down) h)
    ]
  ]

  pub change_cases :
      (signal : Signal) (b : ℕ) (flags : Bool × Bool) (s : CarouselState)
      → (listens signal b s.calls ≡ false → P (record s { answers = put s.answers b flags }))
      → (listens signal b s.calls ≡ true
          → P (record s { answers = put s.answers b flags; can_scroll = flags }))
      → P (change signal b flags s)
  unfolding change on_select
  change_cases signal b flags s h k = elim (Bool-cases (listens signal b s.calls)) [
    | inl e ↦ rw (e, change) (rw (==_self b) (k e))
    | inr e ↦ rw (e, change) (h e)
  ]
