-- ===== src/Ui/Carousel/Listening.antt =====
-- The listeners of a carousel (docs/src/components/ui/carousel.tsx) at any time.
use quickspin.Prelude.{
  ℕ, ◌≡◌, refl, ◌∙◌, inl, inr, Bool, true, Option, none, some, List, [], ◌∷◌, arith, Bool-cases,
  Option-cases,
}
use quickspin.Ui.Carousel.{
  CarouselState, select, re_init, is_at, is_same, start, on_select, clean_up, connect, tell, render,
  hide, listens, Event, renders, hides, presses, clicks, changes, step, run,
}
use quickspin.Ui.Carousel.Cases.{tell_cases, scroll_to_cases, handle_key_down_cases, change_cases}

-- "select" is listened to on the instance whose effect runs, and "reInit" there too.
abbrev pub Connected : CarouselState → Type 0
Connected s =
    ((a : ℕ) → listens select a s.calls ≡ is_at s.running a)
    × ((a : ℕ) → is_at s.running a ≡ true → listens re_init a s.calls ≡ true)

same_of_is_same : (a b : Option ℕ) → is_same a b ≡ true → a ≡ b
same_of_is_same a b h = ground arith

clean_up-Connected :
    (s : CarouselState) → Connected s → Connected (clean_up s) × ((clean_up s).running ≡ none)
unfolding clean_up
clean_up-Connected s (h, k) = elim (Option-cases s.running) [
  | inl e ↦ rw (e, clean_up) ((h, k), e)
  | inr (b, e) ↦ rw (e, clean_up) ((λ a. grind arith, λ a absurd. cc), refl)
]

connect-Connected :
    (a : Option ℕ) (s : CarouselState) → Connected s → s.running ≡ none → Connected (connect a s)
unfolding connect on_select
connect-Connected none s h e = h
connect-Connected (some b) s (h, k) e = (λ a. grind arith, λ a. grind arith)

tell-Connected :
    (f a : Option ℕ) (s : CarouselState)
    → Connected s
    → Connected (tell f a s) × ((tell f a s).running ≡ s.running)
tell-Connected f a s h =
    tell_cases (λ t. Connected t × (t.running ≡ s.running)) f a s (λ told given. (h, refl))

render-Connected : (f a : Option ℕ) (s : CarouselState) → Connected s → Connected (render f a s)
unfolding render
render-Connected f a s h = elim (Bool-cases (is_same s.running a)) [
  | inl e ↦ rw (e, render) ((tell-Connected f a (record s { api = a }) h).0)
  | inr e ↦
      let (cleaned, none_left) = clean_up-Connected (record s { api = a }) h in
      let (told, still_none) = tell-Connected f a (clean_up (record s { api = a })) cleaned in
      rw (e, render)
        (connect-Connected a (tell f a (clean_up (record s { api = a }))) told
          (still_none ∙ none_left))
]

pub step-Connected : (e : Event) (s : CarouselState) → Connected s → Connected (step e s)
unfolding step hide
step-Connected (renders f a) s h = render-Connected f a s h
step-Connected hides s h = (clean_up-Connected s h).0
step-Connected (presses key) s h = handle_key_down_cases Connected key s h (λ d a. h)
step-Connected (clicks d) s h = scroll_to_cases Connected d s h (λ a. h)
step-Connected (changes signal a flags) s h =
    change_cases Connected signal a flags s (λ e. h) (λ e. h)

run-Connected : (es : List Event) (s : CarouselState) → Connected s → Connected (run es s)
unfolding run
run-Connected [] s h = h
run-Connected (e ∷ es) s h = run-Connected es (step e s) (step-Connected e s h)

-- Whatever happens, the carousel listens to "select" on the instance whose effect runs and on no
-- other, and it listens to "reInit" on that instance.
pub run-listens :
    (answers : ℕ → Bool × Bool) (es : List Event) (a : ℕ)
    → (listens select a (run es (start answers)).calls ≡ is_at (run es (start answers)).running a)
      × (is_at (run es (start answers)).running a ≡ true
          → listens re_init a (run es (start answers)).calls ≡ true)
run-listens answers es a =
    let (h, k) = run-Connected es (start answers) (λ b. refl, λ b e. cc) in (h a, k a)
