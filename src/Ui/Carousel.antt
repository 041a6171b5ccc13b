-- ===== src/Ui/Carousel.antt =====
-- `Carousel` of docs/src/components/ui/carousel.tsx: the flags of its buttons and the calls that it
-- makes on the instances of the package embla-carousel-react. An instance is a number; what it answers
-- and when it tells of a change is given by the events.
pub mod Cases
pub mod Listening
pub mod Flags
pub mod Stale
pub mod Parts
mod Tests
use quickspin.Text.{text_eq}
use quickspin.Text.Units.{Text, codes}
use quickspin.Prelude.{
  put, ℕ, Bool, true, false, ◌&&◌, Option, none, some, List, [], ◌∷◌, ◌==◌, if◌then◌else◌,
}

pub data Signal : Type 0 where
  select re_init : Signal

pub data Direction : Type 0 where
  previous next : Direction

-- What the component asks of an instance.
pub data Call : Type 0 where
  subscribe unsubscribe : Signal → ℕ → Call
  scroll : Direction → ℕ → Call

-- `api` and `listener` (`setApi`) are those of the last render, `told` and `running` those of the last
-- runs of the two effects. The latest call comes first.
pub record CarouselState : Type 0 where
  pub api : Option ℕ
  pub running : Option ℕ
  pub told : Option (ℕ × ℕ)
  pub can_scroll : Bool × Bool
  pub calls : List Call
  pub given : List (ℕ × ℕ)
  -- the instances' own answers to `canScrollPrev` and `canScrollNext`
  pub answers : ℕ → Bool × Bool

abbrev pub is_signal : Signal → Signal → Bool
is_signal select select = true
is_signal re_init re_init = true
is_signal _ _ = false

abbrev pub is_at : Option ℕ → ℕ → Bool
is_at none a = false
is_at (some b) a = b == a

abbrev pub start : (ℕ → Bool × Bool) → CarouselState
start answers = record {
  api = none;
  running = none;
  told = none;
  can_scroll = (false, false);
  calls = [];
  given = [];
  answers = answers;
}

-- `onSelect(api)`
unfoldable pub on_select : ℕ → CarouselState → CarouselState
on_select a s = record s { can_scroll = s.answers a }

-- The clean-up of the second effect.
unfoldable pub clean_up : CarouselState → CarouselState
clean_up s = elim s.running [
  | none ↦ s
  | some a ↦ record s { running = none; calls = unsubscribe select a ∷ s.calls }
]

-- The second effect, whose dependency is the instance.
unfoldable pub connect : Option ℕ → CarouselState → CarouselState
unfolding on_select
connect none s = s
connect (some a) s =
    let t = on_select a s in
    record t { running = some a; calls = subscribe select a ∷ subscribe re_init a ∷ t.calls }

abbrev pub is_told : Option (ℕ × ℕ) → ℕ → ℕ → Bool
is_told none f a = false
is_told (some (g, b)) f a = g == f && b == a

-- The first effect, whose dependencies are the instance and the caller's function.
unfoldable pub tell : Option ℕ → Option ℕ → CarouselState → CarouselState
tell none a s = record s { told = none }
tell (some f) none s = record s { told = none }
tell (some f) (some a) s =
    if is_told s.told f a then s else record s { told = some (f, a); given = (f, a) ∷ s.given }

abbrev pub is_same : Option ℕ → Option ℕ → Bool
is_same none none = true
is_same (some a) (some b) = a == b
is_same _ _ = false

-- A render and the effects whose dependencies it changed. React runs the clean-ups first.
unfoldable pub render : Option ℕ → Option ℕ → CarouselState → CarouselState
render listener a s =
    if is_same s.running a
    then tell listener a (record s { api = a })
    else connect a (tell listener a (clean_up (record s { api = a })))

-- All clean-ups, as when the component goes; the effects run again if it is shown again.
unfoldable pub hide : CarouselState → CarouselState
hide s = let t = clean_up s in record t { told = none }

-- `scrollPrev` and `scrollNext`
unfoldable pub scroll_to : Direction → CarouselState → CarouselState
scroll_to d s = elim s.api [ none ↦ s | some a ↦ record s { calls = scroll d a ∷ s.calls } ]

-- Whether the key's own effect is prevented, and the state after.
unfoldable pub handle_key_down : Text → CarouselState → Bool × CarouselState
handle_key_down key s =
    if text_eq key (codes "ArrowLeft")
    then (true, scroll_to previous s)
    else if text_eq key (codes "ArrowRight")
    then (true, scroll_to next s)
    else (false, s)

-- Whether `onSelect` is among an instance's listeners: subscribed, and not unsubscribed since.
abbrev pub listens : Signal → ℕ → List Call → Bool
listens signal a [] = false
listens signal a (subscribe t b ∷ calls) =
    let rest = listens signal a calls in if is_signal t signal && b == a then true else rest
listens signal a (unsubscribe t b ∷ calls) =
    let rest = listens signal a calls in if is_signal t signal && b == a then false else rest
listens signal a (scroll _ _ ∷ calls) = listens signal a calls

-- An instance changes and tells its listeners.
unfoldable pub change : Signal → ℕ → Bool × Bool → CarouselState → CarouselState
change signal a flags s =
    let t = record s { answers = put s.answers a flags } in
    if listens signal a t.calls then on_select a t else t

pub data Event : Type 0 where
  renders : (listener a : Option ℕ) → Event
  hides : Event
  presses : (key : Text) → Event
  clicks : Direction → Event
  changes : Signal → (a : ℕ) → (flags : Bool × Bool) → Event

unfoldable pub step : Event → CarouselState → CarouselState
step (renders listener a) s = render listener a s
step hides s = hide s
step (presses key) s = let (_, t) = handle_key_down key s in t
step (clicks d) s = scroll_to d s
step (changes signal a flags) s = change signal a flags s

unfoldable pub run : List Event → CarouselState → CarouselState
run [] s = s
run (e ∷ es) s = run es (step e s)
