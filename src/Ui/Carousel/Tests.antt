-- ===== src/Ui/Carousel/Tests.antt =====
-- The theorems on the carousel at concrete inputs.
use quickspin.Prelude.{ℕ, ◌≡◌, refl, Bool, true, false, none, some, List, [], ◌∷◌}
use quickspin.Ui.Carousel.{
  select, re_init, Event, renders, changes, start, run, listens, is_at, connect, step, render, tell,
  clean_up, on_select, change,
}
use quickspin.Ui.Carousel.Listening.{run-listens}
use quickspin.Ui.Carousel.Flags.{AllReInitsCurrent, flags_current}

abbrev at_start : ℕ → Bool × Bool
at_start _ = (false, true)

-- An instance, one that takes its place and is scrolled to its end.
abbrev events : List Event
events =
    renders none none
    ∷ renders none (some 0)
    ∷ changes re_init 0 (false, false)
    ∷ renders none (some 1)
    ∷ changes select 1 (true, false)
    ∷ []

run-listens_example :
    (listens select 0 (run events (start at_start)).calls
      ≡ is_at (run events (start at_start)).running 0)
    × (is_at (run events (start at_start)).running 0 ≡ true
        → listens re_init 0 (run events (start at_start)).calls ≡ true)
run-listens_example = run-listens at_start events 0

events_current : AllReInitsCurrent events (start at_start)
unfolding AllReInitsCurrent step render tell clean_up connect on_select change
events_current = (tt, (tt, (refl, (tt, (tt, tt)))))

second_runs : is_at (run events (start at_start)).running 1 ≡ true
unfolding run step render tell clean_up connect on_select change
second_runs = refl

flags_current_example :
    (run events (start at_start)).can_scroll ≡ (run events (start at_start)).answers 1
flags_current_example = flags_current at_start events 1 events_current second_runs
