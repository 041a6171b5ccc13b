-- ===== src/Ui/Carousel/Flags.antt =====
-- The flags of a carousel's buttons (docs/src/components/ui/carousel.tsx).
use quickspin.Prelude.{
  ℕ, ◌≡◌, refl, sym, ◌∙◌, inl, inr, Bool, true, false, Option, none, some, List, [], ◌∷◌, arith,
  ◌==◌, ==_self, Bool-cases, Option-cases,
}
use quickspin.Ui.Carousel.{
  CarouselState, select, re_init, is_at, is_same, start, on_select, clean_up, connect, tell, render,
  hide, change, Event, renders, hides, presses, clicks, changes, step, run,
}
use quickspin.Ui.Carousel.Listening.{Connected, step-Connected}
use quickspin.Ui.Carousel.Cases.{tell_cases, scroll_to_cases, handle_key_down_cases, change_cases}

abbrev pub InSync : CarouselState → Type 0
InSync s = (a : ℕ) → is_at s.running a ≡ true → s.can_scroll ≡ s.answers a

-- "reInit" comes from no instance but the one whose effect runs then.
abbrev pub ReInitsCurrent : Event → CarouselState → Type 0
ReInitsCurrent (changes re_init a _) s = is_at s.running a ≡ true
ReInitsCurrent _ s = Unit

unfoldable pub AllReInitsCurrent : List Event → CarouselState → Type 0
AllReInitsCurrent [] s = Unit
AllReInitsCurrent (e ∷ es) s = ReInitsCurrent e s × AllReInitsCurrent es (step e s)

same_instance : (r : Option ℕ) (a b : ℕ) → is_at r a ≡ true → is_at r b ≡ true → a ≡ b
same_instance r a b h k = grind arith

other_instance : (r : Option ℕ) (a b : ℕ) → is_at r a ≡ true → is_at r b ≡ false → (a == b) ≡ false
other_instance r a b h k = grind arith

clean_up-InSync : (s : CarouselState) → InSync (clean_up s)
unfolding clean_up
clean_up-InSync s = elim (Option-cases s.running) [
  | inl e ↦ rw (e, clean_up) (λ a h. grind arith)
  | inr (b, e) ↦ rw (e, clean_up) (λ a h. cc)
]

connect-InSync : (a : Option ℕ) (s : CarouselState) → InSync s → InSync (connect a s)
unfolding connect on_select
connect-InSync none s h = h
connect-InSync (some b) s h = λ a e. grind arith

render-InSync : (f a : Option ℕ) (s : CarouselState) → InSync s → InSync (render f a s)
unfolding render
render-InSync f a s h = elim (Bool-cases (is_same s.running a)) [
  | inl e ↦ rw (e, render) (tell_cases InSync f a (record s { api = a }) (λ told given. h))
  | inr e ↦
      rw (e, render)
        (connect-InSync a (tell f a (clean_up (record s { api = a }))) (
          tell_cases InSync f a (clean_up (record s { api = a }))
            (λ told given. clean_up-InSync (record s { api = a }))))
]

select-InSync :
    (b : ℕ) (flags : Bool × Bool) (s : CarouselState)
    → Connected s
    → InSync s
    → InSync (change select b flags s)
unfolding change on_select
select-InSync b flags s (h, k) sync =
    change_cases InSync select b flags s
      (λ e a r. rw (other_instance s.running a b r (sym (h b) ∙ e)) (sync a r))
      (λ e a r. rw (same_instance s.running a b r (sym (h b) ∙ e)) (rw (==_self b) refl))

re_init-InSync :
    (b : ℕ) (flags : Bool × Bool) (s : CarouselState)
    → Connected s
    → is_at s.running b ≡ true
    → InSync (change re_init b flags s)
unfolding change on_select
re_init-InSync b flags s (h, k) at =
    change_cases InSync re_init b flags s (λ e. absurd (cc (k b at)))
      (λ e a r. rw (same_instance s.running a b r at) (rw (==_self b) refl))

step-InSync :
    (e : Event) (s : CarouselState)
    → Connected s
    → InSync s
    → ReInitsCurrent e s
    → InSync (step e s)
unfolding step hide
step-InSync (renders f a) s h sync now = render-InSync f a s sync
step-InSync hides s h sync now = clean_up-InSync s
step-InSync (presses key) s h sync now = handle_key_down_cases InSync key s sync (λ d a. sync)
step-InSync (clicks d) s h sync now = scroll_to_cases InSync d s sync (λ a. sync)
step-InSync (changes select a flags) s h sync now = select-InSync a flags s h sync
step-InSync (changes re_init a flags) s h sync now = re_init-InSync a flags s h now

run-InSync :
    (es : List Event) (s : CarouselState)
    → Connected s
    → InSync s
    → AllReInitsCurrent es s
    → InSync (run es s)
unfolding run AllReInitsCurrent
run-InSync [] s h sync now = sync
run-InSync (e ∷ es) s h sync (now, later) =
    run-InSync es (step e s) (step-Connected e s h) (step-InSync e s h sync now) later

-- As long as no instance but the one whose effect runs tells of a "reInit", the flags of the buttons
-- are what that instance answers, if there is one.
pub flags_current :
    (answers : ℕ → Bool × Bool) (es : List Event) (a : ℕ)
    → AllReInitsCurrent es (start answers)
    → is_at (run es (start answers)).running a ≡ true
    → (run es (start answers)).can_scroll ≡ (run es (start answers)).answers a
flags_current answers es a now =
    run-InSync es (start answers) (λ b. refl, λ b e. cc) (λ b e. cc) now a
