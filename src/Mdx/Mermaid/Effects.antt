-- ===== src/Mdx/Mermaid/Effects.antt =====
-- The callbacks of `Mermaid` (docs/src/mdx-components.tsx): what a run of the effect sets.
use quickspin.Text.{text_eq, trim}
use quickspin.Prelude.{
  put, ℕ, ◌≡◌, ◌⊎◌, inl, inr, true, false, not, ◌&&◌, none, some, List, [], ◌∷◌, arith, Bool-cases,
  Option-cases, ◌>>=◌, last,
}
use quickspin.Mdx.Mermaid.{
  Outcome, Diagrams, Effect, Diagram, initial, Event, step, run, cancel, mount, rerender, unmount,
  deliver, outcome_of, set_result, mounts, rerenders, unmounts, imported, resumes, forgets,
  delivers, draws,
}
use quickspin.Mdx.Mermaid.Cache.{Cached, step-Cached, initial-Cached, cancel-Cached}
use quickspin.Mdx.Mermaid.Tied.{
  Renders, IsTied, IsFree, set_status-IsTied, cancel-IsTied, cancel-IsFree,
}
use quickspin.Mdx.Mermaid.Kept.{run_effect-IsTied, forget-IsTied, deliver-IsTied}

-- A component without live effects is put in place or taken away.
unmount-IsTied :
    (c : ℕ) (s : Diagrams)
    → IsFree c s
    → IsTied s
    → IsTied (record s { mounted = put s.mounted c none })
unmount-IsTied c s free h = record {
  tied = λ j e there live.
      let (x, place, last, from) = h.tied j e there live in
      let other = free j e there live in (x, ground arith, last, from);
}

step-IsTied : (e : Event) (s : Diagrams) → Cached s → IsTied s → IsTied (step e s)
unfolding step mount rerender unmount
step-IsTied (mounts c use_id code) s k h = elim (Option-cases (s.mounted c)) [
  | inl e ↦
      rw (e, mount)
        (run_effect-IsTied c use_id _ none s k
          (λ j x there live own.
            let (d, place, _, _) = h.tied j x there live in absurd (ground arith))
          h)
  | inr (d, e) ↦ rw (e, mount) h
]
step-IsTied (rerenders strict c code) s k h = elim (Option-cases (s.mounted c)) [
  | inl e ↦ rw (e, rerender) h
  | inr (d, e) ↦ elim (Bool-cases (text_eq (trim code) d.source && not strict)) [
    | inl f ↦ rw (e, rerender) (rw (f, rerender) h)
    | inr f ↦
        rw (e, rerender)
          (rw (f, rerender)
            (run_effect-IsTied c d.use_id _ d.result (cancel d.effect s)
              (cancel-Cached d.effect s k) (cancel-IsFree c d s e h) (cancel-IsTied d.effect s h)))
  ]
]
step-IsTied (unmounts c) s k h = elim (Option-cases (s.mounted c)) [
  | inl e ↦ rw (e, unmount) h
  | inr (d, e) ↦
      rw (e, unmount)
        (unmount-IsTied c (cancel d.effect s) (cancel-IsFree c d s e h)
          (cancel-IsTied d.effect s h))
]
step-IsTied (imported reason) s k h = record { tied = h.tied }
step-IsTied (resumes i) s k h = set_status-IsTied _ i s h
step-IsTied (draws i outcome) s k h = set_status-IsTied _ i s h
step-IsTied (forgets i) s k h = forget-IsTied i s h
step-IsTied (delivers j) s k h = deliver-IsTied j s h

pub run-IsTied : (es : List Event) (s : Diagrams) → Cached s → IsTied s → IsTied (run es s)
unfolding run
run-IsTied [] s k h = h
run-IsTied (e ∷ es) s k h = run-IsTied es (step e s) (step-Cached e s k) (step-IsTied e s k h)

pub initial-IsTied : IsTied initial
initial-IsTied = record { tied = λ j e at live. cc }

pub deliver_live :
    (j : ℕ) (e : Effect) (o : Outcome) (d : Diagram) (s : Diagrams)
    → s.effects j ≡ some e
    → (s.renders e.render >>= λ r. outcome_of r.status) ≡ some o
    → e.cancelled ≡ false
    → s.mounted e.owner ≡ some d
    → deliver j s
      ≡ record s { mounted = put s.mounted e.owner (some (record d { result = some o })) }
unfolding deliver
deliver_live j e o d s at out live place =
    rw (at, deliver) (rw (out, deliver) (rw (live, deliver) (rw (place, set_result))))

deliver_cancelled :
    (j : ℕ) (e : Effect) (s : Diagrams)
    → s.effects j ≡ some e
    → e.cancelled ≡ true
    → deliver j s ≡ s
unfolding deliver
deliver_cancelled j e s at gone = ground arith

-- What the callbacks of an effect do once its promise is settled, after any events: if the effect was
-- cancelled nothing, and otherwise its component is mounted, is given the outcome and nothing else
-- changes, and the outcome is that of a render of the source that the component has now.
pub deliver-current :
    (es : List Event) (j : ℕ) (e : Effect) (o : Outcome)
    → (run es initial).effects j ≡ some e
    → ((run es initial).renders e.render >>= λ r. outcome_of r.status) ≡ some o
    → ((e.cancelled ≡ true) × (deliver j (run es initial) ≡ run es initial))
      ⊎ ((d : Diagram) × ((run es initial).mounted e.owner ≡ some d)
          × Renders (run es initial).renders e.render d.source
          × (deliver j (run es initial) ≡ record (run es initial) {
            mounted = put (run es initial).mounted e.owner (some (record d { result = some o }));
          }))
deliver-current es j e o at out = elim (Bool-cases e.cancelled) [
  | inl gone ↦ inl (gone, deliver_cancelled j e (run es initial) at gone)
  | inr live ↦
      let (d, place, _, from) =
        (run-IsTied es initial initial-Cached initial-IsTied).tied j e at live in
      inr (d, place, from, deliver_live j e o d (run es initial) at out live place)
]
