-- ===== src/Mdx/Mermaid/Broken.antt =====
-- What a rejected import of the library leaves (docs/src/mdx-components.tsx): its promise is kept.
use quickspin.Text.{text_eq, trim}
use quickspin.Text.Units.{Text}
use quickspin.Prelude.{
  ℕ, ◌≡◌, ◌≢◌, refl, ◌∙◌, ◌⊎◌, inl, inr, Bool, true, false, not, ◌&&◌, none, some, List, [], ◌∷◌,
  arith, ◌==◌, Bool-cases, Option-cases,
}
use quickspin.Mdx.Mermaid.{
  Diagrams, initial, Event, step, run, set_status, new_render, forget, render_mermaid, Import,
  loaded, failed, not_started, loading, run_effect, cancel, mount, rerender, unmount, deliver,
  mounts, rerenders, unmounts, imported, resumes, forgets, delivers, draws, Diagram, import_settles,
  load_mermaid,
}
use quickspin.Mdx.Mermaid.Undrawn.{
  is_blank, IsUndrawn, set_status-IsUndrawn, resumed-undrawn, drawn-undrawn, transfer,
  forget-IsUndrawn, run_effect-IsUndrawn, cancel-IsUndrawn, deliver-IsUndrawn,
}

step-IsUndrawn : (e : Event) (s : Diagrams) → s.ready ≢ loaded → IsUndrawn s → IsUndrawn (step e s)
unfolding step mount rerender unmount
step-IsUndrawn (mounts c use_id code) s n h = elim (Option-cases (s.mounted c)) [
  | inl e ↦ rw (e, mount) (run_effect-IsUndrawn c use_id _ none s refl h)
  | inr (d, e) ↦ rw (e, mount) h
]
step-IsUndrawn (rerenders strict c code) s n h = elim (Option-cases (s.mounted c)) [
  | inl e ↦ rw (e, rerender) h
  | inr (d, e) ↦ elim (Bool-cases (text_eq (trim code) d.source && not strict)) [
    | inl f ↦ rw (e, rerender) (rw (f, rerender) h)
    | inr f ↦
        rw (e, rerender)
          (rw (f, rerender)
            (run_effect-IsUndrawn c d.use_id _ d.result (cancel d.effect s) (h.unshown c d e)
              (cancel-IsUndrawn d.effect s h)))
  ]
]
step-IsUndrawn (unmounts c) s n h = elim (Option-cases (s.mounted c)) [
  | inl e ↦ rw (e, unmount) h
  | inr (d, e) ↦
      let t = cancel-IsUndrawn d.effect s h in
      rw (e, unmount)
        (record {
          unstarted = t.unstarted;
          unshown = λ j x at. elim (Bool-cases (j == c)) [
            | inl one ↦ let none_some : none ≡ some x = rw one at at in cc
            | inr two ↦ t.unshown j x (rw two at at)
          ];
        })
]
step-IsUndrawn (imported reason) s n h = transfer s _ refl refl h
step-IsUndrawn (resumes k) s n h = set_status-IsUndrawn _ k s (resumed-undrawn s.ready n) h
step-IsUndrawn (draws k outcome) s n h = set_status-IsUndrawn _ k s (drawn-undrawn outcome) h
step-IsUndrawn (forgets k) s n h = forget-IsUndrawn k s h
step-IsUndrawn (delivers j) s n h = deliver-IsUndrawn j s h

-- The import is over.
abbrev is_final : Import → Bool
is_final not_started = false
is_final loading = false
is_final loaded = true
is_final (failed _) = true

step-ready : (e : Event) (s : Diagrams) → is_final s.ready ≡ true → (step e s).ready ≡ s.ready
unfolding step mount rerender unmount run_effect render_mermaid new_render load_mermaid cancel
    import_settles set_status forget deliver
step-ready (mounts c use_id code) s h = ground arith
step-ready (rerenders strict c code) s h = ground arith
step-ready (unmounts c) s h = ground arith
step-ready (imported reason) s h = ground arith
step-ready (resumes k) s h = ground arith
step-ready (draws k outcome) s h = ground arith
step-ready (forgets k) s h = ground arith
step-ready (delivers j) s h = ground arith

Import-cases : (ready : Import) → (ready ≡ loaded) ⊎ (ready ≢ loaded)
Import-cases not_started = inr (λ e. cc)
Import-cases loading = inr (λ e. cc)
Import-cases loaded = inl refl
Import-cases (failed reason) = inr (λ e. cc)

initial-IsUndrawn : IsUndrawn initial
initial-IsUndrawn = record { unstarted = λ k r at. cc; unshown = λ c d at. cc }

-- Nothing was laid out before the library was there.
run-IsUndrawn :
    (es : List Event) (s : Diagrams)
    → (s.ready ≡ loaded) ⊎ IsUndrawn s
    → ((run es s).ready ≡ loaded) ⊎ IsUndrawn (run es s)
unfolding run
run-IsUndrawn [] s h = h
run-IsUndrawn (e ∷ es) s (inl l) =
    run-IsUndrawn es (step e s) (inl (step-ready e s (ground arith) ∙ l))
run-IsUndrawn (e ∷ es) s (inr h) = elim (Import-cases s.ready) [
  | inl l ↦ run-IsUndrawn es (step e s) (inl (step-ready e s (ground arith) ∙ l))
  | inr n ↦ run-IsUndrawn es (step e s) (inr (step-IsUndrawn e s n h))
]

run-ready : (es : List Event) (s : Diagrams) → is_final s.ready ≡ true → (run es s).ready ≡ s.ready
unfolding run
run-ready [] s h = refl
run-ready (e ∷ es) s h =
    run-ready es (step e s) (ground (arith, step-ready e s h)) ∙ step-ready e s h

IsUndrawn-of_failed :
    (es : List Event) (reason : Text)
    → (run es initial).ready ≡ failed reason
    → IsUndrawn (run es initial)
IsUndrawn-of_failed es reason h = elim (run-IsUndrawn es initial (inr initial-IsUndrawn)) [
  | inl l ↦ absurd (ground arith)
  | inr u ↦ u
]

broken-IsUndrawn :
    (es : List Event) (s : Diagrams) (reason : Text)
    → s.ready ≡ failed reason
    → IsUndrawn s
    → IsUndrawn (run es s)
unfolding run
broken-IsUndrawn [] s reason f h = h
broken-IsUndrawn (e ∷ es) s reason f h =
    broken-IsUndrawn es (step e s) reason (step-ready e s (ground arith) ∙ f)
      (step-IsUndrawn e s (λ l. cc) h)

-- Once the import of the library was rejected, it stays so, and whatever happens afterwards, with
-- diagrams that are mounted anew and renders that are tried again, no diagram ever shows a drawing.
pub broken_import :
    (es later : List Event) (reason : Text) (c : ℕ) (d : Diagram)
    → (run es initial).ready ≡ failed reason
    → (run later (run es initial)).mounted c ≡ some d
    → ((run later (run es initial)).ready ≡ failed reason) × (is_blank d.result ≡ true)
broken_import es later reason c d f at = (
  run-ready later (run es initial) (ground arith) ∙ f,
  (broken-IsUndrawn later (run es initial) reason f (IsUndrawn-of_failed es reason f)).unshown c d
      at,
)
