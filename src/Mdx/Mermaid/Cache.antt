-- ===== src/Mdx/Mermaid/Cache.antt =====
-- The map of renders by source (docs/src/mdx-components.tsx): which promises it holds at any time.
use quickspin.Text.{text_eq, trim}
use quickspin.Text.Units.{Text}
use quickspin.Prelude.{
  ℕ, ◌≡◌, refl, ◌↔◌, inl, inr, true, false, not, ◌&&◌, Option, none, some, List, [], ◌∷◌, arith,
  Bool-cases, Option-cases, ◌>>=◌, keep,
}
use quickspin.Mdx.Mermaid.{
  Status, waiting, Outcome, Render, Diagrams, initial, Event, step, run, set_status, new_render,
  forget, forget_status, has_failed, render_mermaid, Import, resumed, drawn, run_effect, set_result,
  outcome_of, cancel, mount, rerender, unmount, deliver, mounts, rerenders, unmounts, imported,
  resumes, forgets, delivers, draws,
}
use quickspin.Mdx.Mermaid.Promises.{
  is_held, IsCached, new-IsCached, status-IsCached, forget-IsCached,
}

abbrev pub Cached : Diagrams → Type 0
Cached s = IsCached s.cache s.renders s.next_render

pub initial-Cached : Cached initial
initial-Cached = record { sound = λ t k e. cc; complete = λ k r e v. cc; fresh = λ k lt. refl }

set_status-Cached :
    (f : Status → Status) (k : ℕ) (s : Diagrams)
    → ((status : Status) → is_held (f status) ≡ is_held status)
    → Cached s
    → Cached (set_status f k s)
unfolding set_status
set_status-Cached f k s keep h = elim (Option-cases (s.renders k)) [
  | inl e ↦ rw (e, set_status) h
  | inr (r, e) ↦
      rw (e, set_status)
        (status-IsCached s.cache s.renders s.next_render k r (f r.status) h e (keep r.status))
]

resumed-held : (ready : Import) (status : Status) → is_held (resumed ready status) ≡ is_held status
unfolding resumed
resumed-held ready status = ground arith

drawn-held : (o : Outcome) (status : Status) → is_held (drawn o status) ≡ is_held status
unfolding drawn
drawn-held o status = ground arith

failed-held : (status : Status) → has_failed status ≡ true → is_held status ≡ true
failed-held status f = ground arith

forget_status-gone :
    (status : Status) → has_failed status ≡ true → is_held (forget_status status) ≡ false
forget_status-gone status f = ground arith

forget-Cached : (k : ℕ) (s : Diagrams) → Cached s → Cached (forget k s)
unfolding forget set_status
forget-Cached k s h = elim (Option-cases (s.renders k)) [
  | inl e ↦ rw (e, forget) h
  | inr (r, e) ↦ elim (Bool-cases (has_failed r.status)) [
    | inl f ↦
        rw (e, forget)
          (rw (f, forget)
            (rw (e, set_status)
              (forget-IsCached s.cache s.renders s.next_render k r (forget_status r.status) h e
                (failed-held r.status f) (forget_status-gone r.status f))))
    | inr f ↦ rw (e, forget) (rw (f, forget) h)
  ]
]

render_mermaid-Cached :
    (id source : Text) (s : Diagrams) → Cached s → Cached (render_mermaid id source s).0
unfolding render_mermaid new_render
render_mermaid-Cached id source s h = elim (Option-cases (s.cache source)) [
  | inl e ↦
      rw (e, render_mermaid)
        (new-IsCached s.cache s.renders s.next_render
          (record { id = id; source = source; status = waiting }) h e refl)
  | inr (k, e) ↦ rw (e, render_mermaid) h
]

run_effect-Cached :
    (c : ℕ) (use_id source : Text) (result : Option Outcome) (s : Diagrams)
    → Cached s
    → Cached (run_effect c use_id source result s)
unfolding run_effect
run_effect-Cached c use_id source result s h = render_mermaid-Cached _ source s h

pub cancel-Cached : (j : ℕ) (s : Diagrams) → Cached s → Cached (cancel j s)
unfolding cancel
cancel-Cached j s h = elim (Option-cases (s.effects j)) [
  | inl e ↦ rw (e, cancel) h
  | inr (x, e) ↦ rw (e, cancel) h
]

set_result-Cached : (c : ℕ) (o : Outcome) (s : Diagrams) → Cached s → Cached (set_result c o s)
set_result-Cached c o s h = elim (Option-cases (s.mounted c)) [
  | inl e ↦ rw (e, set_result) h
  | inr (d, e) ↦ rw (e, set_result) h
]

deliver-Cached : (j : ℕ) (s : Diagrams) → Cached s → Cached (deliver j s)
unfolding deliver
deliver-Cached j s h = elim (Option-cases (s.effects j)) [
  | inl e ↦ rw (e, deliver) h
  | inr (x, e) ↦ elim (Option-cases (s.renders x.render >>= λ r. outcome_of r.status)) [
    | inl f ↦ rw (e, deliver) (rw (f, deliver) h)
    | inr (o, f) ↦ elim (Bool-cases x.cancelled) [
      | inl g ↦ rw (e, deliver) (rw (f, deliver) (rw (g, deliver) h))
      | inr g ↦
          rw (e, deliver) (rw (f, deliver) (rw (g, deliver) (set_result-Cached x.owner o s h)))
    ]
  ]
]

pub step-Cached : (e : Event) (s : Diagrams) → Cached s → Cached (step e s)
unfolding step mount rerender unmount
step-Cached (mounts c use_id code) s h = elim (Option-cases (s.mounted c)) [
  | inl e ↦ rw (e, mount) (run_effect-Cached c use_id _ none s h)
  | inr (d, e) ↦ rw (e, mount) h
]
step-Cached (rerenders strict c code) s h = elim (Option-cases (s.mounted c)) [
  | inl e ↦ rw (e, rerender) h
  | inr (d, e) ↦ elim (Bool-cases (text_eq (trim code) d.source && not strict)) [
    | inl f ↦ rw (e, rerender) (rw (f, rerender) h)
    | inr f ↦
        rw (e, rerender)
          (rw (f, rerender)
            (run_effect-Cached c d.use_id _ d.result (cancel d.effect s)
              (cancel-Cached d.effect s h)))
  ]
]
step-Cached (unmounts c) s h = elim (Option-cases (s.mounted c)) [
  | inl e ↦ rw (e, unmount) h
  | inr (d, e) ↦ rw (e, unmount) (cancel-Cached d.effect s h)
]
step-Cached (imported reason) s h = h
step-Cached (resumes k) s h = set_status-Cached _ k s (resumed-held s.ready) h
step-Cached (draws k outcome) s h = set_status-Cached _ k s (drawn-held outcome) h
step-Cached (forgets k) s h = forget-Cached k s h
step-Cached (delivers j) s h = deliver-Cached j s h

pub run-Cached : (es : List Event) (s : Diagrams) → Cached s → Cached (run es s)
unfolding run
run-Cached [] s h = h
run-Cached (e ∷ es) s h = run-Cached es (step e s) (step-Cached e s h)

-- After any events, the map answers for a source with a promise exactly if that is a render of that
-- source that was not forgotten after a failure.
pub cache_iff :
    (es : List Event) (source : Text) (k : ℕ)
    → let s = run es initial in
      (s.cache source ≡ some k)
      ↔ ((r : Render) × (s.renders k ≡ some r) × (r.source ≡ source) × (is_held r.status ≡ true))
cache_iff es source k =
    let h = run-Cached es initial initial-Cached in
    (h.sound source k, λ p. let (r, at, from, live) = p in cc (h.complete k r at live, from))

-- A source is laid out once: after any events, two renders of one source of which none was forgotten
-- after a failure are the same promise.
pub render_once :
    (es : List Event) (i j : ℕ) (q r : Render)
    → (run es initial).renders i ≡ some q
    → (run es initial).renders j ≡ some r
    → q.source ≡ r.source
    → is_held q.status ≡ true
    → is_held r.status ≡ true
    → i ≡ j
render_once es i j q r at_i at_j same held_q held_r =
    let h = run-Cached es initial initial-Cached in
    ground (arith, h.complete i q at_i held_q, h.complete j r at_j held_r)
