-- ===== src/Mdx/Mermaid/Answered.antt =====
-- That a diagram is answered (docs/src/mdx-components.tsx): what its promises need to settle.
use quickspin.Prelude.{
  ℕ, ◌≡◌, refl, ap, ◌∙◌, Bool, true, false, none, some, List, [], ◌∷◌, ==_self, ◌>>=◌, is_some,
}
use quickspin.Mdx.Mermaid.{
  Import, not_started, loading, loaded, failed, Outcome, Status, waiting, drawing, settled,
  forgotten, Render, Effect, Diagram, Diagrams, initial, import_settles, set_status, resumed, drawn,
  outcome_of, Event, imported, resumes, draws, delivers, step, run,
}
use quickspin.Mdx.Mermaid.Cache.{initial-Cached}
use quickspin.Mdx.Mermaid.Tied.{set_status_frame}
use quickspin.Mdx.Mermaid.Effects.{run-IsTied, initial-IsTied, deliver_live}

abbrev pub is_started : Import → Bool
is_started not_started = false
is_started _ = true

-- The import settles, the render is called and settles, and its callbacks run.
abbrev pub answers : ℕ → ℕ → Outcome → List Event
answers k j o = imported none ∷ resumes k ∷ draws k o ∷ delivers j ∷ []

settled_of_answers :
    (ready : Import) (status : Status) (o : Outcome)
    → is_started ready ≡ true
    → (x : Outcome) × (outcome_of (drawn o (resumed (import_settles none ready) status)) ≡ some x)
unfolding import_settles resumed drawn
settled_of_answers not_started status o h = absurd (cc)
settled_of_answers loading waiting o h = (o, refl)
settled_of_answers loading drawing o h = (o, refl)
settled_of_answers loading (settled x) o h = (x, refl)
settled_of_answers loading (forgotten reason) o h = (_, refl)
settled_of_answers loaded waiting o h = (o, refl)
settled_of_answers loaded drawing o h = (o, refl)
settled_of_answers loaded (settled x) o h = (x, refl)
settled_of_answers loaded (forgotten reason) o h = (_, refl)
settled_of_answers (failed reason) waiting o h = (_, refl)
settled_of_answers (failed reason) drawing o h = (o, refl)
settled_of_answers (failed reason) (settled x) o h = (x, refl)
settled_of_answers (failed _) (forgotten reason) o h = (_, refl)

set_status_at :
    (f : Status → Status) (k : ℕ) (r : Render) (s : Diagrams)
    → s.renders k ≡ some r
    → (set_status f k s).renders k ≡ some (record r { status = f r.status })
unfolding set_status
set_status_at f k r s at = rw (at, set_status) (rw (==_self k) refl)

-- Two reactions in a row on one render.
two_statuses :
    (f g : Status → Status) (k : ℕ) (r : Render) (s : Diagrams)
    → s.renders k ≡ some r
    → (set_status g k (set_status f k s)).renders k ≡ some (record r { status = g (f r.status) })
two_statuses f g k r s at =
    set_status_at g k (record r { status = f r.status }) (set_status f k s)
      (set_status_at f k r s at)

two_statuses_frame :
    (f g : Status → Status) (k : ℕ) (s : Diagrams)
    → ((set_status g k (set_status f k s)).mounted ≡ s.mounted)
      × ((set_status g k (set_status f k s)).effects ≡ s.effects)
two_statuses_frame f g k s =
    let (m, x) = set_status_frame f k s in
    let (n, y) = set_status_frame g k (set_status f k s) in (n ∙ m, y ∙ x)

answers-mounted :
    (s : Diagrams) (j : ℕ) (e : Effect) (o x : Outcome) (r : Render) (d : Diagram)
    → s.effects j ≡ some e
    → e.cancelled ≡ false
    → s.mounted e.owner ≡ some d
    → s.renders e.render ≡ some r
    → outcome_of (drawn o (resumed (import_settles none s.ready) r.status)) ≡ some x
    → (run (answers e.render j o) s).mounted e.owner ≡ some (record d { result = some x })
unfolding run step
answers-mounted s j e o x r d at live place here out =
    let ready = import_settles none s.ready in
    let t = record s { ready = ready } in
    let u = set_status (drawn o) e.render (set_status (resumed ready) e.render t) in
    let (m, y) = two_statuses_frame (resumed ready) (drawn o) e.render t in
    let seen : (u.renders e.render >>= λ q. outcome_of q.status) ≡ some x =
      rw (two_statuses (resumed ready) (drawn o) e.render r t here) out in
    rw (deliver_live j e x d u (ap (λ g. g j) y ∙ at) seen live (ap (λ g. g e.owner) m ∙ place))
      (rw (==_self e.owner) refl)

-- No live effect waits for ever: at any time after the import was begun, if then the import succeeds where
-- it has not settled, the render is called and settles where it has not, and the callbacks run, the
-- effect's component has a drawing or an error.
pub answered :
    (es : List Event) (j : ℕ) (e : Effect) (o : Outcome)
    → is_started (run es initial).ready ≡ true
    → (run es initial).effects j ≡ some e
    → e.cancelled ≡ false
    → (d : Diagram) × ((run (answers e.render j o) (run es initial)).mounted e.owner ≡ some d)
      × (is_some d.result ≡ true)
answered es j e o started at live =
    let s = run es initial in
    let (d, place, _, (r, here, _)) =
      (run-IsTied es initial initial-Cached initial-IsTied).tied j e at live in
    let (x, out) = settled_of_answers s.ready r.status o started in
    (record d { result = some x }, answers-mounted s j e o x r d at live place here out, refl)
