-- ===== src/Mdx/Mermaid/Tied.antt =====
-- The live runs of the effect of `Mermaid` (docs/src/mdx-components.tsx) and the renders they await.
use quickspin.Text.Units.{Text}
use quickspin.Prelude.{
  ℕ, ◌≡◌, ◌≢◌, refl, sym, ap, subst, inl, inr, true, false, Option, some, arith, ◌==◌,
  if◌then◌else◌, Bool-cases, Option-cases, last,
}
use quickspin.Mdx.Mermaid.{
  Status, waiting, Render, Diagrams, Effect, Diagram, set_status, new_render, render_mermaid,
  cancel,
}
use quickspin.Mdx.Mermaid.Cache.{Cached}

-- The promise of a number is a render of a source.
abbrev pub Renders : (ℕ → Option Render) → ℕ → Text → Type 0
Renders renders k source = (r : Render) × (renders k ≡ some r) × (r.source ≡ source)

-- An effect that was not cancelled is the last one of a mounted component and awaits a render of the
-- source that the component has.
pub record IsTied (s : Diagrams) : Type 0 where
  pub tied :
      (j : ℕ) (e : Effect)
      → s.effects j ≡ some e
      → e.cancelled ≡ false
      → (d : Diagram) × (s.mounted e.owner ≡ some d)
        × (d.effect ≡ j)
        × Renders s.renders e.render d.source

-- No effect of a component is left uncancelled.
abbrev pub IsFree : ℕ → Diagrams → Type 0
IsFree c s = (j : ℕ) (e : Effect) → s.effects j ≡ some e → e.cancelled ≡ false → e.owner ≢ c

set_status-Renders :
    (f : Status → Status) (i : ℕ) (s : Diagrams) (k : ℕ) (source : Text)
    → Renders s.renders k source
    → Renders (set_status f i s).renders k source
unfolding set_status
set_status-Renders f i s k source (r, at, from) = elim (Option-cases (s.renders i)) [
  | inl e ↦ rw (e, set_status) (r, at, from)
  | inr (q, e) ↦
      rw (e, set_status)
        (elim (Bool-cases (k == i)) [
          | inl one ↦ (record q { status = f q.status }, rw one, ground arith)
          | inr two ↦ (r, rw two at, from)
        ])
]

pub set_status_frame :
    (f : Status → Status) (i : ℕ) (s : Diagrams)
    → ((set_status f i s).mounted ≡ s.mounted) × ((set_status f i s).effects ≡ s.effects)
unfolding set_status
set_status_frame f i s = elim (Option-cases (s.renders i)) [
  | inl e ↦ rw (e, set_status) (refl, refl)
  | inr (x, e) ↦ rw (e, set_status) (refl, refl)
]

-- Nothing counts but the components, the sources of the renders and the effects that are live.
pub transfer :
    (s t : Diagrams)
    → t.mounted ≡ s.mounted
    → ((k : ℕ) (source : Text) → Renders s.renders k source → Renders t.renders k source)
    → ((j : ℕ) (e : Effect) → t.effects j ≡ some e → e.cancelled ≡ false → s.effects j ≡ some e)
    → IsTied s
    → IsTied t
transfer s t m keeps lives h = record {
  tied = λ j e at live.
      let (d, there, last, from) = h.tied j e (lives j e at live) live in
      (d, subst (λ g. g e.owner ≡ some d) (sym m) there, last, keeps e.render d.source from);
}

pub set_status-IsTied :
    (f : Status → Status) (i : ℕ) (s : Diagrams) → IsTied s → IsTied (set_status f i s)
set_status-IsTied f i s h =
    let (m, x) = set_status_frame f i s in
    transfer s _ m (λ k t. set_status-Renders f i s k t)
      (λ j e at live. subst (λ g. g j ≡ some e) x at) h

pub render_mermaid-Renders :
    (id source : Text) (s : Diagrams)
    → Cached s
    → Renders (render_mermaid id source s).0.renders (render_mermaid id source s).1 source
unfolding render_mermaid new_render
render_mermaid-Renders id source s h = elim (Option-cases (s.cache source)) [
  | inl e ↦
      rw (e, render_mermaid)
        (record { id = id; source = source; status = waiting }, ground arith, refl)
  | inr (k, e) ↦
      let (r, at, from, held) = h.sound source k e in rw (e, render_mermaid) (r, at, from)
]

pub render_mermaid_keeps :
    (id source : Text) (s : Diagrams) (k : ℕ) (t : Text)
    → Cached s
    → Renders s.renders k t
    → Renders (render_mermaid id source s).0.renders k t
unfolding render_mermaid new_render
render_mermaid_keeps id source s k t h (r, at, from) = elim (Option-cases (s.cache source)) [
  | inl e ↦ rw (e, render_mermaid) (r, ground (arith, h.fresh k), from)
  | inr (i, e) ↦ rw (e, render_mermaid) (r, at, from)
]

pub render_mermaid_frame :
    (id source : Text) (s : Diagrams)
    → let t = (render_mermaid id source s).0 in
      (t.effects ≡ s.effects) × (t.mounted ≡ s.mounted) × (t.next_effect ≡ s.next_effect)
unfolding render_mermaid new_render
render_mermaid_frame id source s = elim (Option-cases (s.cache source)) [
  | inl e ↦ rw (e, render_mermaid) (refl, refl, refl)
  | inr (i, e) ↦ rw (e, render_mermaid) (refl, refl, refl)
]

pub cancel-live :
    (j : ℕ) (s : Diagrams) (i : ℕ) (e : Effect)
    → (cancel j s).effects i ≡ some e
    → e.cancelled ≡ false
    → (s.effects i ≡ some e) × (i ≢ j)
unfolding cancel
cancel-live j s i e at live = elim (Option-cases (s.effects j)) [
  | inl f ↦
      let at' : s.effects i ≡ some e = rw (f, cancel) at at in (at', λ same. cc (ap s.effects same))
  | inr (x, f) ↦ elim (Bool-cases (i == j)) [
    | inl one ↦
        let there : (if i == j then some (record x { cancelled = true }) else s.effects i)
            ≡ some e =
          rw (f, cancel) at at in
        let set : some (record x { cancelled = true }) ≡ some e = rw one at there in
        absurd (ground arith)
    | inr two ↦
        let there : (if i == j then some (record x { cancelled = true }) else s.effects i)
            ≡ some e =
          rw (f, cancel) at at in
        (rw two at there, λ same. ground arith)
  ]
]

pub cancel_frame :
    (j : ℕ) (s : Diagrams) → ((cancel j s).mounted ≡ s.mounted) × ((cancel j s).renders ≡ s.renders)
unfolding cancel
cancel_frame j s = elim (Option-cases (s.effects j)) [
  | inl e ↦ rw (e, cancel) (refl, refl)
  | inr (x, e) ↦ rw (e, cancel) (refl, refl)
]

pub cancel-IsTied : (j : ℕ) (s : Diagrams) → IsTied s → IsTied (cancel j s)
cancel-IsTied j s h =
    let (m, r) = cancel_frame j s in
    transfer s _ m (λ k t. subst (λ g. Renders g k t) (sym r))
      (λ i e at live. (cancel-live j s i e at live).0) h

-- After the clean-up of its last effect, a component has none that is live.
pub cancel-IsFree :
    (c : ℕ) (d : Diagram) (s : Diagrams)
    → s.mounted c ≡ some d
    → IsTied s
    → IsFree c (cancel d.effect s)
cancel-IsFree c d s at h j e there live own =
    let (before, other) = cancel-live d.effect s j e there live in
    let (x, place, last, _) = h.tied j e before live in other (ground arith)
