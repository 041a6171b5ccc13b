-- ===== src/Mdx/Mermaid/Kept.antt =====
-- The effects of `Mermaid` (docs/src/mdx-components.tsx), run and settled: each live one stays tied to
-- its component.
use quickspin.Text.Units.{Text}
use quickspin.Prelude.{
  put, ℕ, ◌≡◌, refl, subst, inl, inr, false, Option, some, arith, ◌==◌, Bool-cases, Option-cases,
  ◌>>=◌, last,
}
use quickspin.Mdx.Mermaid.{
  Outcome, Diagrams, Diagram, set_status, forget, forget_status, has_failed, render_mermaid,
  run_effect, deliver, outcome_of, set_result, render_id,
}
use quickspin.Mdx.Mermaid.Cache.{Cached}
use quickspin.Mdx.Mermaid.Tied.{
  Renders, IsTied, IsFree, transfer, set_status-IsTied, render_mermaid-Renders,
  render_mermaid_frame, render_mermaid_keeps,
}

-- A new effect for a component that has none that is live.
pub start-IsTied :
    (c k n : ℕ) (d : Diagram) (t : Diagrams)
    → d.effect ≡ t.next_effect
    → Renders t.renders k d.source
    → IsFree c t
    → IsTied t
    → IsTied (record t {
      effects =
          put t.effects t.next_effect (some (record { owner = c; render = k; cancelled = false }));
      next_effect = n;
      mounted = put t.mounted c (some d);
    })
start-IsTied c k n d t last from free h = record {
  tied = λ j e at live. elim (Bool-cases (j == t.next_effect)) [
    | inl one ↦
        let there : some (record { owner = c; render = k; cancelled = false }) ≡ some e =
          rw one at at in
        let (r, r_at, r_from) = from in (d, ground arith, ground arith, (r, ground arith, r_from))
    | inr two ↦
        let there : t.effects j ≡ some e = rw two at at in
        let (x, place, x_last, x_from) = h.tied j e there live in
        let other = free j e there live in (x, ground arith, x_last, x_from)
  ];
}

pub render_mermaid-IsTied :
    (id source : Text) (s : Diagrams) → Cached s → IsTied s → IsTied (render_mermaid id source s).0
render_mermaid-IsTied id source s cached h =
    let (x, m, _) = render_mermaid_frame id source s in
    transfer s _ m (λ k t. render_mermaid_keeps id source s k t cached)
      (λ j e at live. subst (λ g. g j ≡ some e) x at) h

pub run_effect-IsTied :
    (c : ℕ) (use_id source : Text) (result : Option Outcome) (s : Diagrams)
    → Cached s
    → IsFree c s
    → IsTied s
    → IsTied (run_effect c use_id source result s)
unfolding run_effect
run_effect-IsTied c use_id source result s cached free h =
    let id = render_id use_id in
    let (x, m, _) = render_mermaid_frame id source s in
    start-IsTied c _ _ _ _ refl (render_mermaid-Renders id source s cached)
      (λ j e at live. free j e (subst (λ g. g j ≡ some e) x at) live)
      (render_mermaid-IsTied id source s cached h)

pub forget-IsTied : (k : ℕ) (s : Diagrams) → IsTied s → IsTied (forget k s)
unfolding forget
forget-IsTied k s h = elim (Option-cases (s.renders k)) [
  | inl e ↦ rw (e, forget) h
  | inr (r, e) ↦ elim (Bool-cases (has_failed r.status)) [
    | inl f ↦
        rw (e, forget)
          (rw (f, forget)
            (transfer (set_status forget_status k s) _ refl (λ _ _ x. x) (λ _ _ x _. x)
              (set_status-IsTied forget_status k s h)))
    | inr f ↦ rw (e, forget) (rw (f, forget) h)
  ]
]

-- A result is set on a component.
pub result-IsTied :
    (c : ℕ) (o : Outcome) (d : Diagram) (s : Diagrams)
    → s.mounted c ≡ some d
    → IsTied s
    → IsTied (record s { mounted = put s.mounted c (some (record d { result = some o })) })
result-IsTied c o d s at h = record {
  tied = λ j e there live.
      let (x, place, last, from) = h.tied j e there live in
      elim (Bool-cases (e.owner == c)) [
        | inl one ↦
            let same : x ≡ d = ground arith in
            (
              record d { result = some o },
              rw one,
              ground arith,
              subst (λ (y : Diagram). Renders s.renders e.render y.source) same from,
            )
        | inr two ↦ (x, rw two place, last, from)
      ];
}

pub set_result-IsTied : (c : ℕ) (o : Outcome) (s : Diagrams) → IsTied s → IsTied (set_result c o s)
set_result-IsTied c o s h = elim (Option-cases (s.mounted c)) [
  | inl e ↦ rw (e, set_result) h
  | inr (d, e) ↦ rw (e, set_result) (result-IsTied c o d s e h)
]

pub deliver-IsTied : (j : ℕ) (s : Diagrams) → IsTied s → IsTied (deliver j s)
unfolding deliver
deliver-IsTied j s h = elim (Option-cases (s.effects j)) [
  | inl e ↦ rw (e, deliver) h
  | inr (x, e) ↦ elim (Option-cases (s.renders x.render >>= λ r. outcome_of r.status)) [
    | inl f ↦ rw (e, deliver) (rw (f, deliver) h)
    | inr (o, f) ↦ elim (Bool-cases x.cancelled) [
      | inl g ↦ rw (e, deliver) (rw (f, deliver) (rw (g, deliver) h))
      | inr g ↦
          rw (e, deliver) (rw (f, deliver) (rw (g, deliver) (set_result-IsTied x.owner o s h)))
    ]
  ]
]
