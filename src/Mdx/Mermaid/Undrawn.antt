-- ===== src/Mdx/Mermaid/Undrawn.antt =====
-- Renders and diagrams that no layout has led to (docs/src/mdx-components.tsx).
use quickspin.Text.Units.{Text}
use quickspin.Prelude.{
  put, ℕ, ◌≡◌, ◌≢◌, refl, subst, inl, inr, Bool, true, false, Option, none, some, arith, ◌==◌,
  Bool-cases, Option-cases, ◌>>=◌, keep,
}
use quickspin.Mdx.Mermaid.{
  Status, waiting, drawing, settled, forgotten, Outcome, svg, error, Render, Diagrams, set_status,
  new_render, forget, forget_status, has_failed, render_mermaid, Import, loaded, failed,
  not_started, loading, resumed, drawn, run_effect, cancel, deliver, outcome_of, set_result,
  Diagram,
}

-- A status and a result that no layout has led to.
abbrev pub is_undrawn : Status → Bool
is_undrawn waiting = true
is_undrawn drawing = false
is_undrawn (settled (svg _)) = false
is_undrawn (settled (error _)) = true
is_undrawn (forgotten _) = true

abbrev pub is_blank : Option Outcome → Bool
is_blank none = true
is_blank (some (svg _)) = false
is_blank (some (error _)) = true

-- No layout was ever started, and no diagram shows one.
pub record IsUndrawn (s : Diagrams) : Type 0 where
  pub unstarted : (k : ℕ) (r : Render) → s.renders k ≡ some r → is_undrawn r.status ≡ true
  pub unshown : (c : ℕ) (d : Diagram) → s.mounted c ≡ some d → is_blank d.result ≡ true

pub set_status-IsUndrawn :
    (f : Status → Status) (k : ℕ) (s : Diagrams)
    → ((status : Status) → is_undrawn status ≡ true → is_undrawn (f status) ≡ true)
    → IsUndrawn s
    → IsUndrawn (set_status f k s)
unfolding set_status
set_status-IsUndrawn f k s keep h = elim (Option-cases (s.renders k)) [
  | inl e ↦ rw (e, set_status) h
  | inr (r, e) ↦
      rw (e, set_status)
        (record {
          unstarted = λ j q at. elim (Bool-cases (j == k)) [
            | inl one ↦
                let there : some (record r { status = f r.status }) ≡ some q = rw one at at in
                ground (arith, keep r.status (h.unstarted k r e))
            | inr two ↦ h.unstarted j q (rw two at at)
          ];
          unshown = h.unshown;
        })
]

pub resumed-undrawn :
    (ready : Import)
    → ready ≢ loaded
    → (status : Status) → is_undrawn status ≡ true
    → is_undrawn (resumed ready status) ≡ true
unfolding resumed
resumed-undrawn loaded n status h = absurd (n refl)
resumed-undrawn not_started n status h = h
resumed-undrawn loading n status h = h
resumed-undrawn (failed reason) n status h = ground arith

pub drawn-undrawn :
    (o : Outcome) (status : Status) → is_undrawn status ≡ true → is_undrawn (drawn o status) ≡ true
unfolding drawn
drawn-undrawn o status h = ground arith

forget_status-undrawn :
    (status : Status) → is_undrawn status ≡ true → is_undrawn (forget_status status) ≡ true
forget_status-undrawn status h = ground arith

-- Only what the diagrams show and the renders count.
pub transfer :
    (s t : Diagrams) → t.renders ≡ s.renders → t.mounted ≡ s.mounted → IsUndrawn s → IsUndrawn t
transfer s t e f h = record {
  unstarted = λ k r at. h.unstarted k r (subst (λ g. g k ≡ some r) e at);
  unshown = λ c d at. h.unshown c d (subst (λ g. g c ≡ some d) f at);
}

pub forget-IsUndrawn : (k : ℕ) (s : Diagrams) → IsUndrawn s → IsUndrawn (forget k s)
unfolding forget
forget-IsUndrawn k s h = elim (Option-cases (s.renders k)) [
  | inl e ↦ rw (e, forget) h
  | inr (r, e) ↦ elim (Bool-cases (has_failed r.status)) [
    | inl f ↦
        rw (e, forget)
          (rw (f, forget)
            (transfer (set_status forget_status k s) _ refl refl
              (set_status-IsUndrawn forget_status k s forget_status-undrawn h)))
    | inr f ↦ rw (e, forget) (rw (f, forget) h)
  ]
]

-- A diagram is put in place with a result that shows no layout.
place-IsUndrawn :
    (c : ℕ) (d : Diagram) (s t : Diagrams)
    → is_blank d.result ≡ true
    → t.renders ≡ s.renders
    → t.mounted ≡ put s.mounted c (some d)
    → IsUndrawn s
    → IsUndrawn t
place-IsUndrawn c d s t blank e f h = record {
  unstarted = λ k r at. h.unstarted k r (subst (λ g. g k ≡ some r) e at);
  unshown = λ j x at.
      let at' : put s.mounted c (some d) j ≡ some x = subst (λ g. g j ≡ some x) f at in
      elim (Bool-cases (j == c)) [
        | inl one ↦ let there : some d ≡ some x = rw one at at' in ground arith
        | inr two ↦ h.unshown j x (rw two at at')
      ];
}

render_mermaid-IsUndrawn :
    (id source : Text) (s : Diagrams) → IsUndrawn s → IsUndrawn (render_mermaid id source s).0
unfolding render_mermaid new_render
render_mermaid-IsUndrawn id source s h = elim (Option-cases (s.cache source)) [
  | inl e ↦
      rw (e, render_mermaid)
        (record {
          unstarted = λ k r at. elim (Bool-cases (k == s.next_render)) [
            | inl one ↦
                let there : some (record { id = id; source = source; status = waiting }) ≡ some r =
                  rw one at at in
                ground arith
            | inr two ↦ h.unstarted k r (rw two at at)
          ];
          unshown = h.unshown;
        })
  | inr (k, e) ↦ rw (e, render_mermaid) h
]

pub run_effect-IsUndrawn :
    (c : ℕ) (use_id source : Text) (result : Option Outcome) (s : Diagrams)
    → is_blank result ≡ true
    → IsUndrawn s
    → IsUndrawn (run_effect c use_id source result s)
unfolding run_effect
run_effect-IsUndrawn c use_id source result s blank h =
    place-IsUndrawn c _ _ _ blank refl refl (render_mermaid-IsUndrawn _ source s h)

pub cancel-IsUndrawn : (j : ℕ) (s : Diagrams) → IsUndrawn s → IsUndrawn (cancel j s)
unfolding cancel
cancel-IsUndrawn j s h = elim (Option-cases (s.effects j)) [
  | inl e ↦ rw (e, cancel) h
  | inr (x, e) ↦ rw (e, cancel) (transfer s _ refl refl h)
]

set_result-IsUndrawn :
    (c : ℕ) (o : Outcome) (s : Diagrams)
    → is_blank (some o) ≡ true
    → IsUndrawn s
    → IsUndrawn (set_result c o s)
set_result-IsUndrawn c o s blank h = elim (Option-cases (s.mounted c)) [
  | inl e ↦ rw (e, set_result) h
  | inr (d, e) ↦
      rw (e, set_result) (place-IsUndrawn c (record d { result = some o }) s _ blank refl refl h)
]

undrawn-blank :
    (status : Status) (o : Outcome)
    → is_undrawn status ≡ true
    → outcome_of status ≡ some o
    → is_blank (some o) ≡ true
undrawn-blank status o u e = ground arith

-- The outcome that an effect awaits, if its render is settled.
awaited-blank :
    (s : Diagrams) (k : ℕ) (o : Outcome)
    → IsUndrawn s
    → (s.renders k >>= λ r. outcome_of r.status) ≡ some o
    → is_blank (some o) ≡ true
awaited-blank s k o h e = elim (Option-cases (s.renders k)) [
  | inl f ↦ let none_some : none ≡ some o = rw f at e in cc
  | inr (r, f) ↦
      let g : outcome_of r.status ≡ some o = rw f at e in
      undrawn-blank r.status o (h.unstarted k r f) g
]

pub deliver-IsUndrawn : (j : ℕ) (s : Diagrams) → IsUndrawn s → IsUndrawn (deliver j s)
unfolding deliver
deliver-IsUndrawn j s h = elim (Option-cases (s.effects j)) [
  | inl e ↦ rw (e, deliver) h
  | inr (x, e) ↦ elim (Option-cases (s.renders x.render >>= λ r. outcome_of r.status)) [
    | inl f ↦ rw (e, deliver) (rw (f, deliver) h)
    | inr (o, f) ↦ elim (Bool-cases x.cancelled) [
      | inl g ↦ rw (e, deliver) (rw (f, deliver) (rw (g, deliver) h))
      | inr g ↦
          rw (e, deliver)
            (rw (f, deliver)
              (rw (g, deliver)
                (set_result-IsUndrawn x.owner o s (awaited-blank s x.render o h f) h)))
    ]
  ]
]
