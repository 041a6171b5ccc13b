-- ===== src/Mdx/Mermaid/Promises.antt =====
-- The map of renders by source (docs/src/mdx-components.tsx): which promises it holds, and how
-- a new, a changed and a forgotten render keep that true.
use quickspin.Text.{text_eq}
use quickspin.Text.Units.{Text}
use quickspin.Prelude.{
  put, ℕ, ◌+◌, ◌≤◌, ◌≡◌, sym, inl, inr, Bool, true, false, Option, none, some, arith, ◌==◌,
  Bool-cases,
}
use quickspin.Text.Equality.{text_eq_self, eq_of_text_eq}
use quickspin.Mdx.Mermaid.{Status, waiting, drawing, settled, forgotten, Render, store}

-- Whether a render is one that the map still answers with.
abbrev pub is_held : Status → Bool
is_held waiting = true
is_held drawing = true
is_held (settled _) = true
is_held (forgotten _) = false

-- The map holds exactly the renders that were not forgotten, each under its source.
pub record IsCached (cache : Text → Option ℕ) (renders : ℕ → Option Render) (n : ℕ) : Type 0 where
  pub sound :
      (t : Text) (k : ℕ)
      → cache t ≡ some k
      → (r : Render) × (renders k ≡ some r) × (r.source ≡ t) × (is_held r.status ≡ true)
  pub complete :
      (k : ℕ) (r : Render) → renders k ≡ some r → is_held r.status ≡ true → cache r.source ≡ some k
  pub fresh : (k : ℕ) → n ≤ k → renders k ≡ none

pub new-IsCached :
    (cache : Text → Option ℕ) (renders : ℕ → Option Render) (n : ℕ) (r : Render)
    → IsCached cache renders n
    → cache r.source ≡ none
    → is_held r.status ≡ true
    → IsCached (store cache r.source (some n)) (put renders n (some r)) (n + 1)
new-IsCached cache renders n r h free held = record {
  sound = λ t k e. elim (Bool-cases (text_eq t r.source)) [
    | inl same ↦
        let at : some n ≡ some k = rw same at e in
        (r, ground arith, sym (eq_of_text_eq t r.source same), held)
    | inr other ↦
        let (q, at, from, live) = h.sound t k (rw other at e) in
        (q, ground (arith, h.fresh k), from, live)
  ];
  complete = λ k q e v. elim (Bool-cases (k == n)) [
    | inl same ↦ let at : some r ≡ some q = rw same at e in ground (arith, text_eq_self r.source)
    | inr other ↦
        let at : renders k ≡ some q = rw other at e in
        elim (Bool-cases (text_eq q.source r.source)) [
          | inl one ↦ cc (h.complete k q at v, eq_of_text_eq q.source r.source one)
          | inr two ↦ rw two (h.complete k q at v)
        ]
  ];
  fresh = λ k lt. ground (arith, h.fresh k);
}

pub status-IsCached :
    (cache : Text → Option ℕ) (renders : ℕ → Option Render) (n k : ℕ) (r : Render) (status : Status)
    → IsCached cache renders n
    → renders k ≡ some r
    → is_held status ≡ is_held r.status
    → IsCached cache (put renders k (some (record r { status = status }))) n
status-IsCached cache renders n k r status h at same = record {
  sound = λ t j e.
      let (q, there, from, live) = h.sound t j e in
      elim (Bool-cases (j == k)) [
        | inl one ↦ (record r { status = status }, rw one, ground arith, ground arith)
        | inr two ↦ (q, rw two there, from, live)
      ];
  complete = λ j q e v. elim (Bool-cases (j == k)) [
    | inl one ↦
        let there : some (record r { status = status }) ≡ some q = rw one at e in
        ground (arith, h.complete k r at)
    | inr two ↦ let there : renders j ≡ some q = rw two at e in h.complete j q there v
  ];
  fresh = λ j lt. ground (arith, h.fresh j);
}

pub forget-IsCached :
    (cache : Text → Option ℕ) (renders : ℕ → Option Render) (n k : ℕ) (r : Render) (status : Status)
    → IsCached cache renders n
    → renders k ≡ some r
    → is_held r.status ≡ true
    → is_held status ≡ false
    → IsCached (store cache r.source none) (put renders k (some (record r { status = status }))) n
forget-IsCached cache renders n k r status h at held gone = record {
  sound = λ t j e. elim (Bool-cases (text_eq t r.source)) [
    | inl same ↦ let none_some : none ≡ some j = rw same at e in cc
    | inr other ↦
        let (q, there, from, live) = h.sound t j (rw other at e) in
        elim (Bool-cases (j == k)) [
          | inl one ↦ absurd (ground (arith, text_eq_self t))
          | inr two ↦ (q, rw two there, from, live)
        ]
  ];
  complete = λ j q e v. elim (Bool-cases (j == k)) [
    | inl one ↦
        let there : some (record r { status = status }) ≡ some q = rw one at e in ground arith
    | inr two ↦
        let there : renders j ≡ some q = rw two at e in
        elim (Bool-cases (text_eq q.source r.source)) [
          | inl same ↦ absurd (
              ground (
                arith,
                eq_of_text_eq q.source r.source same,
                h.complete k r at held,
                h.complete j q there v,
              ))
          | inr other ↦ rw other (h.complete j q there v)
        ]
  ];
  fresh = λ j lt. ground (arith, h.fresh j);
}
