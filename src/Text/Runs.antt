-- ===== src/Text/Runs.antt =====
-- Trimming at the end, by recursion from the front, and what replacing runs leaves.
use quickspin.Prelude.{
  ℕ, ◌≡◌, refl, ◌⊎◌, inl, inr, Bool, true, false, [], ◌∷◌, ◌++◌, arith, if◌then◌else◌, Bool-cases,
  drop_while,
}
use quickspin.Text.Units.{Text}
use quickspin.Text.{drop_end_while, collapse_from}
use mathlib.Core.List.{reverse, reverse-cons, reverse-append}

module _ (p : ℕ → Bool) where
  -- One unit in front of a text that is trimmed already.
  abbrev pub trim_cons : ℕ → Text → Text
  trim_cons c [] = if p c then [] else c ∷ []
  trim_cons c (d ∷ s) = c ∷ d ∷ s

  abbrev end_cons : Text → ℕ → Text
  end_cons [] c = drop_while p (c ∷ [])
  end_cons (d ∷ s) c = (d ∷ s) ++ c ∷ []

  drop_while_end : (s : Text) (c : ℕ) → drop_while p (s ++ c ∷ []) ≡ end_cons (drop_while p s) c
  drop_while_end [] c = refl
  drop_while_end (d ∷ s) c = elim (Bool-cases (p d)) [
    | inl e ↦ rw e (drop_while_end s c)
    | inr e ↦ rw e refl
  ]

  reverse-end_cons : (s : Text) (c : ℕ) → reverse (end_cons s c) ≡ trim_cons c (reverse s)
  reverse-end_cons [] c = elim (Bool-cases (p c)) [ inl e ↦ rw e refl | inr e ↦ rw e refl ]
  reverse-end_cons (d ∷ s) c =
      rw (reverse-append (d ∷ s) (c ∷ []), reverse-cons d s) (nonempty (reverse s))
    where
      nonempty : (t : Text) → (c ∷ []) ++ (t ++ d ∷ []) ≡ trim_cons c (t ++ d ∷ [])
      nonempty [] = refl
      nonempty (e ∷ t) = refl

  pub drop_end_while-cons :
      (c : ℕ) (s : Text) → drop_end_while p (c ∷ s) ≡ trim_cons c (drop_end_while p s)
  drop_end_while-cons c s =
      rw (reverse-cons c s, drop_while_end (reverse s) c)
        (reverse-end_cons (drop_while p (reverse s)) c)

-- A text in which the unit `r` never stands twice in a row, nor behind the start if the flag is
-- set, and every other unit is outside the class.
module _ (p : ℕ → Bool) (r : ℕ) where
  abbrev pub Runs : Bool → Text → Type 0
  Runs b [] = Unit {0}
  Runs b (c ∷ s) = ((p c ≡ false) × Runs false s) ⊎ ((c ≡ r) × (b ≡ false) × Runs true s)

  pub collapse-Runs : (b : Bool) (s : Text) → Runs b (collapse_from p r b s)
  unfolding collapse_from
  collapse-Runs b [] = tt
  collapse-Runs b (c ∷ s) = ground (arith, collapse-Runs (p c) s)

  pub drop_while-Runs : (b : Bool) (s : Text) → p r ≡ true → Runs b s → Runs true (drop_while p s)
  drop_while-Runs b [] k h = tt
  drop_while-Runs b (c ∷ s) k (inl (w, h)) = rw w (inl (w, h))
  drop_while-Runs b (c ∷ s) k (inr (e, n, h)) = rw (e, k) (drop_while-Runs true s k h)

  trim_cons-Runs : (b : Bool) (c : ℕ) (t : Text) → Runs b (c ∷ t) → Runs b (trim_cons p c t)
  trim_cons-Runs b c [] h = ground arith
  trim_cons-Runs b c (d ∷ t) h = h

  pub drop_end_while-Runs : (b : Bool) (s : Text) → Runs b s → Runs b (drop_end_while p s)
  drop_end_while-Runs b [] h = tt
  drop_end_while-Runs b (c ∷ s) (inl (w, h)) =
      rw (drop_end_while-cons p c s)
        (trim_cons-Runs b c (drop_end_while p s) (inl (w, drop_end_while-Runs false s h)))
  drop_end_while-Runs b (c ∷ s) (inr (e, n, h)) =
      rw (drop_end_while-cons p c s)
        (trim_cons-Runs b c (drop_end_while p s) (inr (e, n, drop_end_while-Runs true s h)))
