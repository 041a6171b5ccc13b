-- ===== src/Text/Equality.antt =====
-- Equality of texts, prefixes and endings.
use quickspin.Prelude.{
  ℕ, ◌≡◌, ◌≢◌, refl, inl, inr, true, some, [], ◌∷◌, ◌++◌, arith, ◌==◌, ==_iff, ==_self, Bool-cases,
  All, append-nil, append_assoc,
}
use quickspin.Text.Units.{Text}
use quickspin.Text.{text_eq, after_prefix, strip_suffix, split_from_unit}
use mathlib.Core.List.{reverse, reverse-append, reverse-reverse, reverse-cons}

pub text_eq_self : (s : Text) → text_eq s s ≡ true
text_eq_self [] = refl
text_eq_self (c ∷ s) = ground (arith, text_eq_self s)

pub eq_of_text_eq : (s t : Text) → text_eq s t ≡ true → s ≡ t
eq_of_text_eq [] [] h = refl
eq_of_text_eq [] (d ∷ t) h = cc
eq_of_text_eq (c ∷ s) [] h = cc
eq_of_text_eq (c ∷ s) (d ∷ t) h = ground (arith, eq_of_text_eq s t)

pub after_prefix-append : (p s : Text) → after_prefix p (p ++ s) ≡ some s
after_prefix-append [] s = refl
after_prefix-append (c ∷ p) s = ground (arith, after_prefix-append p s)

pub strip_suffix-append : (e s : Text) → strip_suffix e (s ++ e) ≡ some s
unfolding strip_suffix
strip_suffix-append e s =
    rw (reverse-append s e, after_prefix-append (reverse e) (reverse s), reverse-reverse s)

-- A text without the separator is one part.
pub split_one :
    (sep : ℕ) (cur s : Text)
    → All (λ c. c ≢ sep) s
    → split_from_unit sep cur s ≡ (reverse cur ++ s) ∷ []
unfolding split_from_unit
split_one sep cur [] h = rw append-nil
split_one sep cur (c ∷ s) (n, h) = elim (Bool-cases (c == sep)) [
  | inl e ↦ absurd (n ((==_iff c sep).0 e))
  | inr e ↦
      rw (e, split_from_unit) (rw (split_one sep (c ∷ cur) s h, reverse-cons c cur, append_assoc))
]

-- The part before a separator is split off.
pub split_part :
    (sep : ℕ) (cur s t : Text)
    → All (λ c. c ≢ sep) s
    → split_from_unit sep cur (s ++ sep ∷ t) ≡ (reverse cur ++ s) ∷ split_from_unit sep [] t
unfolding split_from_unit
split_part sep cur [] t h = rw (==_self sep, split_from_unit, append-nil)
split_part sep cur (c ∷ s) t (n, h) = elim (Bool-cases (c == sep)) [
  | inl e ↦ absurd (n ((==_iff c sep).0 e))
  | inr e ↦
      rw (e, split_from_unit)
        (rw (split_part sep (c ∷ cur) s t h, reverse-cons c cur, append_assoc))
]
