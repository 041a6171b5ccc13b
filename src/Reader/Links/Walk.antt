-- ===== src/Reader/Links/Walk.antt =====
-- The walk along a relative path.
use quickspin.Text.{text_eq}
use quickspin.Text.Units.{Text, codes}
use quickspin.Prelude.{
  ℕ, zero, suc, ◌≡◌, ◌≢◌, refl, sym, ap, ◌∙◌, inl, inr, false, ◌||◌, List, [], ◌∷◌, ◌++◌,
  append_assoc, append-nil, arith, Bool-cases, length, init, All, All-append,
}
use quickspin.Text.Equality.{eq_of_text_eq, text_eq_self}
use quickspin.Reader.Links.{follow, walk}

-- A segment that names a folder or a file.
abbrev pub IsName : Text → Type 0
IsName s = (s ≢ []) × (s ≢ codes ".") × (s ≢ codes "..")

text_eq_ne : (s t : Text) → s ≢ t → text_eq s t ≡ false
text_eq_ne s t h = elim (Bool-cases (text_eq s t)) [
  | inl k ↦ absurd (h (eq_of_text_eq s t k))
  | inr k ↦ k
]

follow_name : (parts : List Text) (s : Text) → IsName s → follow parts s ≡ parts ++ s ∷ []
unfolding follow
follow_name parts s (a, b, c) =
    rw (text_eq_ne s [] a, text_eq_ne s (codes ".") b, text_eq_ne s (codes "..") c)

pub init_append : (parts : List Text) (s : Text) → init (parts ++ s ∷ []) ≡ parts
init_append [] s = refl
init_append (p ∷ []) s = refl
init_append (p ∷ q ∷ parts) s = ap (λ t. p ∷ t) (init_append (q ∷ parts) s)

-- So many segments "..".
abbrev pub ups : ℕ → List Text
ups zero = []
ups (suc n) = codes ".." ∷ ups n

walk_names : (parts names : List Text) → All IsName names → walk parts names ≡ parts ++ names
unfolding walk
walk_names parts [] h = sym (append-nil parts)
walk_names parts (n ∷ names) (h, hs) =
    rw (follow_name parts n h, walk_names (parts ++ n ∷ []) names hs)
      (append_assoc parts (n ∷ []) names)

init-append :
    (parts : List Text) (d : Text) (dirs : List Text)
    → init (parts ++ d ∷ dirs) ≡ parts ++ init (d ∷ dirs)
init-append [] d dirs = refl
init-append (p ∷ []) d dirs = refl
init-append (p ∷ q ∷ parts) d dirs = ap (λ t. p ∷ t) (init-append (q ∷ parts) d dirs)

length-init : (d : Text) (dirs : List Text) → length (init (d ∷ dirs)) ≡ length dirs
length-init d [] = refl
length-init d (e ∷ dirs) = ap suc (length-init e dirs)

walk_up :
    (n : ℕ) (parts dirs rest : List Text)
    → length dirs ≡ n
    → walk (parts ++ dirs) (ups n ++ rest) ≡ walk parts rest
unfolding walk follow
walk_up zero parts [] rest h = rw append-nil
walk_up zero parts (d ∷ dirs) rest h = absurd (omega arith)
walk_up (suc n) parts [] rest h = absurd (omega arith)
walk_up (suc n) parts (d ∷ dirs) rest h =
    ap (λ p. walk p (ups n ++ rest)) (init-append parts d dirs)
    ∙ walk_up n parts (init (d ∷ dirs)) rest (omega (arith, length-init d dirs))

-- Going up once for each of some folders and then down along names gives the folders above them
-- followed by the names.
pub walk-ups :
    (parts dirs names : List Text)
    → All IsName names
    → walk (parts ++ dirs) (ups (length dirs) ++ names) ≡ parts ++ names
walk-ups parts dirs names h = walk_up (length dirs) parts dirs names refl ∙ walk_names parts names h

All-init : (parts : List Text) → All IsName parts → All IsName (init parts)
All-init [] h = tt
All-init (p ∷ []) h = tt
All-init (p ∷ q ∷ parts) (a, h) = (a, All-init (q ∷ parts) h)

text_ne : (s t : Text) → text_eq s t ≡ false → s ≢ t
text_ne s t h e = let k = text_eq_self t in let k' = rw (← e) at k in cc

follow-All : (parts : List Text) (s : Text) → All IsName parts → All IsName (follow parts s)
unfolding follow
follow-All parts s h = elim (Bool-cases (text_eq s [] || text_eq s (codes "."))) [
  | inl k ↦ rw (k, follow) h
  | inr k ↦ elim (Bool-cases (text_eq s (codes ".."))) [
    | inl m ↦ rw (k, follow, m) (All-init parts h)
    | inr m ↦
        rw (k, follow, m)
          (All-append IsName parts (s ∷ []) h (
            (
              text_ne s [] (ground arith),
              text_ne s (codes ".") (ground arith),
              text_ne s (codes "..") m,
            ),
            tt,
          ))
  ]
]

-- Whatever the segments, a walk from named folders passes through named folders only: no empty segment, "." or ".." is left.
pub walk-All : (parts segments : List Text) → All IsName parts → All IsName (walk parts segments)
unfolding walk
walk-All parts [] h = h
walk-All parts (s ∷ segments) h = walk-All (follow parts s) segments (follow-All parts s h)
