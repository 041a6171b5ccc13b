-- ===== src/Mdx/Slug/Laws.antt =====
-- The shape of a slug, and the texts that `slugify` leaves alone.
use quickspin.Text.{drop_end_while, collapse_from}
use quickspin.Text.Units.{Text, codes, one_of}
use quickspin.Prelude.{
  ℕ, ◌≡◌, refl, ◌⊎◌, inl, inr, Bool, true, false, not, [], ◌∷◌, arith, keep, drop_while,
}
use quickspin.Text.Unicode.{Unicode}
use quickspin.Text.Runs.{trim_cons, drop_end_while-cons, Runs, collapse-Runs}
use quickspin.Mdx.Slug.{dash, is_dash, slugify}

module _ (u : Unicode) where
  -- Words of letters and numbers, joined by single dashes; the flag says that a dash, or nothing,
  -- stands before.
  abbrev pub IsJoined : Bool → Text → Type 0
  IsJoined b [] = b ≡ false
  IsJoined b (c ∷ s) =
      ((u.is_word c ≡ true) × IsJoined false s) ⊎ ((c ≡ dash) × (b ≡ false) × IsJoined true s)

  abbrev pub IsSlug : Text → Type 0
  IsSlug s = (s ≡ []) ⊎ IsJoined true s

  abbrev other : ℕ → Bool
  other c = not (u.is_word c)

  cons_word :
      (b : Bool) (c : ℕ) (t : Text)
      → other c ≡ false
      → (t ≡ []) ⊎ IsJoined false t
      → (trim_cons is_dash c t ≡ []) ⊎ IsJoined b (trim_cons is_dash c t)
  cons_word b c [] w h = ground arith
  cons_word b c (d ∷ t) w h = ground arith

  cons_dash :
      (b : Bool) (c : ℕ) (t : Text)
      → c ≡ dash
      → b ≡ false
      → (t ≡ []) ⊎ IsJoined true t
      → (trim_cons is_dash c t ≡ []) ⊎ IsJoined b (trim_cons is_dash c t)
  cons_dash b c [] e n h = ground arith
  cons_dash b c (d ∷ t) e n h = ground arith

  trim_end-IsJoined :
      (b : Bool) (s : Text)
      → Runs other dash b s
      → (drop_end_while is_dash s ≡ []) ⊎ IsJoined b (drop_end_while is_dash s)
  trim_end-IsJoined b [] h = inl refl
  trim_end-IsJoined b (c ∷ s) (inl (w, h)) =
      rw (drop_end_while-cons is_dash c s) (cons_word b c _ w (trim_end-IsJoined false s h))
  trim_end-IsJoined b (c ∷ s) (inr (e, n, h)) =
      rw (drop_end_while-cons is_dash c s) (cons_dash b c _ e n (trim_end-IsJoined true s h))

  -- At most one dash stands in front.
  drop_dashes-Runs :
      (b : Bool) (s : Text)
      → u.is_word dash ≡ false
      → Runs other dash b s
      → Runs other dash true (drop_while is_dash s)
  drop_dashes-Runs b [] w h = tt
  drop_dashes-Runs b (c ∷ s) w (inl (k, h)) = ground arith
  drop_dashes-Runs b (c ∷ s) w (inr (e, n, h)) = ground (arith, drop_dashes-Runs true s w h)

  -- A slug holds only letters, numbers and dashes, has no dash at either end and no two dashes in a
  -- row, if the Unicode data do not count the dash as a letter or number.
  pub slugify-IsSlug : (value : Text) → u.is_word dash ≡ false → IsSlug (slugify u value)
  unfolding slugify
  slugify-IsSlug value w =
      let plain = keep (λ c. not (one_of (codes "`*_") c)) (u.to_lower value) in
      let dashed = collapse_from other dash false plain in
      trim_end-IsJoined true (drop_while is_dash dashed)
        (drop_dashes-Runs false dashed w (collapse-Runs other dash false plain))

  module _ (w : u.is_word dash ≡ false)
      (m : (c : ℕ) → one_of (codes "`*_") c ≡ true → u.is_word c ≡ false) where
    keep-eq_self :
        (b : Bool) (s : Text) → IsJoined b s → keep (λ c. not (one_of (codes "`*_") c)) s ≡ s
    keep-eq_self b [] h = refl
    keep-eq_self b (c ∷ s) (inl (k, h)) = ground (arith, m c, keep-eq_self false s h)
    keep-eq_self b (c ∷ s) (inr (e, n, h)) = ground (arith, keep-eq_self true s h)

    collapse-eq_self : (b : Bool) (s : Text) → IsJoined b s → collapse_from other dash b s ≡ s
    unfolding collapse_from
    collapse-eq_self b [] h = refl
    collapse-eq_self b (c ∷ s) (inl (k, h)) = ground (arith, collapse-eq_self false s h)
    collapse-eq_self b (c ∷ s) (inr (e, n, h)) = ground (arith, collapse-eq_self true s h)

    drop_end-eq_self : (b : Bool) (s : Text) → IsJoined b s → drop_end_while is_dash s ≡ s
    drop_end-eq_self b [] h = refl
    drop_end-eq_self b (c ∷ []) h = ground arith
    drop_end-eq_self b (c ∷ d ∷ s) (inl (k, h)) =
        rw (drop_end_while-cons is_dash c (d ∷ s), drop_end-eq_self false (d ∷ s) h)
    drop_end-eq_self b (c ∷ d ∷ s) (inr (e, n, h)) =
        rw (drop_end_while-cons is_dash c (d ∷ s), drop_end-eq_self true (d ∷ s) h)

    drop_start-eq_self : (s : Text) → IsJoined true s → drop_while is_dash s ≡ s
    drop_start-eq_self [] h = refl
    drop_start-eq_self (c ∷ s) h = ground arith

    relax : (s : Text) → IsJoined true s → IsJoined false s
    relax [] h = refl
    relax (c ∷ s) h = ground arith

    slugify_of_IsSlug : (s : Text) → u.to_lower s ≡ s → IsSlug s → slugify u s ≡ s
    unfolding slugify
    slugify_of_IsSlug s l (inl e) = rw (l, e)
    slugify_of_IsSlug s l (inr h) =
        rw (l, keep-eq_self true s h, collapse-eq_self false s (relax s h), drop_start-eq_self s h)
          (drop_end-eq_self true s h)

    -- Making a slug of a slug changes nothing, if lower case changes nothing in it and the Unicode
    -- data count neither the dash nor the marks "`", "*" and "_" as letters or numbers.
    pub slugify_idempotent :
        (value : Text)
        → u.to_lower (slugify u value) ≡ slugify u value
        → slugify u (slugify u value) ≡ slugify u value
    slugify_idempotent value l = slugify_of_IsSlug (slugify u value) l (slugify-IsSlug value w)
