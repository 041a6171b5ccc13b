-- ===== src/Reader/Search/Matches.antt =====
-- What the search finds.
use quickspin.Text.{text_eq, starts_with, includes, trim}
use quickspin.Text.Units.{Text}
use quickspin.Prelude.{
  ◌≡◌, refl, sym, ap, subst, ◌↔◌, inl, inr, Bool, true, false, List, [], ◌∷◌, ◌++◌, arith,
  Bool-cases, keep, In,
}
use quickspin.Text.Unicode.{Unicode}
use quickspin.Text.Equality.{eq_of_text_eq}
use quickspin.Documents.Catalog.{ReaderDocument}
use quickspin.Reader.Search.{needle_of, filtered}

-- The needle stands somewhere in the text.
abbrev pub Occurs : Text → Text → Type 0
Occurs needle text = (before : Text) × (after : Text) × (text ≡ before ++ (needle ++ after))

starts_with_sound : (p s : Text) → starts_with p s ≡ true → (after : Text) × (s ≡ p ++ after)
starts_with_sound [] s h = (s, refl)
starts_with_sound (c ∷ p) [] h = cc
starts_with_sound (c ∷ p) (d ∷ s) h =
    let (after, e) = starts_with_sound p s (ground arith) in (after, ground arith)

starts_with-append : (p s : Text) → starts_with p (p ++ s) ≡ true
starts_with-append [] s = refl
starts_with-append (c ∷ p) s = ground (arith, starts_with-append p s)

includes_sound : (needle text : Text) → includes needle text ≡ true → Occurs needle text
unfolding includes
includes_sound needle [] h = let (after, e) = starts_with_sound needle [] h in ([], after, e)
includes_sound needle (c ∷ s) h = elim (Bool-cases (starts_with needle (c ∷ s))) [
  | inl k ↦ let (after, e) = starts_with_sound needle (c ∷ s) k in ([], after, e)
  | inr k ↦
      let (before, after, e) = includes_sound needle s (ground arith) in
      (c ∷ before, after, ap (λ t. c ∷ t) e)
]

includes_complete :
    (needle before after : Text) → includes needle (before ++ (needle ++ after)) ≡ true
unfolding includes
includes_complete [] [] [] = refl
includes_complete [] [] (c ∷ after) = refl
includes_complete (c ∷ needle) [] after = ground (arith, starts_with-append (c ∷ needle) after)
includes_complete needle (c ∷ before) after = ground (arith, includes_complete needle before after)

of_In-keep :
    (p : ReaderDocument → Bool) (ds : List ReaderDocument) {d : ReaderDocument}
    → In d (keep p ds)
    → In d ds × (p d ≡ true)
of_In-keep p [] h = absurd h
of_In-keep p (e ∷ ds) {d} h = elim (Bool-cases (p e)) [
  | inl k ↦ elim (rw k at h) [
    | inl same ↦ (inl same, subst (λ x. p x ≡ true) (sym same) k)
    | inr i ↦ let (j, q) = of_In-keep p ds {d = d} i in (inr j, q)
  ]
  | inr k ↦ let (j, q) = of_In-keep p ds {d = d} (rw k at h) in (inr j, q)
]

In-keep :
    (p : ReaderDocument → Bool) (ds : List ReaderDocument) {d : ReaderDocument}
    → In d ds
    → p d ≡ true
    → In d (keep p ds)
In-keep p [] h q = absurd h
In-keep p (e ∷ ds) (inl same) q = rw (← same, q) (inl refl)
In-keep p (e ∷ ds) (inr i) q = elim (Bool-cases (p e)) [
  | inl k ↦ rw k (inr (In-keep p ds i q))
  | inr k ↦ rw k (In-keep p ds i q)
]

module _ (u : Unicode) (documents : List ReaderDocument) (query : Text) where
  filtered_all : needle_of u query ≡ [] → filtered u documents query ≡ documents
  unfolding filtered
  filtered_all e = rw (e, filtered)

  filtered_some :
      text_eq (needle_of u query) [] ≡ false
      → filtered u documents query
        ≡ keep (λ d. includes (needle_of u query) d.search_text) documents
  unfolding filtered
  filtered_some e = rw (e, filtered)

filtered_lem :
    (u : Unicode) (documents : List ReaderDocument) (query : Text) (d : ReaderDocument)
    → In d (filtered u documents query)
      ↔ (In d documents × Occurs (needle_of u query) d.search_text)
filtered_lem u documents query d = elim (Bool-cases (text_eq (needle_of u query) [])) [
  | inl k ↦
      let empty = eq_of_text_eq (needle_of u query) [] k in
      (
        λ i. (subst (In d) (filtered_all u documents query empty) i, ([], d.search_text, rw empty)),
        λ h. subst (In d) (sym (filtered_all u documents query empty)) h.0,
      )
  | inr k ↦
      let hit = λ (e : ReaderDocument). includes (needle_of u query) e.search_text in
      let same = filtered_some u documents query k in
      (
        λ i.
            let (j, q) = of_In-keep hit documents {d = d} (subst (In d) same i) in
            (j, includes_sound (needle_of u query) d.search_text q),
        λ h. subst (In d) (sym same) (In-keep hit documents h.0 (hits d h.1)),
      )
]
  where
    hits :
        (e : ReaderDocument)
        → Occurs (needle_of u query) e.search_text
        → includes (needle_of u query) e.search_text ≡ true
    hits e (before, after, at) = rw at (includes_complete (needle_of u query) before after)

-- The sidebar lists exactly the documents of the list whose search text holds the trimmed query in
-- lower case somewhere; an empty query is held by all.
pub filtered_iff :
    (u : Unicode) (documents : List ReaderDocument) (query : Text) (d : ReaderDocument)
    → In d (filtered u documents query)
      ↔ (In d documents × Occurs (u.to_lower (trim query)) d.search_text)
unfolding needle_of
filtered_iff u documents query d = filtered_lem u documents query d
