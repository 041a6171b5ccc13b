-- ===== src/Ui/FieldError/Unique.antt =====
-- The distinct messages of a field (docs/src/components/ui/field.tsx).
use quickspin.Text.Units.{Text}
use quickspin.Prelude.{
  ◌≡◌, ◌≢◌, refl, sym, ap, ◌∙◌, subst, ◌↔◌, ◌⊎◌, inl, inr, true, false, Option, none, some, List,
  [], ◌∷◌, if◌then◌else◌, Bool-cases, In, All,
}
use quickspin.Text.Equality.{text_eq_self, eq_of_text_eq}
use quickspin.Ui.FieldError.{
  FieldIssue, message_of, same_key, set_entry, set_entries, unique_errors,
}

same_key_self : (k : Option Text) → same_key k k ≡ true
same_key_self none = refl
same_key_self (some s) = text_eq_self s

eq_of_same_key : (k l : Option Text) → same_key k l ≡ true → k ≡ l
eq_of_same_key none none h = refl
eq_of_same_key none (some t) h = cc
eq_of_same_key (some s) none h = cc
eq_of_same_key (some s) (some t) h = ap some (eq_of_text_eq s t h)

distinct_of_same_key : (l k : Option Text) → same_key l k ≡ false → l ≢ k
distinct_of_same_key l k e same = absurd (
    subst (λ b. b ≢ true) (sym e) (λ h. cc)
      (subst (λ m. same_key l m ≡ true) same (same_key_self l)))

abbrev pub keys : List (Option FieldIssue) → List (Option Text)
keys [] = []
keys (x ∷ xs) = message_of x ∷ keys xs

abbrev pub IsDistinct : List (Option Text) → Type 0
IsDistinct [] = Unit
IsDistinct (k ∷ ks) = All (λ l. l ≢ k) ks × IsDistinct ks

-- Keys in the order in which they first stand.
abbrev pub add_key : Option Text → List (Option Text) → List (Option Text)
add_key k [] = k ∷ []
add_key k (l ∷ ls) = let rest = add_key k ls in if same_key l k then l ∷ ls else l ∷ rest

keys-set_entry :
    (issue : Option FieldIssue) (xs : List (Option FieldIssue))
    → keys (set_entry issue xs) ≡ add_key (message_of issue) (keys xs)
unfolding set_entry
keys-set_entry issue [] = refl
keys-set_entry issue (x ∷ xs) = elim (Bool-cases (same_key (message_of x) (message_of issue))) [
  | inl k ↦ rw (k, set_entry) (ap (λ m. m ∷ keys xs) (sym (eq_of_same_key _ _ k)))
  | inr k ↦ rw (k, set_entry) (ap (λ ks. message_of x ∷ ks) (keys-set_entry issue xs))
]

add_key-In :
    (k m : Option Text) (ls : List (Option Text)) → In m (add_key k ls) ↔ ((m ≡ k) ⊎ In m ls)
add_key-In k m [] = (λ i. i, λ i. i)
add_key-In k m (l ∷ ls) = elim (Bool-cases (same_key l k)) [
  | inl e ↦
      rw e (λ i. inr i, λ i. elim i [ inl j ↦ inl (j ∙ sym (eq_of_same_key l k e)) | inr j ↦ j ])
  | inr e ↦ rw e (
    λ i. elim i [
      | inl j ↦ inr (inl j)
      | inr j ↦ elim ((add_key-In k m ls).0 j) [ inl h ↦ inl h | inr h ↦ inr (inr h) ]
    ],
    λ i. elim i [
      | inl h ↦ inr ((add_key-In k m ls).1 (inl h))
      | inr h ↦ elim h [ inl j ↦ inl j | inr j ↦ inr ((add_key-In k m ls).1 (inr j)) ]
    ],
  )
]

add_key-All :
    (P : Option Text → Type 0) (k : Option Text) (ls : List (Option Text))
    → P k
    → All P ls
    → All P (add_key k ls)
add_key-All P k [] p h = (p, tt)
add_key-All P k (l ∷ ls) p (q, h) = elim (Bool-cases (same_key l k)) [
  | inl e ↦ rw e (q, h)
  | inr e ↦ rw e (q, add_key-All P k ls p h)
]

add_key-IsDistinct :
    (k : Option Text) (ls : List (Option Text)) → IsDistinct ls → IsDistinct (add_key k ls)
add_key-IsDistinct k [] h = (tt, tt)
add_key-IsDistinct k (l ∷ ls) (h, hs) = elim (Bool-cases (same_key l k)) [
  | inl e ↦ rw e (h, hs)
  | inr e ↦ rw e (
    add_key-All (λ m. m ≢ l) k ls (λ same. distinct_of_same_key l k e (sym same)) h,
    add_key-IsDistinct k ls hs,
  )
]

keys_of_set_entry :
    (m : Option Text) (issue : Option FieldIssue) (xs : List (Option FieldIssue))
    → In m (keys (set_entry issue xs)) ↔ ((m ≡ message_of issue) ⊎ In m (keys xs))
keys_of_set_entry m issue xs =
    rw (keys-set_entry issue xs) (add_key-In (message_of issue) m (keys xs))

set_entries_lem :
    (m : Option Text) (entries issues : List (Option FieldIssue))
    → In m (keys (set_entries entries issues)) ↔ (In m (keys entries) ⊎ In m (keys issues))
unfolding set_entries
set_entries_lem m entries [] = (λ i. inl i, λ i. elim i [ inl j ↦ j | inr j ↦ absurd j ])
set_entries_lem m entries (issue ∷ issues) =
    let (rest, tser) = set_entries_lem m (set_entry issue entries) issues in
    let (added, dedda) = keys_of_set_entry m issue entries in
    (
      λ i. elim (rest i) [
        | inl j ↦ elim (added j) [ inl h ↦ inr (inl h) | inr h ↦ inl h ]
        | inr j ↦ inr (inr j)
      ],
      λ i. elim i [
        | inl j ↦ tser (inl (dedda (inr j)))
        | inr j ↦ elim j [ inl h ↦ tser (inl (dedda (inl h))) | inr h ↦ tser (inr h) ]
      ],
    )

set_entries-IsDistinct :
    (entries issues : List (Option FieldIssue))
    → IsDistinct (keys entries)
    → IsDistinct (keys (set_entries entries issues))
unfolding set_entries
set_entries-IsDistinct entries [] h = h
set_entries-IsDistinct entries (issue ∷ issues) h =
    set_entries-IsDistinct (set_entry issue entries) issues
      (rw (keys-set_entry issue entries) (add_key-IsDistinct (message_of issue) (keys entries) h))

-- Of errors with one message, one is left, and no message is lost: the messages of the errors that are
-- left are distinct, and they are those of the given errors, a missing message being one of them.
pub unique_errors_lem :
    (errors : List (Option FieldIssue)) (m : Option Text)
    → IsDistinct (keys (unique_errors errors))
      × (In m (keys (unique_errors errors)) ↔ In m (keys errors))
unfolding unique_errors
unique_errors_lem errors m = (
  set_entries-IsDistinct [] errors tt,
  (
    λ i. elim ((set_entries_lem m [] errors).0 i) [ inl j ↦ absurd j | inr j ↦ j ],
    λ i. (set_entries_lem m [] errors).1 (inr i),
  ),
)
