-- ===== src/Mdx/Hints/Locked.antt =====
-- Hints open one after the other: what is shown after any presses of the buttons that were offered.
use quickspin.Text.{decimal}
use quickspin.Prelude.{
  ℕ, zero, suc, ◌+◌, ◌≤◌, ◌<◌, ◌≡◌, ◌≢◌, refl, ap, ◌∙◌, subst, inl, inr, Bool, true, false, List,
  [], ◌∷◌, ◌++◌, arith, ltb, if◌then◌else◌, ltb→lt, Bool-cases, length, take, drop, In,
}
use mathlib.Core.Path.{ap₂}
use quickspin.Markup.{Node, text, elem, class_name}
use quickspin.Markup.Queries.{messages}
use quickspin.Mdx.Hints.{
  HintProps, HintEvent, reveal, hide_all, update, hint_body, hint_item, hint_items, hint_controls,
}

-- Presses of buttons that are on the screen, from one count to another.
pub data Presses (hints : ℕ) : ℕ → ℕ → Type 0 where
  rest : {n : ℕ} → Presses hints n n
  press :
      {n m : ℕ} (e : HintEvent)
      → In e (messages (hint_controls n hints))
      → Presses hints (update e n) m
      → Presses hints n m

-- The buttons that are offered: to reveal while a hint is left, to hide once one is open.
pub hint_controls-messages :
    (n hints : ℕ)
    → messages (hint_controls n hints)
      ≡ (if ltb n hints then reveal ∷ [] else []) ++ (if ltb 0 n then hide_all ∷ [] else [])
unfolding hint_controls messages
hint_controls-messages n hints = elim (Bool-cases (ltb n hints)) [
  | inl k ↦ elim (Bool-cases (ltb 0 n)) [ inl l ↦ simp (k, l) | inr l ↦ simp (k, l) ]
  | inr k ↦ elim (Bool-cases (ltb 0 n)) [ inl l ↦ simp (k, l) | inr l ↦ simp (k, l) ]
]

reveal≢hide_all : reveal ≢ hide_all
reveal≢hide_all = λ e. cc

not_offered : (b : Bool) → In reveal (if b then hide_all ∷ [] else []) → ⊥
not_offered true (inl e) = absurd (reveal≢hide_all e)
not_offered true (inr i) = i
not_offered false i = i

abbrev title_line : ℕ → HintProps HintEvent → Node HintEvent
title_line index hint = elem "div" (class_name "hint__title" ∷ []) (
    elem "span" (class_name "hint__number" ∷ []) (text (decimal (index + 1)) ∷ [])
    ∷ elem "span" [] (text hint.title ∷ [])
    ∷ [])

-- The hints from a number on, all with their bodies, or all with their titles alone.
abbrev pub opened : ℕ → List (HintProps HintEvent) → List (Node HintEvent)
opened index [] = []
opened index (hint ∷ hints) =
    elem "li" (class_name "hint--open" ∷ []) (title_line index hint ∷ hint_body hint ∷ [])
    ∷ opened (suc index) hints

abbrev pub locked : ℕ → List (HintProps HintEvent) → List (Node HintEvent)
locked index [] = []
locked index (hint ∷ hints) =
    elem "li" (class_name "hint--locked" ∷ []) (title_line index hint ∷ [])
    ∷ locked (suc index) hints

update-≤ :
    (e : HintEvent) (n hints : ℕ)
    → n ≤ hints
    → In e (messages (hint_controls n hints))
    → update e n ≤ hints
unfolding update
update-≤ hide_all n hints b i = omega arith
update-≤ reveal n hints b i = elim (Bool-cases (ltb n hints)) [
  | inl k ↦ let p = ltb→lt n hints k in omega (arith, p)
  | inr k ↦
      let offered = subst (In reveal) (hint_controls-messages n hints) i in
      absurd (
        not_offered (ltb 0 n) (
          subst
            (λ b.
              In reveal
                ((if b then reveal ∷ [] else []) ++ (if ltb 0 n then hide_all ∷ [] else [])))
            k offered))
]

hint_item-open :
    (revealed index : ℕ) (hint : HintProps HintEvent)
    → ltb index revealed ≡ true
    → hint_item revealed index hint
      ≡ elem "li" (class_name "hint--open" ∷ []) (title_line index hint ∷ hint_body hint ∷ [])
unfolding hint_item
hint_item-open revealed index hint k = simp (k)

hint_item-locked :
    (revealed index : ℕ) (hint : HintProps HintEvent)
    → ltb index revealed ≡ false
    → hint_item revealed index hint
      ≡ elem "li" (class_name "hint--locked" ∷ []) (title_line index hint ∷ [])
unfolding hint_item
hint_item-locked revealed index hint k = simp (k)

ltb-true : (a b : ℕ) → a < b → ltb a b ≡ true
ltb-true a b h = ground arith

ltb-false : (a b : ℕ) → b ≤ a → ltb a b ≡ false
ltb-false a b h = ground arith

hint_items-locked :
    (revealed index : ℕ) (hints : List (HintProps HintEvent))
    → revealed ≤ index
    → hint_items revealed index hints ≡ locked index hints
unfolding hint_items
hint_items-locked revealed index [] h = refl
hint_items-locked revealed index (hint ∷ hints) h =
    ap₂ ◌∷◌ (hint_item-locked revealed index hint (ltb-false index revealed h))
      (hint_items-locked revealed (suc index) hints (omega arith))

hint_items-split :
    (revealed index n : ℕ) (hints : List (HintProps HintEvent))
    → revealed ≡ index + n
    → hint_items revealed index hints
      ≡ opened index (take n hints) ++ locked revealed (drop n hints)
unfolding hint_items
hint_items-split revealed index zero hints e =
    hint_items-locked revealed index hints (omega arith) ∙ ap (λ i. locked i hints) (omega arith)
hint_items-split revealed index (suc n) [] e = refl
hint_items-split revealed index (suc n) (hint ∷ hints) e =
    ap₂ ◌∷◌ (hint_item-open revealed index hint (ltb-true index revealed (omega arith)))
      (hint_items-split revealed (suc index) n hints (omega arith))

Presses-≤ : {hints n m : ℕ} → Presses hints n m → n ≤ hints → m ≤ hints
Presses-≤ rest b = b
Presses-≤ (press e i p) b = Presses-≤ p (update-≤ e _ _ b i)

-- Hints unlock in order: after any presses of buttons that were on the screen, from none open, the
-- open hints are no more than there are, the first ones are open with their bodies, and the others
-- show their titles alone.
pub Presses-In_order :
    (hints : List (HintProps HintEvent)) {n : ℕ}
    → Presses (length hints) 0 n
    → (n ≤ length hints)
      × (hint_items n 0 hints ≡ opened 0 (take n hints) ++ locked n (drop n hints))
Presses-In_order hints {n} p =
    (Presses-≤ p (omega arith), hint_items-split n 0 n hints (omega arith))
