-- ===== src/Mdx/Tests.antt =====
-- The theorems on slugs and hints at concrete inputs.
use quickspin.Text.Units.{codes, is_digit, one_of}
use quickspin.Prelude.{
  ℕ, ◌≤◌, ◌≡◌, refl, sym, subst, inl, true, false, none, List, [], ◌∷◌, ◌++◌, arith, In,
}
use quickspin.Mdx.Hints.Locked.{
  Presses, rest, press, Presses-In_order, opened, locked, hint_controls-messages,
}
use quickspin.Mdx.Hints.{HintProps, HintEvent, reveal, hint_items, update}
use quickspin.Markup.{say}
use quickspin.Documents.Tests.{ascii}
use quickspin.Mdx.Slug.{slugify, dash}
use quickspin.Mdx.Slug.Laws.{IsSlug, slugify-IsSlug, slugify_idempotent}

dash_no_word : ascii.is_word dash ≡ false
unfolding is_digit
dash_no_word = refl

slugify-IsSlug_example : IsSlug ascii (slugify ascii (codes "A *b*!"))
slugify-IsSlug_example = slugify-IsSlug ascii (codes "A *b*!") dash_no_word

marks_no_words : (c : ℕ) → one_of (codes "`*_") c ≡ true → ascii.is_word c ≡ false
unfolding is_digit
marks_no_words c h = ground arith

lower_slug : ascii.to_lower (slugify ascii (codes "A *b*!")) ≡ slugify ascii (codes "A *b*!")
unfolding slugify is_digit
lower_slug = refl

slugify_idempotent_example :
    slugify ascii (slugify ascii (codes "A *b*!")) ≡ slugify ascii (codes "A *b*!")
slugify_idempotent_example =
    slugify_idempotent ascii dash_no_word marks_no_words (codes "A *b*!") lower_slug

abbrev hint : HintProps HintEvent
hint = record { title = codes "t"; check = none; children = say "x" ∷ [] }

abbrev hints : List (HintProps HintEvent)
hints = hint ∷ hint ∷ []

presses : Presses 2 0 1
unfolding update
presses = press reveal (subst (In reveal) (sym (hint_controls-messages 0 2)) (inl refl)) rest

Presses-In_order_example :
    (1 ≤ 2) × (hint_items 1 0 hints ≡ opened 0 (hint ∷ []) ++ locked 1 (hint ∷ []))
Presses-In_order_example = Presses-In_order hints presses
