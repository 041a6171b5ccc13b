-- ===== src/Documents/Tests.antt =====
-- Runs of the document model on short sources, and the documents' theorems at concrete inputs.
use quickspin.Text.{text_eq, split, strip_suffix, strip_extension}
use quickspin.Text.Units.{Text, codes, is_digit}
use quickspin.Prelude.{
  ℕ, ◌+◌, ◌*◌, ◌/◌, ◌≤◌, ◌<◌, ◌≡◌, ◌≢◌, refl, subst, ◌⊎◌, inl, inr, true, false, ◌&&◌, ◌||◌, Option,
  some, List, [], ◌∷◌, ◌++◌, map, arith, ltb, leb, if◌then◌else◌, length, In, All,
}
use quickspin.Documents.Catalog.Order.{IsCollation, sort_documents-IsSorted, IsSorted}
use quickspin.Documents.Roadmap.{
  future, completed, ok, roadmap_for, order_for, nav_title_of, number_text,
}
use quickspin.Documents.Catalog.Resolve.{
  resolve_document-spelled, resolve_document_total, HasDistinctRoutes, IsPlain, md,
}
use quickspin.Documents.Roadmap.Numbers.{order_for-roadmap_for, HasStatus}
use quickspin.Documents.Source.Headings.{headings_for-append, headings_for-IsHeading, IsHeading}
use quickspin.Documents.Source.Description.{description_for_shape, IsClean, IsSpaced}
use quickspin.Documents.Source.Minutes.{reading_minutes_for_bounds}
use quickspin.Documents.Catalog.{ReaderDocument, resolve_document, normalize_route, sort_documents}
use Prim.Native.Nat.{Ordering}
use mathlib.Core.List.{Perm}
use quickspin.Text.Equality.{text_eq_self}
use quickspin.Text.Unicode.{Unicode}
use quickspin.Mdx.Slug.{slugify}
use quickspin.Documents.Source.{
  title_for, description_for, headings_for, reading_minutes_for, word_count,
}

abbrev pub ascii_lower : ℕ → ℕ
ascii_lower c = if leb b'A' c && leb c b'Z' then c + 32 else c

abbrev pub ascii : Unicode
ascii = record {
  is_word = λ c. is_digit c || leb b'a' (ascii_lower c) && leb (ascii_lower c) b'z';
  to_lower = map ascii_lower;
}

slug_test : slugify ascii (codes "  What's `done`, and_how? ") ≡ codes "what-s-done-andhow"
unfolding slugify is_digit
slug_test = refl

title_test :
    (title_for (codes "plans/open/a.mdx") (codes "x\n#  01 — *Hi* `there` \n# no")
      ≡ codes "01 — Hi there")
    × (title_for (codes "plans/open/07-sbxd_api.mdx") (codes "x\n## no") ≡ codes "07 sbxd api")
unfolding title_for
title_test = (refl, refl)

roadmap_test :
    (roadmap_for (codes "plans/closed/02-a.mdx") (codes "x {/* Completed 2026-07-01. */}")
      ≡ ok (completed (some (codes "2026-07-01")) (codes "02")))
    × (roadmap_for (codes "plans/open/7-a.mdx") [] ≡ ok (future (codes "7")))
    × (order_for (codes "plans/open/07-a.mdx") ≡ 7)
    × (nav_title_of (codes "01 — Linux lab") ≡ codes "Linux lab")
unfolding roadmap_for order_for nav_title_of
roadmap_test = (refl, refl, refl, refl)

headings_test :
    map (λ h. h.id) (headings_for ascii (codes "# a\n## B [c](d) e\n#### x\n### y  z"))
    ≡ codes "b-c-e" ∷ codes "y-z" ∷ []
unfolding headings_for is_digit
headings_test = refl

count_test : (word_count (codes "a <b c> d ```e f g``` h\n") ≡ 3) × (reading_minutes_for [] ≡ 1)
unfolding word_count reading_minutes_for
count_test = (refl, refl)

description_test :
    description_for (
      codes
        "# t\n\nshort\n \n  A long [paragraph](http://x) with *marks* that goes on for more\nthan sixty units.\n\nz")
    ≡ codes "A long paragraph with marks that goes on for more than sixty units."
unfolding description_for
description_test = refl

-- Two documents of a small list.
abbrev pub page : Text → ReaderDocument
page route = record {
  path = route ++ codes ".mdx";
  route = route;
  title = route;
  nav_title = route;
  roadmap = future (codes "1");
  description = [];
  order = 1;
  reading_minutes = 1;
  headings = [];
  source = route;
  search_text = route;
}

abbrev pub first_page : ReaderDocument
first_page = page (codes "plans/open/01-a")

abbrev pub second_page : ReaderDocument
second_page = page (codes "plans/closed/02-b")

abbrev pub two_pages : List ReaderDocument
two_pages = first_page ∷ second_page ∷ []

pub text_ne : (s t : Text) → text_eq s t ≡ false → s ≢ t
text_ne s t k e =
    let same : text_eq s t ≡ true = subst (λ v. text_eq s v ≡ true) e (text_eq_self s) in
    ground arith

pub distinct_routes : HasDistinctRoutes two_pages
distinct_routes = ((text_ne second_page.route first_page.route refl, tt), (tt, tt))

pub plain_first : IsPlain first_page.route
unfolding strip_suffix strip_extension
plain_first = record { nonempty = λ e. cc; unled = refl; unended = refl; unextended = refl }

pub plain_second : IsPlain second_page.route
unfolding strip_suffix strip_extension
plain_second = record { nonempty = λ e. cc; unled = refl; unended = refl; unextended = refl }

resolve_document-spelled_example :
    resolve_document two_pages (some (codes "/plans/closed/02-b.md/")) ≡ some second_page
resolve_document-spelled_example =
    resolve_document-spelled two_pages second_page true md true distinct_routes (inr (inl refl))
      plain_second

resolve_document_total_example :
    (found : ReaderDocument) × (resolve_document two_pages (some (codes "plans")) ≡ some found)
    × In found two_pages
    × ((found.route ≡ normalize_route (some (codes "plans"))) ⊎ (found ≡ first_page))
resolve_document_total_example =
    resolve_document_total first_page (second_page ∷ []) (some (codes "plans"))

abbrev sources : Text → Option Text
sources _ = some (codes "# 01 — A")

abbrev modules : List Text
modules = codes "../plans/open/07-sbxd-api.mdx" ∷ codes "../plans/closed/01-lab.mdx" ∷ []

-- An order by length.
abbrev over : ℕ → ℕ → Ordering
over m n = if ltb n m then Ordering.gt else Ordering.lt

over_total : (m n : ℕ) → over m n ≡ Ordering.gt → over n m ≢ Ordering.gt
over_total m n h = λ k. ground (arith, h, k)

over_transitive :
    (m n k : ℕ) → over m n ≢ Ordering.gt → over n k ≢ Ordering.gt → over m k ≢ Ordering.gt
over_transitive m n k h h' = λ e. ground (arith, h, h', e)

abbrev by_length : Text → Text → Ordering
by_length s t = over (length s) (length t)

by_length-IsCollation : IsCollation by_length
by_length-IsCollation = record {
  total = λ s t. over_total (length s) (length t);
  transitive = λ s t v. over_transitive (length s) (length t) (length v);
}

sort_documents-IsSorted_example :
    IsSorted by_length (sort_documents by_length two_pages)
    × Perm (sort_documents by_length two_pages) two_pages
sort_documents-IsSorted_example = sort_documents-IsSorted by_length by_length-IsCollation two_pages

order_for-roadmap_for_example :
    HasStatus true (future (codes "07")) × (order_for (codes "plans/open/07-a.mdx") ≡ 7)
unfolding roadmap_for number_text
order_for-roadmap_for_example = order_for-roadmap_for true (codes "07-a.mdx") [] (ground arith) refl

headings_for-append_example :
    headings_for ascii (codes "## a\n```\n## b\n```")
    ≡ headings_for ascii (codes "## a\n```") ++ headings_for ascii (codes "## b\n```")
headings_for-append_example = headings_for-append ascii (codes "## a\n```") (codes "## b\n```")

headings_for-IsHeading_example :
    All (IsHeading ascii) (headings_for ascii (codes "# a\n## b"))
    × (length (headings_for ascii (codes "# a\n## b")) ≤ 2)
unfolding split
headings_for-IsHeading_example = headings_for-IsHeading ascii (codes "# a\n## b")

description_for_shape_example :
    (length (description_for (codes "# a\n\n*b*")) ≤ 190)
    × All IsClean (description_for (codes "# a\n\n*b*"))
    × IsSpaced true (description_for (codes "# a\n\n*b*"))
description_for_shape_example = description_for_shape (codes "# a\n\n*b*")

reading_minutes_for_bounds_example :
    (reading_minutes_for (codes "a b") ≡ (word_count (codes "a b") + 219) / 220)
    × (1 ≤ reading_minutes_for (codes "a b"))
    × (word_count (codes "a b") ≤ 220 * reading_minutes_for (codes "a b"))
    × (220 * reading_minutes_for (codes "a b") < word_count (codes "a b") + 220)
reading_minutes_for_bounds_example = reading_minutes_for_bounds (codes "a b")
