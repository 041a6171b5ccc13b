-- ===== src/Documents/Catalog/Order.antt =====
-- The order of the documents.
use quickspin.Text.Units.{Text}
use quickspin.Prelude.{
  ◌<◌, ◌⊎◌, ◌==◌, ◌≡◌, ◌≢◌, inl, inr, Bool, true, false, List, [], ◌∷◌, arith, Bool-cases, All,
}
use Prim.Native.Nat.{Ordering}
use mathlib.Core.List.{Perm}
use mathlib.Core.List.Perm
use quickspin.Documents.Catalog.{
  ReaderDocument, comparator, in_order, insert_document, sort_documents,
}

-- What the sort relies on of `localeCompare`: read as "not after", it is a total preorder.
pub record IsCollation (locale_compare : Text → Text → Ordering) : Type 0 where
  pub total : (s t : Text) → locale_compare s t ≡ Ordering.gt → locale_compare t s ≢ Ordering.gt
  pub transitive :
      (s t v : Text)
      → locale_compare s t ≢ Ordering.gt
      → locale_compare t v ≢ Ordering.gt
      → locale_compare s v ≢ Ordering.gt

module _ (locale_compare : Text → Text → Ordering) where
  abbrev le : ReaderDocument → ReaderDocument → Bool
  le = in_order locale_compare

  -- A document may stand before another: its number is smaller, or it is the same and its title does
  -- not come after the other's.
  abbrev pub Precedes : ReaderDocument → ReaderDocument → Type 0
  Precedes d e =
      (d.order < e.order) ⊎ ((d.order ≡ e.order) × (locale_compare d.title e.title ≢ Ordering.gt))

  abbrev pub IsSorted : List ReaderDocument → Type 0
  IsSorted [] = Unit
  IsSorted (d ∷ ds) = All (Precedes d) ds × IsSorted ds

  -- The order that the comparator decides is that one.
  in_order-Precedes : (d e : ReaderDocument) → in_order locale_compare d e ≡ true → Precedes d e
  unfolding in_order comparator
  in_order-Precedes d e h = elim (Bool-cases (d.order == e.order)) [
    | inl k ↦ inr (ground (arith, k), λ g. ground (arith, h, k, g))
    | inr k ↦ inl (ground (arith, h, k))
  ]

  abbrev IsChain : List ReaderDocument → Type 0
  IsChain [] = Unit
  IsChain (d ∷ ds) = All (λ e. in_order locale_compare d e ≡ true) ds × IsChain ds

  Precedes-All :
      (d : ReaderDocument) (ds : List ReaderDocument)
      → All (λ e. in_order locale_compare d e ≡ true) ds
      → All (Precedes d) ds
  Precedes-All d [] h = tt
  Precedes-All d (e ∷ es) (h, hs) = (in_order-Precedes d e h, Precedes-All d es hs)

  chain-IsSorted : (ds : List ReaderDocument) → IsChain ds → IsSorted ds
  chain-IsSorted [] h = tt
  chain-IsSorted (d ∷ ds) (h, hs) = (Precedes-All d ds h, chain-IsSorted ds hs)

  insert-All :
      (P : ReaderDocument → Type 0) (d : ReaderDocument) (ds : List ReaderDocument)
      → P d
      → All P ds
      → All P (insert_document locale_compare d ds)
  unfolding insert_document
  insert-All P d [] p h = (p, tt)
  insert-All P d (e ∷ es) p (q, h) = elim (Bool-cases (in_order locale_compare d e)) [
    | inl k ↦ rw (k, insert_document) (p, (q, h))
    | inr k ↦ rw (k, insert_document) (q, insert-All P d es p h)
  ]

  insert-perm :
      (d : ReaderDocument) (ds : List ReaderDocument)
      → Perm (insert_document locale_compare d ds) (d ∷ ds)
  unfolding insert_document
  insert-perm d [] = Perm.refl (d ∷ [])
  insert-perm d (e ∷ es) = elim (Bool-cases (in_order locale_compare d e)) [
    | inl k ↦ rw (k, insert_document) (Perm.refl (d ∷ e ∷ es))
    | inr k ↦
        rw (k, insert_document) (Perm.trans (Perm.cons e (insert-perm d es)) (Perm.swap d e es))
  ]

  sort-perm : (ds : List ReaderDocument) → Perm (sort_documents locale_compare ds) ds
  unfolding sort_documents
  sort-perm [] = Perm.refl []
  sort-perm (d ∷ ds) =
      Perm.trans (insert-perm d (sort_documents locale_compare ds)) (Perm.cons d (sort-perm ds))

  module _ (laws : IsCollation locale_compare) where
    open laws use {total, transitive}

    le_total :
        (d e : ReaderDocument)
        → in_order locale_compare d e ≡ false
        → in_order locale_compare e d ≡ true
    unfolding in_order comparator
    le_total d e h = ground (arith, total d.title e.title)

    le_trans :
        (d e f : ReaderDocument)
        → in_order locale_compare d e ≡ true
        → in_order locale_compare e f ≡ true
        → in_order locale_compare d f ≡ true
    unfolding in_order comparator
    le_trans d e f h k = ground (arith, transitive d.title e.title f.title)

    le-All :
        (d e : ReaderDocument) (es : List ReaderDocument)
        → in_order locale_compare d e ≡ true
        → All (λ f. in_order locale_compare e f ≡ true) es
        → All (λ f. in_order locale_compare d f ≡ true) es
    le-All d e [] h k = tt
    le-All d e (f ∷ es) h (k, ks) = (le_trans d e f h k, le-All d e es h ks)

    insert-IsChain :
        (d : ReaderDocument) (ds : List ReaderDocument)
        → IsChain ds
        → IsChain (insert_document locale_compare d ds)
    unfolding insert_document
    insert-IsChain d [] h = (tt, tt)
    insert-IsChain d (e ∷ es) (h, hs) = elim (Bool-cases (in_order locale_compare d e)) [
      | inl k ↦ rw (k, insert_document) ((k, le-All d e es k h), (h, hs))
      | inr k ↦
          rw (k, insert_document)
            (
              insert-All (λ f. in_order locale_compare e f ≡ true) d es (le_total d e k) h,
              insert-IsChain d es hs,
            )
    ]

    sort_lem : (ds : List ReaderDocument) → IsChain (sort_documents locale_compare ds)
    unfolding sort_documents
    sort_lem [] = tt
    sort_lem (d ∷ ds) = insert-IsChain d (sort_documents locale_compare ds) (sort_lem ds)

    -- The sorted list holds the same documents, and of any two in it the one that stands first has the
    -- smaller number, or the same number and a title that does not come after the other's. This rests on
    -- `localeCompare` being a total preorder.
    pub sort_documents-IsSorted :
        (ds : List ReaderDocument)
        → IsSorted (sort_documents locale_compare ds) × Perm (sort_documents locale_compare ds) ds
    sort_documents-IsSorted ds =
        (chain-IsSorted (sort_documents locale_compare ds) (sort_lem ds), sort-perm ds)
