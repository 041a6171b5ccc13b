-- ===== src/Reader/State/Controls.antt =====
-- The search shortcut and the measure of progress.
use quickspin.Prelude.{
  suc, ◌-◌, ◌*◌, ◌≤◌, ◌<◌, ◌≡◌, refl, ◌↔◌, ◌⊎◌, inl, inr, Bool, true, false, ◌||◌, List, [], ◌∷◌,
  arith, ltb, Bool-cases,
}
use quickspin.Text.Unicode.{Unicode}
use quickspin.Documents.Catalog.{ReaderDocument}
use quickspin.Reader.Preferences.{JsonCodec}
use quickspin.Reader.Links.{Browser}
use quickspin.Reader.State.{
  Viewport, progress_of, App, slash, key_down, next_frame, is_collapsed, settle, handle_key_down,
  handle_frame, handle, step, run,
}

module _ (u : Unicode) (b : Browser) (codec : JsonCodec) (first : ReaderDocument)
    (others : List ReaderDocument) where
  -- The search shortcut. Where the focus is in a text field the slash is typed and the reader stays as it
  -- is. Elsewhere it is not typed; the sidebar is neither folded nor locked by reader mode, the next
  -- frame puts the focus into its search field, where a slash is typed. The menu of a small screen is
  -- not opened: it is as it was.
  pub slash_focuses :
      (s : App) (in_other_field : Bool)
      → let pressed = handle u b codec first others (key_down slash in_other_field) s in
        let shown =
          run u b codec first others s (key_down slash in_other_field ∷ next_frame ∷ []) in
        ((s.search_focused || in_other_field ≡ true) × (pressed ≡ (s, false)))
        ⊎ ((s.search_focused || in_other_field ≡ false)
            × (pressed.1 ≡ true)
            × (is_collapsed shown ≡ false)
            × (shown.preferences.reader_mode ≡ false)
            × (shown.search_focused ≡ true)
            × (shown.menu_open ≡ s.menu_open)
            × ((handle u b codec first others (key_down slash false) shown).1 ≡ false))
  unfolding run step handle handle_key_down handle_frame settle is_collapsed
  slash_focuses s in_other_field = elim (Bool-cases (s.search_focused || in_other_field)) [
    | inl k ↦ inl (k, rw (k, handle_key_down) refl)
    | inr k ↦
        inr (k, ground arith, ground arith, ground arith, ground arith, ground arith, ground arith)
  ]

-- A page that does not overflow shows no progress. On one that does, the progress has the sign of the
-- scrolled length, below 0 where the page is scrolled past its top; its amount is 100 percent exactly
-- where that length is what overflows, and more exactly where it is longer.
pub progress_of_lem :
    (v : Viewport)
    → let overflow = (v.scroll_height - v.inner_height) * suc v.scroll_y.den_pred in
      ((v.scroll_height ≤ v.inner_height) × ((progress_of v).num ≡ 0))
      ⊎ ((v.inner_height < v.scroll_height)
          × (0 < (progress_of v).den)
          × ((progress_of v).negative ≡ v.scroll_y.negative)
          × (((progress_of v).num ≡ 100 * (progress_of v).den) ↔ (v.scroll_y.num ≡ overflow))
          × ((100 * (progress_of v).den < (progress_of v).num) ↔ (overflow < v.scroll_y.num)))
unfolding progress_of
progress_of_lem v = elim (Bool-cases (ltb 0 (v.scroll_height - v.inner_height))) [
  | inl k ↦ inr (
    ground (arith, k),
    ground (arith, k),
    ground (arith, k),
    rw (k, progress_of) (λ h. ground arith, λ h. ground arith),
    rw (k, progress_of) (λ h. ground arith, λ h. ground arith),
  )
  | inr k ↦ inl (ground (arith, k), rw (k, progress_of) refl)
]
