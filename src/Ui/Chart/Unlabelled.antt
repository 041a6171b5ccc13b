-- ===== src/Ui/Chart/Unlabelled.antt =====
-- Where a tooltip loses its label (docs/src/components/ui/chart.tsx).
use quickspin.Prelude.{ℕ, ◌≡◌, refl, inl, inr, true, false, some, List, [], ◌∷◌, Bool-cases}
use quickspin.Markup.{Node}
use quickspin.Ui.Styling.{Styling, cn}
use quickspin.Ui.Chart.{Entries, ChartConfig, Environment}
use quickspin.Ui.Chart.Tooltip.{
  TooltipProps, is_dot, is_listed, formatted, item_body, indicator_mark, tooltip_item,
  tooltip_content,
}

module _ {M : Type 0} (styling : Styling) (env : Environment) (config : ChartConfig M) where
  tooltip_item-formatted :
      (p : TooltipProps M) (l k : List (Node M)) (index : ℕ) (item : Entries) (node : Node M)
      → formatted styling p index item ≡ some node
      → tooltip_item styling env config p l index item
        ≡ tooltip_item styling env config (record p { hide_label = true }) k index item
  unfolding tooltip_item item_body indicator_mark cn
  tooltip_item-formatted p l k index item node h = rw (h, tooltip_item) refl

  -- With one item, marked by a line or dashes, that the caller's function shows, the tooltip is the
  -- same whether its label is hidden or not.
  pub tooltip_content-hide_label :
      (p : TooltipProps M) (item : Entries) (node : Node M)
      → p.payload ≡ item ∷ []
      → is_dot p.indicator ≡ false
      → formatted styling p 0 item ≡ some node
      → tooltip_content styling env config p
        ≡ tooltip_content styling env config (record p { hide_label = true })
  unfolding tooltip_content cn
  tooltip_content-hide_label p item node one mark shown =
      rw (one, tooltip_content)
        (rw (mark, tooltip_content)
          (elim (Bool-cases (is_listed item)) [
            | inl e ↦
                rw (e, tooltip_content)
                  (rw
                    (tooltip_item-formatted (record p { payload = item ∷ [] }) _ [] 0 item node
                      shown)
                    refl)
            | inr e ↦ rw (e, tooltip_content) refl
          ]))
