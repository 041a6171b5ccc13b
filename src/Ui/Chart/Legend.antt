-- ===== src/Ui/Chart/Legend.antt =====
-- `ChartLegendContent` of docs/src/components/ui/chart.tsx.
use quickspin.Text.Units.{Text, codes}
use quickspin.Prelude.{
  Bool, Option, none, some, List, [], ◌∷◌, map, ◌==◌, if◌then◌else◌, get_or, length, keep,
}
use quickspin.Markup.{attr, Node, el, nil, elem, class_name, lit, optional}
use quickspin.Ui.Styling.{Styling, cn}
use quickspin.Ui.Chart.{
  string, object, Entries, ItemConfig, ChartConfig, Environment, own_field, coalesce, to_text,
  get_payload_config,
}
use quickspin.Ui.Chart.Tooltip.{is_listed, label_of, icon_of, style_text}

-- `at_top` is whether `verticalAlign` is "top".
pub record LegendProps : Type 0 where
  pub classes : Option Text
  pub hide_icon : Bool
  pub payload : List Entries
  pub at_top : Bool
  pub name_key : Option Text

module _ {M : Type 0} (styling : Styling) where
  abbrev swatch : Entries → Node M
  swatch item =
      elem "div"
        (class_name "h-2 w-2 shrink-0 rounded-[2px]"
          ∷ optional "style backgroundColor" (style_text (own_field (codes "color") item)))
        []

  abbrev legend_mark : LegendProps → Option (ItemConfig M) → Entries → Node M
  legend_mark p found item = elim (icon_of found) [
    | none ↦ swatch item
    | some icon ↦ if p.hide_icon then swatch item else el icon [] nil
  ]

  unfoldable pub legend_item : Environment → ChartConfig M → LegendProps → Entries → Node M
  unfolding get_payload_config cn
  legend_item env config p item =
      let own = to_text (coalesce (own_field (codes "dataKey") item) (string (codes "value"))) in
      let found = get_payload_config env config (object item) (get_or p.name_key own) in
      elem "div"
        (attr (lit "className") (
            cn styling (
              some (
                lit
                  "flex items-center gap-1.5 [&>svg]:h-3 [&>svg]:w-3 [&>svg]:text-muted-foreground")
              ∷ []))
          ∷ [])
        (legend_mark p found item ∷ elim (label_of found) [ none ↦ [] | some node ↦ node ∷ [] ])

  unfoldable pub legend_content : Environment → ChartConfig M → LegendProps → Option (Node M)
  unfolding legend_item cn
  legend_content env config p =
      if length p.payload == 0
      then none
      else some (
          elem "div"
            (attr (lit "className") (
                cn styling (
                  some (lit "flex items-center justify-center gap-4")
                  ∷ some (if p.at_top then lit "pb-3" else lit "pt-3")
                  ∷ p.classes
                  ∷ []))
              ∷ [])
            (map (legend_item env config p) (keep is_listed p.payload)))
