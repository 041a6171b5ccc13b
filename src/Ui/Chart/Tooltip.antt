-- ===== src/Ui/Chart/Tooltip.antt =====
-- `ChartTooltipContent` of docs/src/components/ui/chart.tsx.
use quickspin.Text.{text_eq}
use quickspin.Text.Units.{Text, codes}
use quickspin.Prelude.{
  ℕ, ◌+◌, String, Bool, true, false, not, ◌&&◌, ◌||◌, Option, none, some, List, [], ◌∷◌, ◌++◌, ◌==◌,
  if◌then◌else◌, ◌>>=◌, get_or, or_else, length, keep,
}
use quickspin.Markup.{attr, Node, el, text, nil, elem, class_name, lit, optional, when}
use quickspin.Ui.Styling.{Styling, cn}
use quickspin.Ui.Chart.{
  Value, undefined, null_value, boolean, number, string, object, Entries, ItemConfig, ChartConfig,
  Environment, own_field, field_of, text_of, coalesce, is_truthy, to_text, config_at,
  get_payload_config,
}

pub data Indicator : Type 0 where
  line dot dashed : Indicator

-- The items are objects. Of the label only a text counts, and a missing payload is as an empty one.
pub record TooltipProps (M : Type 0) : Type 0 where
  pub active : Bool
  pub payload : List Entries
  pub classes : Option Text
  pub indicator : Indicator
  pub hide_label : Bool
  pub hide_indicator : Bool
  pub label : Option Text
  pub label_formatter : Option (Option (Node M) → List Entries → Node M)
  pub label_classes : Option Text
  -- takes the value, the name, the item, its place and its own payload
  pub formatter : Option (Value → Value → Entries → ℕ → Value → Node M)
  pub color : Option Text
  pub name_key : Option Text
  pub label_key : Option Text

abbrev pub is_dot : Indicator → Bool
is_dot dot = true
is_dot _ = false

abbrev pub is_line : Indicator → Bool
is_line line = true
is_line _ = false

abbrev pub is_dashed : Indicator → Bool
is_dashed dashed = true
is_dashed _ = false

abbrev pub is_listed : Entries → Bool
is_listed item = elim (text_of (own_field (codes "type") item)) [
  | none ↦ true
  | some t ↦ not (text_eq t (codes "none"))
]

abbrev pub is_nullish : Value → Bool
is_nullish undefined = true
is_nullish null_value = true
is_nullish _ = false

abbrev pub is_undefined : Value → Bool
is_undefined undefined = true
is_undefined _ = false

abbrev pub given_text : Option Text → Value
given_text none = undefined
given_text (some t) = string t

-- A property of a style.
abbrev pub style_text : Value → Option Text
style_text undefined = none
style_text null_value = none
style_text (boolean _) = none
style_text v = some (to_text v)

abbrev pub if_class : Bool → String → Option Text
if_class b classes = if b then some (lit classes) else none

module _ {M : Type 0} where
  -- A text or a number as a child; a name is nothing else.
  abbrev pub node_of : Value → List (Node M)
  node_of (number shown) = text shown ∷ []
  node_of (string t) = text t ∷ []
  node_of _ = []

  abbrev pub is_shown : Option (Node M) → Bool
  is_shown none = false
  is_shown (some (text [])) = false
  is_shown (some _) = true

  abbrev pub label_of : Option (ItemConfig M) → Option (Node M)
  label_of found = found >>= λ item. item.label

  abbrev pub icon_of : Option (ItemConfig M) → Option Text
  icon_of found = found >>= λ item. item.icon

  abbrev pub plain_label : TooltipProps M → Option Text
  plain_label p = if text_eq (get_or p.label_key []) [] then p.label else none

  unfoldable pub label_value :
      Environment → ChartConfig M → TooltipProps M → Entries → Option (Node M)
  unfolding get_payload_config config_at
  label_value env config p item =
      let own = to_text (
        coalesce (own_field (codes "dataKey") item)
          (coalesce (own_field (codes "name") item) (string (codes "value")))) in
      let found = get_payload_config env config (object item) (get_or p.label_key own) in
      elim (plain_label p) [
        | some t ↦ or_else (label_of (config_at env config t)) (some (text t))
        | none ↦ label_of found
      ]

module _ {M : Type 0} (styling : Styling) where
  abbrev label_box : TooltipProps M → List (Node M) → Node M
  label_box p children =
      elem "div"
        (attr (lit "className")
            (styling.tw_merge (styling.clsx (some (lit "font-medium") ∷ p.label_classes ∷ [])))
          ∷ [])
        children

  unfoldable pub tooltip_label : Environment → ChartConfig M → TooltipProps M → List (Node M)
  unfolding label_value
  tooltip_label env config p = elim p.payload [
    | [] ↦ []
    | item ∷ _ ↦
        let value = label_value env config p item in
        if p.hide_label then [] else elim p.label_formatter [
          | some format ↦ label_box p (format value p.payload ∷ []) ∷ []
          | none ↦ elim value [
            | none ↦ []
            | some node ↦ when (is_shown (some node)) (label_box p (node ∷ []) ∷ [])
          ]
        ]
  ]

  abbrev pub nest_label : TooltipProps M → Bool
  nest_label p = length p.payload == 1 && not (is_dot p.indicator)

  abbrev indicator_color : TooltipProps M → Entries → Value
  indicator_color p item = coalesce (given_text p.color) (
      coalesce (field_of (codes "fill") (own_field (codes "payload") item))
        (own_field (codes "color") item))

  unfoldable pub indicator_mark : TooltipProps M → Entries → Node M
  unfolding cn
  indicator_mark p item =
      let shade = style_text (indicator_color p item) in
      elem "div"
        (attr (lit "className") (
              cn styling (
                some (lit "shrink-0 rounded-[2px] border-(--color-border) bg-(--color-bg)")
                ∷ if_class (is_dot p.indicator) "h-2.5 w-2.5"
                ∷ if_class (is_line p.indicator) "w-1"
                ∷ if_class (is_dashed p.indicator) "w-0 border-[1.5px] border-dashed bg-transparent"
                ∷ if_class (nest_label p && is_dashed p.indicator) "my-0.5"
                ∷ []))
            ∷ optional "style --color-bg" shade
          ++ optional "style --color-border" shade)
        []

  unfoldable pub item_body :
      Environment → TooltipProps M → List (Node M) → Option (ItemConfig M) → Entries → Node M
  unfolding cn
  item_body env p label found item =
      let value = own_field (codes "value") item in
      elem "div"
        (attr (lit "className") (
            cn styling (
              some (lit "flex flex-1 justify-between leading-none")
              ∷ some (if nest_label p then lit "items-end" else lit "items-center")
              ∷ []))
          ∷ [])
        (elem "div" (class_name "grid gap-1.5" ∷ []) (
            when (nest_label p) label
            ++ elem "span" (class_name "text-muted-foreground" ∷ []) (elim (label_of found) [
              | some node ↦ node ∷ []
              | none ↦ node_of (own_field (codes "name") item)
            ])
              ∷ [])
          ∷ when (not (is_nullish value)) (
              elem "span" (class_name "font-mono font-medium text-foreground tabular-nums" ∷ [])
                (text (elim value [ number shown ↦ env.to_locale shown | v ↦ to_text v ]) ∷ [])
              ∷ []))

  -- What the caller's function shows: it is called for an item with a value and a name.
  abbrev pub formatted : TooltipProps M → ℕ → Entries → Option (Node M)
  formatted p index item =
      let value = own_field (codes "value") item in
      let name = own_field (codes "name") item in
      p.formatter >>= λ format.
      if not (is_undefined value) && is_truthy name
      then some (format value name item index (own_field (codes "payload") item))
      else none

  abbrev item_mark : TooltipProps M → Option (ItemConfig M) → Entries → List (Node M)
  item_mark p found item = elim (icon_of found) [
    | some icon ↦ el icon [] nil ∷ []
    | none ↦ when (not p.hide_indicator) (indicator_mark p item ∷ [])
  ]

  unfoldable pub tooltip_item :
      Environment → ChartConfig M → TooltipProps M → List (Node M) → ℕ → Entries → Node M
  unfolding get_payload_config item_body cn indicator_mark
  tooltip_item env config p label index item =
      let name = own_field (codes "name") item in
      let own =
        to_text
          (coalesce name (coalesce (own_field (codes "dataKey") item) (string (codes "value")))) in
      let found = get_payload_config env config (object item) (get_or p.name_key own) in
      let shown = item_mark p found item ++ item_body env p label found item ∷ [] in
      elem "div"
        (attr (lit "className") (
            cn styling (
              some (
                lit
                  "flex w-full flex-wrap items-stretch gap-2 [&>svg]:h-2.5 [&>svg]:w-2.5 [&>svg]:text-muted-foreground")
              ∷ if_class (is_dot p.indicator) "items-center"
              ∷ []))
          ∷ [])
        (elim (formatted p index item) [ none ↦ shown | some node ↦ node ∷ [] ])

  abbrev pub tooltip_items :
      Environment
      → ChartConfig M
      → TooltipProps M
      → List (Node M)
      → ℕ
      → List Entries
      → List (Node M)
  tooltip_items env config p label index [] = []
  tooltip_items env config p label index (item ∷ items) =
      tooltip_item env config p label index item
      ∷ tooltip_items env config p label (index + 1) items

  unfoldable pub tooltip_content : Environment → ChartConfig M → TooltipProps M → Option (Node M)
  unfolding tooltip_label tooltip_item cn
  tooltip_content env config p =
      let label = tooltip_label env config p in
      let items = keep is_listed p.payload in
      if not p.active || length p.payload == 0
      then none
      else some (
          elem "div"
            (attr (lit "className") (
                cn styling (
                  some (
                    lit
                      "grid min-w-32 items-start gap-1.5 rounded-none border border-border/50 bg-background px-2.5 py-1.5 text-xs shadow-xl")
                  ∷ p.classes
                  ∷ []))
              ∷ [])
            (when (not (nest_label p)) label
              ++ elem "div" (class_name "grid gap-1.5" ∷ [])
                  (tooltip_items env config p label 0 items)
                ∷ []))
