-- ===== src/Ui/Chart/Sheet.antt =====
-- The style sheet of a chart (docs/src/components/ui/chart.tsx).
use quickspin.Text.Units.{Text, codes, newline}
use quickspin.Markup.{attr, elem, lit}
use quickspin.Text.{text_eq, join}
use quickspin.Text.Equality.{eq_of_text_eq}
use quickspin.Prelude.{
  ◌≡◌, ◌≢◌, refl, sym, ap, subst, ◌↔◌, ◌⊎◌, inl, inr, Bool, true, false, not, none, some, List, [],
  ◌∷◌, ◌++◌, append-nil, arith, if◌then◌else◌, Bool-cases, Option-cases, In, All,
}
use quickspin.Ui.Chart.{
  ItemConfig, ChartConfig, is_colored, color_config, chart_style, color_in, color_line, color_lines,
  theme_block,
}

nil_or_cons : {A : Type 0} (xs : List A) → (xs ≡ []) ⊎ ((x : A) × (rest : List A) × (xs ≡ x ∷ rest))
nil_or_cons [] = inl refl
nil_or_cons (x ∷ xs) = inr (x, xs, refl)

second_place : (s t : Text) → s ++ newline ∷ t ≡ (s ++ newline ∷ []) ++ (t ++ [])
second_place [] t = ap (λ r. newline ∷ r) (sym (append-nil t))
second_place (c ∷ s) t = ap (λ r. c ∷ r) (second_place s t)

blank : (color : Text) → color ≡ [] → not (text_eq color []) ≡ false
blank color e = rw e refl

filled : (color : Text) → color ≢ [] → not (text_eq color []) ≡ true
filled [] ne = absurd (ne refl)
filled (c ∷ color) ne = refl

All-map :
    {A : Type 0} {P Q : A → Type 0} → ((x : A) → P x → Q x) → (xs : List A) → All P xs → All Q xs
All-map f [] h = tt
All-map f (x ∷ xs) (h, hs) = (f x h, All-map f xs hs)

-- The text of a block: the selector of a theme, and its lines between braces.
abbrev pub block_text : Text → Bool → List Text → Text
block_text id dark lines =
    newline ∷ (if dark then codes ".dark" else [])
    ++ codes " [data-chart="
    ++ id
    ++ codes "] {"
    ++ newline ∷ join newline lines
    ++ newline ∷ codes "}"
    ++ newline ∷ []

-- The sheet has a block for the theme in which one of the lines sets the variable of the key.
abbrev pub Declares : Text → Bool → Text → Text → Text → Type 0
Declares id dark key color sheet =
    (before : Text) × (after : Text) × (lines : List Text) × (sheet
      ≡ before ++ (block_text id dark lines ++ after))
    × In (codes "  --color-" ++ key ++ codes ": " ++ color ++ codes ";") lines

module _ {M : Type 0} where
  color_config_nil :
      (config : ChartConfig M)
      → (color_config config ≡ []) ↔ All (λ e. is_colored e.1 ≡ false) config
  color_config_nil [] = (λ h. tt, λ h. refl)
  color_config_nil (e ∷ config) = elim (Bool-cases (is_colored e.1)) [
    | inl c ↦ rw c (λ h. absurd (cc), λ h. absurd (cc))
    | inr c ↦
        rw c (λ h. (refl, (color_config_nil config).0 h), λ h. (color_config_nil config).1 h.1)
  ]

  bare_style_iff :
      (id : Text) (config : ChartConfig M)
      → (chart_style id config ≡ []) ↔ All (λ e. is_colored e.1 ≡ false) config
  unfolding chart_style
  bare_style_iff id config = elim (nil_or_cons (color_config config)) [
    | inl e ↦ rw (e, chart_style) (λ h. (color_config_nil config).0 e, λ h. refl)
    | inr (x, rest, e) ↦
        rw (e, chart_style)
          (λ h. absurd (cc), λ h. let none_left = (color_config_nil config).1 h in absurd (cc))
  ]

  -- No theme, and no colour or an empty one.
  abbrev pub IsColorless : ItemConfig M → Type 0
  IsColorless item = (item.theme ≡ none) × ((item.color ≡ none) ⊎ (item.color ≡ some []))

  is_colored_iff : (item : ItemConfig M) → (is_colored item ≡ false) ↔ IsColorless item
  is_colored_iff item = elim (Option-cases item.theme) [
    | inr (colors, e) ↦ rw e (λ h. absurd (cc), λ h. absurd (cc h.0))
    | inl e ↦ elim (Option-cases item.color) [
      | inl f ↦ rw e (rw f (λ h. (refl, inl refl), λ h. refl))
      | inr (color, f) ↦ rw e (
          rw f (
            λ h. (refl, inr (ap some (eq_of_text_eq color [] (ground arith)))),
            λ h. elim h.1 [ inl g ↦ absurd (cc) | inr g ↦ blank color (ground arith) ],
          ))
    ]
  ]

  -- A chart has no style sheet exactly if each entry has no theme, and no colour or an empty one.
  pub chart_style_iff :
      (id : Text) (config : ChartConfig M)
      → (chart_style id config ≡ []) ↔ All (λ e. IsColorless e.1) config
  chart_style_iff id config =
      let (to, of) = bare_style_iff id config in
      (
        λ h. All-map (λ e. (is_colored_iff e.1).0) config (to h),
        λ h. of (All-map (λ e. (is_colored_iff e.1).1) config h),
      )

  -- The colour that an entry has in a theme, dark or not: that of its theme, or the one that it has for
  -- both.
  abbrev pub HasColor : Bool → ItemConfig M → Text → Type 0
  HasColor dark item color =
      ((light : Text) × (night : Text) × (item.theme ≡ some (light, night))
        × (color ≡ (if dark then night else light)))
      ⊎ ((item.theme ≡ none) × (item.color ≡ some color))

  color_in-HasColor :
      (dark : Bool) (item : ItemConfig M) (color : Text)
      → HasColor dark item color
      → color_in dark item ≡ some color
  color_in-HasColor dark item color (inl (light, night, e, same)) = rw e (rw same refl)
  color_in-HasColor dark item color (inr (e, same)) = rw e same

  is_colored-HasColor :
      (dark : Bool) (item : ItemConfig M) (color : Text)
      → HasColor dark item color
      → color ≢ []
      → is_colored item ≡ true
  is_colored-HasColor dark item color (inl (light, night, e, same)) ne = rw e refl
  is_colored-HasColor dark item color (inr (e, same)) ne = rw e (rw same (filled color ne))

  color_config-In :
      (e : Text × ItemConfig M) (config : ChartConfig M)
      → In e config
      → is_colored e.1 ≡ true
      → In e (color_config config)
  color_config-In e [] i h = absurd i
  color_config-In e (x ∷ config) (inl same) h = rw (← same, h) (inl refl)
  color_config-In e (x ∷ config) (inr i) h = elim (Bool-cases (is_colored x.1)) [
    | inl k ↦ rw k (inr (color_config-In e config i h))
    | inr k ↦ rw k (color_config-In e config i h)
  ]

  color_line_lem :
      (dark : Bool) (key : Text) (item : ItemConfig M) (color : Text)
      → color_in dark item ≡ some color
      → color ≢ []
      → color_line dark (key, item) ≡ codes "  --color-" ++ key ++ codes ": " ++ color ++ codes ";"
  color_line_lem dark key item [] h ne = absurd (ne refl)
  color_line_lem dark key item (c ∷ color) h ne = rw (h, color_line) refl

  color_lines-In :
      (dark : Bool) (e : Text × ItemConfig M) (config : ChartConfig M)
      → In e config
      → In (color_line dark e) (color_lines dark config)
  color_lines-In dark e [] i = absurd i
  color_lines-In dark e (x ∷ config) (inl same) = inl (ap (color_line dark) same)
  color_lines-In dark e (x ∷ config) (inr i) = inr (color_lines-In dark e config i)

  blocks-Declares :
      (id : Text) (colored : ChartConfig M) (dark : Bool) (key color : Text)
      → In
          (codes "  --color-" ++ key ++ codes ": " ++ color ++ codes ";")
          (color_lines dark colored)
      → Declares id dark key color
          (join newline (theme_block id colored false ∷ theme_block id colored true ∷ []))
  unfolding theme_block
  blocks-Declares id colored false key color i =
      ([], newline ∷ theme_block id colored true, color_lines false colored, refl, i)
  blocks-Declares id colored true key color i = (
    theme_block id colored false ++ newline ∷ [],
    [],
    color_lines true colored,
    second_place (theme_block id colored false) (theme_block id colored true),
    i,
  )

  -- Where an entry has a colour in a theme that is not empty, the chart has a style sheet, and its block for
  -- the theme sets the variable that is named after the entry's key to that colour.
  pub chart_style-Declares :
      (id : Text) (config : ChartConfig M) (dark : Bool) (key : Text) (item : ItemConfig M)
      (color : Text)
      → In (key, item) config
      → HasColor dark item color
      → color ≢ []
      → (sheet : Text) × (chart_style id config
          ≡ elem "style" (attr (lit "dangerouslySetInnerHTML") sheet ∷ []) [] ∷ [])
        × Declares id dark key color sheet
  unfolding chart_style
  chart_style-Declares id config dark key item color i has ne =
      let there =
        color_config-In (key, item) config i (is_colored-HasColor dark item color has ne) in
      let line =
        subst (λ t. In t (color_lines dark (color_config config)))
          (color_line_lem dark key item color (color_in-HasColor dark item color has) ne)
          (color_lines-In dark (key, item) (color_config config) there) in
      elim (nil_or_cons (color_config config)) [
        | inl e ↦ absurd (subst (In (key, item)) e there)
        | inr (x, rest, e) ↦ (
          join newline (theme_block id (x ∷ rest) false ∷ theme_block id (x ∷ rest) true ∷ []),
          rw (e, chart_style) refl,
          blocks-Declares id (x ∷ rest) dark key color (
              subst
                (λ c.
                  In (codes "  --color-" ++ key ++ codes ": " ++ color ++ codes ";")
                    (color_lines dark c))
                e line),
        )
      ]
