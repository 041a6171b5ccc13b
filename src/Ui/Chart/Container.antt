-- ===== src/Ui/Chart/Container.antt =====
-- `ChartContainer` of docs/src/components/ui/chart.tsx.
use quickspin.Text.{decimal}
use quickspin.Text.Units.{Text, codes}
use quickspin.Prelude.{ℕ, not, Option, some, List, [], ◌∷◌, ◌++◌, ◌==◌, get_or, keep}
use quickspin.Markup.{Attr, attr, Node, elem, attribute, lit}
use quickspin.Ui.Styling.{Styling, cn}
use quickspin.Ui.Chart.{ChartConfig, chart_style}

-- The id that the caller gives, or React's without its colons.
unfoldable pub chart_id : Option Text → Text → Text
chart_id id unique = codes "chart-" ++ get_or id (keep (λ c. not (c == b':')) unique)

pub record Dimension : Type 0 where
  pub width : ℕ
  pub height : ℕ

abbrev pub initial_dimension : Dimension
initial_dimension = record { width = 320; height = 200 }

module _ {M : Type 0} (styling : Styling) where
  unfoldable pub chart_container :
      Option Text
      → Text
      → Option Text
      → ChartConfig M
      → Option Dimension
      → List (Attr M)
      → List (Node M)
      → Node M
  unfolding cn chart_id chart_style
  chart_container id unique extra config given props children =
      let dimension = get_or given initial_dimension in
      elem "div"
        (attribute "data-slot" "chart"
          ∷ attr (lit "data-chart") (chart_id id unique)
          ∷ attr (lit "className") (
              cn styling (
                some (
                  lit
                    "flex aspect-video justify-center text-xs [&_.recharts-cartesian-axis-tick_text]:fill-muted-foreground [&_.recharts-cartesian-grid_line[stroke='#ccc']]:stroke-border/50 [&_.recharts-curve.recharts-tooltip-cursor]:stroke-border [&_.recharts-dot[stroke='#fff']]:stroke-transparent [&_.recharts-layer]:outline-hidden [&_.recharts-polar-grid_[stroke='#ccc']]:stroke-border [&_.recharts-radial-bar-background-sector]:fill-muted [&_.recharts-rectangle.recharts-tooltip-cursor]:fill-muted [&_.recharts-reference-line_[stroke='#ccc']]:stroke-border [&_.recharts-sector]:outline-hidden [&_.recharts-sector[stroke='#fff']]:stroke-transparent [&_.recharts-surface]:outline-hidden")
                ∷ extra
                ∷ []))
          ∷ props)
        (chart_style (chart_id id unique) config
          ++ elem "ResponsiveContainer"
              (attr (lit "initialDimension.width") (decimal dimension.width)
                ∷ attr (lit "initialDimension.height") (decimal dimension.height)
                ∷ [])
              children
            ∷ [])
