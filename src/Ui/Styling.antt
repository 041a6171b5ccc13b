-- ===== src/Ui/Styling.antt =====
-- `cn` of docs/src/lib/utils.ts. The packages clsx, tailwind-merge, class-variance-authority and base-ui
-- are parameters.
use quickspin.Prelude.{Option, List}
use quickspin.Text.Units.{Text}
use quickspin.Markup.{Attr, Node}

-- The argument of `cva`: the classes of all variants, those of each value of each variant, and the
-- values that stand where none is given.
pub record Cva : Type 0 where
  pub classes : Text
  pub variants : List (Text × List (Text × Text))
  pub defaults : List (Text × Text)

pub record Styling : Type 0 where
  pub clsx : List (Option Text) → Text
  pub tw_merge : Text → Text
  -- what `cva` makes of its argument: the classes of the chosen values
  pub cva : Cva → List (Text × Option Text) → Text

-- The classes that are not left out, joined and merged.
unfoldable pub cn : Styling → List (Option Text) → Text
cn styling inputs = styling.tw_merge (styling.clsx inputs)

-- `useRender` takes the default tag, the element that stands in, the state and the properties with the
-- children; `mergeProps` takes two lists of properties.
pub record BaseUi (M : Type 0) : Type 0 where
  pub use_render : Text → Option (Node M) → List (Attr M) → List (Attr M) → List (Node M) → Node M
  pub merge_props : List (Attr M) → List (Attr M) → List (Attr M)
