-- ===== src/Ui/Chart.antt =====
-- The data of docs/src/components/ui/chart.tsx and what its parts read off it: `useChart`, the lookup
-- `getPayloadConfigFromPayload`, and the style sheet of `ChartStyle`.
pub mod Lookup
pub mod Sheet
pub mod Tooltip
pub mod Legend
pub mod Container
pub mod Unlabelled
mod Tests
use quickspin.Text.{text_eq, join}
use quickspin.Text.Units.{Text, codes, newline}
use quickspin.Prelude.{
  ◌⊎◌, inl, inr, Bool, true, false, not, ◌||◌, Option, none, some, List, [], ◌∷◌, ◌++◌,
  if◌then◌else◌, ◌>>=◌, get_or, or_else, keep,
}
use quickspin.Markup.{Node, lit, attr, elem}

-- A value of JavaScript; an object has its own entries, an array those of its places, a number is told
-- by its text, and functions and symbols are left out.
mutual
  pub data Value : Type 0 where
    undefined : Value
    null_value : Value
    boolean : Bool → Value
    number : (shown : Text) → Value
    string : Text → Value
    object : Entries → Value
    array : Entries → Value

  pub data Entries : Type 0 where
    no_entries : Entries
    entry : (key : Text) → Value → Entries → Entries

-- Of the two fields `color` and `theme` an entry has at most one; `theme` has the colours for light and
-- dark. The icon is the name of a component.
pub record ItemConfig (M : Type 0) : Type 0 where
  pub label : Option (Node M)
  pub icon : Option Text
  pub color : Option Text
  pub theme : Option (Text × Text)

-- The entries in the order of `Object.entries`.
abbrev pub ChartConfig : Type 0 → Type 0
ChartConfig M = List (Text × ItemConfig M)

-- What the environment gives: the names that every object has by its prototype, and
-- `toLocaleString` of a number's text.
pub record Environment : Type 0 where
  pub inherited : Text → Bool
  pub to_locale : Text → Text

unfoldable pub use_chart : {M : Type 0} → Option (ChartConfig M) → Text ⊎ ChartConfig M
use_chart none = inl (lit "useChart must be used within a <ChartContainer />")
use_chart (some config) = inr config

-- `entries[key]`, the entry's own
unfoldable pub own_field : Text → Entries → Value
own_field key no_entries = undefined
own_field key (entry k v entries) =
    let rest = own_field key entries in if text_eq k key then v else rest

-- What has entries: `typeof value === "object" && value !== null`.
abbrev pub entries_of : Value → Option Entries
entries_of (object entries) = some entries
entries_of (array entries) = some entries
entries_of _ = none

-- `value?.[key]`
abbrev pub field_of : Text → Value → Value
field_of key v = elim (entries_of v) [ none ↦ undefined | some entries ↦ own_field key entries ]

abbrev pub text_of : Value → Option Text
text_of (string t) = some t
text_of _ = none

-- `a ?? b`
abbrev pub coalesce : Value → Value → Value
coalesce undefined b = b
coalesce null_value b = b
coalesce a b = a

abbrev pub is_truthy : Value → Bool
is_truthy undefined = false
is_truthy null_value = false
is_truthy (boolean b) = b
is_truthy (number shown) = not (text_eq shown (codes "0") || text_eq shown (codes "NaN"))
is_truthy (string t) = not (text_eq t [])
is_truthy (object _) = true
is_truthy (array _) = true

unfoldable mutual
  -- `String(value)`, of an object without a `toString` of its own.
  pub to_text : Value → Text
  to_text undefined = lit "undefined"
  to_text null_value = lit "null"
  to_text (boolean true) = lit "true"
  to_text (boolean false) = lit "false"
  to_text (number shown) = shown
  to_text (string t) = t
  to_text (object _) = lit "[object Object]"
  to_text (array items) = items_text items

  -- In an array what is missing or null leaves its place empty.
  pub item_text : Value → Text
  item_text undefined = []
  item_text null_value = []
  item_text (boolean true) = lit "true"
  item_text (boolean false) = lit "false"
  item_text (number shown) = shown
  item_text (string t) = t
  item_text (object _) = lit "[object Object]"
  item_text (array items) = items_text items

  pub items_text : Entries → Text
  items_text no_entries = []
  items_text (entry _ v no_entries) = item_text v
  items_text (entry _ v (entry key w items)) = item_text v ++ b',' ∷ items_text (entry key w items)

module _ {M : Type 0} where
  -- What an inherited function gives where an entry is expected: no field that the chart reads.
  abbrev pub empty_config : ItemConfig M
  empty_config = record { label = none; icon = none; color = none; theme = none }

  abbrev pub own_config : Text → ChartConfig M → Option (ItemConfig M)
  own_config key [] = none
  own_config key ((k, item) ∷ config) =
      let rest = own_config key config in if text_eq k key then some item else rest

  -- `config[key]`, which is none where `key in config` does not hold. That holds also of a name that every
  -- object inherits; what is found then is no entry, and reads as an empty one.
  unfoldable pub config_at : Environment → ChartConfig M → Text → Option (ItemConfig M)
  config_at env config key = elim (own_config key config) [
    | some item ↦ some item
    | none ↦ if env.inherited key then some empty_config else none
  ]

-- `payload.payload` where it is an object
abbrev pub inner_payload : Entries → Option Entries
inner_payload payload = entries_of (own_field (codes "payload") payload)

-- `payload[key]` or `payload.payload[key]` where that is a string. What objects inherit is no string.
unfoldable pub config_label_key : Entries → Text → Text
config_label_key payload key = elim (text_of (own_field key payload)) [
  | some t ↦ t
  | none ↦ elim (inner_payload payload) [
    | none ↦ key
    | some inner ↦ get_or (text_of (own_field key inner)) key
  ]
]

module _ {M : Type 0} where
  unfoldable pub get_payload_config :
      Environment → ChartConfig M → Value → Text → Option (ItemConfig M)
  unfolding config_at config_label_key
  get_payload_config env config value key = entries_of value >>= λ payload.
      or_else (config_at env config (config_label_key payload key)) (config_at env config key)

  -- `config.theme ?? config.color` where it is tested
  abbrev pub is_colored : ItemConfig M → Bool
  is_colored item = elim item.theme [
    | some _ ↦ true
    | none ↦ elim item.color [ none ↦ false | some color ↦ not (text_eq color []) ]
  ]

  abbrev pub color_config : ChartConfig M → ChartConfig M
  color_config config = keep (λ e. let (_, item) = e in is_colored item) config

  -- The colour of an entry in a theme, `dark` or not.
  abbrev pub color_in : Bool → ItemConfig M → Option Text
  color_in dark item = elim item.theme [
    | none ↦ item.color
    | some colors ↦ let (in_light, in_dark) = colors in some (if dark then in_dark else in_light)
  ]

  -- A colour that is missing or empty leaves its line empty.
  abbrev pub color_line : Bool → Text × ItemConfig M → Text
  color_line dark (key, item) = elim (color_in dark item) [
    | none ↦ []
    | some color ↦
        if text_eq color []
        then []
        else codes "  --color-" ++ key ++ codes ": " ++ color ++ codes ";"
  ]

  abbrev pub color_lines : Bool → ChartConfig M → List Text
  color_lines dark [] = []
  color_lines dark (e ∷ config) = color_line dark e ∷ color_lines dark config

  unfoldable pub theme_block : Text → ChartConfig M → Bool → Text
  theme_block id colored dark =
      newline ∷ (if dark then codes ".dark" else [])
      ++ codes " [data-chart="
      ++ id
      ++ codes "] {"
      ++ newline ∷ join newline (color_lines dark colored)
      ++ newline ∷ codes "}"
      ++ newline ∷ []

  -- Nothing without a coloured entry; else a block for light and one for dark.
  unfoldable pub chart_style : Text → ChartConfig M → List (Node M)
  unfolding theme_block
  chart_style id config = elim (color_config config) [
    | [] ↦ []
    | e ∷ rest ↦
        elem "style"
          (attr (lit "dangerouslySetInnerHTML")
              (join newline (theme_block id (e ∷ rest) false ∷ theme_block id (e ∷ rest) true ∷ []))
            ∷ [])
          []
        ∷ []
  ]
