-- ===== src/Ui/Chart/Tests.antt =====
-- The theorems on charts at concrete inputs.
use quickspin.Text.{text_eq}
use quickspin.Text.Units.{Text, codes}
use quickspin.Prelude.{
  ◌≡◌, ◌≢◌, refl, ◌↔◌, ◌⊎◌, inl, inr, Bool, true, false, Option, none, some, List, [], ◌∷◌, All,
}
use quickspin.Markup.{text, elem, attr, lit}
use quickspin.Ui.Styling.{Styling}
use quickspin.Ui.Chart.{
  string, number, object, Entries, entries_of, entry, no_entries, ItemConfig, ChartConfig,
  Environment, own_field, get_payload_config, chart_style,
}
use quickspin.Ui.Chart.Lookup.{Names, Gives, IsAbsent, get_payload_config_lem}
use quickspin.Ui.Chart.Sheet.{IsColorless, chart_style_iff, Declares, chart_style-Declares}
use quickspin.Ui.Chart.Tooltip.{TooltipProps, line, formatted, tooltip_content}
use quickspin.Ui.Chart.Unlabelled.{tooltip_content-hide_label}

abbrev plain : Environment
plain = record { inherited = λ key. text_eq key (codes "constructor"); to_locale = λ shown. shown }

abbrev first_class : List (Option Text) → Text
first_class (some t ∷ _) = t
first_class _ = []

abbrev first : Styling
first = record { clsx = first_class; tw_merge = λ t. t; cva = λ options values. options.classes }

abbrev chrome : ItemConfig Bool
chrome = record {
  label = some (text (codes "Chrome"));
  icon = none;
  color = some (codes "red");
  theme = none;
}

abbrev browsers : ChartConfig Bool
browsers = (codes "chrome", chrome) ∷ []

-- The item names the entry under the key that the caller asks for.
abbrev item : Entries
item = entry (codes "name") (string (codes "visits")) (
    entry (codes "browser") (string (codes "chrome"))
      (entry (codes "value") (number (codes "7")) no_entries))

get_payload_config_lem_example :
    let found = get_payload_config plain browsers (object item) (codes "browser") in
    ((entries_of (object item) ≡ none) × (found ≡ none))
    ⊎ ((payload : Entries) × (k : Text) × (entries_of (object item) ≡ some payload)
        × Names payload (codes "browser") k
        × (((x : ItemConfig Bool) × (found ≡ some x) × Gives plain browsers k x)
            ⊎ (IsAbsent plain browsers k
                × (((x : ItemConfig Bool) × (found ≡ some x)
                      × Gives plain browsers (codes "browser") x)
                    ⊎ (IsAbsent plain browsers (codes "browser") × (found ≡ none))))))
get_payload_config_lem_example =
    get_payload_config_lem plain browsers (object item) (codes "browser")

chart_style_iff_example :
    (chart_style (codes "c") browsers ≡ []) ↔ All (λ e. IsColorless e.1) browsers
chart_style_iff_example = chart_style_iff (codes "c") browsers

red_filled : codes "red" ≢ []
red_filled = λ e. cc

chart_style-Declares_example :
    (sheet : Text) × (chart_style (codes "c") browsers
      ≡ elem "style" (attr (lit "dangerouslySetInnerHTML") sheet ∷ []) [] ∷ [])
    × Declares (codes "c") true (codes "chrome") (codes "red") sheet
chart_style-Declares_example =
    chart_style-Declares (codes "c") browsers true (codes "chrome") chrome (codes "red") (inl refl)
      (inr (refl, refl)) red_filled

abbrev props : TooltipProps Bool
props = record {
  active = true;
  payload = item ∷ [];
  classes = none;
  indicator = line;
  hide_label = false;
  hide_indicator = false;
  label = some (codes "Monday");
  label_formatter = none;
  label_classes = none;
  formatter = some (λ value name x index payload. text (codes "seven"));
  color = none;
  name_key = none;
  label_key = none;
}

seven : formatted first props 0 item ≡ some (text (codes "seven"))
unfolding own_field
seven = refl

tooltip_content-hide_label_example :
    tooltip_content first plain browsers props
    ≡ tooltip_content first plain browsers (record props { hide_label = true })
tooltip_content-hide_label_example =
    tooltip_content-hide_label first plain browsers props item (text (codes "seven")) refl refl
      seven
