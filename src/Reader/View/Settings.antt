-- ===== src/Reader/View/Settings.antt =====
-- The reading settings and their dock (the end of `App` in docs/src/App.tsx).
use quickspin.Text.{text_eq}
use quickspin.Text.Units.{Text}
use quickspin.Prelude.{Bool, none, some, [], ◌∷◌, ◌++◌, map, if◌then◌else◌, find}
use quickspin.Markup.{attr, flag, Node, text, elem, class_name, attribute, on_click, say, lit, when}
use quickspin.Reader.Preferences.{ReaderFontSize, FontSizeOption, font_size_options, size_text}
use quickspin.Reader.State.{App, Event, toggle_settings, toggle_reader_mode, choose_font_size}

abbrev pub same_size : ReaderFontSize → ReaderFontSize → Bool
same_size a b = text_eq (size_text a) (size_text b)

unfoldable pub size_button : ReaderFontSize → FontSizeOption → Node Event
size_button chosen o =
    let is_chosen = same_size o.value chosen in
    elem "button"
      (attr (lit "className") (
          if is_chosen
          then lit "reader-settings__size reader-settings__size--active"
          else lit "reader-settings__size")
        ∷ on_click (choose_font_size o.value)
        ∷ attribute "role" "radio"
        ∷ flag (lit "aria-checked") is_chosen
        ∷ attr (lit "aria-label") (o.label ++ lit " text")
        ∷ attr (lit "title") o.label
        ∷ [])
      (elem "span"
          (attr (lit "className")
              (lit "reader-settings__sample reader-settings__sample--" ++ size_text o.value)
            ∷ [])
          (say "Aa" ∷ [])
        ∷ elem "small" [] (text o.short_label ∷ [])
        ∷ [])

unfoldable pub settings_dialog : ReaderFontSize → Node Event
unfolding size_button
settings_dialog chosen =
    elem "div"
      (attribute "id" "reader-settings"
        ∷ class_name "reader-settings"
        ∷ attribute "role" "dialog"
        ∷ attribute "aria-labelledby" "reader-settings-title"
        ∷ [])
      (elem "div" (class_name "reader-settings__header" ∷ []) (
          elem "div" [] (
            elem "p" (attribute "id" "reader-settings-title" ∷ []) (say "Reading settings" ∷ [])
            ∷ elem "span" [] (say "Choose a comfortable text size." ∷ [])
            ∷ [])
          ∷ elem "span" (class_name "reader-settings__folio" ∷ []) (say "Aa / 05" ∷ [])
          ∷ [])
        ∷ elem "div"
            (class_name "reader-settings__sizes"
              ∷ attribute "role" "radiogroup"
              ∷ attribute "aria-label" "Text size"
              ∷ [])
            (map (size_button chosen) font_size_options)
        ∷ elem "p" (class_name "reader-settings__current" ∷ attribute "aria-live" "polite" ∷ [])
            (elim (find (λ o. same_size o.value chosen) font_size_options) [
              | none ↦ []
              | some o ↦ text o.label ∷ []
            ])
        ∷ [])

abbrev control_class : Bool → Text
control_class on_now =
    if on_now then lit "reader-control reader-control--active" else lit "reader-control"

unfoldable pub reader_controls : App → Node Event
unfolding settings_dialog
reader_controls s =
    let reader_mode = s.preferences.reader_mode in
    let mode_label = if reader_mode then lit "Exit reader mode" else lit "Enter reader mode" in
    elem "div" (class_name "reader-controls" ∷ []) (
      when s.settings_open (settings_dialog s.preferences.font_size ∷ [])
      ++ elem "div" (class_name "reader-controls__dock" ∷ []) (
          elem "button"
            (attr (lit "className") (control_class s.settings_open)
              ∷ on_click toggle_settings
              ∷ attribute "aria-controls" "reader-settings"
              ∷ flag (lit "aria-expanded") s.settings_open
              ∷ attribute "aria-label" "Reading settings"
              ∷ attribute "title" "Reading settings"
              ∷ [])
            (elem "SettingsIcon" [] [] ∷ [])
          ∷ elem "span" (class_name "reader-controls__divider" ∷ []) []
          ∷ elem "button"
              (attr (lit "className") (control_class reader_mode)
                ∷ on_click toggle_reader_mode
                ∷ flag (lit "aria-pressed") reader_mode
                ∷ attr (lit "aria-label") mode_label
                ∷ attr (lit "title") mode_label
                ∷ [])
              (elem "ReaderModeIcon" [] [] ∷ [])
          ∷ [])
        ∷ [])
