-- ===== src/Reader/Preferences.antt =====
-- The reading preferences and their place in `localStorage` (docs/src/App.tsx). `JSON.parse` and
-- `JSON.stringify` are arguments.
pub mod Laws
use quickspin.Text.{text_eq}
use quickspin.Text.Units.{Text, codes}
use quickspin.Prelude.{
  Bool, false, Option, none, some, List, [], ◌∷◌, if◌then◌else◌, ◌>>=◌, get_or, find,
}

pub data ReaderFontSize : Type 0 where
  xs sm md lg xl : ReaderFontSize

pub record ReaderPreferences : Type 0 where
  pub font_size : ReaderFontSize
  pub reader_mode : Bool
  pub sidebar_collapsed : Bool

abbrev pub default_reader_preferences : ReaderPreferences
default_reader_preferences = record {
  font_size = md;
  reader_mode = false;
  sidebar_collapsed = false;
}

pub record FontSizeOption : Type 0 where
  pub label : Text
  pub short_label : Text
  pub value : ReaderFontSize

abbrev pub font_size_options : List FontSizeOption
font_size_options =
    record { label = codes "Very small"; short_label = codes "XS"; value = xs }
    ∷ record { label = codes "Small"; short_label = codes "S"; value = sm }
    ∷ record { label = codes "Default"; short_label = codes "M"; value = md }
    ∷ record { label = codes "Large"; short_label = codes "L"; value = lg }
    ∷ record { label = codes "Very large"; short_label = codes "XL"; value = xl }
    ∷ []

-- The text that stands for a size in the program.
unfoldable pub size_text : ReaderFontSize → Text
size_text xs = codes "xs"
size_text sm = codes "sm"
size_text md = codes "md"
size_text lg = codes "lg"
size_text xl = codes "xl"

-- A value that JSON can hold.
mutual
  pub data Json : Type 0 where
    null : Json
    bool : Bool → Json
    num : Text → Json
    str : Text → Json
    arr : Items → Json
    obj : Fields → Json

  pub data Items : Type 0 where
    no_item : Items
    item : Json → Items → Items

  pub data Fields : Type 0 where
    no_field : Fields
    field : Text → Json → Fields → Fields

pub record JsonCodec : Type 0 where
  -- `none` is a SyntaxError.
  pub parse : Text → Option Json
  pub stringify : Json → Text

unfoldable pub field_of : Text → Fields → Option Json
field_of k no_field = none
field_of k (field j v fs) = if text_eq j k then some v else field_of k fs

-- `parsed.k`, where `none` is `undefined`; reading a field of null throws.
unfoldable pub property : Json → Text → Option (Option Json)
unfolding field_of
property null k = none
property (obj fs) k = some (field_of k fs)
property _ k = some none

-- `option.value === parsed.fontSize` for some option, and which
unfoldable pub size_of : Option Json → Option ReaderFontSize
unfolding size_text
size_of (some (str t)) =
    find (λ o. text_eq (size_text o.value) t) font_size_options >>= λ o. some o.value
size_of _ = none

-- `… === true`
unfoldable pub is_true : Option Json → Bool
is_true (some (bool b)) = b
is_true _ = false

-- What `localStorage.getItem` gives: it throws, null or a text.
pub data Stored : Type 0 where
  denied missing : Stored
  saved : Text → Stored

unfoldable pub preferences_from : Json → Option ReaderPreferences
unfolding property is_true
preferences_from parsed = do
  font_size ← property parsed (codes "fontSize")
  reader_mode ← property parsed (codes "readerMode")
  sidebar_collapsed ← property parsed (codes "sidebarCollapsed")
  some (record {
    font_size = get_or (size_of font_size) default_reader_preferences.font_size;
    reader_mode = is_true reader_mode;
    sidebar_collapsed = is_true sidebar_collapsed;
  })

-- The value that `JSON.stringify` is given.
abbrev pub preferences_json : ReaderPreferences → Json
preferences_json p = obj (
    field (codes "fontSize") (str (size_text p.font_size)) (
      field (codes "readerMode") (bool p.reader_mode)
        (field (codes "sidebarCollapsed") (bool p.sidebar_collapsed) no_field)))

module _ (codec : JsonCodec) where
  unfoldable pub load_reader_preferences : Stored → ReaderPreferences
  unfolding preferences_from
  load_reader_preferences denied = default_reader_preferences
  load_reader_preferences missing = default_reader_preferences
  load_reader_preferences (saved []) = default_reader_preferences
  load_reader_preferences (saved (c ∷ s)) =
      get_or (codec.parse (c ∷ s) >>= preferences_from) default_reader_preferences

  -- The effect that writes the preferences; a storage that throws keeps what it had.
  unfoldable pub save_reader_preferences : ReaderPreferences → Stored → Stored
  save_reader_preferences p denied = denied
  save_reader_preferences p _ = saved (codec.stringify (preferences_json p))
