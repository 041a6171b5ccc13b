-- ===== src/Reader/Preferences/Laws.antt =====
-- What is saved is loaded again.
use quickspin.Text.Units.{Text}
use quickspin.Prelude.{◌≡◌, ◌≢◌, refl, some, [], ◌∷◌, ◌>>=◌, get_or}
use quickspin.Reader.Preferences.{
  ReaderFontSize, xs, ReaderPreferences, default_reader_preferences, JsonCodec, Stored, denied,
  missing, saved, size_of, size_text, preferences_from, preferences_json, load_reader_preferences,
  save_reader_preferences, str,
}

-- What the program relies on of JSON, for the values that it writes.
pub record IsCodec (codec : JsonCodec) : Type 0 where
  pub parse-stringify :
      (p : ReaderPreferences)
      → codec.parse (codec.stringify (preferences_json p)) ≡ some (preferences_json p)
  pub stringify-ne-nil : (p : ReaderPreferences) → codec.stringify (preferences_json p) ≢ []

size_of_text : (size : ReaderFontSize) → size_of (some (str (size_text size))) ≡ some size
unfolding size_of
size_of_text xs = refl
size_of_text _ = refl

pub preferences_from-json : (p : ReaderPreferences) → preferences_from (preferences_json p) ≡ some p
unfolding preferences_from
preferences_from-json p = rw (size_of_text p.font_size)

module _ (codec : JsonCodec) where
  load_nonempty :
      (t : Text)
      → t ≢ []
      → load_reader_preferences codec (saved t)
        ≡ get_or (codec.parse t >>= preferences_from) default_reader_preferences
  unfolding load_reader_preferences
  load_nonempty [] h = absurd (h refl)
  load_nonempty (c ∷ t) h = refl

  load_saved :
      IsCodec codec
      → (p : ReaderPreferences)
      → load_reader_preferences codec (saved (codec.stringify (preferences_json p))) ≡ p
  load_saved laws p =
      rw
        (load_nonempty _ (laws.stringify-ne-nil p), laws.parse-stringify p, preferences_from-json p)

  -- Preferences that a working storage took are loaded again unchanged, whatever it held before; a
  -- storage that throws gives the defaults.
  pub load-save :
      (laws : IsCodec codec) (p : ReaderPreferences) (before : Stored)
      → load_reader_preferences codec (save_reader_preferences codec p before)
        ≡ (elim before [ denied ↦ default_reader_preferences | _ ↦ p ])
  unfolding save_reader_preferences
  load-save laws p denied = unfold load_reader_preferences in refl
  load-save laws p missing = load_saved laws p
  load-save laws p (saved t) = load_saved laws p
