-- ===== src/Text/Unicode.antt =====
-- The Unicode data that the language brings along: which units are letters or numbers (`\p{L}`,
-- `\p{N}`), and lower case. It is a parameter of the model.
use quickspin.Prelude.{ℕ, Bool}
use quickspin.Text.Units.{Text}

pub record Unicode : Type 0 where
  pub is_word : ℕ → Bool
  pub to_lower : Text → Text
