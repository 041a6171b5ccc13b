-- ===== src/Text/Units.antt =====
-- Code units, and the classes of them that the regular expressions name.
use quickspin.Prelude.{ℕ, String, Bool, ◌&&◌, ◌||◌, List, [], ◌∷◌, leb, ◌==◌, exists}
use Prim.Native.Char.{code}

abbrev pub Text : Type 0
Text = List ℕ

abbrev pub codes : String → Text
codes String.[] = []
codes (String.◌∷◌ c s) = code c ∷ codes s

abbrev pub newline : ℕ
newline = 10

-- `.` matches all but these.
unfoldable pub is_line_end : ℕ → Bool
is_line_end c = exists (λ d. c == d) (10 ∷ 13 ∷ 0x2028 ∷ 0x2029 ∷ [])

-- `\s`, and what `trim` removes.
unfoldable pub is_space : ℕ → Bool
is_space c =
    leb 9 c && leb c 13
    || leb 0x2000 c && leb c 0x200a
    || exists (λ d. c == d)
        (32 ∷ 0xa0 ∷ 0x1680 ∷ 0x2028 ∷ 0x2029 ∷ 0x202f ∷ 0x205f ∷ 0x3000 ∷ 0xfeff ∷ [])

-- `\d`
unfoldable pub is_digit : ℕ → Bool
is_digit c = leb b'0' c && leb c b'9'

-- A class written out, `[`*_]`.
abbrev pub one_of : Text → ℕ → Bool
one_of cs c = exists (λ d. c == d) cs
