-- ===== src/Mdx/Slug.antt =====
-- `slugify` of docs/src/mdx-components.tsx.
pub mod Laws
use quickspin.Prelude.{ℕ, Bool, not, ◌==◌, keep, drop_while}
use quickspin.Text.Units.{Text, codes, one_of}
use quickspin.Text.{drop_end_while, collapse}
use quickspin.Text.Unicode.{Unicode}

abbrev pub dash : ℕ
dash = b'-'

abbrev pub is_dash : ℕ → Bool
is_dash c = c == dash

unfoldable pub slugify : Unicode → Text → Text
unfolding collapse
slugify u value =
    let plain = keep (λ c. not (one_of (codes "`*_") c)) (u.to_lower value) in
    let dashed = collapse (λ c. not (u.is_word c)) dash plain in
    drop_end_while is_dash (drop_while is_dash dashed)
