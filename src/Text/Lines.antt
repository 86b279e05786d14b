-- ===== src/Text/Lines.antt =====
-- `str.splitlines` and `str.strip`, as add_charge_codes and the migrator use them.
use baste.Prelude.{ℕ, Bool, true, false, ◌&&◌, ◌||◌, List, [], ◌∷◌, leb, ◌==◌}
use mathlib.Core.List.{reverse}
use baste.Text.{Text}

-- The characters that end a line for `str.splitlines`.
unfoldable pub is_line_break : ℕ → Bool
is_line_break c =
    (leb 0x0a c && leb c 0x0d)
    || (leb 0x1c c && leb c 0x1e)
    || c == 0x85
    || c == 0x2028
    || c == 0x2029

-- `str.isspace`
unfoldable pub is_space : ℕ → Bool
is_space c =
    (leb 0x09 c && leb c 0x0d)
    || (leb 0x1c c && leb c 0x20)
    || c == 0x85
    || c == 0xa0
    || c == 0x1680
    || (leb 0x2000 c && leb c 0x200a)
    || c == 0x2028
    || c == 0x2029
    || c == 0x202f
    || c == 0x205f
    || c == 0x3000

unfoldable pub is_empty : Text → Bool
is_empty [] = true
is_empty (_ ∷ _) = false

-- `current` is the line so far, backwards; `after_cr` says that the last character was a CR, which a
-- LF follows in one line break.
split_from : Bool → Text → Text → List Text
unfolding is_line_break
split_from after_cr [] [] = []
split_from after_cr (d ∷ current) [] = reverse (d ∷ current) ∷ []
split_from after_cr current (c ∷ t) = elim (after_cr && c == 0x0a) [
  | true ↦ split_from false [] t
  | false ↦ elim (is_line_break c) [
    | true ↦ reverse current ∷ split_from (c == 0x0d) [] t
    | false ↦ split_from false (c ∷ current) t
  ]
]

unfoldable pub splitlines : Text → List Text
unfolding split_from
splitlines t = split_from false [] t

unfoldable pub lstrip : Text → Text
unfolding is_space
lstrip [] = []
lstrip (c ∷ t) = elim (is_space c) [ true ↦ lstrip t | false ↦ c ∷ t ]

unfoldable pub strip : Text → Text
unfolding lstrip
strip t = reverse (lstrip (reverse (lstrip t)))
