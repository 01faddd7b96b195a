-- ===== src/Go/Strings/Trim.antt =====
-- `strings.TrimSpace`: the runes of `unicode.IsSpace` are cut off at both ends. No other byte string decodes
-- to such a rune than its encoding in UTF-8, so they are found by their bytes.
use vsockd.Common.{ℕ, zero, suc, Bool, ◌&&◌, ◌||◌, ◌==◌, leb, [], ◌∷◌, if◌then◌else◌, length}
use vsockd.Go.Strings.{Bytes}

-- U+0009 to U+000D and the blank
abbrev is_space1 : ℕ → Bool
is_space1 c = (leb 9 c && leb c 13) || c == b' '

-- U+0085 and U+00A0
abbrev is_space2 : ℕ → ℕ → Bool
is_space2 c d = c == 194 && (d == 133 || d == 160)

-- U+1680, U+2000 to U+200A, U+2028, U+2029, U+202F, U+205F and U+3000
abbrev is_space3 : ℕ → ℕ → ℕ → Bool
is_space3 c d e =
    (c == 225 && d == 154 && e == 128)
    || (c == 226 && d == 128 && ((leb 128 e && leb e 138) || e == 168 || e == 169 || e == 175))
    || (c == 226 && d == 129 && e == 159)
    || (c == 227 && d == 128 && e == 128)

-- the length of the white space rune at the front, or 0
abbrev space_width : Bytes → ℕ
space_width [] = 0
space_width (c ∷ []) = if is_space1 c then 1 else 0
space_width (c ∷ d ∷ []) = if is_space1 c then 1 else if is_space2 c d then 2 else 0
space_width (c ∷ d ∷ e ∷ s) =
    if is_space1 c then 1 else if is_space2 c d then 2 else if is_space3 c d e then 3 else 0

-- the front is cut off behind `n` bytes that belong to a rune of white space
unfoldable trim_left_behind : ℕ → Bytes → Bytes
trim_left_behind n [] = []
trim_left_behind (suc n) (c ∷ s) = trim_left_behind n s
trim_left_behind zero (c ∷ s) = elim (space_width (c ∷ s)) [
  | zero ↦ c ∷ s
  | suc n ↦ trim_left_behind n s
]

-- a text of which only the first rune may still be white space at its end
abbrev keep_text : Bytes → Bytes
keep_text s = if space_width s == length s then [] else s

unfoldable trim_right : Bytes → Bytes
trim_right [] = []
trim_right (c ∷ s) = keep_text (c ∷ trim_right s)

-- `strings.TrimSpace`
unfoldable pub trim_space : Bytes → Bytes
unfolding trim_left_behind trim_right
trim_space s = trim_right (trim_left_behind 0 s)
