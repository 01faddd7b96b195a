-- ===== src/Tests/Strings.antt =====
-- Package strings on concrete texts.
use vsockd.Common.{◌≡◌, refl, [], ◌∷◌}
use vsockd.Go.Strings.{bytes}
use vsockd.Go.Strings.Trim.{trim_space}

-- a no-break space and an ideographic space, and a byte that only begins the encoding of one
trim_space_of_unicode :
    trim_space (194 ∷ 160 ∷ b' ' ∷ b'T' ∷ b' ' ∷ b'E' ∷ b' ' ∷ 227 ∷ 128 ∷ 128 ∷ b'\t' ∷ [])
    ≡ bytes "T E"
unfolding trim_space
trim_space_of_unicode = refl

trim_space_of_part : trim_space (b' ' ∷ 194 ∷ b' ' ∷ []) ≡ 194 ∷ []
unfolding trim_space
trim_space_of_part = refl

trim_space_of_blanks : trim_space (b' ' ∷ 226 ∷ 128 ∷ 138 ∷ 194 ∷ 133 ∷ []) ≡ []
unfolding trim_space
trim_space_of_blanks = refl
