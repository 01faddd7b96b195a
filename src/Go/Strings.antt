-- ===== src/Go/Strings.antt =====
-- Package strings, on the bytes of a Go string.
pub mod Laws
pub mod Trim
use Prim.Native.Char.{code}
use Prim.Native.String.{String}
use vsockd.Common.{
  ℕ, zero, suc, ◌+◌, ◌-◌, Bool, true, false, ◌&&◌, ◌||◌, Option, none, some, List, [], ◌∷◌, ◌++◌,
  leb, ◌==◌, if◌then◌else◌, length,
}

abbrev pub Bytes : Type 0
Bytes = List ℕ

-- The bytes of an ASCII literal.
abbrev pub bytes : String → Bytes
bytes String.[] = []
bytes (String.◌∷◌ c s) = code c ∷ bytes s

-- `a == b` on strings
unfoldable pub equal : Bytes → Bytes → Bool
equal [] [] = true
equal (c ∷ s) (d ∷ t) = c == d && equal s t
equal _ _ = false

abbrev pub is_empty : Bytes → Bool
is_empty [] = true
is_empty (_ ∷ _) = false

unfoldable pub lower_byte : ℕ → ℕ
lower_byte c = if leb b'A' c && leb c b'Z' then c + 32 else c

-- `strings.ToLower` on ASCII text
unfoldable pub to_lower : Bytes → Bytes
unfolding lower_byte
to_lower [] = []
to_lower (c ∷ cs) = lower_byte c ∷ to_lower cs

-- `strings.HasPrefix(s, p)`
unfoldable pub has_prefix : Bytes → Bytes → Bool
has_prefix s [] = true
has_prefix [] (y ∷ p) = false
has_prefix (x ∷ s) (y ∷ p) = x == y && has_prefix s p

-- `strings.HasSuffix(s, p)`
unfoldable pub has_suffix : Bytes → Bytes → Bool
unfolding equal
has_suffix [] p = equal [] p
has_suffix (x ∷ s) p = equal (x ∷ s) p || has_suffix s p

-- `strings.IndexByte(s, b) >= 0`, and `strings.Contains(s, "b")`
unfoldable pub contains_byte : Bytes → ℕ → Bool
contains_byte [] b = false
contains_byte (x ∷ s) b = x == b || contains_byte s b

abbrev after_first : Option ℕ → Option ℕ
after_first none = none
after_first (some i) = some (suc i)

-- `strings.IndexByte`, with -1 as `none`
unfoldable pub index_byte : Bytes → ℕ → Option ℕ
index_byte [] b = none
index_byte (x ∷ s) b = if x == b then some zero else after_first (index_byte s b)

abbrev or_here : Bool → Option ℕ → Option ℕ
or_here true none = some zero
or_here false none = none
or_here _ (some i) = some (suc i)

-- `strings.LastIndexByte`, with -1 as `none`
unfoldable pub last_index_byte : Bytes → ℕ → Option ℕ
last_index_byte [] b = none
last_index_byte (x ∷ s) b = or_here (x == b) (last_index_byte s b)
