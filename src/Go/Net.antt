-- ===== src/Go/Net.antt =====
-- `net.SplitHostPort` and `strconv.Atoi`.
pub mod Laws
use vsockd.Common.{
  ℕ, zero, suc, ◌+◌, ◌-◌, ◌*◌, ◌^◌, Bool, true, false, not, ◌&&◌, ◌||◌, Option, none, some, List,
  [], ◌∷◌, leb, ltb, ◌==◌, if◌then◌else◌, length, take, drop, ℤ, pos, negsuc,
}
use vsockd.Go.Strings.{Bytes, contains_byte, index_byte, last_index_byte, is_empty}

-- the two checks that follow the choice of `host`, and the result
finish : Bytes → Bytes → Bytes → Bytes → Option (Bytes × Bytes)
finish host j_on k_on port =
    if contains_byte j_on b'[' || contains_byte k_on b']' then none else some (host, port)

-- `hostport[0] == '['`: the first ']' at `end` must stand just before the last colon, at `i`.
split_bracketed : Bytes → ℕ → Option ℕ → Option (Bytes × Bytes)
unfolding finish
split_bracketed s i none = none
split_bracketed s i (some end) =
    if end + 1 == i
    then finish (take (end - 1) (drop 1 s)) (drop 1 s) (drop (end + 1) s) (drop (i + 1) s)
    else none

-- any other first byte: no second colon
split_plain : Bytes → ℕ → Option (Bytes × Bytes)
unfolding finish
split_plain s i =
    if contains_byte (take i s) b':' then none else finish (take i s) s s (drop (i + 1) s)

abbrev opens : Bytes → Bool
opens [] = false
opens (c ∷ _) = c == b'['

split_at : Bytes → Option ℕ → Option (Bytes × Bytes)
unfolding split_bracketed split_plain
split_at s none = none
split_at s (some i) = if opens s then split_bracketed s i (index_byte s b']') else split_plain s i

-- `net.SplitHostPort`; `none` is any of its errors
unfoldable pub split_host_port : Bytes → Option (Bytes × Bytes)
unfolding split_at contains_byte index_byte last_index_byte
split_host_port s = split_at s (last_index_byte s b':')

-- the digits of a decimal number, read onto `n`
unfoldable digits_value : ℕ → Bytes → Option ℕ
digits_value n [] = some n
digits_value n (c ∷ cs) =
    let rest = digits_value (n * 10 + (c - b'0')) cs in
    if leb b'0' c && leb c b'9' then rest else none

abbrev max_int : ℕ
max_int = 9223372036854775807

abbrev to_pos : Option ℕ → Option ℤ
to_pos none = none
to_pos (some n) = if leb n max_int then some (pos n) else none

abbrev negative : ℕ → ℤ
negative zero = pos 0
negative (suc n) = negsuc n

abbrev to_neg : Option ℕ → Option ℤ
to_neg none = none
to_neg (some n) = if leb n (max_int + 1) then some (negative n) else none

magnitude : Bytes → Option ℕ
magnitude s = if is_empty s then none else digits_value 0 s

-- `strconv.Atoi` with a 64-bit int; `none` is a syntax or a range error
unfoldable pub atoi : Bytes → Option ℤ
unfolding magnitude digits_value
atoi [] = none
atoi (c ∷ cs) =
    if c == b'-'
    then to_neg (magnitude cs)
    else if c == b'+'
    then to_pos (magnitude cs)
    else to_pos (magnitude (c ∷ cs))
