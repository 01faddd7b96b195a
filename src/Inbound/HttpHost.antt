-- ===== src/Inbound/HttpHost.antt =====
-- internal/inbound/httphost.go: `validateRequestLine` and `stripPort`, the two tests of `SniffHost` that
-- are its own. Reading the header block is net/textproto's.
pub mod Laws
use vsockd.Common.{
  ℕ, suc, ◌-◌, Bool, true, false, ◌&&◌, ◌||◌, not, Option, none, some, List, [], ◌∷◌, if◌then◌else◌,
  take, drop, ◌==◌,
}
use vsockd.Go.Strings.{Bytes, bytes, is_empty, has_prefix, index_byte, last_index_byte}

abbrev onto_first : ℕ → List Bytes → List Bytes
onto_first c [] = (c ∷ []) ∷ []
onto_first c (p ∷ ps) = (c ∷ p) ∷ ps

-- `strings.Split(s, " ")`
unfoldable pub split_spaces : Bytes → List Bytes
split_spaces [] = [] ∷ []
split_spaces (c ∷ s) = if c == b' ' then [] ∷ split_spaces s else onto_first c (split_spaces s)

abbrev three_parts : List Bytes → Bool
three_parts (m ∷ t ∷ v ∷ []) = not (is_empty m || is_empty t) && has_prefix v (bytes "HTTP/")
three_parts _ = false

-- `validateRequestLine(line) == nil`
unfoldable pub validate_request_line : Bytes → Bool
validate_request_line line = three_parts (split_spaces line)

abbrev pub inside : Bytes → Option ℕ → Bytes
inside host none = host
inside host (some end) = take (end - 1) (drop 1 host)

abbrev before_colon : Bytes → Option ℕ → Bytes
before_colon host none = host
before_colon host (some i) = take i host

-- `stripPort`; `host[1:end]` is in range, as the byte at 0 is the bracket
unfoldable pub strip_port : Bytes → Bytes
strip_port host =
    if has_prefix host (b'[' ∷ [])
    then inside host (index_byte host b']')
    else before_colon host (last_index_byte host b':')
