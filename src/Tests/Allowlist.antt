-- ===== src/Tests/Allowlist.antt =====
-- internal/allowlist/allowlist.go on concrete patterns.
use vsockd.Common.{
  ℕ, ◌≤◌, ◌≡◌, ◌≢◌, refl, ◌↔◌, true, false, some, List, [], ◌∷◌, ◌++◌, pos, ok, arith, All, Any,
}
use vsockd.Go.Strings.{Bytes, bytes, equal, to_lower, is_empty, contains_byte, has_prefix}
use vsockd.Go.Net.{atoi, split_host_port}
use vsockd.Go.Net.Laws.{IsPlain}
use vsockd.Allowlist.Defs.{Matcher, parse_pattern, classify_host, new, allow}
use vsockd.Allowlist.Decide.{Permits, allow_iff}
use vsockd.Allowlist.Grammar.{
  WellFormed, Compiles, exactly, below, any_port, new_iff, new-WellFormed, parse_pattern-printed,
}

abbrev host : Bytes
host = bytes "example.org"

abbrev raw : List Bytes
raw = bytes "*.example.org:443" ∷ bytes "API.example.com:8080" ∷ []

abbrev gate : Matcher
gate = record { patterns = below host 443 ∷ exactly (bytes "api.example.com") 8080 ∷ [] }

host-IsPlain : IsPlain host
unfolding contains_byte
host-IsPlain = record { no_colon = refl; no_open = refl; no_close = refl }

port-IsPlain : IsPlain (bytes "443")
unfolding contains_byte
port-IsPlain = record { no_colon = refl; no_open = refl; no_close = refl }

gate-new : new raw ≡ ok gate
unfolding new parse_pattern split_host_port atoi classify_host to_lower equal is_empty has_prefix
    contains_byte
gate-new = refl

port-atoi : atoi (bytes "443") ≡ some (pos 443)
unfolding atoi
port-atoi = refl

allow_iff_example : (allow (some gate) (bytes "WWW.example.org") (pos 443) ≡ true) ↔ (
    (n : ℕ) × (pos 443 ≡ pos n)
    × (1 ≤ n)
    × (n ≤ 65535)
    × Any (λ p. Permits p (to_lower (bytes "WWW.example.org")) n) gate.patterns)
allow_iff_example = allow_iff gate (bytes "WWW.example.org") (pos 443)

new_iff_example : (new raw ≡ ok gate) ↔ ((raw ≢ []) × Compiles raw gate.patterns)
new_iff_example = new_iff raw gate

new-WellFormed_example : All WellFormed gate.patterns
new-WellFormed_example = new-WellFormed raw gate gate-new

host-not_empty : host ≢ []
host-not_empty = ground arith

host-no_star : contains_byte host b'*' ≡ false
unfolding contains_byte
host-no_star = refl

parse_pattern-printed_example :
    (parse_pattern (host ++ b':' ∷ bytes "443") ≡ ok (exactly host 443))
    × (parse_pattern (b'*' ∷ b'.' ∷ (host ++ b':' ∷ bytes "443")) ≡ ok (below host 443))
    × (parse_pattern (b'*' ∷ b':' ∷ bytes "443") ≡ ok (any_port 443))
parse_pattern-printed_example =
    parse_pattern-printed host (bytes "443") 443 host-IsPlain port-IsPlain host-not_empty
      host-no_star port-atoi (omega arith) (omega arith)
