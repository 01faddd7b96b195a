-- ===== src/Allowlist/Defs.antt =====
-- internal/allowlist/allowlist.go: `Matcher`, `New`, `Allow`, `match` and `parsePattern`. A nil
-- `*Matcher` is `none`; an error carries what its message names.
use vsockd.Common.{
  ℕ, suc, Bool, true, false, ◌&&◌, ◌||◌, Option, none, some, List, [], ◌∷◌, if◌then◌else◌, drop, ℤ,
  ltz, gtz, eqz, pos, Outcome, ok, err, ◌>>=◌,
}
use vsockd.Go.Net.{split_host_port, atoi}
use vsockd.Go.Strings.{Bytes, equal, is_empty, to_lower, has_prefix, has_suffix, contains_byte}

pub data PatternKind : Type 0 where
  universal any_host host_suffix exact : PatternKind

pub record Pattern : Type 0 where
  pub kind : PatternKind
  pub suffix : Bytes
  pub host : Bytes
  pub port : ℕ

pub data Error : Type 0 where
  no_patterns empty_pattern not_host_port invalid_port empty_host bad_wildcard stray_star : Error
  at_pattern : ℕ → Error → Error

-- `Matcher`
pub record Matcher : Type 0 where
  pub patterns : List Pattern

abbrev zero_pattern : Pattern
zero_pattern = record { kind = universal; suffix = []; host = []; port = 0 }

-- `port, err := strconv.Atoi(portStr)` with the range test; a port is positive from here on
abbrev pub checked_port : Option ℤ → Outcome Error ℕ
checked_port (some (pos n)) = if ltz (pos n) 1 || gtz (pos n) 65535 then err invalid_port else ok n
checked_port _ = err invalid_port

-- the switch on the lower-cased host
unfoldable pub classify_host : Bytes → ℕ → Outcome Error Pattern
classify_host host port =
    if is_empty host
    then err empty_host
    else if equal host (b'*' ∷ [])
    then ok (record zero_pattern { kind = any_host; port = port })
    else if has_prefix host (b'*' ∷ b'.' ∷ [])
    then (if is_empty (drop 2 host) || contains_byte (drop 2 host) b'*'
        then err bad_wildcard
        else ok
            (record zero_pattern { kind = host_suffix; suffix = b'.' ∷ drop 2 host; port = port }))
    else if contains_byte host b'*'
    then err stray_star
    else ok (record zero_pattern { kind = exact; host = host; port = port })

abbrev pub split_or_err : Option (Bytes × Bytes) → Outcome Error (Bytes × Bytes)
split_or_err none = err not_host_port
split_or_err (some hp) = ok hp

unfoldable pub parse_pattern : Bytes → Outcome Error Pattern
parse_pattern raw =
    if is_empty raw
    then err empty_pattern
    else if equal raw (b'*' ∷ [])
    then ok zero_pattern
    else do
      hp ← split_or_err (split_host_port raw)
      port ← checked_port (atoi hp.1)
      classify_host (to_lower hp.0) port

abbrev pub at : {A : Type 0} → ℕ → Outcome Error A → Outcome Error A
at i (err e) = err (at_pattern i e)
at i r = r

-- the loop of `New`, from index `i`
unfoldable pub parse_all : ℕ → List Bytes → Outcome Error (List Pattern)
parse_all i [] = ok []
parse_all i (raw ∷ raws) = do p ← at i (parse_pattern raw); ps ← parse_all (suc i) raws; ok (p ∷ ps)

unfoldable pub new : List Bytes → Outcome Error Matcher
unfolding parse_all
new [] = err no_patterns
new (raw ∷ raws) = do ps ← parse_all 0 (raw ∷ raws); ok (record { patterns = ps })

unfoldable pub match_kind : PatternKind → Pattern → Bytes → ℤ → Bool
match_kind universal p host port = true
match_kind any_host p host port = eqz port p.port
match_kind exact p host port = eqz port p.port && equal host p.host
match_kind host_suffix p host port = eqz port p.port && has_suffix host p.suffix

-- `pattern.match`
unfoldable pub match : Pattern → Bytes → ℤ → Bool
unfolding match_kind
match p host port = match_kind p.kind p host port

-- the loop of `Allow`
unfoldable pub match_any : List Pattern → Bytes → ℤ → Bool
unfolding match
match_any [] h port = false
match_any (p ∷ ps) h port = match p h port || match_any ps h port

-- `(*Matcher).Allow`
unfoldable pub allow : Option Matcher → Bytes → ℤ → Bool
unfolding match_any
allow none host port = false
allow (some m) host port =
    if ltz port 1 || gtz port 65535 then false else match_any m.patterns (to_lower host) port
