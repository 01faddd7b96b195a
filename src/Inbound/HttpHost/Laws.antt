-- ===== src/Inbound/HttpHost/Laws.antt =====
-- internal/inbound/httphost.go: the forms of a Host header, and of a request line.
use vsockd.Common.{
  suc, ◌≡◌, refl, ◌-◌, true, false, some, [], ◌∷◌, ◌++◌, length, arith, take-append,
}
use vsockd.Go.Strings.{Bytes, has_prefix, contains_byte}
use vsockd.Go.Strings.Laws.{index_byte-append, last_index_byte-append}
use vsockd.Inbound.HttpHost.{strip_port, inside}

plain-strip : (h p : Bytes) → has_prefix (h ++ b':' ∷ p) (b'[' ∷ []) ≡ has_prefix h (b'[' ∷ [])
unfolding has_prefix
plain-strip [] p = ground arith
plain-strip (c ∷ h) p = ground arith

bracketed-free : (h : Bytes) → contains_byte h b']' ≡ false → contains_byte (b'[' ∷ h) b']' ≡ false
unfolding contains_byte
bracketed-free h c = ground (arith, c)

bracket-prefix : (s : Bytes) → has_prefix (b'[' ∷ s) (b'[' ∷ []) ≡ true
unfolding has_prefix
bracket-prefix s = refl

inside-bracket : (h rest : Bytes) → inside (b'[' ∷ (h ++ b']' ∷ rest)) (some (suc (length h))) ≡ h
inside-bracket h rest =
    let n : suc (length h) - 1 ≡ length h = omega arith in
    rw (inside, n) (take-append h (b']' ∷ rest))

-- For a host that does not begin with "[" nor hold "]", and a port without a colon,
-- a Host value is stripped to its host: a name or an IPv4 address with a port to what stands before the
-- last colon, and an IPv6 literal in brackets, whatever follows them, to what stands inside.
pub strip_port-joined :
    (h port rest : Bytes)
    → has_prefix h (b'[' ∷ []) ≡ false
    → contains_byte port b':' ≡ false
    → contains_byte h b']' ≡ false
    → (strip_port (h ++ b':' ∷ port) ≡ h) × (strip_port (b'[' ∷ (h ++ b']' ∷ rest)) ≡ h)
unfolding strip_port
strip_port-joined h port rest a b c = (
  rw (plain-strip h port, a, last_index_byte-append h port b':' b, take-append h (b':' ∷ port))
      refl,
  rw
      (
        bracket-prefix (h ++ b']' ∷ rest),
        index_byte-append (b'[' ∷ h) rest b']' (bracketed-free h c),
      )
      (inside-bracket h rest),
)
