-- ===== src/Inbound/Sni/RoundTrip.antt =====
-- internal/inbound/sni.go: the encoding of a ClientHello in a handshake record (RFC 8446).
use vsockd.Common.{
  ℕ, ◌+◌, ◌*◌, ◌/◌, ◌%◌, ◌≤◌, ◌<◌, ◌≡◌, ◌≢◌, refl, ap, ◌∙◌, false, List, [], ◌∷◌, ◌++◌,
  if◌then◌else◌, ltb, length, take, drop, ok, err, arith, length-append, All, take-append,
  drop-append,
}
use vsockd.Go.Strings.{Bytes, to_lower}
use vsockd.Go.Slices.{slice_from_lem}
use vsockd.Inbound.Sni
use vsockd.Inbound.Sni.Extensions.{
  vec8, vec16, extension, concat, joined, read_vec8-vec8, read_vec16-vec16, long_enough, OtherType,
  sub-zero, Names, server_names, walk_extensions-entries,
}

-- A ClientHello: the version and the random, the vectors, and the extensions around server_name.
pub record Hello : Type 0 where
  pub random : Bytes
  pub session : Bytes
  pub ciphers : Bytes
  pub compression : Bytes
  pub others : List (ℕ × Bytes)
  pub names : Names
  pub rest : Bytes
  pub trailing : Bytes

abbrev extension_block : Hello → Bytes
extension_block h = concat extension h.others ++ (extension (0, server_names h.names) ++ h.rest)

abbrev vectors : Hello → Bytes
vectors h =
    vec8 h.session
    ++ (vec16 h.ciphers ++ (vec8 h.compression ++ (vec16 (extension_block h) ++ h.trailing)))

abbrev pub hello_body : Hello → Bytes
hello_body h = h.random ++ vectors h

-- a handshake message with its 24-bit length
abbrev pub handshake : Bytes → Bytes
handshake b = 1 ∷ (length b / 65536) ∷ (length b / 256 % 256) ∷ (length b % 256) ∷ b

-- a handshake record of any version
abbrev pub record_of : ℕ → ℕ → Bytes → Bytes
record_of major minor frag = 0x16 ∷ major ∷ minor ∷ vec16 frag

read_vectors-vectors : (h : Hello) → Sni.read_vectors (vectors h) ≡ ok (extension_block h)
unfolding Sni.read_vectors
read_vectors-vectors h =
    rw (read_vec8-vec8, read_vec16-vec16, read_vec8-vec8, read_vec16-vec16) refl

open_hello-cons :
    (a b c : ℕ) (l : Bytes)
    → let n = a * 65536 + b * 256 + c in
      Sni.open_hello (1 ∷ a ∷ b ∷ c ∷ l) ≡ (
        if ltb (length l) n
        then err Sni.body_truncated
        else if ltb (length (take n l)) 34
        then err Sni.no_session_id
        else ok (drop 34 (take n l)))
unfolding Sni.open_hello
open_hello-cons a b c l = ground (arith, sub-zero (a * 65536 + b * 256 + c))

joined_24 : (n : ℕ) → n / 65536 * 65536 + n / 256 % 256 * 256 + n % 256 ≡ n
joined_24 n = omega arith

take-length : (l : Bytes) → take (length l) l ≡ l
take-length [] = refl
take-length (x ∷ l) = ap (◌∷◌ x) (take-length l)

ltb-same : (n : ℕ) → ltb n n ≡ false
ltb-same n = ground arith

ltb-random : (r v : Bytes) → length r ≡ 34 → ltb (length (r ++ v)) 34 ≡ false
ltb-random r v h = ground (arith, length-append r v)

open_hello-handshake : (r v : Bytes) → length r ≡ 34 → Sni.open_hello (handshake (r ++ v)) ≡ ok v
open_hello-handshake r v h =
    open_hello-cons _ _ _ (r ++ v)
    ∙ rw (joined_24, ltb-same, take-length, ltb-random r v h)
        (ap (λ (t : Bytes). ok t) (rw h at (drop-append r v)))

parse_client_hello_sni-hello :
    (h : Hello)
    → length h.random ≡ 34
    → All OtherType h.others
    → All OtherType h.names.others
    → h.names.host ≢ []
    → Sni.parse_client_hello_sni (handshake (hello_body h)) ≡ ok (to_lower h.names.host)
unfolding Sni.parse_client_hello_sni
parse_client_hello_sni-hello h r others names host =
    rw (open_hello-handshake h.random (vectors h) r, read_vectors-vectors h)
      (walk_extensions-entries h.others h.names h.rest _ others names host (omega arith))

read_full-append :
    (e : Sni.Error) (n : ℕ) (xs ys : Bytes)
    → length xs ≡ n
    → Sni.read_full e n (xs ++ ys) ≡ ok (xs, ys)
unfolding Sni.read_full
read_full-append e n xs ys h =
    rw (← h) (rw (long_enough (length xs) xs ys (omega arith), take-append, drop-append) refl)

abbrev header_of : ℕ → ℕ → Bytes → Bytes
header_of major minor frag = 0x16 ∷ major ∷ minor ∷ (length frag / 256) ∷ (length frag % 256) ∷ []

fragment_len-header :
    (major minor : ℕ) (frag : Bytes)
    → 0 < length frag
    → length frag ≤ 16384
    → Sni.fragment_len (header_of major minor frag) ≡ ok (length frag)
unfolding Sni.fragment_len
fragment_len-header major minor frag lo hi = ground (arith, joined (length frag))

-- Sniffing a record is parsing its fragment.
sniff_sni-fragment :
    (major minor : ℕ) (frag rest host : Bytes)
    → 0 < length frag
    → length frag ≤ 16384
    → Sni.parse_client_hello_sni frag ≡ ok host
    → Sni.sniff_sni (record_of major minor frag ++ rest)
      ≡ ok (host, record_of major minor frag, rest)
unfolding Sni.sniff_sni
sniff_sni-fragment major minor frag rest host lo hi p =
    rw
      (
        read_full-append Sni.read_header 5 (header_of major minor frag) (frag ++ rest) refl,
        fragment_len-header major minor frag lo hi,
        read_full-append Sni.read_fragment (length frag) frag rest refl,
        slice_from_lem (header_of major minor frag ++ frag) 5 (omega arith),
        p,
      )
      refl

-- A handshake record that holds a ClientHello with a server_name extension, whatever stands in its
-- other parts, is sniffed to the first host_name, in lower case, and handed on byte for byte, and
-- what follows it stays in the stream. No extension before the server_name has its type 0, nor a name
-- before the host_name its type 0; the record's fragment has at most 16384 bytes.
pub sniff_sni-record :
    (major minor : ℕ) (h : Hello) (rest : Bytes)
    → length h.random ≡ 34
    → All OtherType h.others
    → All OtherType h.names.others
    → h.names.host ≢ []
    → length (handshake (hello_body h)) ≤ 16384
    → let r = record_of major minor (handshake (hello_body h)) in
      Sni.sniff_sni (r ++ rest) ≡ ok (to_lower h.names.host, r, rest)
sniff_sni-record major minor h rest random others names host small =
    sniff_sni-fragment major minor (handshake (hello_body h)) rest (to_lower h.names.host)
      (omega arith) small (parse_client_hello_sni-hello h random others names host)
