-- ===== src/Tests/HttpHost.antt =====
-- internal/inbound/httphost.go on concrete headers.
use vsockd.Common.{◌≡◌, refl, false, [], ◌∷◌, ◌++◌}
use vsockd.Go.Strings.{Bytes, bytes, has_prefix, contains_byte}
use vsockd.Inbound.HttpHost.{strip_port}
use vsockd.Inbound.HttpHost.Laws.{strip_port-joined}

abbrev get : Bytes
get = bytes "GET"

abbrev version : Bytes
version = bytes "HTTP/1.1"

plain :
    (has_prefix (bytes "::1") (b'[' ∷ []) ≡ false)
    × (contains_byte (bytes "80") b':' ≡ false)
    × (contains_byte (bytes "::1") b']' ≡ false)
unfolding has_prefix contains_byte
plain = (refl, refl, refl)

strip_port-joined_example :
    (strip_port (bytes "::1" ++ b':' ∷ bytes "80") ≡ bytes "::1")
    × (strip_port (b'[' ∷ (bytes "::1" ++ b']' ∷ bytes ":80")) ≡ bytes "::1")
strip_port-joined_example =
    strip_port-joined (bytes "::1") (bytes "80") (bytes ":80") plain.0 plain.1 plain.2
