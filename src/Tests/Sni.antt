-- ===== src/Tests/Sni.antt =====
-- internal/inbound/sni.go on a small ClientHello.
use vsockd.Common.{
  ℕ, zero, suc, ◌≤◌, ◌<◌, ◌≡◌, ◌≢◌, refl, [], ◌∷◌, ◌++◌, length, ok, arith, All, Returns,
}
use vsockd.Go.Strings.{Bytes, bytes, to_lower}
use vsockd.Inbound.Sni
use vsockd.Inbound.Sni.Total.{sniff_sni-Returns}
use vsockd.Inbound.Sni.Consumes.{IsHost, sniff_sni-consumes}
use vsockd.Inbound.Sni.Extensions.{OtherType}
use vsockd.Inbound.Sni.RoundTrip.{Hello, hello_body, handshake, record_of, sniff_sni-record}

abbrev zeros : ℕ → Bytes
zeros zero = []
zeros (suc n) = 0 ∷ zeros n

-- behind another extension, and with a body behind the record
abbrev hello : Hello
hello = record {
  random = zeros 34;
  session = 1 ∷ [];
  ciphers = 2 ∷ 3 ∷ [];
  compression = 0 ∷ [];
  others = (10, 4 ∷ []) ∷ [];
  names = record { others = []; host = bytes "Ab.c"; after = []; more = [] };
  rest = [];
  trailing = [];
}

abbrev stream : Bytes
stream = record_of 3 1 (handshake (hello_body hello)) ++ (9 ∷ [])

hello-others : All OtherType hello.others
hello-others = (ground arith, tt)

hello-host : hello.names.host ≢ []
hello-host = ground arith

sniff_sni-record_example :
    Sni.sniff_sni stream
    ≡ ok (to_lower (bytes "Ab.c"), record_of 3 1 (handshake (hello_body hello)), 9 ∷ [])
sniff_sni-record_example =
    sniff_sni-record 3 1 hello (9 ∷ []) refl hello-others tt hello-host (omega arith)

sniff_sni-consumes_example :
    (stream ≡ record_of 3 1 (handshake (hello_body hello)) ++ (9 ∷ []))
    × (5 < length (record_of 3 1 (handshake (hello_body hello))))
    × (length (record_of 3 1 (handshake (hello_body hello))) ≤ 16389)
    × IsHost (to_lower (bytes "Ab.c"))
sniff_sni-consumes_example =
    sniff_sni-consumes stream (to_lower (bytes "Ab.c"))
      (record_of 3 1 (handshake (hello_body hello))) (9 ∷ [])
      (sniff_sni-record 3 1 hello (9 ∷ []) refl hello-others tt hello-host (omega arith))

sniff_sni-Returns_example : Returns (Sni.sniff_sni stream)
sniff_sni-Returns_example = sniff_sni-Returns stream
