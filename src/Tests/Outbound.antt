-- ===== src/Tests/Outbound.antt =====
-- internal/outbound/logrelay.go on a concrete stream, record and sink.
use vsockd.Common.{
  ℕ, ◌≡◌, refl, Bool, true, false, not, ◌||◌, ◌==◌, if◌then◌else◌, List, [], ◌∷◌, ◌++◌, pos, ok,
  arith, map, ltb,
}
use vsockd.Go.Strings.{Bytes, bytes}
use vsockd.Outbound.RefSink.{
  Holders, opened, acquire, release, accept, swap_out, finish, Reach, start, next,
  Reach-closed_once,
}
use vsockd.Outbound.Enrich.{Enricher, Token, emit, has_reserved_top_level_key}
use vsockd.Outbound.Enrich.TopLevel.{
  Members, member, end, obj, atom, str, tokens_of, declares, has_reserved_top_level_key-declares,
}
use vsockd.Outbound.Enrich.Splice.{Opens, emit-Opens}
use vsockd.Outbound.Relay.{relay}
use vsockd.Outbound.Relay.Lines.{lines, until_failure}
use vsockd.Outbound.Relay.Records.{out_of, relay-lines}

-- a handler takes the sink, the listener lets go of it, and then the handler returns
abbrev taken : Holders
taken = record { sink = record { n = pos 2; closes = 0 }; listening = true; handlers = 1 }

abbrev swapped : Holders
swapped = record { sink = record { n = pos 1; closes = 0 }; listening = false; handlers = 1 }

abbrev gone : Holders
gone = record { sink = record { n = pos 0; closes = 1 }; listening = false; handlers = 0 }

taken-Reach : Reach taken
unfolding opened acquire
taken-Reach = next start (accept opened (record { n = pos 2; closes = 0 }) refl)

swapped-Reach : Reach swapped
unfolding release
swapped-Reach = next taken-Reach (swap_out taken refl)

gone-Reach : Reach gone
unfolding release
gone-Reach = next swapped-Reach (finish swapped 0 refl)

Reach-closed_once_example :
    gone.sink.closes ≡ (if gone.listening || not (gone.handlers == 0) then 0 else 1)
Reach-closed_once_example = Reach-closed_once gone-Reach

-- {"a":{"cid":1},"b":"cid"}
abbrev nested : Members
nested =
    member (bytes "a") (obj (member (bytes "cid") atom end))
      (member (bytes "b") (str (bytes "cid")) end)

has_reserved_top_level_key-declares_example :
    has_reserved_top_level_key (bytes "cid" ∷ []) (tokens_of (obj nested) [])
    ≡ declares (bytes "cid" ∷ []) nested
has_reserved_top_level_key-declares_example =
    has_reserved_top_level_key-declares (bytes "cid" ∷ []) nested []

abbrev all_valid : Bytes → Bool
all_valid line = true

abbrev quoted : Bytes → Bytes
quoted s = b'"' ∷ (s ++ (b'"' ∷ []))

abbrev no_tokens : Bytes → List Token
no_tokens line = []

abbrev sixteen : Enricher
sixteen = record { active = true; prefix = bytes "\"cid\":16,"; reserved = bytes "cid" ∷ [] }

emit-Opens_example :
    Opens sixteen.prefix (emit all_valid quoted no_tokens sixteen (bytes " {\"m\":1}") false)
emit-Opens_example =
    emit-Opens all_valid quoted no_tokens sixteen (bytes " {\"m\":1}") false refl refl

abbrev render : Bytes → Bool → Bytes
render s cut = if cut then b'!' ∷ s else s

abbrev two_writes : ℕ → Bool
two_writes i = ltb i 2

abbrev stream : Bytes
stream = bytes "one\ntwenty bytes of text\nthree\nfour"

relay-lines_example :
    relay render two_writes 40 15 0 stream
    ≡ ok (until_failure two_writes 0 (map (out_of render 15) (lines stream)))
relay-lines_example = relay-lines render two_writes 40 15 0 stream (omega arith) (omega arith)
