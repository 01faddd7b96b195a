-- ===== src/Inbound/Routing.antt =====
-- internal/inbound/server.go: one connection to an HTTP-aware inbound listener, `handle`, as the list of what it does. The
-- sniffers are a parameter, since one of them reads with net/textproto: what `sniff` gives is the
-- host and the bytes read so far. So are the dial, which may lose against a shutdown, and the network.
-- Deadlines and log messages are left out.
pub mod Routed
use vsockd.Common.{
  ℕ, Bool, true, false, Option, none, some, List, [], ◌∷◌, ◌++◌, if◌then◌else◌, length,
}
use vsockd.Go.Strings.{Bytes, bytes}
use vsockd.Config.Types.{Route}
use vsockd.Inbound.Server.{Listener, routes_snapshot, find_route}

pub data Side : Type 0 where
  client upstream : Side

pub data ErrorKind : Type 0 where
  sniff_error route_error dial_error copy_error : ErrorKind

abbrev pub route_label_unknown : Bytes
route_label_unknown = bytes "unknown"

-- what a handler does, as seen from outside
pub data Event : Type 0 where
  track untrack closed half_closed : Side → Event
  dialled : ℕ → ℕ → Event
  -- the bytes read while sniffing, written to the upstream
  replayed : Bytes → Event
  -- the counters inbound_connections, inbound_errors and inbound_bytes
  connection : Bytes → Event
  failed : Bytes → ErrorKind → Event
  bytes_in bytes_out : Bytes → ℕ → Event

-- What the sniffer and the network give on one connection. A copy gives its bytes, and whether it ended in an
-- error that `isExpectedCopyErr` does not expect.
pub record Net : Type 0 where
  pub sniff : Bytes → Option (Bytes × Bytes)
  pub dial : ℕ → ℕ → Bool
  pub write_buffered : Bytes → Bool
  pub copied_in : ℕ × Bool
  pub copied_out : ℕ × Bool
  -- whether the copy to the enclave ends first
  pub in_first : Bool

abbrev pub copy_failure : Bytes → Bool → List Event
copy_failure label true = failed label copy_error ∷ []
copy_failure label false = []

-- the two copies of `proxy`
abbrev pub copy_in : Net → Bytes → List Event
copy_in net label =
    bytes_in label net.copied_in.0
    ∷ (copy_failure label net.copied_in.1 ++ (half_closed upstream ∷ []))

abbrev pub copy_out : Net → Bytes → List Event
copy_out net label =
    bytes_out label net.copied_out.0
    ∷ (copy_failure label net.copied_out.1 ++ (half_closed client ∷ []))

-- `proxy`
unfoldable pub proxy : Net → Bytes → List Event
proxy net label =
    if net.in_first
    then copy_in net label ++ copy_out net label
    else copy_out net label ++ copy_in net label

abbrev pub replay : Net → Bytes → Bytes → List Event
replay net label buffered =
    if net.write_buffered buffered
    then replayed buffered ∷ bytes_in label (length buffered) ∷ proxy net label
    else failed label copy_error ∷ []

abbrev pub on_route : Net → Bytes → Option Route → List Event
on_route net buffered none = failed route_label_unknown route_error ∷ []
on_route net buffered (some r) =
    connection r.hostname
    ∷ dialled r.cid r.vsock_port
    ∷ (if net.dial r.cid r.vsock_port
        then track upstream
          ∷ (replay net r.hostname buffered ++ (untrack upstream ∷ closed upstream ∷ []))
        else failed r.hostname dial_error ∷ [])

abbrev pub on_sniff : Net → List (Bytes × Route) → Option (Bytes × Bytes) → List Event
on_sniff net routes none = failed route_label_unknown sniff_error ∷ []
on_sniff net routes (some sniffed) = on_route net sniffed.1 (find_route routes sniffed.0)

-- `handle`
unfoldable pub handle : Net → Listener → List Event
unfolding proxy
handle net l =
    track client
    ∷ (on_sniff net (routes_snapshot l) (net.sniff l.mode) ++ (untrack client ∷ closed client ∷ []))
