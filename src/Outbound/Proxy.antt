-- ===== src/Outbound/Proxy.antt =====
-- internal/outbound/server.go: one connection to an HTTP forward-proxy listener, from `handle` through `handleConnect`
-- or `handleProxy`, as the list of what it does. net/http, net/url and the network are parameters: what is read, whether
-- a dial or a write succeeds, and how many bytes are copied, those that `mergeBuffered` puts in front included.
-- Deadlines, log messages and the closing of bodies are left out.
pub mod Permitted
pub mod Counted
use vsockd.Common.{
  ℕ, suc, Bool, true, false, not, ◌&&◌, ◌||◌, Option, none, some, List, [], ◌∷◌, ◌++◌,
  if◌then◌else◌, ◌==◌, ℤ, pos, negsuc, ltz, gtz,
}
use vsockd.Go.Strings.{Bytes, bytes, equal, is_empty}
use vsockd.Go.Net.{split_host_port, atoi}
use vsockd.Allowlist.Defs.{Matcher, allow}
use vsockd.Outbound.Headers.{Header, strip_hop_by_hop}
use vsockd.Outbound.Server.{Listener, find_matcher}

pub record Url : Type 0 where
  pub scheme : Bytes
  pub host : Bytes
  pub path : Bytes
  pub raw_path : Bytes
  pub raw_query : Bytes

pub record Request : Type 0 where
  pub method : Bytes
  pub url : Url
  pub host : Bytes
  pub request_uri : Bytes
  pub header : Header
  pub close : Bool
  pub body : Bytes

pub record Response : Type 0 where
  pub status : ℕ
  pub header : Header
  pub close : Bool
  pub body : Bytes

pub data Side : Type 0 where
  client upstream : Side

-- the labels of outbound_connections
pub data Label : Type 0 where
  unauthorized : Label
  of_cid : ℕ → Label

pub data Result : Type 0 where
  allowed denied error : Result

-- what a handler does, as seen from outside
pub data Event : Type 0 where
  track untrack closed half_closed : Side → Event
  -- `writeStatusLine`
  replied : ℕ → Event
  dialled : Bytes → Bytes → Event
  established : Event
  -- a request written to the upstream, a response to the client
  forwarded : Request → Event
  relayed : Response → Event
  -- the counters outbound_connections and outbound_bytes, by the direction seen from the enclave
  counted : Label → Result → Event
  bytes_out bytes_in : Label → ℕ → Event

-- What the libraries and the network give on one connection. A write gives the bytes written, and whether all were.
pub record Net : Type 0 where
  pub canonical : Bytes → Bytes
  -- `URL.Hostname` and `URL.Port`
  pub hostname : Url → Bytes
  pub url_port : Url → Bytes
  pub read_request : Option Request
  pub dial : Bytes → Bytes → Bool
  pub write_established : Bool
  pub copied_out : ℕ
  pub copied_in : ℕ
  -- whether the copy out of the enclave ends first
  pub out_first : Bool
  pub write_request : Request → ℕ × Bool
  pub read_response : Request → Option Response
  pub write_response : Response → ℕ × Bool

abbrev bad_request : Label → List Event
bad_request label = replied 400 ∷ counted label error ∷ []

abbrev pub in_port_range : Option ℤ → Option ℤ
in_port_range none = none
in_port_range (some n) = if ltz n 1 || gtz n 65535 then none else some n

-- `strconv.Atoi` with the range test
abbrev pub port_number : Bytes → Option ℤ
port_number s = in_port_range (atoi s)

-- `tunnel`
unfoldable pub tunnel : Net → Label → List Event
tunnel net label =
    let out = bytes_out label net.copied_out ∷ half_closed upstream ∷ [] in
    let back = bytes_in label net.copied_in ∷ half_closed client ∷ [] in
    if net.out_first then out ++ back else back ++ out

-- the body of a handler behind `defer upstream.Close()`, `trackConn` and `defer untrackConn`
abbrev pub with_upstream : List Event → List Event
with_upstream body = track upstream ∷ (body ++ (untrack upstream ∷ closed upstream ∷ []))

abbrev pub connect_upstream : Net → Label → List Event
connect_upstream net label =
    if net.write_established
    then established ∷ counted label allowed ∷ tunnel net label
    else counted label error ∷ []

-- the allowlist, the dial, and what follows it: the part that both handlers have
unfoldable pub dial_permitted : Net → Label → Matcher → Bytes → Bytes → ℤ → List Event → List Event
dial_permitted net label m host port_text port body =
    if allow (some m) host port
    then dialled host port_text
      ∷ (if net.dial host port_text
          then with_upstream body
          else replied 502 ∷ counted label error ∷ [])
    else replied 403 ∷ counted label denied ∷ []

abbrev pub on_port : Net → Label → Matcher → Bytes → Bytes → List Event → Option ℤ → List Event
on_port net label m host port_text body none = bad_request label
on_port net label m host port_text body (some port) =
    dial_permitted net label m host port_text port body

abbrev pub on_host_port : Net → Label → Matcher → List Event → Option (Bytes × Bytes) → List Event
on_host_port net label m body none = bad_request label
on_host_port net label m body (some hp) = on_port net label m hp.0 hp.1 body (port_number hp.1)

-- `handleConnect`
unfoldable pub handle_connect : Net → Label → Matcher → Request → List Event
unfolding dial_permitted tunnel
handle_connect net label m req =
    on_host_port net label m (connect_upstream net label) (split_host_port req.url.host)

-- the request in origin form
unfoldable pub rewrite : (Bytes → Bytes) → Request → Request
rewrite canonical req = record req {
  host = req.url.host;
  url = record req.url { scheme = []; host = [] };
  request_uri = [];
  header = strip_hop_by_hop canonical req.header;
  close = true;
}

abbrev pub clean_response : (Bytes → Bytes) → Response → Response
clean_response canonical r = record r { header = strip_hop_by_hop canonical r.header; close = true }

abbrev pub relay_response : Net → Label → Option Response → List Event
relay_response net label none = counted label error ∷ []
relay_response net label (some resp) =
    let out = clean_response net.canonical resp in
    let wrote = net.write_response out in
    relayed out ∷ bytes_in label wrote.0 ∷ counted label (if wrote.1 then allowed else error) ∷ []

abbrev pub proxy_upstream : Net → Label → Request → List Event
proxy_upstream net label req =
    let wrote = net.write_request req in
    forwarded req
    ∷ (if wrote.1
        then bytes_out label wrote.0 ∷ relay_response net label (net.read_response req)
        else counted label error ∷ bytes_out label wrote.0 ∷ [])

abbrev pub port_or_80 : Bytes → Bytes
port_or_80 s = if is_empty s then bytes "80" else s

-- `handleProxy`
unfoldable pub handle_proxy : Net → Label → Matcher → Request → List Event
unfolding rewrite dial_permitted
handle_proxy net label m req =
    if equal req.url.scheme (bytes "http")
    then on_port net label m (net.hostname req.url) (port_or_80 (net.url_port req.url))
        (proxy_upstream net label (rewrite net.canonical req))
        (port_number (port_or_80 (net.url_port req.url)))
    else bad_request label

-- `http.MethodConnect`, and `IsAbs` with a host
abbrev pub is_connect : Request → Bool
is_connect req = equal req.method (bytes "CONNECT")

abbrev pub is_absolute : Request → Bool
is_absolute req = not (is_empty req.url.scheme) && not (is_empty req.url.host)

abbrev pub on_request : Net → Label → Matcher → Option Request → List Event
on_request net label m none = bad_request label
on_request net label m (some req) =
    if is_connect req
    then handle_connect net label m req
    else if is_absolute req
    then handle_proxy net label m req
    else bad_request label

abbrev pub on_matcher : Net → ℕ → Option Matcher → List Event
on_matcher net cid none = counted unauthorized denied ∷ []
on_matcher net cid (some m) = on_request net (of_cid cid) m net.read_request

-- `handle`, for a connection from `cid`
unfoldable pub handle : Net → Listener → ℕ → List Event
unfolding handle_connect handle_proxy
handle net l cid =
    track client
    ∷ (on_matcher net cid (find_matcher l.matchers cid) ++ (untrack client ∷ closed client ∷ []))
