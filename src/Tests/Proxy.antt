-- ===== src/Tests/Proxy.antt =====
-- internal/outbound/server.go and internal/inbound/server.go: one connection each.
use vsockd.Common.{◌≡◌, refl, true, false, none, some, List, [], ◌∷◌, if◌then◌else◌, All, pos}
use vsockd.Go.Strings.{Bytes, bytes}
use vsockd.Config.Types.{Route, mode_http_host, mem_bytes}
use vsockd.Allowlist.Defs.{Matcher, Pattern, universal}
use vsockd.Outbound.Server as Out
use vsockd.Outbound.Headers.{Header, find_header, strip_hop_by_hop, hop_keys, strip_hop_by_hop-find}
use vsockd.Outbound.Proxy
use vsockd.Outbound.Proxy.Permitted.{IsPermitted, handle-IsPermitted}
use vsockd.Outbound.Proxy.Counted.{IsBalanced, handle-IsBalanced}
use vsockd.Inbound.Server as In
use vsockd.Inbound.Routing
use vsockd.Inbound.Routing.Routed.{IsRouted, handle-IsRouted}

abbrev unchanged : Bytes → Bytes
unchanged s = s

-- Connection names the header X, and A is nobody's business but the upstream's
abbrev hop_header : Header
hop_header =
    (bytes "Connection", bytes "close, X" ∷ [])
    ∷ (bytes "X", bytes "1" ∷ [])
    ∷ (bytes "TE", bytes "2" ∷ [])
    ∷ (bytes "A", bytes "3" ∷ [])
    ∷ []

strip_hop_by_hop-find_example : find_header (strip_hop_by_hop unchanged hop_header) (bytes "X") ≡ (
    if mem_bytes (hop_keys unchanged hop_header) (bytes "X")
    then none
    else find_header hop_header (bytes "X"))
strip_hop_by_hop-find_example = strip_hop_by_hop-find unchanged hop_header (bytes "X")

-- CID 16 may go anywhere
abbrev proxy_listener : Out.Listener
proxy_listener = record {
  port = 3128;
  mode = Out.http_proxy;
  ln = Out.listening;
  done = false;
  matchers =
      (16, record { patterns = record { kind = universal; suffix = []; host = []; port = 0 } ∷ [] })
      ∷ [];
  upstream = none;
  relay = none;
}

abbrev connect_request : Proxy.Request
connect_request = record {
  method = bytes "CONNECT";
  url = record { scheme = []; host = bytes "a:443"; path = []; raw_path = []; raw_query = [] };
  host = bytes "a:443";
  request_uri = bytes "a:443";
  header = [];
  close = false;
  body = [];
}

abbrev proxy_net : Proxy.Net
proxy_net = record {
  canonical = unchanged;
  hostname = λ u. u.host;
  url_port = λ u. [];
  read_request = some connect_request;
  dial = λ h p. true;
  write_established = true;
  copied_out = 7;
  copied_in = 9;
  out_first = true;
  write_request = λ r. (1, true);
  read_response = λ r. none;
  write_response = λ r. (1, true);
}

-- the CONNECT goes through
connect_run :
    Proxy.handle proxy_net proxy_listener 16
    ≡ Proxy.track Proxy.client
      ∷ Proxy.dialled (bytes "a") (bytes "443")
      ∷ Proxy.track Proxy.upstream
      ∷ Proxy.established
      ∷ Proxy.counted (Proxy.of_cid 16) Proxy.allowed
      ∷ Proxy.bytes_out (Proxy.of_cid 16) 7
      ∷ Proxy.half_closed Proxy.upstream
      ∷ Proxy.bytes_in (Proxy.of_cid 16) 9
      ∷ Proxy.half_closed Proxy.client
      ∷ Proxy.untrack Proxy.upstream
      ∷ Proxy.closed Proxy.upstream
      ∷ Proxy.untrack Proxy.client
      ∷ Proxy.closed Proxy.client
      ∷ []
unfolding Proxy.handle Out.find_matcher vsockd.Go.Strings.equal vsockd.Go.Net.split_host_port
    vsockd.Go.Net.atoi vsockd.Allowlist.Defs.allow
connect_run = refl

handle-IsPermitted_example :
    All (IsPermitted proxy_listener 16) (Proxy.handle proxy_net proxy_listener 16)
handle-IsPermitted_example = handle-IsPermitted proxy_net proxy_listener 16

handle-IsBalanced_example : IsBalanced 1 (Proxy.handle proxy_net proxy_listener 16)
handle-IsBalanced_example = handle-IsBalanced proxy_net proxy_listener 16

abbrev site_routes : List Route
site_routes = record { hostname = bytes "A"; cid = 16; vsock_port = 8080 } ∷ []

abbrev site : In.Listener
site = record {
  bind_addr = bytes "h";
  port = pos 80;
  mode = mode_http_host;
  tcp = In.listening;
  routes = some (In.build_route_map site_routes);
  target_cid = 0;
  target_port = 0;
}

-- a client that asks for the host a
abbrev site_net : Routing.Net
site_net = record {
  sniff = λ m. some (bytes "a", bytes "GET");
  dial = λ c p. true;
  write_buffered = λ b. true;
  copied_in = (3, false);
  copied_out = (5, false);
  in_first = true;
}

handle-IsRouted_example :
    All (IsRouted site_routes (some (bytes "a", bytes "GET"))) (Routing.handle site_net site)
handle-IsRouted_example = handle-IsRouted site_net site site_routes refl

-- the connection goes to the enclave of the route
site_run :
    Routing.handle site_net site
    ≡ Routing.track Routing.client
      ∷ Routing.connection (bytes "A")
      ∷ Routing.dialled 16 8080
      ∷ Routing.track Routing.upstream
      ∷ Routing.replayed (bytes "GET")
      ∷ Routing.bytes_in (bytes "A") 3
      ∷ Routing.bytes_in (bytes "A") 3
      ∷ Routing.half_closed Routing.upstream
      ∷ Routing.bytes_out (bytes "A") 5
      ∷ Routing.half_closed Routing.client
      ∷ Routing.untrack Routing.upstream
      ∷ Routing.closed Routing.upstream
      ∷ Routing.untrack Routing.client
      ∷ Routing.closed Routing.client
      ∷ []
unfolding Routing.handle In.find_route In.build_route_map vsockd.Go.Strings.equal
    vsockd.Go.Strings.to_lower
site_run = refl
