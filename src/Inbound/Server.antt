-- ===== src/Inbound/Server.antt =====
-- internal/inbound/server.go: the inbound server, its listeners, and the steps in which its reload differs from
-- the outbound one. What binding an address gives is a parameter, and may depend on the
-- listeners that exist. The text of an address or of a key is replaced by what it is made of, which the
-- text fixes: the digits of a port hold no bar and no colon. `routes` is the map of the host names, `none` for a nil pointer.
pub mod Laws
use vsockd.Common.{
  ℕ, Bool, true, false, not, ◌&&◌, ◌||◌, ◌==◌, Option, none, some, List, [], ◌∷◌, ◌++◌, ◌⊎◌, inl,
  inr, if◌then◌else◌, ℤ, pos, negsuc,
}
use vsockd.Go.Strings.{Bytes, bytes, equal, to_lower}
use vsockd.Config.Types.{Route, InboundListener, TcpToVsockListener, mode_http_host, mode_tls_sni}
use vsockd.Outbound.RefSink.{RefSink}
use vsockd.Reload.{Ops}

abbrev pub mode_tcp_to_vsock : Bytes
mode_tcp_to_vsock = bytes "tcp_to_vsock"

pub data Socket : Type 0 where
  unbound listening shut : Socket

-- `bindAddr` and `port`, and the `mode` with them for a key
abbrev pub Address : Type 0
Address = Bytes × ℤ

abbrev pub Key : Type 0
Key = Address × Bytes

pub record Listener : Type 0 where
  pub bind_addr : Bytes
  pub port : ℤ
  pub mode : Bytes
  pub tcp : Socket
  pub routes : Option (List (Bytes × Route))
  pub target_cid : ℕ
  pub target_port : ℕ

-- one entry of the two lists that `PrepareApply` takes, with its index
pub data Entry : Type 0 where
  in_inbound : ℕ → InboundListener → Entry
  in_tcp_to_vsock : ℕ → TcpToVsockListener → Entry

pub data Error : Type 0 where
  before_start : Error
  unknown_mode : Bytes → Error
  cannot_listen : Address → Bytes → Error
  at_section : Bytes → ℕ → Error → Error
  cannot_change_target : Bytes → ℕ → Address → Error
  cannot_change_mode : Bytes → ℕ → Address → Bytes → Bytes → Error

unfoldable pub same_int : ℤ → ℤ → Bool
same_int (pos a) (pos b) = a == b
same_int (negsuc a) (negsuc b) = a == b
same_int _ _ = false

abbrev pub same_address : Address → Address → Bool
same_address a b = equal a.0 b.0 && same_int a.1 b.1

abbrev pub same_key : Key → Key → Bool
same_key a b = same_address a.0 b.0 && equal a.1 b.1

-- `addr` and `key`
abbrev pub addr : Listener → Address
addr l = (l.bind_addr, l.port)

abbrev pub key : Listener → Key
key l = (addr l, l.mode)

abbrev pub section_of : Entry → Bytes
section_of (in_inbound i c) = bytes "inbound"
section_of (in_tcp_to_vsock i c) = bytes "tcp_to_vsock"

abbrev pub index_of : Entry → ℕ
index_of (in_inbound i c) = i
index_of (in_tcp_to_vsock i c) = i

-- what the key of an entry's listener will be
abbrev pub key_of : Entry → Key
key_of (in_inbound i c) = ((c.bind, c.port), c.mode)
key_of (in_tcp_to_vsock i c) = ((c.bind, c.port), mode_tcp_to_vsock)

-- `out[k] = r`
unfoldable pub put_route : List (Bytes × Route) → Bytes → Route → List (Bytes × Route)
put_route [] k r = (k, r) ∷ []
put_route (x ∷ xs) k r =
    let rest = x ∷ put_route xs k r in if equal x.0 k then (k, r) ∷ xs else rest

abbrev pub put_routes : List (Bytes × Route) → List Route → List (Bytes × Route)
put_routes out [] = out
put_routes out (r ∷ rs) = put_routes (put_route out (to_lower r.hostname) r) rs

-- `buildRouteMap`
unfoldable pub build_route_map : List Route → List (Bytes × Route)
unfolding put_route
build_route_map rs = put_routes [] rs

-- the lookup `routes[host]`
unfoldable pub find_route : List (Bytes × Route) → Bytes → Option Route
find_route [] host = none
find_route (x ∷ xs) host = if equal x.0 host then some x.1 else find_route xs host

abbrev pub routes_or_nil : Option (List (Bytes × Route)) → List (Bytes × Route)
routes_or_nil none = []
routes_or_nil (some rm) = rm

-- `routesSnapshot`
abbrev pub routes_snapshot : Listener → List (Bytes × Route)
routes_snapshot l = routes_or_nil l.routes

-- `newHTTPListener`
unfoldable pub new_http_listener : InboundListener → Error ⊎ Listener
new_http_listener cfg =
    if equal cfg.mode mode_http_host || equal cfg.mode mode_tls_sni
    then inr (record {
      bind_addr = cfg.bind;
      port = cfg.port;
      mode = cfg.mode;
      tcp = unbound;
      routes = some (build_route_map cfg.routes);
      target_cid = 0;
      target_port = 0;
    })
    else inl (unknown_mode cfg.mode)

-- `newTCPToVsockListener`
unfoldable pub new_tcp_to_vsock_listener : TcpToVsockListener → Error ⊎ Listener
new_tcp_to_vsock_listener cfg = inr (record {
  bind_addr = cfg.bind;
  port = cfg.port;
  mode = mode_tcp_to_vsock;
  tcp = unbound;
  routes = none;
  target_cid = cfg.vsock_cid;
  target_port = cfg.vsock_port;
})

-- `l.tcp.Close()`, unless there is none
abbrev pub close_socket : Socket → Socket
close_socket unbound = unbound
close_socket _ = shut

-- `close`
unfoldable pub close : Listener → Listener
close l = record l { tcp = close_socket l.tcp }

-- `replaceRoutes`
unfoldable pub replace_routes : List (Bytes × Route) → Listener → Listener
replace_routes rm l = record l { routes = some rm }

-- the guard on the target of a tcp_to_vsock listener
abbrev pub target_changes : Listener → Listener → Bool
target_changes new_ln cur =
    equal new_ln.mode mode_tcp_to_vsock
    && (not (cur.target_cid == new_ln.target_cid) || not (cur.target_port == new_ln.target_port))

-- what the closure `apply` swaps when the key is already served
unfoldable pub swap_for : Entry → Listener → Listener → Error ⊎ List (Bytes × Route)
swap_for c new_ln cur =
    if target_changes new_ln cur
    then inl (cannot_change_target (section_of c) (index_of c) (addr new_ln))
    else inr (routes_snapshot new_ln)

-- `existingByAddr[addr]`: the last listener with the address
unfoldable pub find_by_addr : List Listener → Address → Option Listener
find_by_addr [] a = none
find_by_addr (l ∷ ls) a = elim (find_by_addr ls a) [
  | some m ↦ some m
  | none ↦ if same_address (addr l) a then some l else none
]

-- the change of the mode on an address that is bound
unfoldable pub refuse : List Listener → Entry → Listener → Option Error
unfolding find_by_addr
refuse ls c new_ln = elim (find_by_addr ls (addr new_ln)) [
  | none ↦ none
  | some cur ↦
      some (cannot_change_mode (section_of c) (index_of c) (addr new_ln) cur.mode new_ln.mode)
]

abbrev pub in_section : Entry → Error ⊎ Listener → Error ⊎ Listener
in_section c (inl e) = inl (at_section (section_of c) (index_of c) e)
in_section c (inr l) = inr l

abbrev pub new_listener : Entry → Error ⊎ Listener
new_listener (in_inbound i c) = new_http_listener c
new_listener (in_tcp_to_vsock i c) = new_tcp_to_vsock_listener c

-- `net.Listen` on an address: the text of its error, if any
module _ (listen : List Listener → Address → Option Bytes) where
  -- `bind`
  unfoldable pub bind : List Listener → Listener → Error ⊎ Listener
  bind heap l = elim (listen heap (addr l)) [
    | some e ↦ inl (cannot_listen (addr l) e)
    | none ↦ inr (record l { tcp = listening })
  ]

  abbrev pub ops : Ops Key Entry Listener (List (Bytes × Route)) Error
  ops = record {
    same = same_key;
    key = key;
    before_start = before_start;
    build = λ heap c. in_section c (new_listener c);
    opens = λ l. 0;
    swap_for = swap_for;
    refuse = refuse;
    bind = bind;
    install = λ rm l. (replace_routes rm l, []);
    close = λ l. (close l, []);
    discard = λ rm. [];
    drop = λ l. [];
  }
