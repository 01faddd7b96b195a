-- ===== src/Outbound/Proxy/Permitted.antt =====
-- internal/outbound/server.go: what the HTTP forward proxy dials.
use vsockd.Common.{
  ℕ, ◌≡◌, refl, ap, Bool, true, false, ◌||◌, Option, none, some, List, inl, inr, if◌then◌else◌, ℤ,
  ltz, gtz, All, All-append, Bool-cases, some-injective,
}
use vsockd.Go.Strings.{Bytes, bytes, equal}
use vsockd.Go.Net.{split_host_port, atoi}
use vsockd.Allowlist.Defs.{Matcher, allow}
use vsockd.Outbound.Server.{Listener, find_matcher}
use vsockd.Outbound.Proxy

-- a dial is to a host and a port that the allowlist of the connection's CID permits
abbrev pub IsPermitted : Listener → ℕ → Proxy.Event → Type 0
IsPermitted l cid (Proxy.dialled host port_text) =
    (m : Matcher) × (port : ℤ) × (find_matcher l.matchers cid ≡ some m)
    × (atoi port_text ≡ some port)
    × (allow (some m) host port ≡ true)
IsPermitted l cid _ = Unit

if_none : (b : Bool) (k n : ℤ) → ◌≡◌ {A = Option ℤ} (if b then none else some k) (some n) → k ≡ n
if_none true k n e = cc
if_none false k n e = some-injective e

in_port_range-eq-some : (r : Option ℤ) (n : ℤ) → Proxy.in_port_range r ≡ some n → r ≡ some n
in_port_range-eq-some none n e = e
in_port_range-eq-some (some k) n e = ap some (if_none (ltz k 1 || gtz k 65535) k n e)

module _ (l : Listener) (cid : ℕ) (net : Proxy.Net) (label : Proxy.Label) where
  abbrev Ok : List Proxy.Event → Type 0
  Ok = All (IsPermitted l cid)

  if-Ok : (b : Bool) (xs ys : List Proxy.Event) → Ok xs → Ok ys → Ok (if b then xs else ys)
  if-Ok true xs ys p q = p
  if-Ok false xs ys p q = q

  tunnel-Ok : Ok (Proxy.tunnel net label)
  unfolding Proxy.tunnel
  tunnel-Ok = if-Ok net.out_first _ _ (tt, (tt, (tt, (tt, tt)))) (tt, (tt, (tt, (tt, tt))))

  connect_upstream-Ok : Ok (Proxy.connect_upstream net label)
  connect_upstream-Ok = if-Ok net.write_established _ _ (tt, (tt, tunnel-Ok)) (tt, tt)

  relay_response-Ok : (r : Option Proxy.Response) → Ok (Proxy.relay_response net label r)
  relay_response-Ok none = (tt, tt)
  relay_response-Ok (some resp) = (tt, (tt, (tt, tt)))

  proxy_upstream-Ok : (req : Proxy.Request) → Ok (Proxy.proxy_upstream net label req)
  proxy_upstream-Ok req = (
    tt,
    if-Ok (net.write_request req).1 _ _ (tt, relay_response-Ok (net.read_response req))
        (tt, (tt, tt)),
  )

  module _ (m : Matcher) (own : find_matcher l.matchers cid ≡ some m) where
    dial_permitted-Ok :
        (host port_text : Bytes) (port : ℤ) (body : List Proxy.Event)
        → atoi port_text ≡ some port
        → Ok body
        → Ok (Proxy.dial_permitted net label m host port_text port body)
    unfolding Proxy.dial_permitted
    dial_permitted-Ok host port_text port body p b = elim (Bool-cases (allow (some m) host port)) [
      | inr q ↦ rw (Proxy.dial_permitted, q) (tt, (tt, tt))
      | inl q ↦
          rw (Proxy.dial_permitted, q)
            (
              (m, port, own, p, q),
              if-Ok (net.dial host port_text) _ _
                  (tt, All-append (IsPermitted l cid) body _ b (tt, (tt, tt))) (tt, (tt, tt)),
            )
    ]

    on_port-Ok :
        (host port_text : Bytes) (body : List Proxy.Event) (r : Option ℤ)
        → Proxy.port_number port_text ≡ r
        → Ok body
        → Ok (Proxy.on_port net label m host port_text body r)
    on_port-Ok host port_text body none e b = (tt, (tt, tt))
    on_port-Ok host port_text body (some port) e b =
        dial_permitted-Ok host port_text port body (in_port_range-eq-some (atoi port_text) port e) b

    on_host_port-Ok :
        (body : List Proxy.Event) (r : Option (Bytes × Bytes))
        → Ok body
        → Ok (Proxy.on_host_port net label m body r)
    on_host_port-Ok body none b = (tt, (tt, tt))
    on_host_port-Ok body (some hp) b = on_port-Ok hp.0 hp.1 body (Proxy.port_number hp.1) refl b

    handle_connect-Ok : (req : Proxy.Request) → Ok (Proxy.handle_connect net label m req)
    unfolding Proxy.handle_connect
    handle_connect-Ok req = on_host_port-Ok _ (split_host_port req.url.host) connect_upstream-Ok

    handle_proxy-Ok : (req : Proxy.Request) → Ok (Proxy.handle_proxy net label m req)
    unfolding Proxy.handle_proxy
    handle_proxy-Ok req =
        if-Ok (equal req.url.scheme (bytes "http")) _ _
          (on_port-Ok (net.hostname req.url) (Proxy.port_or_80 (net.url_port req.url))
            (Proxy.proxy_upstream net label (Proxy.rewrite net.canonical req)) _ refl
            (proxy_upstream-Ok (Proxy.rewrite net.canonical req)))
          (tt, (tt, tt))

    on_request-Ok : (r : Option Proxy.Request) → Ok (Proxy.on_request net label m r)
    on_request-Ok none = (tt, (tt, tt))
    on_request-Ok (some req) =
        if-Ok (Proxy.is_connect req) _ _ (handle_connect-Ok req)
          (if-Ok (Proxy.is_absolute req) _ _ (handle_proxy-Ok req) (tt, (tt, tt)))

on_matcher-Ok :
    (l : Listener) (cid : ℕ) (net : Proxy.Net) (r : Option Matcher)
    → find_matcher l.matchers cid ≡ r
    → All (IsPermitted l cid) (Proxy.on_matcher net cid r)
on_matcher-Ok l cid net none e = (tt, tt)
on_matcher-Ok l cid net (some m) e = on_request-Ok l cid net (Proxy.of_cid cid) m e net.read_request

-- Whatever a peer sends, and whatever the network gives, the HTTP forward proxy dials only a host and a port that
-- the allowlist compiled for the peer's CID on that listener permits; for a CID without one
-- it dials nothing.
pub handle-IsPermitted :
    (net : Proxy.Net) (l : Listener) (cid : ℕ) → All (IsPermitted l cid) (Proxy.handle net l cid)
unfolding Proxy.handle
handle-IsPermitted net l cid = (
  tt,
  All-append (IsPermitted l cid) _ _ (on_matcher-Ok l cid net (find_matcher l.matchers cid) refl)
      (tt, (tt, tt)),
)
