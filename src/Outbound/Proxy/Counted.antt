-- ===== src/Outbound/Proxy/Counted.antt =====
-- internal/outbound/server.go: how often the HTTP forward proxy counts a connection, and what it closes.
use vsockd.Common.{
  ℕ, ◌+◌, ◌≡◌, refl, Bool, true, false, Option, none, some, List, [], ◌∷◌, ◌++◌, if◌then◌else◌, ℤ,
  arith,
}
use vsockd.Go.Strings.{Bytes, bytes, equal}
use vsockd.Go.Net.{split_host_port}
use vsockd.Allowlist.Defs.{Matcher, allow}
use vsockd.Outbound.Server.{Listener, find_matcher}
use vsockd.Outbound.Proxy

abbrev pub tally : (Proxy.Event → ℕ) → List Proxy.Event → ℕ
tally f [] = 0
tally f (e ∷ es) = f e + tally f es

tally-append :
    (f : Proxy.Event → ℕ) (xs ys : List Proxy.Event) → tally f (xs ++ ys) ≡ tally f xs + tally f ys
tally-append f [] ys = omega arith
tally-append f (x ∷ xs) ys = omega (arith, tally-append f xs ys)

abbrev pub same_side : Proxy.Side → Proxy.Side → ℕ
same_side Proxy.client Proxy.client = 1
same_side Proxy.upstream Proxy.upstream = 1
same_side _ _ = 0

-- how often a connection is counted, and how often a side is tracked, no longer tracked, and closed
abbrev pub counts : Proxy.Event → ℕ
counts (Proxy.counted label result) = 1
counts _ = 0

abbrev pub tracks : Proxy.Side → Proxy.Event → ℕ
tracks s (Proxy.track t) = same_side s t
tracks s _ = 0

abbrev pub untracks : Proxy.Side → Proxy.Event → ℕ
untracks s (Proxy.untrack t) = same_side s t
untracks s _ = 0

abbrev pub closes : Proxy.Side → Proxy.Event → ℕ
closes s (Proxy.closed t) = same_side s t
closes s _ = 0

-- `n` counts, and everything that is tracked is released again
pub record IsBalanced (n : ℕ) (es : List Proxy.Event) : Type 0 where
  pub counted : tally counts es ≡ n
  pub untracked : (s : Proxy.Side) → tally (untracks s) es ≡ tally (tracks s) es
  pub closed : (s : Proxy.Side) → tally (closes s) es ≡ tally (tracks s) es

-- nothing tracked, untracked or closed
abbrev NoneTracked : (es : List Proxy.Event) → Type 0
NoneTracked es =
    (s : Proxy.Side)
    → (tally (untracks s) es ≡ tally (tracks s) es) × (tally (closes s) es ≡ tally (tracks s) es)

leaf-IsBalanced :
    (n : ℕ) (es : List Proxy.Event) → tally counts es ≡ n → NoneTracked es → IsBalanced n es
leaf-IsBalanced n es c t = record { counted = c; untracked = λ s. (t s).0; closed = λ s. (t s).1 }

append-IsBalanced :
    (m n : ℕ) (xs ys : List Proxy.Event)
    → IsBalanced m xs
    → IsBalanced n ys
    → IsBalanced (m + n) (xs ++ ys)
append-IsBalanced m n xs ys a b = record {
  counted = rw (tally-append counts xs ys, a.counted, b.counted) refl;
  untracked = λ s.
      rw
        (
          tally-append (untracks s) xs ys,
          tally-append (tracks s) xs ys,
          a.untracked s,
          b.untracked s,
        )
        refl;
  closed = λ s.
      rw (tally-append (closes s) xs ys, tally-append (tracks s) xs ys, a.closed s, b.closed s)
        refl;
}

-- tracked in front, and released behind
wrapped-IsBalanced :
    (n : ℕ) (t : Proxy.Side) (es : List Proxy.Event)
    → IsBalanced n es
    → IsBalanced n (Proxy.track t ∷ (es ++ (Proxy.untrack t ∷ Proxy.closed t ∷ [])))
wrapped-IsBalanced n t es b = record {
  counted =
      omega (arith, tally-append counts es (Proxy.untrack t ∷ Proxy.closed t ∷ []), b.counted);
  untracked = λ s. omega (
    arith,
    tally-append (untracks s) es (Proxy.untrack t ∷ Proxy.closed t ∷ []),
    tally-append (tracks s) es (Proxy.untrack t ∷ Proxy.closed t ∷ []),
    b.untracked s,
  );
  closed = λ s. omega (
    arith,
    tally-append (closes s) es (Proxy.untrack t ∷ Proxy.closed t ∷ []),
    tally-append (tracks s) es (Proxy.untrack t ∷ Proxy.closed t ∷ []),
    b.closed s,
  );
}

if-IsBalanced :
    (n : ℕ) (b : Bool) (xs ys : List Proxy.Event)
    → IsBalanced n xs
    → IsBalanced n ys
    → IsBalanced n (if b then xs else ys)
if-IsBalanced n true xs ys p q = p
if-IsBalanced n false xs ys p q = q

module _ (net : Proxy.Net) (label : Proxy.Label) where
  bad_request-IsBalanced : IsBalanced 1 (Proxy.bad_request label)
  bad_request-IsBalanced = leaf-IsBalanced _ _ refl (λ s. (refl, refl))

  tunnel-IsBalanced : IsBalanced 0 (Proxy.tunnel net label)
  unfolding Proxy.tunnel
  tunnel-IsBalanced =
      if-IsBalanced 0 net.out_first _ _ (leaf-IsBalanced _ _ refl (λ s. (refl, refl)))
        (leaf-IsBalanced _ _ refl (λ s. (refl, refl)))

  connect_upstream-IsBalanced : IsBalanced 1 (Proxy.connect_upstream net label)
  connect_upstream-IsBalanced =
      if-IsBalanced 1 net.write_established _ _
        (append-IsBalanced 1 0 (Proxy.established ∷ Proxy.counted label Proxy.allowed ∷ []) _
          (leaf-IsBalanced _ _ refl (λ s. (refl, refl))) tunnel-IsBalanced)
        (leaf-IsBalanced _ _ refl (λ s. (refl, refl)))

  relay_response-IsBalanced :
      (r : Option Proxy.Response) → IsBalanced 1 (Proxy.relay_response net label r)
  relay_response-IsBalanced none = leaf-IsBalanced _ _ refl (λ s. (refl, refl))
  relay_response-IsBalanced (some resp) = leaf-IsBalanced _ _ refl (λ s. (refl, refl))

  proxy_upstream-IsBalanced :
      (req : Proxy.Request) → IsBalanced 1 (Proxy.proxy_upstream net label req)
  proxy_upstream-IsBalanced req =
      append-IsBalanced 0 1 (Proxy.forwarded req ∷ []) _
        (leaf-IsBalanced _ _ refl (λ s. (refl, refl)))
        (if-IsBalanced 1 (net.write_request req).1 _ _
          (append-IsBalanced 0 1 (Proxy.bytes_out label (net.write_request req).0 ∷ []) _
            (leaf-IsBalanced _ _ refl (λ s. (refl, refl)))
            (relay_response-IsBalanced (net.read_response req)))
          (leaf-IsBalanced _ _ refl (λ s. (refl, refl))))

  module _ (m : Matcher) where
    dial_permitted-IsBalanced :
        (host port_text : Bytes) (port : ℤ) (body : List Proxy.Event)
        → IsBalanced 1 body
        → IsBalanced 1 (Proxy.dial_permitted net label m host port_text port body)
    unfolding Proxy.dial_permitted
    dial_permitted-IsBalanced host port_text port body b =
        if-IsBalanced 1 (allow (some m) host port) _ _
          (append-IsBalanced 0 1 (Proxy.dialled host port_text ∷ []) _
            (leaf-IsBalanced _ _ refl (λ s. (refl, refl)))
            (if-IsBalanced 1 (net.dial host port_text) _ _
              (wrapped-IsBalanced 1 Proxy.upstream body b)
              (leaf-IsBalanced _ _ refl (λ s. (refl, refl)))))
          (leaf-IsBalanced _ _ refl (λ s. (refl, refl)))

    on_port-IsBalanced :
        (host port_text : Bytes) (body : List Proxy.Event) (r : Option ℤ)
        → IsBalanced 1 body
        → IsBalanced 1 (Proxy.on_port net label m host port_text body r)
    on_port-IsBalanced host port_text body none b = bad_request-IsBalanced
    on_port-IsBalanced host port_text body (some port) b =
        dial_permitted-IsBalanced host port_text port body b

    on_host_port-IsBalanced :
        (r : Option (Bytes × Bytes))
        → IsBalanced 1 (Proxy.on_host_port net label m (Proxy.connect_upstream net label) r)
    on_host_port-IsBalanced none = bad_request-IsBalanced
    on_host_port-IsBalanced (some hp) =
        on_port-IsBalanced hp.0 hp.1 (Proxy.connect_upstream net label) (Proxy.port_number hp.1)
          connect_upstream-IsBalanced

    handle_connect-IsBalanced :
        (req : Proxy.Request) → IsBalanced 1 (Proxy.handle_connect net label m req)
    unfolding Proxy.handle_connect
    handle_connect-IsBalanced req = on_host_port-IsBalanced (split_host_port req.url.host)

    handle_proxy-IsBalanced :
        (req : Proxy.Request) → IsBalanced 1 (Proxy.handle_proxy net label m req)
    unfolding Proxy.handle_proxy
    handle_proxy-IsBalanced req =
        if-IsBalanced 1 (equal req.url.scheme (bytes "http")) _ _
          (on_port-IsBalanced (net.hostname req.url) (Proxy.port_or_80 (net.url_port req.url))
            (Proxy.proxy_upstream net label (Proxy.rewrite net.canonical req)) _
            (proxy_upstream-IsBalanced (Proxy.rewrite net.canonical req)))
          bad_request-IsBalanced

    on_request-IsBalanced :
        (r : Option Proxy.Request) → IsBalanced 1 (Proxy.on_request net label m r)
    on_request-IsBalanced none = bad_request-IsBalanced
    on_request-IsBalanced (some req) =
        if-IsBalanced 1 (Proxy.is_connect req) _ _ (handle_connect-IsBalanced req) (
          if-IsBalanced 1 (Proxy.is_absolute req) _ _ (handle_proxy-IsBalanced req)
            bad_request-IsBalanced)

on_matcher-IsBalanced :
    (cid : ℕ) (net : Proxy.Net) (r : Option Matcher) → IsBalanced 1 (Proxy.on_matcher net cid r)
on_matcher-IsBalanced cid net none = leaf-IsBalanced _ _ refl (λ s. (refl, refl))
on_matcher-IsBalanced cid net (some m) =
    on_request-IsBalanced net (Proxy.of_cid cid) m net.read_request

-- Every connection to the HTTP forward proxy is counted exactly once in outbound_connections, whatever happens to it, and each
-- connection that is tracked on the way, its own and the one to the upstream, is as often untracked
-- and closed as it is tracked.
pub handle-IsBalanced :
    (net : Proxy.Net) (l : Listener) (cid : ℕ) → IsBalanced 1 (Proxy.handle net l cid)
unfolding Proxy.handle
handle-IsBalanced net l cid =
    wrapped-IsBalanced 1 Proxy.client (Proxy.on_matcher net cid (find_matcher l.matchers cid))
      (on_matcher-IsBalanced cid net (find_matcher l.matchers cid))
