-- ===== src/Inbound/Routing/Routed.antt =====
-- internal/inbound/server.go: where `handle` routes a connection, and what it counts.
use mathlib.Core.Path.{subst}
use vsockd.Common.{
  ◌≡◌, refl, sym, ap, Bool, true, false, Option, none, some, List, [], ◌∷◌, ◌++◌, ◌⊎◌, inl, inr,
  if◌then◌else◌, All, All-append, Any, here, there, Bool-cases, some-injective,
}
use vsockd.Go.Strings.{Bytes, equal, to_lower}
use vsockd.Go.Strings.Laws.{equal_iff}
use vsockd.Config.Types.{Route}
use vsockd.Inbound.Server.{
  Listener, routes_or_nil, routes_snapshot, find_route, put_route, put_routes, build_route_map,
}
use vsockd.Inbound.Routing.{
  Event, track, untrack, closed, dialled, replayed, connection, failed, bytes_in, bytes_out, Net,
  client, route_label_unknown, copy_failure, copy_in, copy_out, proxy, replay, on_route, on_sniff,
  handle,
}

-- the route of a host among the configured ones
abbrev pub IsRouteOf : List Route → Bytes → Route → Type 0
IsRouteOf rs host r = Any (λ x. x ≡ r) rs × (to_lower r.hostname ≡ host)

-- a label is the fixed one, or a configured host name
abbrev pub IsLabel : List Route → Bytes → Type 0
IsLabel rs label = (label ≡ route_label_unknown) ⊎ Any (λ r. r.hostname ≡ label) rs

-- Every dial is to the route of the host that was sniffed, every replay is of the bytes that
-- were read to sniff it, and every label comes from the configuration.
abbrev pub IsRouted : List Route → Option (Bytes × Bytes) → Event → Type 0
IsRouted rs none (dialled cid port) = ⊥
IsRouted rs (some sniffed) (dialled cid port) =
    (r : Route) × IsRouteOf rs sniffed.0 r × (r.cid ≡ cid) × (r.vsock_port ≡ port)
IsRouted rs none (replayed b) = ⊥
IsRouted rs (some sniffed) (replayed b) = b ≡ sniffed.1
IsRouted rs s (connection label) = IsLabel rs label
IsRouted rs s (failed label k) = IsLabel rs label
IsRouted rs s (bytes_in label n) = IsLabel rs label
IsRouted rs s (bytes_out label n) = IsLabel rs label
IsRouted rs s _ = Unit

-- what the map holds under a key
abbrev HoldsRoutes : List Route → List (Bytes × Route) → Type 0
HoldsRoutes rs rm = All (λ x. IsRouteOf rs x.0 x.1) rm

put_route-HoldsRoutes :
    (rs : List Route) (rm : List (Bytes × Route)) (k : Bytes) (r : Route)
    → HoldsRoutes rs rm
    → IsRouteOf rs k r
    → HoldsRoutes rs (put_route rm k r)
unfolding put_route
put_route-HoldsRoutes rs [] k r a i = (i, tt)
put_route-HoldsRoutes rs (x ∷ rm) k r a i = elim (Bool-cases (equal x.0 k)) [
  | inl e ↦ rw e (i, a.1)
  | inr e ↦ rw e (a.0, put_route-HoldsRoutes rs rm k r a.1 i)
]

put_routes-HoldsRoutes :
    (all rs : List Route) (rm : List (Bytes × Route))
    → HoldsRoutes all rm
    → ((r : Route) → Any (λ x. x ≡ r) rs → Any (λ x. x ≡ r) all)
    → HoldsRoutes all (put_routes rm rs)
put_routes-HoldsRoutes all [] rm a i = a
put_routes-HoldsRoutes all (r ∷ rs) rm a i =
    put_routes-HoldsRoutes all rs (put_route rm (to_lower r.hostname) r)
      (put_route-HoldsRoutes all rm (to_lower r.hostname) r a (i r (here refl), refl))
      (λ s m. i s (there m))

find_route-IsRouteOf :
    (rs : List Route) (rm : List (Bytes × Route)) (host : Bytes) (r : Route)
    → HoldsRoutes rs rm
    → find_route rm host ≡ some r
    → IsRouteOf rs host r
unfolding find_route
find_route-IsRouteOf rs [] host r a f = cc
find_route-IsRouteOf rs (x ∷ rm) host r a f = elim (Bool-cases (equal x.0 host)) [
  | inl e ↦ rw (← (equal_iff x.0 host).0 e, ← some-injective (rw (find_route, e) at f)) a.0
  | inr e ↦ find_route-IsRouteOf rs rm host r a.1 (rw (find_route, e) at f)
]

module _ (rs : List Route) (net : Net) (sniffed : Bytes × Bytes) where
  abbrev Ok : List Event → Type 0
  Ok = All (IsRouted rs (some sniffed))

  if-Ok : (b : Bool) (xs ys : List Event) → Ok xs → Ok ys → Ok (if b then xs else ys)
  if-Ok true xs ys p q = p
  if-Ok false xs ys p q = q

  module _ (label : Bytes) (known : IsLabel rs label) where
    copy_failure-Ok : (b : Bool) → Ok (copy_failure label b)
    copy_failure-Ok true = (known, tt)
    copy_failure-Ok false = tt

    copy_in-Ok : Ok (copy_in net label)
    copy_in-Ok = (
      known,
      All-append (IsRouted rs (some sniffed)) (copy_failure label net.copied_in.1) _
          (copy_failure-Ok net.copied_in.1) (tt, tt),
    )

    copy_out-Ok : Ok (copy_out net label)
    copy_out-Ok = (
      known,
      All-append (IsRouted rs (some sniffed)) (copy_failure label net.copied_out.1) _
          (copy_failure-Ok net.copied_out.1) (tt, tt),
    )

    proxy-Ok : Ok (proxy net label)
    unfolding proxy
    proxy-Ok =
        if-Ok net.in_first _ _
          (All-append (IsRouted rs (some sniffed)) (copy_in net label) (copy_out net label)
            copy_in-Ok copy_out-Ok)
          (All-append (IsRouted rs (some sniffed)) (copy_out net label) (copy_in net label)
            copy_out-Ok copy_in-Ok)

    replay-Ok : Ok (replay net label sniffed.1)
    replay-Ok = if-Ok (net.write_buffered sniffed.1) _ _ (refl, (known, proxy-Ok)) (known, tt)

  host_label :
      (r : Route) (ls : List Route) → Any (λ x. x ≡ r) ls → Any (λ x. x.hostname ≡ r.hostname) ls
  host_label r _ (here e) = here (ap (λ (x : Route). x.hostname) e)
  host_label r _ (there a) = there (host_label r _ a)

  on_route-Ok :
      (o : Option Route)
      → ((r : Route) → o ≡ some r → IsRouteOf rs sniffed.0 r)
      → Ok (on_route net sniffed.1 o)
  on_route-Ok none f = (inl refl, tt)
  on_route-Ok (some r) f =
      let route = f r refl in
      let known : IsLabel rs r.hostname = inr (host_label r rs route.0) in
      (
        known,
        (
          (r, route, refl, refl),
          if-Ok (net.dial r.cid r.vsock_port) _ _
              (
                tt,
                All-append (IsRouted rs (some sniffed)) (replay net r.hostname sniffed.1) _
                    (replay-Ok r.hostname known) (tt, (tt, tt)),
              )
              (known, tt),
        ),
      )

on_sniff-IsRouted :
    (rs : List Route) (net : Net) (rm : List (Bytes × Route)) (s : Option (Bytes × Bytes))
    → HoldsRoutes rs rm
    → All (IsRouted rs s) (on_sniff net rm s)
on_sniff-IsRouted rs net rm none h = (inl refl, tt)
on_sniff-IsRouted rs net rm (some sniffed) h =
    on_route-Ok rs net sniffed (find_route rm sniffed.0)
      (λ r e. find_route-IsRouteOf rs rm sniffed.0 r h e)

released-IsRouted :
    (rs : List Route) (s : Option (Bytes × Bytes))
    → All (IsRouted rs s) (untrack client ∷ closed client ∷ [])
released-IsRouted rs none = (tt, (tt, tt))
released-IsRouted rs (some sniffed) = (tt, (tt, tt))

tracked-IsRouted :
    (rs : List Route) (s : Option (Bytes × Bytes)) (es : List Event)
    → All (IsRouted rs s) es
    → All (IsRouted rs s) (track client ∷ es)
tracked-IsRouted rs none es a = (tt, a)
tracked-IsRouted rs (some sniffed) es a = (tt, a)

-- On a listener whose table was built from the routes `rs`, whatever the peer sends: a connection is dialled only if a host
-- was sniffed, and then to the CID and the port of a configured route with that host name in lower case;
-- what is replayed to it are the bytes read to sniff the host; and every
-- label of a counter is a configured host name or the fixed one.
pub handle-IsRouted :
    (net : Net) (l : Listener) (rs : List Route)
    → l.routes ≡ some (build_route_map rs)
    → All (IsRouted rs (net.sniff l.mode)) (handle net l)
unfolding handle build_route_map
handle-IsRouted net l rs e =
    let held = put_routes-HoldsRoutes rs rs [] tt (λ r m. m) in
    let holds = subst (HoldsRoutes rs) (sym (ap routes_or_nil e)) held in
    let s = net.sniff l.mode in
    tracked-IsRouted rs s
      (on_sniff net (routes_snapshot l) s ++ (untrack client ∷ closed client ∷ []))
      (All-append (IsRouted rs s) (on_sniff net (routes_snapshot l) s) _
        (on_sniff-IsRouted rs net (routes_snapshot l) s holds) (released-IsRouted rs s))
