-- ===== src/Config/Accepts.antt =====
-- internal/config/config.go: what holds of a configuration that `Validate` accepts, and that the other
-- packages rely on.
use vsockd.Common.{
  Fresh, ℕ, suc, ◌≤◌, ◌<◌, ◌≡◌, ◌≢◌, ◌⊎◌, sym, Bool, true, false, not, ◌||◌, List, [], ◌∷◌, ◌++◌,
  map, ltb, ℤ, gtz, Outcome, ok, err, panic, no_fuel, reject, arith, All, >>=-eq-ok, reject-eq-ok,
  ok-injective,
}
use vsockd.Go.Strings.{Bytes, equal, is_empty, to_lower}
use vsockd.Go.Strings.Laws.{equal_iff}
use vsockd.Config.Types
use vsockd.Config.Types.{Error, BindKey, mem_bind, mem_num}
use vsockd.Config.Listeners
use vsockd.Config.Listeners.{under}
use vsockd.Config.Validate

-- `xs` put onto `seen` one after another
abbrev pub onto {ℓ} : {A : Type ℓ} → List A → List A → List A
onto seen [] = seen
onto seen (x ∷ xs) = onto (x ∷ seen) xs

abbrev lower_host : Types.Route → Bytes
lower_host r = to_lower r.hostname

pub Fresh-append {ℓ} :
    {A : Type ℓ} (mem : List A → A → Bool) (seen xs ys : List A)
    → Fresh mem seen xs
    → Fresh mem (onto seen xs) ys
    → Fresh mem seen (xs ++ ys)
Fresh-append mem seen [] ys f g = g
Fresh-append mem seen (x ∷ xs) ys f g = (f.0, Fresh-append mem (x ∷ seen) xs ys f.1 g)

pub under-eq-ok :
    {A : Type 0} (f : Error → Error) (r : Outcome Error A) {a : A} → under f r ≡ ok a → r ≡ ok a
under-eq-ok f (ok a) e = e
under-eq-ok f (err x) e = cc
under-eq-ok f panic e = e
under-eq-ok f no_fuel e = e

abbrev pub InVsock : ℕ → Type 0
InVsock p = (0 < p) × (p < Types.vsock_port_any)

abbrev InTcp : ℤ → Type 0
InTcp p = (gtz p 0 ≡ true) × (gtz p 65535 ≡ false)

pub record IsRoute (r : Types.Route) : Type 0 where
  pub has_host : r.hostname ≢ []
  pub cid_ok : 3 ≤ r.cid
  pub port_ok : InVsock r.vsock_port

pub record IsInbound (l : Types.InboundListener) : Type 0 where
  pub has_bind : l.bind ≢ []
  pub port_ok : InTcp l.port
  pub mode_ok : (l.mode ≡ Types.mode_http_host) ⊎ (l.mode ≡ Types.mode_tls_sni)
  pub has_route : l.routes ≢ []
  pub routes_ok : All IsRoute l.routes
  -- hostnames differ in more than their case
  pub hosts_fresh : Fresh Types.mem_bytes [] (map lower_host l.routes)

pub record IsTcp (t : Types.TcpToVsockListener) : Type 0 where
  pub has_bind : t.bind ≢ []
  pub port_ok : InTcp t.port
  pub cid_ok : 3 ≤ t.vsock_cid
  pub vsock_ok : InVsock t.vsock_port

ne-nil : (s : Bytes) → is_empty s ≡ false → s ≢ []
ne-nil s e = ground arith

pub in-vsock : (p : ℕ) → Listeners.bad_vsock_port p ≡ false → InVsock p
in-vsock p e = ground arith

check_routes_sound :
    (i : ℕ) (seen : List Bytes) (rs : List Types.Route)
    → Listeners.check_routes i seen rs ≡ ok tt
    → All IsRoute rs × Fresh Types.mem_bytes seen (map lower_host rs)
unfolding Listeners.check_routes
check_routes_sound i seen [] e = (tt, tt)
check_routes_sound i seen (r ∷ rs) e =
    let (_, host, e1) =
      >>=-eq-ok (reject (is_empty r.hostname) (Types.at_route i Types.empty_hostname)) _ e in
    let (_, fresh, e2) =
      >>=-eq-ok
        (reject (Types.mem_bytes seen (to_lower r.hostname))
          (Types.at_route i Types.duplicate_hostname))
        _ e1 in
    let (_, cid, e3) =
      >>=-eq-ok (reject (ltb r.cid Types.min_cid) (Types.at_route i Types.reserved_cid)) _ e2 in
    let (_, port, e4) =
      >>=-eq-ok
        (reject (Listeners.bad_vsock_port r.vsock_port) (Types.at_route i Types.vsock_port_range)) _
        e3 in
    let (a, f) = check_routes_sound (suc i) (to_lower r.hostname ∷ seen) rs e4 in
    let c = reject-eq-ok _ _ cid in
    (
      (
        record {
          has_host = ne-nil r.hostname (reject-eq-ok _ _ host);
          cid_ok = ground arith;
          port_ok = in-vsock r.vsock_port (reject-eq-ok _ _ port);
        },
        a,
      ),
      (reject-eq-ok _ _ fresh, f),
    )

validate_inbound_sound :
    (l : Types.InboundListener) → Listeners.validate_inbound l ≡ ok tt → IsInbound l
unfolding Listeners.validate_inbound
validate_inbound_sound l e =
    let (_, bind, e1) = >>=-eq-ok (reject (is_empty l.bind) Types.empty_bind) _ e in
    let (_, port, e2) = >>=-eq-ok (reject (Listeners.bad_tcp_port l.port) Types.port_range) _ e1 in
    let (_, mode, e3) =
      >>=-eq-ok
        (reject (not (equal l.mode Types.mode_http_host || equal l.mode Types.mode_tls_sni))
          Types.bad_mode)
        _ e2 in
    let (_, routes, e4) = >>=-eq-ok (reject (Listeners.is_nil l.routes) Types.no_routes) _ e3 in
    let (a, f) = check_routes_sound 0 [] l.routes e4 in
    let p = reject-eq-ok _ _ port in
    let m = reject-eq-ok _ _ mode in
    let r = reject-eq-ok _ _ routes in
    record {
      has_bind = ne-nil l.bind (reject-eq-ok _ _ bind);
      port_ok = ground arith;
      mode_ok =
          ground
            (arith, equal_iff l.mode Types.mode_http_host, equal_iff l.mode Types.mode_tls_sni);
      has_route = ground arith;
      routes_ok = a;
      hosts_fresh = f;
    }

validate_tcp_to_vsock_sound :
    (t : Types.TcpToVsockListener) → Listeners.validate_tcp_to_vsock t ≡ ok tt → IsTcp t
unfolding Listeners.validate_tcp_to_vsock
validate_tcp_to_vsock_sound t e = ground arith

pub check_inbound_sound :
    (i : ℕ) (seen out : List BindKey) (ls : List Types.InboundListener)
    → Validate.check_inbound i seen ls ≡ ok out
    → All IsInbound ls
      × Fresh mem_bind seen (map Validate.inbound_key ls)
      × (out ≡ onto seen (map Validate.inbound_key ls))
unfolding Validate.check_inbound
check_inbound_sound i seen out [] e = (tt, tt, sym (ok-injective e))
check_inbound_sound i seen out (l ∷ ls) e =
    let (_, good, e1) = >>=-eq-ok (under (Types.at_inbound i) (Listeners.validate_inbound l)) _ e in
    let (_, fresh, e2) =
      >>=-eq-ok
        (reject (mem_bind seen (Validate.inbound_key l)) (Types.at_inbound i Types.duplicate_bind))
        _ e1 in
    let (a, f, o) = check_inbound_sound (suc i) (Validate.inbound_key l ∷ seen) out ls e2 in
    (
      (validate_inbound_sound l (under-eq-ok _ (Listeners.validate_inbound l) good), a),
      (reject-eq-ok _ _ fresh, f),
      o,
    )

pub check_tcp_sound :
    (i : ℕ) (seen out : List BindKey) (ts : List Types.TcpToVsockListener)
    → Validate.check_tcp i seen ts ≡ ok out
    → All IsTcp ts × Fresh mem_bind seen (map Validate.tcp_key ts)
unfolding Validate.check_tcp
check_tcp_sound i seen out [] e = (tt, tt)
check_tcp_sound i seen out (t ∷ ts) e =
    let (_, good, e1) =
      >>=-eq-ok (under (Types.at_tcp_to_vsock i) (Listeners.validate_tcp_to_vsock t)) _ e in
    let (_, fresh, e2) =
      >>=-eq-ok
        (reject (mem_bind seen (Validate.tcp_key t)) (Types.at_tcp_to_vsock i Types.duplicate_bind))
        _ e1 in
    let (a, f) = check_tcp_sound (suc i) (Validate.tcp_key t ∷ seen) out ts e2 in
    (
      (validate_tcp_to_vsock_sound t (under-eq-ok _ (Listeners.validate_tcp_to_vsock t) good), a),
      (reject-eq-ok _ _ fresh, f),
    )
