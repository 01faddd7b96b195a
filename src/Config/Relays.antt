-- ===== src/Config/Relays.antt =====
-- internal/config/config.go: the vsock_to_tcp and log_relay listeners that `Validate` accepts.
use vsockd.Common.{
  Fresh, ℕ, suc, ◌≡◌, ◌≢◌, ◌⊎◌, refl, sym, false, not, ◌&&◌, Option, none, some, List, [], ◌∷◌, map,
  ℤ, ltz, ok, reject, arith, All, >>=-eq-ok, reject-eq-ok, ok-injective,
}
use vsockd.Go.Strings.{bytes, equal, is_empty}
use vsockd.Go.Strings.Laws.{equal_iff}
use vsockd.Config.Types
use vsockd.Config.Types.{Error, mem_num, mem_bind}
use vsockd.Config.Listeners
use vsockd.Config.Listeners.{under}
use vsockd.Config.Validate
use vsockd.Config.Accepts.{onto, InVsock, in-vsock, under-eq-ok}

-- An enrichment as `Validate` leaves it: the relay's own keys stay its own.
pub record IsEnrich (e : Types.LogRelayEnrich) : Type 0 where
  pub has_key : e.host_key ≢ []
  pub not_reserved : (e.tags ≡ []) ⊎ (Types.mem_bytes Types.relay_reserved_keys e.host_key ≡ false)
  pub not_cid : (e.tags ≡ []) ⊎ ((e.cid ≡ false) ⊎ (equal e.host_key (bytes "cid") ≡ false))

abbrev EnrichOk : Option Types.LogRelayEnrich → Type 0
EnrichOk none = Unit
EnrichOk (some e) = IsEnrich e

pub record IsRelay (l : Types.LogRelayListener) : Type 0 where
  pub port_ok : InVsock l.port
  pub output_ok :
      ((l.output ≡ Types.output_file) × (l.path ≢ []))
      ⊎ ((l.output ≡ Types.output_stdout) × (l.path ≡ []))
  pub line_ok : ltz l.max_line_bytes 16 ≡ false
  pub enrich_ok : EnrichOk l.enrich

pub record IsVsock (v : Types.VsockToTcpListener) : Type 0 where
  pub port_ok : InVsock v.port
  pub upstream_ok : Listeners.validate_host_port v.upstream ≡ ok tt

abbrev pub vsock_port : Types.VsockToTcpListener → ℕ
vsock_port v = v.port

abbrev pub relay_port : Types.LogRelayListener → ℕ
relay_port l = l.port

validate_vsock_to_tcp_sound :
    (v : Types.VsockToTcpListener) → Listeners.validate_vsock_to_tcp v ≡ ok tt → IsVsock v
unfolding Listeners.validate_vsock_to_tcp
validate_vsock_to_tcp_sound v e =
    let (_, port, e1) = >>=-eq-ok (reject (Listeners.bad_vsock_port v.port) Types.port_range) _ e in
    let (_, some', e2) = >>=-eq-ok (reject (is_empty v.upstream) Types.empty_upstream) _ e1 in
    record {
      port_ok = in-vsock v.port (reject-eq-ok _ _ port);
      upstream_ok = under-eq-ok Types.at_upstream (Listeners.validate_host_port v.upstream) e2;
    }

pub check_vsock_sound :
    (i : ℕ) (ports out : List ℕ) (vs : List Types.VsockToTcpListener)
    → Validate.check_vsock i ports vs ≡ ok out
    → All IsVsock vs
      × Fresh mem_num ports (map vsock_port vs)
      × (out ≡ onto ports (map vsock_port vs))
unfolding Validate.check_vsock
check_vsock_sound i ports out [] e = (tt, tt, sym (ok-injective e))
check_vsock_sound i ports out (v ∷ vs) e =
    let (_, good, e1) =
      >>=-eq-ok (under (Types.at_vsock_to_tcp i) (Listeners.validate_vsock_to_tcp v)) _ e in
    let (_, fresh, e2) =
      >>=-eq-ok (reject (mem_num ports v.port) (Types.at_vsock_to_tcp i Types.duplicate_port)) _
        e1 in
    let (a, f, o) = check_vsock_sound (suc i) (v.port ∷ ports) out vs e2 in
    (
      (validate_vsock_to_tcp_sound v (under-eq-ok _ (Listeners.validate_vsock_to_tcp v) good), a),
      (reject-eq-ok _ _ fresh, f),
      o,
    )

check_enrich_sound :
    (o r : Option Types.LogRelayEnrich) → Listeners.check_enrich o ≡ ok r → EnrichOk r
unfolding Listeners.check_enrich
check_enrich_sound none r e = rw (← ok-injective e) tt
check_enrich_sound (some a) r e =
    let (_, tags, e1) = >>=-eq-ok (Listeners.check_tags a.tags) _ e in
    let key = Listeners.host_key_or_default a.host_key in
    let (_, free, e2) =
      >>=-eq-ok
        (reject (not (Listeners.is_nil a.tags) && Types.mem_bytes Types.relay_reserved_keys key)
          Types.reserved_host_key)
        _ e1 in
    let (_, other, e3) =
      >>=-eq-ok
        (reject (not (Listeners.is_nil a.tags) && a.cid && equal key (bytes "cid"))
          Types.cid_host_key)
        _ e2 in
    let f = reject-eq-ok _ _ free in
    let g = reject-eq-ok _ _ other in
    rw (← ok-injective e3)
      (record { has_key = ground arith; not_reserved = ground arith; not_cid = ground arith })

check_output_sound :
    (l : Types.LogRelayListener)
    → Listeners.check_output l ≡ ok tt
    → ((l.output ≡ Types.output_file) × (l.path ≢ []))
      ⊎ ((l.output ≡ Types.output_stdout) × (l.path ≡ []))
unfolding Listeners.check_output
check_output_sound l e =
    ground (arith, equal_iff l.output Types.output_file, equal_iff l.output Types.output_stdout)

check_max_line_sound : (n m : ℤ) → Listeners.check_max_line n ≡ ok m → ltz m 16 ≡ false
unfolding Listeners.check_max_line
check_max_line_sound n m e = ground arith

validate_log_relay_sound :
    (l m : Types.LogRelayListener)
    → Listeners.validate_log_relay l ≡ ok m
    → IsRelay m × (m.port ≡ l.port)
unfolding Listeners.validate_log_relay
validate_log_relay_sound l m e =
    let (_, port, e1) = >>=-eq-ok (reject (Listeners.bad_vsock_port l.port) Types.port_range) _ e in
    let (_, output, e2) = >>=-eq-ok (Listeners.check_output l) _ e1 in
    let (n, line, e3) = >>=-eq-ok (Listeners.check_max_line l.max_line_bytes) _ e2 in
    let (r, enrich, e4) = >>=-eq-ok (Listeners.check_enrich l.enrich) _ e3 in
    rw (← ok-injective e4) (
      record {
        port_ok = in-vsock l.port (reject-eq-ok _ _ port);
        output_ok = check_output_sound l output;
        line_ok = check_max_line_sound l.max_line_bytes n line;
        enrich_ok = check_enrich_sound l.enrich r enrich;
      },
      refl,
    )

pub check_relays_sound :
    (i : ℕ) (ports : List ℕ) (out : List Types.LogRelayListener × List ℕ)
    (ls : List Types.LogRelayListener)
    → Validate.check_relays i ports ls ≡ ok out
    → All IsRelay out.0
      × Fresh mem_num ports (map relay_port out.0)
      × (out.1 ≡ onto ports (map relay_port out.0))
unfolding Validate.check_relays
check_relays_sound i ports out [] e = rw (← ok-injective e) (tt, tt, refl)
check_relays_sound i ports out (l ∷ ls) e =
    let (l', good, e1) =
      >>=-eq-ok (under (Types.at_log_relay i) (Listeners.validate_log_relay l)) _ e in
    let (_, fresh, e2) =
      >>=-eq-ok (reject (mem_num ports l.port) (Types.at_log_relay i Types.duplicate_port)) _ e1 in
    let (rest, more, e3) = >>=-eq-ok (Validate.check_relays (suc i) (l.port ∷ ports) ls) _ e2 in
    let (this, same) =
      validate_log_relay_sound l l' (under-eq-ok _ (Listeners.validate_log_relay l) good) in
    let (a, f, o) = check_relays_sound (suc i) (l.port ∷ ports) rest ls more in
    rw (← ok-injective e3) ((this, a), (rw same (reject-eq-ok _ _ fresh), rw same f), rw same o)
