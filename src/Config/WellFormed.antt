-- ===== src/Config/WellFormed.antt =====
-- internal/config/config.go: `Validate` as a whole.
use vsockd.Common.{
  Fresh, ℕ, ◌≡◌, ◌≢◌, ◌⊎◌, refl, Bool, true, false, not, ◌&&◌, none, List, [], ◌∷◌, ◌++◌, map, leb,
  ◌==◌, ltz, ok, reject, arith, All, >>=-eq-ok, reject-eq-ok, ok-injective,
}
use vsockd.Go.Net.{split_host_port}
use vsockd.Go.Strings.{is_empty}
use vsockd.Config.Types
use vsockd.Config.Types.{Error, mem_num, mem_bind}
use vsockd.Config.Validate
use vsockd.Config.Accepts.{
  onto, Fresh-append, InVsock, IsInbound, IsTcp, check_inbound_sound, check_tcp_sound,
}
use vsockd.Config.Egress.{IsOutbound, port_of, all_cids, check_outbound_sound}
use vsockd.Config.Relays.{
  IsRelay, IsVsock, vsock_port, relay_port, check_vsock_sound, check_relays_sound,
}

-- the vsock ports that the listeners take, section by section
abbrev pub vsock_ports : Types.Config → List ℕ
vsock_ports c =
    map port_of c.outbound ++ (map vsock_port c.vsock_to_tcp ++ map relay_port c.log_relay)

-- the TCP addresses that the listeners take
abbrev pub bind_keys : Types.Config → List Types.BindKey
bind_keys c = map Validate.inbound_key c.inbound ++ map Validate.tcp_key c.tcp_to_vsock

-- The metrics endpoint: TCP or vsock, and no port of a listener.
pub record IsMetrics (ports : List ℕ) (m : Types.MetricsConfig) : Type 0 where
  pub one : (m.bind ≡ []) ⊎ (m.vsock_port ≡ 0)
  pub bind_ok : (m.bind ≡ []) ⊎ (split_host_port m.bind ≢ none)
  pub port_ok : (m.vsock_port ≡ 0) ⊎ InVsock m.vsock_port
  pub port_free : (m.vsock_port ≡ 0) ⊎ (mem_num (onto [] ports) m.vsock_port ≡ false)

pub record WellFormed (c : Types.Config) : Type 0 where
  pub inbound_ok : All IsInbound c.inbound
  pub tcp_ok : All IsTcp c.tcp_to_vsock
  pub outbound_ok : All IsOutbound c.outbound
  pub vsock_ok : All IsVsock c.vsock_to_tcp
  pub relays_ok : All IsRelay c.log_relay
  -- no two listeners share a TCP address, or a vsock port, and no two entries a CID
  pub binds_fresh : Fresh mem_bind [] (bind_keys c)
  pub ports_fresh : Fresh mem_num [] (vsock_ports c)
  pub cids_fresh : Fresh mem_num [] (all_cids c.outbound)
  pub metrics_ok : IsMetrics (vsock_ports c) c.metrics
  pub format_ok : Types.mem_bytes Validate.log_formats c.log_format ≡ true
  pub level_ok : Types.mem_bytes Validate.log_levels c.log_level ≡ true
  pub grace_ok : ltz c.shutdown_grace 0 ≡ false

onto-append {ℓ} : {A : Type ℓ} (seen xs ys : List A) → onto seen (xs ++ ys) ≡ onto (onto seen xs) ys
onto-append seen [] ys = refl
onto-append seen (x ∷ xs) ys = onto-append (x ∷ seen) xs ys

not-false : (b : Bool) → not b ≡ false → b ≡ true
not-false true e = refl
not-false false e = cc

-- three sections, each behind the one before
onto-append3 {ℓ} :
    {A : Type ℓ} (xs ys zs : List A) {s t u : List A}
    → s ≡ onto [] xs
    → t ≡ onto s ys
    → u ≡ onto t zs
    → u ≡ onto [] (xs ++ (ys ++ zs))
onto-append3 xs ys zs e f g =
    rw (onto-append [] xs (ys ++ zs), ← e, onto-append _ ys zs, ← f, ← g) refl

Fresh-append3 {ℓ} :
    {A : Type ℓ} (mem : List A → A → Bool) (xs ys zs : List A) {s t : List A}
    → Fresh mem [] xs
    → s ≡ onto [] xs
    → Fresh mem s ys
    → t ≡ onto s ys
    → Fresh mem t zs
    → Fresh mem [] (xs ++ (ys ++ zs))
Fresh-append3 mem xs ys zs fx e fy f fz =
    let rest : Fresh mem _ (ys ++ zs) = Fresh-append mem _ ys zs fy (rw (← f) fz) in
    Fresh-append mem [] xs (ys ++ zs) fx (rw (← e) rest)

check_metrics_sound :
    (ports all : List ℕ) (m : Types.MetricsConfig)
    → ports ≡ onto [] all
    → Validate.check_metrics ports m ≡ ok tt
    → IsMetrics all m
unfolding Validate.check_metrics
check_metrics_sound ports all m p e =
    let (_, one, e1) =
      >>=-eq-ok (reject (not (is_empty m.bind) && not (m.vsock_port == 0)) Types.two_metrics) _ e in
    let (_, good, e2) =
      >>=-eq-ok
        (reject (not (is_empty m.bind) && Validate.is_none (split_host_port m.bind))
          Types.bad_metrics_bind)
        _ e1 in
    let (_, range, taken) =
      >>=-eq-ok
        (reject (not (m.vsock_port == 0) && leb Types.vsock_port_any m.vsock_port)
          Types.metrics_port_range)
        _ e2 in
    let a = reject-eq-ok _ _ one in
    let b = reject-eq-ok _ _ good in
    let c = reject-eq-ok _ _ range in
    let d = reject-eq-ok _ _ taken in
    record {
      one = ground arith;
      bind_ok = ground arith;
      port_ok = ground arith;
      port_free = rw (← p) (ground arith);
    }

-- What `Validate` accepts is well-formed as it returns it: every listener is valid by itself, no two
-- share a TCP address or a vsock port, no CID is listed twice, every allowlist compiles, the metrics
-- port is no listener's, and apart from the log_relay listeners it returns what it was given.
pub validate-WellFormed :
    (c d : Types.Config)
    → Validate.validate c ≡ ok d
    → WellFormed d × (d ≡ record c { log_relay = d.log_relay }) × (Validate.no_listeners c ≡ false)
unfolding Validate.validate
validate-WellFormed c d e =
    let (_, any, e1) = >>=-eq-ok (reject (Validate.no_listeners c) Types.no_listeners) _ e in
    let (binds, inbound, e2) = >>=-eq-ok (Validate.check_inbound 0 [] c.inbound) _ e1 in
    let (keys, tcp, e3) = >>=-eq-ok (Validate.check_tcp 0 binds c.tcp_to_vsock) _ e2 in
    let (seen, outbound, e4) = >>=-eq-ok (Validate.check_outbound 0 [] [] c.outbound) _ e3 in
    let (ports, vsock, e5) = >>=-eq-ok (Validate.check_vsock 0 seen.0 c.vsock_to_tcp) _ e4 in
    let (relays, relay, e6) = >>=-eq-ok (Validate.check_relays 0 ports c.log_relay) _ e5 in
    let (_, format, e7) =
      >>=-eq-ok
        (reject (not (Validate.one_of c.log_format Validate.log_formats)) Types.bad_log_format) _
        e6 in
    let (_, level, e8) =
      >>=-eq-ok (reject (not (Validate.one_of c.log_level Validate.log_levels)) Types.bad_log_level)
        _ e7 in
    let (_, grace, e9) = >>=-eq-ok (reject (ltz c.shutdown_grace 0) Types.negative_grace) _ e8 in
    let (_, metrics, e10) = >>=-eq-ok (Validate.check_metrics relays.1 c.metrics) _ e9 in
    let (ai, fi, oi) = check_inbound_sound 0 [] binds c.inbound inbound in
    let (at, ft) = check_tcp_sound 0 binds keys c.tcp_to_vsock tcp in
    let (ao, fo, fc, oo) = check_outbound_sound 0 [] [] seen c.outbound outbound in
    let (av, fv, ov) = check_vsock_sound 0 seen.0 ports c.vsock_to_tcp vsock in
    let (ar, fr, op) = check_relays_sound 0 ports relays c.log_relay relay in
    rw (← ok-injective e10) (
      record {
        inbound_ok = ai;
        tcp_ok = at;
        outbound_ok = ao;
        vsock_ok = av;
        relays_ok = ar;
        binds_fresh = Fresh-append mem_bind [] _ _ fi (rw oi at ft);
        ports_fresh =
            Fresh-append3 mem_num (map port_of c.outbound) (map vsock_port c.vsock_to_tcp)
              (map relay_port relays.0) fo oo fv ov fr;
        cids_fresh = fc;
        metrics_ok =
            check_metrics_sound relays.1 _ c.metrics
              (onto-append3 (map port_of c.outbound) (map vsock_port c.vsock_to_tcp)
                (map relay_port relays.0) oo ov op)
              metrics;
        format_ok = not-false _ (reject-eq-ok _ _ format);
        level_ok = not-false _ (reject-eq-ok _ _ level);
        grace_ok = reject-eq-ok _ _ grace;
      },
      refl,
      reject-eq-ok _ _ any,
    )
