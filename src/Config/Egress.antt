-- ===== src/Config/Egress.antt =====
-- internal/config/config.go: the outbound listeners that `Validate` accepts.
use vsockd.Common.{
  Fresh, ℕ, suc, ◌≤◌, ◌≡◌, ◌≢◌, refl, sym, ap, ◌∙◌, true, List, [], ◌∷◌, ◌++◌, map, ltb, Outcome,
  ok, err, panic, no_fuel, reject, arith, All, >>=-eq-ok, reject-eq-ok, ok-injective,
}
use vsockd.Go.Strings.{Bytes}
use vsockd.Allowlist.Defs
use vsockd.Allowlist.Grammar.{Compiles, new_iff}
use vsockd.Config.Types
use vsockd.Config.Types.{Error, mem_num}
use vsockd.Config.Listeners
use vsockd.Config.Listeners.{under}
use vsockd.Config.Patterns.{is_ok, validate_pattern-parse_pattern}
use vsockd.Config.Validate
use vsockd.Config.Accepts.{onto, Fresh-append, InVsock, in-vsock, under-eq-ok}

-- An entry whose allowlist the proxy can compile.
pub record IsCid (oc : Types.OutboundCid) : Type 0 where
  pub cid_ok : 3 ≤ oc.cid
  pub compiles : (m : Defs.Matcher) × (Defs.new oc.allowed_hosts ≡ ok m)

abbrev cid_of : Types.OutboundCid → ℕ
cid_of oc = oc.cid

-- every CID of every outbound listener, in order
abbrev pub all_cids : List Types.OutboundListener → List ℕ
all_cids [] = []
all_cids (ob ∷ obs) = map cid_of ob.cids ++ all_cids obs

abbrev pub port_of : Types.OutboundListener → ℕ
port_of ob = ob.port

pub record IsOutbound (ob : Types.OutboundListener) : Type 0 where
  pub port_ok : InVsock ob.port
  pub has_cid : ob.cids ≢ []
  pub cids_ok : All IsCid ob.cids

parsed-of-is_ok :
    (r : Outcome Defs.Error Defs.Pattern) → is_ok r ≡ true → (p : Defs.Pattern) × (r ≡ ok p)
parsed-of-is_ok (ok p) e = (p, refl)
parsed-of-is_ok (err x) e = cc
parsed-of-is_ok panic e = cc
parsed-of-is_ok no_fuel e = cc

check_hosts_sound :
    (k : ℕ) (pats : List Bytes)
    → Validate.check_hosts k pats ≡ ok tt
    → (ps : List Defs.Pattern) × Compiles pats ps
unfolding Validate.check_hosts
check_hosts_sound k [] e = ([], tt)
check_hosts_sound k (pat ∷ pats) e =
    let (_, good, e1) = >>=-eq-ok (under (Types.at_host k) (Listeners.validate_pattern pat)) _ e in
    let accepted = under-eq-ok (Types.at_host k) (Listeners.validate_pattern pat) good in
    let (p, q) =
      parsed-of-is_ok (Defs.parse_pattern pat)
        (sym (validate_pattern-parse_pattern pat) ∙ rw accepted refl) in
    let (ps, c) = check_hosts_sound (suc k) pats e1 in (p ∷ ps, (q, c))

check_cids_sound :
    (j : ℕ) (owned out : List ℕ) (ocs : List Types.OutboundCid)
    → Validate.check_cids j owned ocs ≡ ok out
    → All IsCid ocs × Fresh mem_num owned (map cid_of ocs) × (out ≡ onto owned (map cid_of ocs))
unfolding Validate.check_cids
check_cids_sound j owned out [] e = (tt, tt, sym (ok-injective e))
check_cids_sound j owned out (oc ∷ ocs) e =
    let (_, cid, e1) =
      >>=-eq-ok (reject (ltb oc.cid Types.min_cid) (Types.at_cid j Types.reserved_cid)) _ e in
    let (_, fresh, e2) =
      >>=-eq-ok (reject (mem_num owned oc.cid) (Types.at_cid j Types.duplicate_cid)) _ e1 in
    let (_, some', e3) =
      >>=-eq-ok (reject (Listeners.is_nil oc.allowed_hosts) (Types.at_cid j Types.no_allowed_hosts))
        _ e2 in
    let (_, hosts, e4) =
      >>=-eq-ok (under (Types.at_cid j) (Validate.check_hosts 0 oc.allowed_hosts)) _ e3 in
    let (a, f, o) = check_cids_sound (suc j) (oc.cid ∷ owned) out ocs e4 in
    let (ps, c) =
      check_hosts_sound 0 oc.allowed_hosts
        (under-eq-ok _ (Validate.check_hosts 0 oc.allowed_hosts) hosts) in
    let m : Defs.Matcher = record { patterns = ps } in
    let lo = reject-eq-ok _ _ cid in
    let ne = reject-eq-ok _ _ some' in
    (
      (
        record {
          cid_ok = ground arith;
          compiles = (m, (new_iff oc.allowed_hosts m).1 (ground arith, c));
        },
        a,
      ),
      (reject-eq-ok _ _ fresh, f),
      o,
    )

pub check_outbound_sound :
    (i : ℕ) (ports owned : List ℕ) (out : List ℕ × List ℕ) (obs : List Types.OutboundListener)
    → Validate.check_outbound i ports owned obs ≡ ok out
    → All IsOutbound obs
      × Fresh mem_num ports (map port_of obs)
      × Fresh mem_num owned (all_cids obs)
      × (out.0 ≡ onto ports (map port_of obs))
unfolding Validate.check_outbound
check_outbound_sound i ports owned out [] e =
    (tt, tt, tt, ap (λ (t : List ℕ × List ℕ). t.0) (sym (ok-injective e)))
check_outbound_sound i ports owned out (ob ∷ obs) e =
    let (_, port, e1) =
      >>=-eq-ok (reject (Listeners.bad_vsock_port ob.port) (Types.at_outbound i Types.port_range)) _
        e in
    let (_, fresh, e2) =
      >>=-eq-ok (reject (mem_num ports ob.port) (Types.at_outbound i Types.duplicate_port)) _ e1 in
    let (_, some', e3) =
      >>=-eq-ok (reject (Listeners.is_nil ob.cids) (Types.at_outbound i Types.no_cids)) _ e2 in
    let (owned', cids, e4) =
      >>=-eq-ok (under (Types.at_outbound i) (Validate.check_cids 0 owned ob.cids)) _ e3 in
    let (c, fc, oc) =
      check_cids_sound 0 owned owned' ob.cids
        (under-eq-ok _ (Validate.check_cids 0 owned ob.cids) cids) in
    let (a, f, g, o) = check_outbound_sound (suc i) (ob.port ∷ ports) owned' out obs e4 in
    let ne = reject-eq-ok _ _ some' in
    (
      (
        record {
          port_ok = in-vsock ob.port (reject-eq-ok _ _ port);
          has_cid = ground arith;
          cids_ok = c;
        },
        a,
      ),
      (reject-eq-ok _ _ fresh, f),
      Fresh-append mem_num owned (map cid_of ob.cids) (all_cids obs) fc (rw oc at g),
      o,
    )
