-- ===== src/Config/Validate.antt =====
-- internal/config/config.go: `Config.Validate`, one function for each of its loops and blocks. The maps
-- `seenBind`, `seenPort` and `cidOwner` are the lists of their keys: their values only serve messages.
use vsockd.Common.{
  ℕ, suc, Bool, true, false, not, ◌&&◌, Option, none, some, List, [], ◌∷◌, ◌⊎◌, inl, inr, ltb, leb,
  ◌==◌, ℤ, pos, negsuc, ltz, Outcome, ok, ◌>>=◌, ◌>>◌, reject,
}
use vsockd.Go.Net.{split_host_port}
use vsockd.Go.Strings.{Bytes, bytes, is_empty}
use vsockd.Config.Types
use vsockd.Config.Types.{Error, BindKey, mem_bind, mem_num}
use vsockd.Config.Listeners.{
  under, is_nil, bad_vsock_port, validate_inbound, validate_tcp_to_vsock, validate_vsock_to_tcp,
  validate_log_relay, validate_pattern,
}

-- a port that the listener's own check has found to be in range
abbrev pub port_number : ℤ → ℕ
port_number (pos n) = n
port_number (negsuc _) = 0

abbrev pub inbound_key : Types.InboundListener → BindKey
inbound_key l = (l.bind, port_number l.port)

abbrev pub tcp_key : Types.TcpToVsockListener → BindKey
tcp_key t = (t.bind, port_number t.port)

-- the loop over `c.Inbound`, from index `i`: the keys seen behind it
unfoldable pub check_inbound :
    ℕ → List BindKey → List Types.InboundListener → Outcome Error (List BindKey)
check_inbound i seen [] = ok seen
check_inbound i seen (l ∷ ls) = do
  under (Types.at_inbound i) (validate_inbound l)
  reject (mem_bind seen (inbound_key l)) (Types.at_inbound i Types.duplicate_bind)
  check_inbound (suc i) (inbound_key l ∷ seen) ls

-- the loop over `c.TCPToVsock`
unfoldable pub check_tcp :
    ℕ → List BindKey → List Types.TcpToVsockListener → Outcome Error (List BindKey)
check_tcp i seen [] = ok seen
check_tcp i seen (t ∷ ts) = do
  under (Types.at_tcp_to_vsock i) (validate_tcp_to_vsock t)
  reject (mem_bind seen (tcp_key t)) (Types.at_tcp_to_vsock i Types.duplicate_bind)
  check_tcp (suc i) (tcp_key t ∷ seen) ts

-- the loop over `oc.AllowedHosts`, from index `k`
unfoldable pub check_hosts : ℕ → List Bytes → Outcome Error (Unit {0})
check_hosts k [] = ok tt
check_hosts k (pat ∷ pats) = do
  under (Types.at_host k) (validate_pattern pat)
  check_hosts (suc k) pats

-- the loop over `ob.CIDs`, from index `j`: the owned CIDs behind it
unfoldable pub check_cids : ℕ → List ℕ → List Types.OutboundCid → Outcome Error (List ℕ)
check_cids j owned [] = ok owned
check_cids j owned (oc ∷ ocs) = do
  reject (ltb oc.cid Types.min_cid) (Types.at_cid j Types.reserved_cid)
  reject (mem_num owned oc.cid) (Types.at_cid j Types.duplicate_cid)
  reject (is_nil oc.allowed_hosts) (Types.at_cid j Types.no_allowed_hosts)
  under (Types.at_cid j) (check_hosts 0 oc.allowed_hosts)
  check_cids (suc j) (oc.cid ∷ owned) ocs

-- the loop over `c.Outbound`: the ports and the CIDs seen behind it
unfoldable pub check_outbound :
    ℕ → List ℕ → List ℕ → List Types.OutboundListener → Outcome Error (List ℕ × List ℕ)
check_outbound i ports owned [] = ok (ports, owned)
check_outbound i ports owned (ob ∷ obs) = do
  reject (bad_vsock_port ob.port) (Types.at_outbound i Types.port_range)
  reject (mem_num ports ob.port) (Types.at_outbound i Types.duplicate_port)
  reject (is_nil ob.cids) (Types.at_outbound i Types.no_cids)
  owned' ← under (Types.at_outbound i) (check_cids 0 owned ob.cids)
  check_outbound (suc i) (ob.port ∷ ports) owned' obs

-- the loop over `c.VsockToTCP`
unfoldable pub check_vsock : ℕ → List ℕ → List Types.VsockToTcpListener → Outcome Error (List ℕ)
check_vsock i ports [] = ok ports
check_vsock i ports (v ∷ vs) = do
  under (Types.at_vsock_to_tcp i) (validate_vsock_to_tcp v)
  reject (mem_num ports v.port) (Types.at_vsock_to_tcp i Types.duplicate_port)
  check_vsock (suc i) (v.port ∷ ports) vs

-- the loop over `c.LogRelay`: the listeners with their defaults, and the ports
unfoldable pub check_relays :
    ℕ → List ℕ → List Types.LogRelayListener → Outcome Error (List Types.LogRelayListener × List ℕ)
check_relays i ports [] = ok ([], ports)
check_relays i ports (l ∷ ls) = do
  l' ← under (Types.at_log_relay i) (validate_log_relay l)
  reject (mem_num ports l.port) (Types.at_log_relay i Types.duplicate_port)
  rest ← check_relays (suc i) (l.port ∷ ports) ls
  ok (l' ∷ rest.0, rest.1)

abbrev pub one_of : Bytes → List Bytes → Bool
one_of s ks = Types.mem_bytes ks s

abbrev pub log_formats : List Bytes
log_formats = [] ∷ bytes "json" ∷ bytes "text" ∷ bytes "auto" ∷ []

abbrev pub log_levels : List Bytes
log_levels = [] ∷ bytes "debug" ∷ bytes "info" ∷ []

abbrev pub is_none : {A : Type 0} → Option A → Bool
is_none none = true
is_none (some _) = false

-- the checks on `c.Metrics`
unfoldable pub check_metrics : List ℕ → Types.MetricsConfig → Outcome Error (Unit {0})
check_metrics ports m = do
  reject (not (is_empty m.bind) && not (m.vsock_port == 0)) Types.two_metrics
  reject (not (is_empty m.bind) && is_none (split_host_port m.bind)) Types.bad_metrics_bind
  reject (not (m.vsock_port == 0) && leb Types.vsock_port_any m.vsock_port) Types.metrics_port_range
  reject (not (m.vsock_port == 0) && mem_num ports m.vsock_port) Types.metrics_port_taken

abbrev pub no_listeners : Types.Config → Bool
no_listeners c =
    is_nil c.inbound
    && is_nil c.outbound
    && is_nil c.tcp_to_vsock
    && is_nil c.vsock_to_tcp
    && is_nil c.log_relay

-- `Config.Validate`
unfoldable pub validate : Types.Config → Outcome Error Types.Config
validate c = do
  reject (no_listeners c) Types.no_listeners
  binds ← check_inbound 0 [] c.inbound
  _ ← check_tcp 0 binds c.tcp_to_vsock
  seen ← check_outbound 0 [] [] c.outbound
  ports ← check_vsock 0 seen.0 c.vsock_to_tcp
  relays ← check_relays 0 ports c.log_relay
  reject (not (one_of c.log_format log_formats)) Types.bad_log_format
  reject (not (one_of c.log_level log_levels)) Types.bad_log_level
  reject (ltz c.shutdown_grace 0) Types.negative_grace
  check_metrics relays.1 c.metrics
  ok (record c { log_relay = relays.0 })

-- what `Load` fails with: the text of the error that opening or decoding the file gives, or an answer of
-- `Validate` that is no configuration
pub data LoadError : Type 0 where
  unreadable : Bytes → LoadError
  invalid : Outcome Error Types.Config → LoadError

abbrev pub accepted : Outcome Error Types.Config → LoadError ⊎ Types.Config
accepted (ok c) = inr c
accepted r = inl (invalid r)

-- `Load`, on what opening and decoding the file gave
unfoldable pub load : Bytes ⊎ Types.Config → LoadError ⊎ Types.Config
unfolding validate
load (inl e) = inl (unreadable e)
load (inr c) = accepted (validate c)
