-- ===== src/Outbound/Server.antt =====
-- internal/outbound/server.go and internal/outbound/logrelay.go: the outbound server, its listeners, and the
-- steps in which its reload differs from the inbound one. The system calls and encoding/json are parameters:
-- what opening a vsock port or a file gives may depend on the listeners that exist. `matchers` is the map from a CID to its
-- compiled allowlist, `[]` for the nil map, and `done` whether the channel of that name is closed.
pub mod Laws
use vsockd.Common.{
  ℕ, zero, suc, ◌^◌, Bool, true, false, Option, none, some, List, [], ◌∷◌, ◌++◌, ◌⊎◌, inl, inr,
  ◌==◌, if◌then◌else◌, ℤ, pos, lez, Outcome, ok, length, get_elem?,
}
use vsockd.Go.Strings.{Bytes, bytes, equal, is_empty}
use vsockd.Config.Types.{
  OutboundCid, OutboundListener, VsockToTcpListener, LogRelayListener, LogRelayEnrich, output_file,
  output_stdout,
}
use vsockd.Allowlist.Defs.{Matcher, new}
use vsockd.Outbound.Enrich.{EnrichConfig, new_enrich_config}
use vsockd.Outbound.RefSink.{RefSink, new_ref_sink, release}
use vsockd.Reload.{World, Ops, call_all, call_at}

pub data Mode : Type 0 where
  http_proxy vsock_to_tcp log_relay : Mode

abbrev pub mode_text : Mode → Bytes
mode_text http_proxy = []
mode_text vsock_to_tcp = bytes "vsock_to_tcp"
mode_text log_relay = bytes "log_relay"

-- `cur.mode == newLn.mode`
abbrev pub same_mode : Mode → Mode → Bool
same_mode http_proxy http_proxy = true
same_mode vsock_to_tcp vsock_to_tcp = true
same_mode log_relay log_relay = true
same_mode _ _ = false

-- `displayMode`
unfoldable pub display_mode : Mode → Bytes
display_mode m = if is_empty (mode_text m) then bytes "outbound" else mode_text m

pub data Socket : Type 0 where
  unbound listening shut : Socket

-- `relayState`
pub record RelayState : Type 0 where
  pub sink : RefSink
  pub enrich : Option EnrichConfig
  pub max_line_bytes : ℤ

pub record Listener : Type 0 where
  pub port : ℕ
  pub mode : Mode
  pub ln : Socket
  pub done : Bool
  pub matchers : List (ℕ × Matcher)
  pub upstream : Option Bytes
  pub relay : Option RelayState

-- one entry of the three lists that `PrepareApply` takes, with its index
pub data Entry : Type 0 where
  in_outbound : ℕ → OutboundListener → Entry
  in_vsock_to_tcp : ℕ → VsockToTcpListener → Entry
  in_log_relay : ℕ → LogRelayListener → Entry

pub data Error : Type 0 where
  listen_func_required metrics_required before_start : Error
  no_cids : ℕ → Error
  duplicate_cid : ℕ → ℕ → Error
  -- the answer of `allowlist.New` that is not a matcher
  bad_allowlist : ℕ → ℕ → Outcome vsockd.Allowlist.Defs.Error Matcher → Error
  unknown_output : Bytes → Error
  cannot_open : Bytes → Error
  cannot_listen : ℕ → Bytes → Error
  at_section : Bytes → ℕ → Error → Error
  cannot_change_mode : Bytes → ℕ → ℕ → Bytes → Bytes → Error

-- `applySwap`, but for the listener
pub record ApplySwap : Type 0 where
  pub matchers : List (ℕ × Matcher)
  pub upstream : Option Bytes
  pub relay : Option RelayState

-- the outcomes of the system calls, an error as its text, and encoding/json
pub record System : Type 0 where
  pub listen : List Listener → ℕ → Option Bytes
  pub open_file : List Listener → Bytes → Option Bytes
  pub quote : Bytes → Bytes
  pub marshal_tags : List (Bytes × Bytes) → Bytes

abbrev pub section_of : Entry → Bytes
section_of (in_outbound i c) = bytes "outbound"
section_of (in_vsock_to_tcp i c) = bytes "vsock_to_tcp"
section_of (in_log_relay i c) = bytes "log_relay"

abbrev pub index_of : Entry → ℕ
index_of (in_outbound i c) = i
index_of (in_vsock_to_tcp i c) = i
index_of (in_log_relay i c) = i

abbrev pub port_of : Entry → ℕ
port_of (in_outbound i c) = c.port
port_of (in_vsock_to_tcp i c) = c.port
port_of (in_log_relay i c) = c.port

abbrev pub closed_listener : ℕ → Mode → Listener
closed_listener port mode = record {
  port = port;
  mode = mode;
  ln = unbound;
  done = false;
  matchers = [];
  upstream = none;
  relay = none;
}

unfoldable pub find_matcher : List (ℕ × Matcher) → ℕ → Option Matcher
find_matcher [] cid = none
find_matcher (m ∷ ms) cid = if m.0 == cid then some m.1 else find_matcher ms cid

abbrev pub add_matcher :
    ℕ
    → ℕ
    → List (ℕ × Matcher)
    → Outcome vsockd.Allowlist.Defs.Error Matcher
    → Error ⊎ List (ℕ × Matcher)
add_matcher port cid ms (ok m) = inr (ms ++ (cid, m) ∷ [])
add_matcher port cid ms r = inl (bad_allowlist port cid r)

-- one turn of the loop of `newHTTPListener`
unfoldable pub add_cid : ℕ → List (ℕ × Matcher) → OutboundCid → Error ⊎ List (ℕ × Matcher)
add_cid port ms oc = elim (find_matcher ms oc.cid) [
  | some m ↦ inl (duplicate_cid port oc.cid)
  | none ↦ add_matcher port oc.cid ms (new oc.allowed_hosts)
]

-- the loop of `newHTTPListener` over `cfg.CIDs`
unfoldable pub compile_cids : ℕ → List (ℕ × Matcher) → List OutboundCid → Error ⊎ List (ℕ × Matcher)
compile_cids port ms [] = inr ms
compile_cids port ms (oc ∷ ocs) = elim (add_cid port ms oc) [
  | inl e ↦ inl e
  | inr ms' ↦ compile_cids port ms' ocs
]

abbrev pub with_matchers : Listener → Error ⊎ List (ℕ × Matcher) → Error ⊎ Listener
with_matchers l (inl e) = inl e
with_matchers l (inr ms) = inr (record l { matchers = ms })

-- `newHTTPListener`
unfoldable pub new_http_listener : OutboundListener → Error ⊎ Listener
unfolding compile_cids
new_http_listener cfg = elim cfg.cids [
  | [] ↦ inl (no_cids cfg.port)
  | oc ∷ ocs ↦
      with_matchers (closed_listener cfg.port http_proxy) (compile_cids cfg.port [] (oc ∷ ocs))
]

-- `newVsockToTCPListener`
unfoldable pub new_vsock_to_tcp_listener : VsockToTcpListener → Error ⊎ Listener
new_vsock_to_tcp_listener cfg =
    inr (record (closed_listener cfg.port vsock_to_tcp) { upstream = some cfg.upstream })

abbrev pub default_log_relay_max_line : ℤ
default_log_relay_max_line = pos (2 ^ 20)

-- the limit in `newLogRelayListener`
abbrev pub effective_max_line : LogRelayListener → ℤ
effective_max_line cfg =
    if lez cfg.max_line_bytes 0 then default_log_relay_max_line else cfg.max_line_bytes

abbrev pub released : Option RelayState → List RefSink
released none = []
released (some old) = release old.sink ∷ []

-- how many sinks a relay state holds
abbrev pub sinks_in : Option RelayState → ℕ
sinks_in none = 0
sinks_in (some st) = 1

-- `closeSink`: `Swap(nil)`, and the release of what was there
unfoldable pub close_sink : Listener → Listener × List RefSink
close_sink l = (record l { relay = none }, released l.relay)

-- `l.ln.Close()`, unless there is none
abbrev pub close_socket : Socket → Socket
close_socket unbound = unbound
close_socket _ = shut

-- `close`
unfoldable pub close : Listener → Listener × List RefSink
unfolding close_sink
close l = if l.done then (l, []) else close_sink (record l { done = true; ln = close_socket l.ln })

-- `replaceMatchers`, `replaceUpstream` and the swap of the relay state, as `CommitApply` calls them
unfoldable pub replace_matchers : List (ℕ × Matcher) → Listener → Listener
replace_matchers ms l = record l { matchers = ms }

unfoldable pub replace_upstream : Option Bytes → Listener → Listener
replace_upstream none l = l
replace_upstream (some u) l = record l { upstream = some u }

unfoldable pub swap_relay : Option RelayState → Listener → Listener × List RefSink
swap_relay none l = (l, [])
swap_relay (some st) l = (record l { relay = some st }, released l.relay)

unfoldable pub install : ApplySwap → Listener → Listener × List RefSink
unfolding replace_matchers replace_upstream swap_relay
install s l = swap_relay s.relay (replace_upstream s.upstream (replace_matchers s.matchers l))

abbrev pub upstream_snapshot : Listener → Bytes
upstream_snapshot l = elim l.upstream [ none ↦ [] | some u ↦ u ]

abbrev pub swap_of : Listener → ApplySwap
swap_of new_ln = record {
  matchers = new_ln.matchers;
  upstream = elim new_ln.mode [ vsock_to_tcp ↦ some (upstream_snapshot new_ln) | _ ↦ none ];
  relay = elim new_ln.mode [ log_relay ↦ new_ln.relay | _ ↦ none ];
}

-- what the closure `apply` swaps when the port is already served
unfoldable pub swap_for : Entry → Listener → Listener → Error ⊎ ApplySwap
unfolding display_mode
swap_for c new_ln cur =
    if same_mode cur.mode new_ln.mode
    then inr (swap_of new_ln)
    else inl (
        cannot_change_mode (section_of c) (index_of c) new_ln.port (display_mode cur.mode)
          (display_mode new_ln.mode))

abbrev pub in_section : Entry → Error ⊎ Listener → Error ⊎ Listener
in_section c (inl e) = inl (at_section (section_of c) (index_of c) e)
in_section c (inr l) = inr l

module _ (sys : System) where
  -- `openSink`: the error, if any
  unfoldable pub open_sink : List Listener → LogRelayListener → Option Error
  open_sink heap cfg =
      if equal cfg.output output_file
      then elim (sys.open_file heap cfg.path) [ none ↦ none | some e ↦ some (cannot_open e) ]
      else if equal cfg.output output_stdout
      then none
      else some (unknown_output cfg.output)

  abbrev pub enrich_of : Option LogRelayEnrich → Option EnrichConfig
  enrich_of none = none
  enrich_of (some e) = some (new_enrich_config sys.quote sys.marshal_tags e)

  -- `newLogRelayListener`
  unfoldable pub new_log_relay_listener : List Listener → LogRelayListener → Error ⊎ Listener
  unfolding open_sink
  new_log_relay_listener heap cfg = elim (open_sink heap cfg) [
    | some e ↦ inl e
    | none ↦ inr (record (closed_listener cfg.port log_relay) {
      relay = some (record {
        sink = new_ref_sink;
        enrich = enrich_of cfg.enrich;
        max_line_bytes = effective_max_line cfg;
      });
    })
  ]

  abbrev pub new_listener : List Listener → Entry → Error ⊎ Listener
  new_listener heap (in_outbound i c) = new_http_listener c
  new_listener heap (in_vsock_to_tcp i c) = new_vsock_to_tcp_listener c
  new_listener heap (in_log_relay i c) = new_log_relay_listener heap c

  abbrev pub build : List Listener → Entry → Error ⊎ Listener
  build heap c = in_section c (new_listener heap c)

  -- `bind`
  unfoldable pub bind : List Listener → Listener → Error ⊎ Listener
  bind heap l = elim (sys.listen heap l.port) [
    | some e ↦ inl (cannot_listen l.port e)
    | none ↦ inr (record l { ln = listening })
  ]

  abbrev pub ops : Ops ℕ Entry Listener ApplySwap Error
  ops = record {
    same = ◌==◌;
    key = λ l. l.port;
    before_start = before_start;
    build = build;
    opens = λ l. sinks_in l.relay;
    swap_for = swap_for;
    refuse = λ ls c l. none;
    bind = bind;
    install = install;
    close = close;
    discard = λ s. released s.relay;
    drop = λ l. (close_sink l).1;
  }
