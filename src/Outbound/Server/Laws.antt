-- ===== src/Outbound/Server/Laws.antt =====
-- internal/outbound/server.go: what the reload relies on in the operations of the outbound server.
use vsockd.Common.{
  ℕ, ◌≡◌, ◌≢◌, refl, ◌∙◌, true, false, Option, none, some, List, [], ◌⊎◌, inl, inr, arith, tests,
  Bool-cases, Option-cases, List-cases,
}
use vsockd.Config.Types.{OutboundListener, LogRelayListener}
use vsockd.Outbound.RefSink.{new_ref_sink, release}
use vsockd.Outbound.Server.{
  Mode, http_proxy, vsock_to_tcp, log_relay, same_mode, Socket, unbound, listening, shut,
  RelayState, Listener, Entry, in_outbound, in_vsock_to_tcp, in_log_relay, Error, ApplySwap, System,
  port_of, closed_listener, compile_cids, with_matchers, new_http_listener,
  new_vsock_to_tcp_listener, new_log_relay_listener, open_sink, enrich_of, effective_max_line,
  close_sink, close_socket, close, released, sinks_in, install, swap_for, swap_of, replace_matchers,
  replace_upstream, swap_relay, in_section, build, bind, ops,
}
use vsockd.Reload.Moves.{inr-injective}
use vsockd.Reload.Owned.{AllGone, IsOwned}
use vsockd.Reload.Served.{IsServing}

pub record IsOpen (l : Listener) : Type 0 where
  pub listens : l.ln ≡ listening
  pub not_done : l.done ≡ false

pub record IsShut (l : Listener) : Type 0 where
  pub not_listening : l.ln ≢ listening
  pub is_done : l.done ≡ true

-- what is set up for each kind of entry
abbrev pub Settings : System → Entry → Listener → Type 0
Settings sys (in_outbound i cfg) l =
    (l.mode ≡ http_proxy) × (compile_cids cfg.port [] cfg.cids ≡ inr l.matchers)
Settings sys (in_vsock_to_tcp i cfg) l = (l.mode ≡ vsock_to_tcp) × (l.upstream ≡ some cfg.upstream)
Settings sys (in_log_relay i cfg) l =
    (l.mode ≡ log_relay)
    × (l.relay
        ≡ some (record {
          sink = new_ref_sink;
          enrich = enrich_of sys cfg.enrich;
          max_line_bytes = effective_max_line cfg;
        }))

-- the listener is open on the entry's port and does what the entry asks for
pub record Serves (sys : System) (c : Entry) (l : Listener) : Type 0 where
  pub open_now : IsOpen l
  pub on_port : l.port ≡ port_of c
  pub settings : Settings sys c l

-- the state of a sink that a new listener has just opened
abbrev FreshRelay : Mode → Option RelayState → Type 0
FreshRelay m none = Unit
FreshRelay m (some st) = (m ≡ log_relay) × (st.sink ≡ new_ref_sink)

-- what a constructor returns
record IsNew (sys : System) (c : Entry) (l : Listener) : Type 0 where
  is_unbound : l.ln ≡ unbound
  undone : l.done ≡ false
  on_port : l.port ≡ port_of c
  settings : Settings sys c l
  fresh : FreshRelay l.mode l.relay

in_section-inr :
    (c : Entry) (r : Error ⊎ Listener) (l : Listener) → in_section c r ≡ inr l → r ≡ inr l
in_section-inr c (inl e) l h = cc
in_section-inr c (inr x) l h = h

with_matchers-IsNew :
    (sys : System) (i : ℕ) (cfg : OutboundListener)
    (r : Error ⊎ List (ℕ × vsockd.Allowlist.Defs.Matcher)) (l : Listener)
    → compile_cids cfg.port [] cfg.cids ≡ r
    → with_matchers (closed_listener cfg.port http_proxy) r ≡ inr l
    → IsNew sys (in_outbound i cfg) l
with_matchers-IsNew sys i cfg (inl e) l q h = cc
with_matchers-IsNew sys i cfg (inr ms) l q h =
    rw (← inr-injective h) (record {
      is_unbound = refl;
      undone = refl;
      on_port = refl;
      settings = (refl, q);
      fresh = tt;
    })

new_http_listener-IsNew :
    (sys : System) (i : ℕ) (cfg : OutboundListener) (l : Listener)
    → new_http_listener cfg ≡ inr l
    → IsNew sys (in_outbound i cfg) l
unfolding new_http_listener
new_http_listener-IsNew sys i cfg l h = elim (List-cases cfg.cids) [
  | inl q ↦ absurd (ground (arith, h, q, new_http_listener))
  | inr (oc, ocs, q) ↦
      with_matchers-IsNew sys i cfg (compile_cids cfg.port [] cfg.cids) l refl
        (rw q (rw (new_http_listener, q) at h))
]

new_log_relay_listener-IsNew :
    (sys : System) (heap : List Listener) (i : ℕ) (cfg : LogRelayListener) (l : Listener)
    → new_log_relay_listener sys heap cfg ≡ inr l
    → IsNew sys (in_log_relay i cfg) l
unfolding new_log_relay_listener
new_log_relay_listener-IsNew sys heap i cfg l h = elim (Option-cases (open_sink sys heap cfg)) [
  | inr (e, q) ↦ absurd (ground (arith, h, q, new_log_relay_listener))
  | inl q ↦ rw (← inr-injective (rw (new_log_relay_listener, q) at h)) (record {
    is_unbound = refl;
    undone = refl;
    on_port = refl;
    settings = (refl, refl);
    fresh = (refl, refl);
  })
]

build-IsNew :
    (sys : System) (heap : List Listener) (c : Entry) (l : Listener)
    → build sys heap c ≡ inr l
    → IsNew sys c l
unfolding new_vsock_to_tcp_listener
build-IsNew sys heap (in_outbound i cfg) l h =
    new_http_listener-IsNew sys i cfg l (in_section-inr (in_outbound i cfg) _ l h)
build-IsNew sys heap (in_vsock_to_tcp i cfg) l h = rw (← inr-injective h) (record {
  is_unbound = refl;
  undone = refl;
  on_port = refl;
  settings = (refl, refl);
  fresh = tt;
})
build-IsNew sys heap (in_log_relay i cfg) l h =
    new_log_relay_listener-IsNew sys heap i cfg l (in_section-inr (in_log_relay i cfg) _ l h)

released-AllGone :
    (m : Mode) (r : Option RelayState) → FreshRelay m r → AllGone (sinks_in r) (released r)
unfolding release new_ref_sink
released-AllGone m none f = (tt, refl)
released-AllGone m (some st) f =
    rw f.1 ((record { unreferenced = refl; closed_once = refl }, tt), refl)

close_socket_lem : (s : Socket) → close_socket s ≢ listening
close_socket_lem unbound = λ e. cc
close_socket_lem listening = λ e. cc
close_socket_lem shut = λ e. cc

close-IsShut :
    (l : Listener) → l.done ≡ false → IsShut (close l).0 × ((close l).1 ≡ released l.relay)
unfolding close close_sink
close-IsShut l d = rw d (record { not_listening = close_socket_lem l.ln; is_done = refl }, refl)

IsNew-IsOpen :
    (sys : System) (c : Entry) (l : Listener)
    → IsNew sys c l
    → Serves sys c (record l { ln = listening })
IsNew-IsOpen sys (in_outbound i cfg) l n = record {
  open_now = record { listens = refl; not_done = n.undone };
  on_port = n.on_port;
  settings = n.settings;
}
IsNew-IsOpen sys (in_vsock_to_tcp i cfg) l n = record {
  open_now = record { listens = refl; not_done = n.undone };
  on_port = n.on_port;
  settings = n.settings;
}
IsNew-IsOpen sys (in_log_relay i cfg) l n = record {
  open_now = record { listens = refl; not_done = n.undone };
  on_port = n.on_port;
  settings = n.settings;
}

bind-listening :
    (sys : System) (heap : List Listener) (new l : Listener)
    → bind sys heap new ≡ inr l
    → record new { ln = listening } ≡ l
unfolding bind
bind-listening sys heap new l h = elim (Option-cases (sys.listen heap new.port)) [
  | inl q ↦ inr-injective (rw (bind, q) at h)
  | inr (e, q) ↦ absurd (ground (arith, h, q, bind))
]

new-FreshRelay :
    (sys : System) (heap : List Listener) (c : Entry) (new : Listener)
    → build sys heap c ≡ inr new
    → FreshRelay new.mode new.relay
new-FreshRelay sys heap c new b = (build-IsNew sys heap c new b).fresh

same_mode_sound : (m n : Mode) → same_mode m n ≡ true → m ≡ n
same_mode_sound http_proxy http_proxy e = refl
same_mode_sound vsock_to_tcp vsock_to_tcp e = refl
same_mode_sound log_relay log_relay e = refl
same_mode_sound http_proxy vsock_to_tcp e = cc
same_mode_sound http_proxy log_relay e = cc
same_mode_sound vsock_to_tcp http_proxy e = cc
same_mode_sound vsock_to_tcp log_relay e = cc
same_mode_sound log_relay http_proxy e = cc
same_mode_sound log_relay vsock_to_tcp e = cc

swap_for-swap_of :
    (c : Entry) (new cur : Listener) (s : ApplySwap)
    → swap_for c new cur ≡ inr s
    → (cur.mode ≡ new.mode) × (swap_of new ≡ s)
unfolding swap_for
swap_for-swap_of c new cur s q = elim (Bool-cases (same_mode cur.mode new.mode)) [
  | inl m ↦ (same_mode_sound cur.mode new.mode m, inr-injective (rw (swap_for, m) at q))
  | inr m ↦ absurd (ground (arith, q, m, swap_for))
]

-- a swap holds the relay state of a log_relay listener
relay_if-AllGone :
    (m : Mode) (r : Option RelayState)
    → FreshRelay m r
    → AllGone (sinks_in r) (released (elim m [ log_relay ↦ r | _ ↦ none ]))
relay_if-AllGone http_proxy none f = (tt, refl)
relay_if-AllGone http_proxy (some st) f = let m = f.0 in cc
relay_if-AllGone vsock_to_tcp none f = (tt, refl)
relay_if-AllGone vsock_to_tcp (some st) f = let m = f.0 in cc
relay_if-AllGone log_relay r f = released-AllGone log_relay r f

swap_for-AllGone :
    (c : Entry) (new cur : Listener) (s : ApplySwap)
    → FreshRelay new.mode new.relay
    → swap_for c new cur ≡ inr s
    → AllGone (sinks_in new.relay) (released s.relay)
swap_for-AllGone c new cur s f q =
    rw (← (swap_for-swap_of c new cur s q).1) (relay_if-AllGone new.mode new.relay f)

bound-IsShut :
    (sys : System) (heap : List Listener) (c : Entry) (new l : Listener)
    → build sys heap c ≡ inr new
    → bind sys heap new ≡ inr l
    → IsShut (close l).0 × AllGone (sinks_in new.relay) (close l).1
bound-IsShut sys heap c new l b q =
    let n = build-IsNew sys heap c new b in
    rw (← bind-listening sys heap new l q) (
      let shut_now = close-IsShut (record new { ln = listening }) n.undone in
      (shut_now.0, rw shut_now.1 (released-AllGone new.mode new.relay n.fresh)))

pub ops-IsOwned : (sys : System) → IsOwned (ops sys) IsShut
unfolding close_sink
ops-IsOwned sys = record {
  dropped = λ heap c new b. released-AllGone new.mode new.relay (new-FreshRelay sys heap c new b);
  discarded =
      λ heap c new cur s b q. swap_for-AllGone c new cur s (new-FreshRelay sys heap c new b) q;
  shut = λ heap c new l b q. bound-IsShut sys heap c new l b q;
}

install-Serves :
    (sys : System) (c : Entry) (new cur : Listener)
    → IsNew sys c new
    → cur.port ≡ new.port
    → IsOpen cur
    → cur.mode ≡ new.mode
    → Serves sys c (install (swap_of new) cur).0
unfolding install replace_matchers replace_upstream swap_relay
install-Serves sys (in_outbound i cfg) new cur n k o m = rw n.settings.0 (record {
  open_now = record { listens = o.listens; not_done = o.not_done };
  on_port = k ∙ n.on_port;
  settings = (m ∙ n.settings.0, n.settings.1);
})
install-Serves sys (in_vsock_to_tcp i cfg) new cur n k o m =
    rw (n.settings.0, n.settings.1)
      (record {
        open_now = record { listens = o.listens; not_done = o.not_done };
        on_port = k ∙ n.on_port;
        settings = (m ∙ n.settings.0, refl);
      })
install-Serves sys (in_log_relay i cfg) new cur n k o m =
    rw (n.settings.0, n.settings.1)
      (record {
        open_now = record { listens = o.listens; not_done = o.not_done };
        on_port = k ∙ n.on_port;
        settings = (m ∙ n.settings.0, refl);
      })

pub ops-IsServing : (sys : System) → IsServing (ops sys) port_of IsOpen (Serves sys)
ops-IsServing sys = record {
  same_sound = λ j k e. grind tests;
  same_complete = λ k. grind tests;
  built_key = λ heap c new b. (build-IsNew sys heap c new b).on_port;
  bound = λ heap now c new l b q.
      rw (← bind-listening sys now new l q) (IsNew-IsOpen sys c new (build-IsNew sys heap c new b));
  swapped = λ heap c new cur s b k o q.
      let is = swap_for-swap_of c new cur s q in
      rw (← is.1) (install-Serves sys c new cur (build-IsNew sys heap c new b) k o is.0);
}

pub close-IsShut_open : (l : Listener) → IsOpen l → IsShut (close l).0
close-IsShut_open l o = (close-IsShut l o.not_done).0

pub close-IsShut_again : (l : Listener) → IsShut l → IsShut (close l).0
unfolding close
close-IsShut_again l s = rw s.is_done (record { not_listening = s.not_listening; is_done = refl })
