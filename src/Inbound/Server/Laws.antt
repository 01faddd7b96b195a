-- ===== src/Inbound/Server/Laws.antt =====
-- internal/inbound/server.go: what the reload relies on in the operations of the inbound server.
use vsockd.Common.{
  ℕ, ◌≡◌, ◌≢◌, refl, ap, ◌∙◌, Bool, true, false, not, ◌&&◌, ◌||◌, Option, some, List, ◌⊎◌, inl, inr,
  ◌==◌, ℤ, pos, negsuc, arith, tests, Bool-cases, Option-cases,
}
use vsockd.Config.Types.{Route, InboundListener, mode_http_host, mode_tls_sni}
use vsockd.Go.Strings.{Bytes, equal}
use vsockd.Go.Strings.Laws.{equal_iff}
use vsockd.Inbound.Server.{
  Key, Address, Socket, unbound, listening, shut, Listener, Entry, in_inbound, in_tcp_to_vsock,
  Error, mode_tcp_to_vsock, same_int, same_key, addr, key, key_of, build_route_map, routes_snapshot,
  new_http_listener, new_tcp_to_vsock_listener, close_socket, close, replace_routes, target_changes,
  swap_for, in_section, new_listener, bind, ops,
}
use vsockd.Reload.Moves.{inr-injective}
use vsockd.Reload.Owned.{IsOwned}
use vsockd.Reload.Served.{IsServing}

abbrev pub IsOpen : Listener → Type 0
IsOpen l = l.tcp ≡ listening

abbrev pub IsShut : Listener → Type 0
IsShut l = l.tcp ≢ listening

-- what is set up for each kind of entry
abbrev pub Settings : Entry → Listener → Type 0
Settings (in_inbound i cfg) l = l.routes ≡ some (build_route_map cfg.routes)
Settings (in_tcp_to_vsock i cfg) l =
    (l.target_cid ≡ cfg.vsock_cid) × (l.target_port ≡ cfg.vsock_port)

-- the listener is open on the entry's address, in its mode, and routes as the entry asks for
pub record Serves (c : Entry) (l : Listener) : Type 0 where
  pub open_now : IsOpen l
  pub keyed : key l ≡ key_of c
  pub settings : Settings c l

-- what a constructor returns
record IsNew (c : Entry) (l : Listener) : Type 0 where
  keyed : key l ≡ key_of c
  settings : Settings c l

in_section-inr :
    (c : Entry) (r : Error ⊎ Listener) (l : Listener) → in_section c r ≡ inr l → r ≡ inr l
in_section-inr c (inl e) l h = cc
in_section-inr c (inr x) l h = h

new_http_listener-IsNew :
    (i : ℕ) (cfg : InboundListener) (l : Listener)
    → new_http_listener cfg ≡ inr l
    → IsNew (in_inbound i cfg) l
unfolding new_http_listener
new_http_listener-IsNew i cfg l h =
    elim (Bool-cases (equal cfg.mode mode_http_host || equal cfg.mode mode_tls_sni)) [
      | inl m ↦
          rw (← inr-injective (rw (new_http_listener, m) at h))
            (record { keyed = refl; settings = refl })
      | inr m ↦ absurd (ground (arith, h, m, new_http_listener))
    ]

build-IsNew : (c : Entry) (l : Listener) → in_section c (new_listener c) ≡ inr l → IsNew c l
unfolding new_tcp_to_vsock_listener
build-IsNew (in_inbound i cfg) l h =
    new_http_listener-IsNew i cfg l (in_section-inr (in_inbound i cfg) _ l h)
build-IsNew (in_tcp_to_vsock i cfg) l h =
    rw (← inr-injective h) (record { keyed = refl; settings = (refl, refl) })

listening-Serves :
    (c : Entry) (new : Listener) → IsNew c new → Serves c (record new { tcp = listening })
listening-Serves (in_inbound i cfg) new n = record {
  open_now = refl;
  keyed = n.keyed;
  settings = n.settings;
}
listening-Serves (in_tcp_to_vsock i cfg) new n = record {
  open_now = refl;
  keyed = n.keyed;
  settings = n.settings;
}

bind-listening :
    (listen : List Listener → Address → Option Bytes) (heap : List Listener) (new l : Listener)
    → bind listen heap new ≡ inr l
    → record new { tcp = listening } ≡ l
unfolding bind
bind-listening listen heap new l h = elim (Option-cases (listen heap (addr new))) [
  | inl q ↦ inr-injective (rw (bind, q) at h)
  | inr (e, q) ↦ absurd (ground (arith, h, q, bind))
]

close_socket_lem : (s : Socket) → close_socket s ≢ listening
close_socket_lem unbound = λ e. cc
close_socket_lem listening = λ e. cc
close_socket_lem shut = λ e. cc

close-IsShut : (l : Listener) → IsShut (close l)
unfolding close
close-IsShut l = close_socket_lem l.tcp

pub ops-IsOwned : (listen : List Listener → Address → Option Bytes) → IsOwned (ops listen) IsShut
ops-IsOwned listen = record {
  dropped = λ heap c new b. (tt, refl);
  discarded = λ heap c new cur s b q. (tt, refl);
  shut = λ heap c new l b q. (close-IsShut l, (tt, refl));
}

same_int_sound : (a b : ℤ) → same_int a b ≡ true → a ≡ b
unfolding same_int
same_int_sound (pos a) (pos b) e = ap pos (grind tests)
same_int_sound (negsuc a) (negsuc b) e = ap negsuc (grind tests)
same_int_sound (pos a) (negsuc b) e = cc
same_int_sound (negsuc a) (pos b) e = cc

same_int_complete : (a : ℤ) → same_int a a ≡ true
unfolding same_int
same_int_complete (pos a) = grind tests
same_int_complete (negsuc a) = grind tests

all_three : (a b c : Bool) → ((a && b) && c) ≡ true → (a ≡ true) × (b ≡ true) × (c ≡ true)
all_three true true true e = (refl, refl, refl)
all_three true true false e = cc
all_three true false c e = cc
all_three false b c e = cc

same_key_sound : (j k : Key) → same_key j k ≡ true → j ≡ k
same_key_sound j k e =
    let es = all_three (equal j.0.0 k.0.0) (same_int j.0.1 k.0.1) (equal j.1 k.1) e in
    rw ((equal_iff j.0.0 k.0.0).0 es.0, same_int_sound j.0.1 k.0.1 es.1, (equal_iff j.1 k.1).0 es.2)
      refl

same_key_complete : (k : Key) → same_key k k ≡ true
same_key_complete k =
    rw ((equal_iff k.0.0 k.0.0).1 refl, same_int_complete k.0.1, (equal_iff k.1 k.1).1 refl) refl

same_pair :
    (m : Bool) (a b c d : ℕ)
    → m ≡ true
    → (m && (not (a == b) || not (c == d))) ≡ false
    → (a ≡ b) × (c ≡ d)
same_pair true a b c d m e = elim (Bool-cases (a == b)) [
  | inl ab ↦ elim (Bool-cases (c == d)) [
    | inl cd ↦ (grind tests, grind tests)
    | inr cd ↦ absurd (ground (arith, e, ab, cd))
  ]
  | inr ab ↦ absurd (ground (arith, e, ab))
]
same_pair false a b c d m e = cc

-- an unchanged target
target_unchanged :
    (new cur : Listener)
    → new.mode ≡ mode_tcp_to_vsock
    → target_changes new cur ≡ false
    → (cur.target_cid ≡ new.target_cid) × (cur.target_port ≡ new.target_port)
target_unchanged new cur m t =
    same_pair (equal new.mode mode_tcp_to_vsock) cur.target_cid new.target_cid cur.target_port
      new.target_port ((equal_iff new.mode mode_tcp_to_vsock).1 m) t

install-Serves :
    (c : Entry) (new cur : Listener)
    → IsNew c new
    → key cur ≡ key new
    → IsOpen cur
    → target_changes new cur ≡ false
    → Serves c (replace_routes (routes_snapshot new) cur)
unfolding replace_routes
install-Serves (in_inbound i cfg) new cur n k o t =
    rw n.settings (record { open_now = o; keyed = k ∙ n.keyed; settings = refl })
install-Serves (in_tcp_to_vsock i cfg) new cur n k o t = record {
  open_now = o;
  keyed = k ∙ n.keyed;
  settings =
      let same = target_unchanged new cur (ap (λ q. q.1) n.keyed) t in
      (same.0 ∙ n.settings.0, same.1 ∙ n.settings.1);
}

swap_for-Serves :
    (c : Entry) (new cur : Listener) (s : List (Bytes × Route))
    → IsNew c new
    → key cur ≡ key new
    → IsOpen cur
    → ◌≡◌ {A = Error ⊎ List (Bytes × Route)} (swap_for c new cur) (inr s)
    → Serves c (replace_routes s cur)
unfolding swap_for
swap_for-Serves c new cur s n k o q = elim (Bool-cases (target_changes new cur)) [
  | inl t ↦ absurd (ground (arith, q, t, swap_for))
  | inr t ↦ rw (← inr-injective (rw (swap_for, t) at q)) (install-Serves c new cur n k o t)
]

pub ops-IsServing :
    (listen : List Listener → Address → Option Bytes) → IsServing (ops listen) key_of IsOpen Serves
unfolding swap_for
ops-IsServing listen = record {
  same_sound = same_key_sound;
  same_complete = same_key_complete;
  built_key = λ heap c new b. (build-IsNew c new b).keyed;
  bound = λ heap now c new l b q.
      let n = build-IsNew c new b in
      rw (← bind-listening listen now new l q) (listening-Serves c new n);
  swapped = λ heap c new cur s b k o q. swap_for-Serves c new cur s (build-IsNew c new b) k o q;
}
