-- ===== src/App/Validated.antt =====
-- internal/app/app.go and internal/config/config.go: the keys of the listeners of a configuration that `Load` returns.
use mathlib.Core.Path.{subst}
use vsockd.Common.{
  ℕ, suc, ◌≡◌, ◌≢◌, refl, sym, ap, ◌∙◌, Bool, true, false, ◌&&◌, ◌||◌, List, [], ◌∷◌, ◌++◌, ◌⊎◌,
  inl, inr, map, ◌==◌, All, Fresh, Option, ok, err, panic, no_fuel, Outcome, tests,
}
use vsockd.Go.Strings.{Bytes, equal}
use vsockd.Go.Strings.Laws.{equal_iff}
use vsockd.Config.Types
use vsockd.Config.Types.{Config, BindKey, mem_num, mem_bind}
use vsockd.Config.Validate.{accepted, load, validate, inbound_key, tcp_key, port_number}
use vsockd.Config.WellFormed.{WellFormed, vsock_ports, bind_keys, validate-WellFormed}
use vsockd.Config.Egress
use vsockd.Config.Relays.{vsock_port, relay_port}
use vsockd.Inbound.Server as In
use vsockd.Outbound.Server as Out
use vsockd.Reload.{Ops}
use vsockd.Reload.Moves.{inr-injective}
use vsockd.Reload.Served.{KeysDistinct}
use vsockd.App.{numbered, inbound_entries, outbound_entries}

-- what `mem` finds under `f`, it also finds under a key `g` that fixes `f`
module _ {A K C L S E : Type 0} (ops : Ops K C L S E) (mem : List A → A → Bool) (f : C → A)
    (g : C → K)
    (new_key : (seen : List A) (c d : C)
      → mem (f c ∷ seen) (f d) ≡ false
      → (g d ≢ g c) × (mem seen (f d) ≡ false)) where
  old_keys :
      (seen : List A) (c : C) (cs : List C)
      → All (λ d. mem (f c ∷ seen) (f d) ≡ false) cs
      → All (λ d. g d ≢ g c) cs × All (λ d. mem seen (f d) ≡ false) cs
  old_keys seen c [] a = (tt, tt)
  old_keys seen c (d ∷ cs) a =
      let here = new_key seen c d a.0 in
      let rest = old_keys seen c cs a.1 in ((here.0, rest.0), (here.1, rest.1))

  pub Fresh-KeysDistinct :
      (seen : List A) (cs : List C)
      → Fresh mem seen (map f cs)
      → KeysDistinct ops g cs × All (λ d. mem seen (f d) ≡ false) cs
  Fresh-KeysDistinct seen [] h = (tt, tt)
  Fresh-KeysDistinct seen (c ∷ cs) h =
      let rest = Fresh-KeysDistinct (f c ∷ seen) cs h.1 in
      let olds = old_keys seen c cs rest.1 in ((olds.0, rest.0), (h.0, olds.1))

map-append : {A B : Type 0} (f : A → B) (xs ys : List A) → map f (xs ++ ys) ≡ map f xs ++ map f ys
map-append f [] ys = refl
map-append f (x ∷ xs) ys = ap (λ zs. f x ∷ zs) (map-append f xs ys)

map-numbered :
    {A B D : Type 0} (f : ℕ → A → B) (g : B → D) (h : A → D) (i : ℕ) (xs : List A)
    → ((j : ℕ) (x : A) → g (f j x) ≡ h x)
    → map g (numbered f i xs) ≡ map h xs
map-numbered f g h i [] e = refl
map-numbered f g h i (x ∷ xs) e = rw (e i x, map-numbered f g h (suc i) xs e) refl

map-outbound_entries : (c : Config) → map Out.port_of (outbound_entries c) ≡ vsock_ports c
map-outbound_entries c =
    rw
      (
        map-append Out.port_of (numbered Out.in_outbound 0 c.outbound) (
            numbered Out.in_vsock_to_tcp 0 c.vsock_to_tcp
            ++ numbered Out.in_log_relay 0 c.log_relay),
        map-append Out.port_of (numbered Out.in_vsock_to_tcp 0 c.vsock_to_tcp)
            (numbered Out.in_log_relay 0 c.log_relay),
        map-numbered Out.in_outbound Out.port_of Egress.port_of 0 c.outbound (λ j x. refl),
        map-numbered Out.in_vsock_to_tcp Out.port_of vsock_port 0 c.vsock_to_tcp (λ j x. refl),
        map-numbered Out.in_log_relay Out.port_of relay_port 0 c.log_relay (λ j x. refl),
      )
      refl

abbrev bind_key_of : In.Entry → BindKey
bind_key_of (In.in_inbound i c) = inbound_key c
bind_key_of (In.in_tcp_to_vsock i c) = tcp_key c

map-inbound_entries : (c : Config) → map bind_key_of (inbound_entries c) ≡ bind_keys c
map-inbound_entries c =
    rw
      (
        map-append bind_key_of (numbered In.in_inbound 0 c.inbound)
            (numbered In.in_tcp_to_vsock 0 c.tcp_to_vsock),
        map-numbered In.in_inbound bind_key_of inbound_key 0 c.inbound (λ j x. refl),
        map-numbered In.in_tcp_to_vsock bind_key_of tcp_key 0 c.tcp_to_vsock (λ j x. refl),
      )
      refl

or_false : (a b : Bool) → (a || b) ≡ false → (a ≡ false) × (b ≡ false)
or_false true b e = cc
or_false false b e = (refl, e)

new_num :
    (seen : List ℕ) (x y : ℕ) → mem_num (x ∷ seen) y ≡ false → (y ≢ x) × (mem_num seen y ≡ false)
unfolding mem_num
new_num seen x y h =
    let both = or_false (x == y) (mem_num seen y) h in
    let differ = both.0 in ((λ e. grind tests), both.1)

new_port :
    (seen : List ℕ) (c d : Out.Entry)
    → mem_num (Out.port_of c ∷ seen) (Out.port_of d) ≡ false
    → (Out.port_of d ≢ Out.port_of c) × (mem_num seen (Out.port_of d) ≡ false)
new_port seen c d h = new_num seen (Out.port_of c) (Out.port_of d) h

abbrev bind_of_key : In.Key → BindKey
bind_of_key k = (k.0.0, port_number k.0.1)

bind_of_key-key_of : (c : In.Entry) → bind_of_key (In.key_of c) ≡ bind_key_of c
bind_of_key-key_of (In.in_inbound i c) = refl
bind_of_key-key_of (In.in_tcp_to_vsock i c) = refl

same_bind : (x : BindKey) → (equal x.0 x.0 && x.1 == x.1) ≡ true
same_bind x = let n : (x.1 == x.1) ≡ true = grind tests in rw ((equal_iff x.0 x.0).1 refl, n) refl

differ_from_itself : (x y : BindKey) → (equal x.0 y.0 && x.1 == y.1) ≡ false → y ≢ x
differ_from_itself x y f e =
    let unlike = subst (λ z. (equal x.0 z.0 && x.1 == z.1) ≡ false) e f in
    let alike = same_bind x in cc

new_address :
    (seen : List BindKey) (x y : BindKey)
    → mem_bind (x ∷ seen) y ≡ false
    → (y ≢ x) × (mem_bind seen y ≡ false)
unfolding mem_bind
new_address seen x y h =
    let both = or_false (equal x.0 y.0 && x.1 == y.1) (mem_bind seen y) h in
    ((λ e. differ_from_itself x y both.0 e), both.1)

new_bind :
    (seen : List BindKey) (c d : In.Entry)
    → mem_bind (bind_key_of c ∷ seen) (bind_key_of d) ≡ false
    → (In.key_of d ≢ In.key_of c) × (mem_bind seen (bind_key_of d) ≡ false)
new_bind seen c d h =
    let both = new_address seen (bind_key_of c) (bind_key_of d) h in
    ((λ e. both.0 (sym (bind_of_key-key_of d) ∙ (ap bind_of_key e ∙ bind_of_key-key_of c))), both.1)

accepted-WellFormed :
    (x : Config) (r : Outcome Types.Error Config) (c : Config)
    → validate x ≡ r
    → accepted r ≡ inr c
    → WellFormed c
accepted-WellFormed x (ok d) c e h = (validate-WellFormed x c (e ∙ ap ok (inr-injective h))).0
accepted-WellFormed x (err d) c e h = cc
accepted-WellFormed x panic c e h = cc
accepted-WellFormed x no_fuel c e h = cc

pub load-WellFormed : (file : Bytes ⊎ Config) (c : Config) → load file ≡ inr c → WellFormed c
unfolding load
load-WellFormed (inl e) c h = cc
load-WellFormed (inr x) c h = accepted-WellFormed x (validate x) c refl h

pub outbound-distinct :
    (sys : Out.System) (c : Config)
    → WellFormed c
    → KeysDistinct (Out.ops sys) Out.port_of (outbound_entries c)
outbound-distinct sys c w =
    (Fresh-KeysDistinct (Out.ops sys) mem_num Out.port_of Out.port_of new_port []
      (outbound_entries c) (rw (map-outbound_entries c) w.ports_fresh)).0

pub inbound-distinct :
    (listen : List In.Listener → In.Address → Option Bytes) (c : Config)
    → WellFormed c
    → KeysDistinct (In.ops listen) In.key_of (inbound_entries c)
inbound-distinct listen c w =
    (Fresh-KeysDistinct (In.ops listen) mem_bind bind_key_of In.key_of new_bind []
      (inbound_entries c) (rw (map-inbound_entries c) w.binds_fresh)).0
