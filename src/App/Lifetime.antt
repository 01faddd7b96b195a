-- ===== src/App/Lifetime.antt =====
-- internal/app/app.go: the application from `New` and `Start` through any number of reloads.
use vsockd.Common.{
  ◌≡◌, refl, ap, Bool, true, false, if◌then◌else◌, Option, none, some, List, ◌⊎◌, inl, inr, All2,
  not, ◌&&◌, ◌==◌,
}
use vsockd.Go.Strings.{Bytes, is_empty}
use vsockd.Config.Types.{Config}
use vsockd.Inbound.Server as In
use vsockd.Inbound.Server.Laws as InLaws
use vsockd.Outbound.Server as Out
use vsockd.Outbound.Server.Laws as OutLaws
use vsockd.Reload.{World}
use vsockd.Reload.Moves.{inr-injective, inl_not_inr, Sum-cases}
use vsockd.Reload.Life.{start, new_server}
use vsockd.Reload.Started.{start-Serves, start-IsLaunched, some_not_none}
use vsockd.Reload.Launched.{Undisturbed-IsLaunched}
use vsockd.Reload.Commit.{ServedAt, served-ListensAt, Undisturbed-ServedAt}
use vsockd.App.{
  App, Error, Options, MetricsEndpoint, on_tcp, on_vsock, inbound_entries, outbound_entries, new,
  metrics_on, start_metrics, start_out, start_in, start_app, reload,
}
use vsockd.App.Atomic.{IsListening, IsServed, AllOrNothing, reload-AllOrNothing}

if_either :
    {A P : Type 0} (t : Bool) (x y r : A) → (x ≡ r → P) → (y ≡ r → P) → (if t then x else y) ≡ r → P
if_either true x y r p q h = p h
if_either false x y r p q h = q h

module _ (listen : List In.Listener → In.Address → Option Bytes) (sys : Out.System) where
  -- the applications that `New`, `Start` without an error and any reloads lead to
  pub data Reach : App → Type 0 where
    started :
        (cfg : Config) (opts : Options) (a b : App)
        → new listen sys cfg ≡ inr a
        → start_app listen sys opts a ≡ (none, b)
        → Reach b
    reloaded : (a : App) (file : Bytes ⊎ Config) → Reach a → Reach (reload listen sys a file).1

  abbrev pub InServed : World In.Listener → Config → Type 0
  InServed w cfg =
      All2
        (ServedAt (In.ops listen) In.key_of InLaws.IsOpen InLaws.Serves
          (InLaws.ops-IsServing listen) w)
        (inbound_entries cfg) w.listeners

  abbrev pub OutServed : World Out.Listener → Config → Type 0
  OutServed u cfg =
      All2
        (ServedAt (Out.ops sys) Out.port_of OutLaws.IsOpen (OutLaws.Serves sys)
          (OutLaws.ops-IsServing sys) u)
        (outbound_entries cfg) u.listeners

  pub IsServed-IsListening :
      (a : App) (cfg : Config) → IsServed listen sys a cfg → IsListening listen sys a
  IsServed-IsListening a cfg s = record {
    inbound_open =
        served-ListensAt (In.ops listen) In.key_of InLaws.IsOpen InLaws.Serves
          (InLaws.ops-IsServing listen) (λ c l v. v.open_now) a.inbound (inbound_entries cfg)
          a.inbound.listeners s.inbound_served;
    out_open =
        served-ListensAt (Out.ops sys) Out.port_of OutLaws.IsOpen (OutLaws.Serves sys)
          (OutLaws.ops-IsServing sys) (λ c l v. v.open_now) a.out (outbound_entries cfg)
          a.out.listeners s.out_served;
    inbound_launched = s.inbound_launched;
    out_launched = s.out_launched;
  }

  AllOrNothing-IsServed :
      (a : App) (r : Option Error × App)
      → IsServed listen sys a a.current_cfg
      → AllOrNothing listen sys a r
      → IsServed listen sys r.1 r.1.current_cfg
  AllOrNothing-IsServed a (some e, b) s k = rw k.config_kept (record {
    inbound_served =
        Undisturbed-ServedAt (In.ops listen) In.key_of InLaws.IsOpen InLaws.Serves
          (InLaws.ops-IsServing listen) InLaws.IsShut a.inbound b.inbound
          (inbound_entries a.current_cfg) k.inbound_kept s.inbound_served;
    out_served =
        Undisturbed-ServedAt (Out.ops sys) Out.port_of OutLaws.IsOpen (OutLaws.Serves sys)
          (OutLaws.ops-IsServing sys) OutLaws.IsShut a.out b.out (outbound_entries a.current_cfg)
          k.out_kept s.out_served;
    inbound_launched =
        Undisturbed-IsLaunched InLaws.IsShut a.inbound b.inbound k.inbound_kept s.inbound_launched;
    out_launched = Undisturbed-IsLaunched OutLaws.IsShut a.out b.out k.out_kept s.out_launched;
  })
  AllOrNothing-IsServed a (none, b) s k = k.served

  -- what `New` and `Start` have done
  record IsNew (cfg : Config) (a : App) : Type 0 where
    inbound_new : new_server (In.ops listen) (inbound_entries cfg) ≡ inr a.inbound
    out_new : new_server (Out.ops sys) (outbound_entries cfg) ≡ inr a.out
    config_is : a.current_cfg ≡ cfg

  new-IsNew : (cfg : Config) (a : App) → new listen sys cfg ≡ inr a → IsNew cfg a
  unfolding new
  new-IsNew cfg a e = elim (Sum-cases (new_server (In.ops listen) (inbound_entries cfg))) [
    | inl (x, p) ↦ absurd (inl_not_inr (rw (new, p) at e))
    | inr (w, p) ↦ elim (Sum-cases (new_server (Out.ops sys) (outbound_entries cfg))) [
      | inl (x, q) ↦ absurd (inl_not_inr (rw (new, p, q) at e))
      | inr (u, q) ↦
          rw (← inr-injective (rw (new, p, q) at e))
            (record { inbound_new = p; out_new = q; config_is = refl })
    ]
  ]

  -- the servers behind a start without an error
  record IsStarted (a b : App) : Type 0 where
    inbound_started : start (In.ops listen) a.inbound ≡ (none, b.inbound)
    out_started : start (Out.ops sys) a.out ≡ (none, b.out)
    config_kept : b.current_cfg ≡ a.current_cfg

  -- nothing but the metrics endpoint differs
  record IsSame (a b : App) : Type 0 where
    inbound_same : b.inbound ≡ a.inbound
    out_same : b.out ≡ a.out
    config_same : b.current_cfg ≡ a.current_cfg

  metrics_on-IsSame :
      (a b : App) (m : MetricsEndpoint) (r : Option Bytes)
      → metrics_on listen sys a m r ≡ (none, b)
      → IsSame a b
  metrics_on-IsSame a b m (some e) h = absurd (some_not_none h)
  metrics_on-IsSame a b m none h =
      rw (← ap (λ r. r.1) h) (record { inbound_same = refl; out_same = refl; config_same = refl })

  start_metrics-IsSame :
      (opts : Options) (a b : App) → start_metrics listen sys opts a ≡ (none, b) → IsSame a b
  start_metrics-IsSame opts a b h =
      if_either (not (is_empty opts.metrics_addr)) _ _ _
        (metrics_on-IsSame a b (on_tcp opts.metrics_addr) (opts.listen_metrics opts.metrics_addr))
        (if_either (not (opts.metrics_vsock_port == 0)) _ _ _
          (metrics_on-IsSame a b (on_vsock opts.metrics_vsock_port)
            (sys.listen a.out.heap opts.metrics_vsock_port))
          (λ e.
            rw (← ap (λ r. r.1) e)
              (record { inbound_same = refl; out_same = refl; config_same = refl })))
        h

  start_out-IsStarted :
      (opts : Options) (a b : App) (w : World In.Listener)
      (r : Option Out.Error × World Out.Listener)
      → start (In.ops listen) a.inbound ≡ (none, w)
      → start (Out.ops sys) a.out ≡ r
      → start_out listen sys opts (record a { inbound = w }) r ≡ (none, b)
      → IsStarted a b
  start_out-IsStarted opts a b w (some e, u) i o h = absurd (some_not_none h)
  start_out-IsStarted opts a b w (none, u) i o h =
      let same = start_metrics-IsSame opts (record a { inbound = w; out = u }) b h in
      record {
        inbound_started = rw same.inbound_same i;
        out_started = rw same.out_same o;
        config_kept = same.config_same;
      }

  start_in-IsStarted :
      (opts : Options) (a b : App) (r : Option In.Error × World In.Listener)
      → start (In.ops listen) a.inbound ≡ r
      → start_in listen sys opts a r ≡ (none, b)
      → IsStarted a b
  start_in-IsStarted opts a b (some e, w) i h = absurd (some_not_none h)
  start_in-IsStarted opts a b (none, w) i h = start_out-IsStarted opts a b w _ i refl h

  start_app-IsStarted :
      (opts : Options) (a b : App) → start_app listen sys opts a ≡ (none, b) → IsStarted a b
  unfolding start_app
  start_app-IsStarted opts a b h =
      if_either (not (is_empty opts.metrics_addr) && not (opts.metrics_vsock_port == 0)) _ _ _
        (λ e. absurd (some_not_none e))
        (start_in-IsStarted opts a b (start (In.ops listen) a.inbound) refl) h

  start-IsServed :
      (cfg : Config) (a b : App) → IsNew cfg a → IsStarted a b → IsServed listen sys b b.current_cfg
  start-IsServed cfg a b n s =
      rw (s.config_kept, n.config_is)
        (record {
          inbound_served =
              start-Serves (In.ops listen) In.key_of InLaws.IsOpen InLaws.Serves
                (InLaws.ops-IsServing listen) (inbound_entries cfg) a.inbound b.inbound
                n.inbound_new s.inbound_started;
          out_served =
              start-Serves (Out.ops sys) Out.port_of OutLaws.IsOpen (OutLaws.Serves sys)
                (OutLaws.ops-IsServing sys) (outbound_entries cfg) a.out b.out n.out_new
                s.out_started;
          inbound_launched =
              start-IsLaunched (In.ops listen) (inbound_entries cfg) a.inbound b.inbound
                n.inbound_new s.inbound_started;
          out_launched =
              start-IsLaunched (Out.ops sys) (outbound_entries cfg) a.out b.out n.out_new
                s.out_started;
        })

  -- Whatever reloads an application has gone through since it was built and started without an error, and whether they
  -- succeeded or failed, each listener of its current configuration is served: in its place both servers
  -- have an open listener, on that port or address, set up as the entry says and with exactly one accept loop
  -- launched.
  pub Reach-IsServed : {a : App} → Reach a → IsServed listen sys a a.current_cfg
  Reach-IsServed (started cfg opts a b n s) =
      start-IsServed cfg a b (new-IsNew cfg a n) (start_app-IsStarted opts a b s)
  Reach-IsServed (reloaded a file r) =
      let served = Reach-IsServed r in
      AllOrNothing-IsServed a (reload listen sys a file) served
        (reload-AllOrNothing listen sys a file (IsServed-IsListening a a.current_cfg served))
