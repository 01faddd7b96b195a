-- ===== src/App.antt =====
-- internal/app/app.go: the application over the inbound and the outbound server, and its reload. The
-- configuration file, as opened and decoded, and the system calls are parameters. Log messages are left out.
pub mod Validated
pub mod Atomic
pub mod Lifetime
use vsockd.Common.{
  ℕ, suc, not, ◌&&◌, ◌==◌, if◌then◌else◌, Option, none, some, List, [], ◌∷◌, ◌++◌, ◌⊎◌, inl, inr,
}
use vsockd.Go.Strings.{Bytes, is_empty}
use vsockd.Config.Types.{Config, Route}
use vsockd.Config.Validate.{LoadError, load}
use vsockd.Inbound.Server as In
use vsockd.Outbound.Server as Out
use vsockd.Reload.{
  World, Prepared, ready, failed, ApplyPlan, prepare_apply, commit_apply, abort_apply,
}
use vsockd.Reload.Life.{start, shutdown, new_server}

-- where /metrics is served
pub data MetricsEndpoint : Type 0 where
  no_metrics : MetricsEndpoint
  on_tcp : Bytes → MetricsEndpoint
  on_vsock : ℕ → MetricsEndpoint

-- the metrics fields of `Options`, and what `ListenMetrics` gives on an address: the text of its error, if any
pub record Options : Type 0 where
  pub metrics_addr : Bytes
  pub metrics_vsock_port : ℕ
  pub listen_metrics : Bytes → Option Bytes

-- `successes` and `failures` are the counter config_reloads by its result.
pub record App : Type 0 where
  pub inbound : World In.Listener
  pub out : World Out.Listener
  pub current_cfg : Config
  pub successes : ℕ
  pub failures : ℕ
  pub metrics : MetricsEndpoint

pub data Error : Type 0 where
  not_loaded : LoadError → Error
  inbound_error : In.Error → Error
  outbound_error : Out.Error → Error
  exclusive_metrics : Error
  metrics_error : MetricsEndpoint → Bytes → Error

abbrev pub numbered : {A B : Type 0} → (ℕ → A → B) → ℕ → List A → List B
numbered f i [] = []
numbered f i (x ∷ xs) = f i x ∷ numbered f (suc i) xs

-- the listeners of the inbound and of the outbound server, in the order in which `PrepareApply` takes them
abbrev pub inbound_entries : Config → List In.Entry
inbound_entries c =
    numbered In.in_inbound 0 c.inbound ++ numbered In.in_tcp_to_vsock 0 c.tcp_to_vsock

abbrev pub outbound_entries : Config → List Out.Entry
outbound_entries c =
    numbered Out.in_outbound 0 c.outbound
    ++ (numbered Out.in_vsock_to_tcp 0 c.vsock_to_tcp ++ numbered Out.in_log_relay 0 c.log_relay)

abbrev pub InPlan : Type 0
InPlan = ApplyPlan In.Key In.Listener (List (Bytes × Route))

abbrev pub OutPlan : Type 0
OutPlan = ApplyPlan ℕ Out.Listener Out.ApplySwap

abbrev pub failing : App → Error → Option Error × App
failing a e = (some e, record a { failures = suc a.failures })

module _ (listen : List In.Listener → In.Address → Option Bytes) (sys : Out.System) where
  -- behind the outbound `PrepareApply`
  abbrev pub resolve :
      Config
      → App
      → InPlan
      → World In.Listener
      → Prepared Out.Error Out.Listener OutPlan
      → Option Error × App
  resolve cfg a p v (failed e u) =
      failing (record a { inbound = (abort_apply (In.ops listen) p v).1; out = u })
        (outbound_error e)
  resolve cfg a p v (ready q u) = (
    none,
    record a {
      inbound = (commit_apply (In.ops listen) p v).1;
      out = (commit_apply (Out.ops sys) q u).1;
      current_cfg = cfg;
      successes = suc a.successes;
    },
  )

  -- behind the inbound `PrepareApply`
  abbrev pub stage_out : Config → App → Prepared In.Error In.Listener InPlan → Option Error × App
  stage_out cfg a (failed e v) = failing (record a { inbound = v }) (inbound_error e)
  stage_out cfg a (ready p v) =
      resolve cfg a p v (prepare_apply (Out.ops sys) a.out (outbound_entries cfg))

  abbrev pub stage_in : App → LoadError ⊎ Config → Option Error × App
  stage_in a (inl e) = failing a (not_loaded e)
  stage_in a (inr cfg) =
      stage_out cfg a (prepare_apply (In.ops listen) a.inbound (inbound_entries cfg))

  -- `Reload`, on what opening and decoding the file gave
  unfoldable pub reload : App → Bytes ⊎ Config → Option Error × App
  unfolding load prepare_apply
  reload a file = stage_in a (load file)

  -- `New`, on options that are not nil
  unfoldable pub new : Config → Error ⊎ App
  unfolding new_server
  new cfg = elim (new_server (In.ops listen) (inbound_entries cfg)) [
    | inl x ↦ inl (inbound_error x.0)
    | inr w ↦ elim (new_server (Out.ops sys) (outbound_entries cfg)) [
      | inl x ↦ inl (outbound_error x.0)
      | inr u ↦ inr (record {
        inbound = w;
        out = u;
        current_cfg = cfg;
        successes = 0;
        failures = 0;
        metrics = no_metrics;
      })
    ]
  ]

  -- `inbound.Shutdown` and `out.Shutdown`
  abbrev pub shut_down : App → App
  shut_down a = record a {
    inbound = shutdown (In.ops listen) a.inbound;
    out = shutdown (Out.ops sys) a.out;
  }

  abbrev pub metrics_on : App → MetricsEndpoint → Option Bytes → Option Error × App
  metrics_on a m (some e) = (some (metrics_error m e), shut_down a)
  metrics_on a m none = (none, record a { metrics = m })

  -- the metrics listener, once both servers have started
  abbrev pub start_metrics : Options → App → Option Error × App
  start_metrics opts a =
      if not (is_empty opts.metrics_addr)
      then metrics_on a (on_tcp opts.metrics_addr) (opts.listen_metrics opts.metrics_addr)
      else if not (opts.metrics_vsock_port == 0)
      then metrics_on a (on_vsock opts.metrics_vsock_port)
          (sys.listen a.out.heap opts.metrics_vsock_port)
      else (none, a)

  abbrev pub start_out : Options → App → Option Out.Error × World Out.Listener → Option Error × App
  start_out opts a (some e, u) =
      (some (outbound_error e), record a { inbound = shutdown (In.ops listen) a.inbound; out = u })
  start_out opts a (none, u) = start_metrics opts (record a { out = u })

  abbrev pub start_in : Options → App → Option In.Error × World In.Listener → Option Error × App
  start_in opts a (some e, w) = (some (inbound_error e), record a { inbound = w })
  start_in opts a (none, w) = start_out opts (record a { inbound = w }) (start (Out.ops sys) a.out)

  -- `Start`
  unfoldable pub start_app : Options → App → Option Error × App
  unfolding start
  start_app opts a =
      if not (is_empty opts.metrics_addr) && not (opts.metrics_vsock_port == 0)
      then (some exclusive_metrics, a)
      else start_in opts a (start (In.ops listen) a.inbound)
