-- ===== src/App/Atomic.antt =====
-- internal/app/app.go: `Reload` over both servers.
use vsockd.Common.{suc, ◌≡◌, refl, Option, none, some, List, ◌⊎◌, inl, inr, All, All2}
use vsockd.Go.Strings.{Bytes}
use vsockd.Config.Types.{Config}
use vsockd.Config.Validate.{LoadError, load}
use vsockd.Config.WellFormed.{WellFormed}
use vsockd.Inbound.Server as In
use vsockd.Inbound.Server.Laws as InLaws
use vsockd.Outbound.Server as Out
use vsockd.Outbound.Server.Laws as OutLaws
use vsockd.Reload.{World, Prepared, ready, failed}
use vsockd.Reload.Owned.{Undisturbed}
use vsockd.Reload.Rollback.{RollsBack, untouched, prepare_apply-RollsBack}
use vsockd.Reload.Served.{ListensAt}
use vsockd.Reload.Launched.{IsLaunched}
use vsockd.Reload.Launching.{Launches, prepare_apply-Launches}
use vsockd.Reload.Commit.{ServedAt, Serving, prepare_apply-Serving}
use vsockd.App.{
  App, Error, inbound_entries, outbound_entries, InPlan, resolve, stage_out, stage_in, reload,
}
use vsockd.App.Validated.{load-WellFormed, inbound-distinct, outbound-distinct}

module _ (listen : List In.Listener → In.Address → Option Bytes) (sys : Out.System) where
  -- the listeners of both servers are open, and each has its accept loop
  pub record IsListening (a : App) : Type 0 where
    pub inbound_open :
        All
          (ListensAt
            (In.ops listen)
            In.key_of
            InLaws.IsOpen
            InLaws.Serves
            (InLaws.ops-IsServing listen)
            a.inbound)
          a.inbound.listeners
    pub out_open :
        All
          (ListensAt
            (Out.ops sys)
            Out.port_of
            OutLaws.IsOpen
            (OutLaws.Serves sys)
            (OutLaws.ops-IsServing sys)
            a.out)
          a.out.listeners
    pub inbound_launched : IsLaunched a.inbound
    pub out_launched : IsLaunched a.out

  -- each listener of the configuration is served by the open listener in its place, in one accept loop
  pub record IsServed (a : App) (cfg : Config) : Type 0 where
    pub inbound_served :
        All2
          (ServedAt
            (In.ops listen)
            In.key_of
            InLaws.IsOpen
            InLaws.Serves
            (InLaws.ops-IsServing listen)
            a.inbound)
          (inbound_entries cfg)
          a.inbound.listeners
    pub out_served :
        All2
          (ServedAt
            (Out.ops sys)
            Out.port_of
            OutLaws.IsOpen
            (OutLaws.Serves sys)
            (OutLaws.ops-IsServing sys)
            a.out)
          (outbound_entries cfg)
          a.out.listeners
    pub inbound_launched : IsLaunched a.inbound
    pub out_launched : IsLaunched a.out

  -- nothing but a counter has changed, and what was opened on the way is closed
  pub record IsRolledBack (a b : App) : Type 0 where
    pub inbound_kept : Undisturbed InLaws.IsShut a.inbound b.inbound
    pub out_kept : Undisturbed OutLaws.IsShut a.out b.out
    pub config_kept : b.current_cfg ≡ a.current_cfg
    pub successes_kept : b.successes ≡ a.successes
    pub failure_counted : b.failures ≡ suc a.failures

  pub record IsReloaded (a b : App) : Type 0 where
    pub served : IsServed b b.current_cfg
    pub config_valid : WellFormed b.current_cfg
    pub success_counted : b.successes ≡ suc a.successes
    pub failures_kept : b.failures ≡ a.failures

  abbrev pub AllOrNothing : App → Option Error × App → Type 0
  AllOrNothing a (some e, b) = IsRolledBack a b
  AllOrNothing a (none, b) = IsReloaded a b

  resolve-AllOrNothing :
      (cfg : Config) (a : App) (p : InPlan) (v : World In.Listener)
      (r : Prepared Out.Error Out.Listener _)
      → WellFormed cfg
      → RollsBack (In.ops listen) InLaws.IsShut (InLaws.ops-IsOwned listen) a.inbound (ready p v)
      → Serving
          (In.ops listen)
          In.key_of
          InLaws.IsOpen
          InLaws.Serves
          (InLaws.ops-IsServing listen)
          (inbound_entries cfg)
          (ready p v)
      → Launches (In.ops listen) (ready p v)
      → RollsBack (Out.ops sys) OutLaws.IsShut (OutLaws.ops-IsOwned sys) a.out r
      → Serving
          (Out.ops sys)
          Out.port_of
          OutLaws.IsOpen
          (OutLaws.Serves sys)
          (OutLaws.ops-IsServing sys)
          (outbound_entries cfg)
          r
      → Launches (Out.ops sys) r
      → AllOrNothing a (resolve listen sys cfg a p v r)
  resolve-AllOrNothing cfg a p v (failed e u) w ri si li ro so lo = record {
    inbound_kept = ri;
    out_kept = ro;
    config_kept = refl;
    successes_kept = refl;
    failure_counted = refl;
  }
  resolve-AllOrNothing cfg a p v (ready q u) w ri si li ro so lo = record {
    served = record {
      inbound_served = si;
      out_served = so;
      inbound_launched = li;
      out_launched = lo;
    };
    config_valid = w;
    success_counted = refl;
    failures_kept = refl;
  }

  out_untouched : (a : App) → Undisturbed OutLaws.IsShut a.out a.out
  out_untouched a = untouched (Out.ops sys) OutLaws.IsShut (OutLaws.ops-IsOwned sys) a.out

  in_untouched : (a : App) → Undisturbed InLaws.IsShut a.inbound a.inbound
  in_untouched a = untouched (In.ops listen) InLaws.IsShut (InLaws.ops-IsOwned listen) a.inbound

  stage_out-AllOrNothing :
      (cfg : Config) (a : App) (r : Prepared In.Error In.Listener InPlan)
      → WellFormed cfg
      → IsListening a
      → RollsBack (In.ops listen) InLaws.IsShut (InLaws.ops-IsOwned listen) a.inbound r
      → Serving
          (In.ops listen)
          In.key_of
          InLaws.IsOpen
          InLaws.Serves
          (InLaws.ops-IsServing listen)
          (inbound_entries cfg)
          r
      → Launches (In.ops listen) r
      → AllOrNothing a (stage_out listen sys cfg a r)
  stage_out-AllOrNothing cfg a (failed e v) w l ri si li = record {
    inbound_kept = ri;
    out_kept = out_untouched a;
    config_kept = refl;
    successes_kept = refl;
    failure_counted = refl;
  }
  stage_out-AllOrNothing cfg a (ready p v) w l ri si li =
      resolve-AllOrNothing cfg a p v _ w ri si li
        (prepare_apply-RollsBack (Out.ops sys) OutLaws.IsShut (OutLaws.ops-IsOwned sys) a.out
          (outbound_entries cfg))
        (prepare_apply-Serving (Out.ops sys) Out.port_of OutLaws.IsOpen (OutLaws.Serves sys)
          (OutLaws.ops-IsServing sys) a.out (outbound_entries cfg) l.out_open
          (outbound-distinct sys cfg w))
        (prepare_apply-Launches (Out.ops sys) a.out (outbound_entries cfg) l.out_launched)

  stage_in-AllOrNothing :
      (a : App) (r : LoadError ⊎ Config)
      → ((cfg : Config) → r ≡ inr cfg → WellFormed cfg)
      → IsListening a
      → AllOrNothing a (stage_in listen sys a r)
  stage_in-AllOrNothing a (inl e) w l = record {
    inbound_kept = in_untouched a;
    out_kept = out_untouched a;
    config_kept = refl;
    successes_kept = refl;
    failure_counted = refl;
  }
  stage_in-AllOrNothing a (inr cfg) w l =
      stage_out-AllOrNothing cfg a _ (w cfg refl) l
        (prepare_apply-RollsBack (In.ops listen) InLaws.IsShut (InLaws.ops-IsOwned listen) a.inbound
          (inbound_entries cfg))
        (prepare_apply-Serving (In.ops listen) In.key_of InLaws.IsOpen InLaws.Serves
          (InLaws.ops-IsServing listen) a.inbound (inbound_entries cfg) l.inbound_open
          (inbound-distinct listen cfg (w cfg refl)))
        (prepare_apply-Launches (In.ops listen) a.inbound (inbound_entries cfg) l.inbound_launched)

  -- While all listeners of the application are open and each has one accept loop, a reload with an error leaves both
  -- servers as they were, with whatever was opened on the way closed again, and the current configuration unchanged,
  -- whether the file, the inbound or the outbound server was at fault; a reload without one installs a valid
  -- configuration of which every listener is open, set up as its entry says and has exactly one accept loop launched,
  -- on both servers. The counter of its result goes up by one.
  pub reload-AllOrNothing :
      (a : App) (file : Bytes ⊎ Config) → IsListening a → AllOrNothing a (reload listen sys a file)
  unfolding reload
  reload-AllOrNothing a file l =
      stage_in-AllOrNothing a (load file) (λ cfg h. load-WellFormed file cfg h) l
