-- ===== src/Tests/App.antt =====
-- internal/app/app.go on a concrete configuration, and a reload to another one.
use vsockd.Common.{
  true, some, ap, ◌≢◌, some-injective, arith, ◌≡◌, refl, false, Option, none, List, [], ◌∷◌, ◌⊎◌,
  inl, inr, pos,
}
use vsockd.Go.Strings.{Bytes, bytes}
use vsockd.Config.Types.{
  Config, InboundListener, OutboundListener, LogRelayListener, Route, mode_http_host, output_stdout,
}
use vsockd.Inbound.Server as In
use vsockd.Outbound.Server as Out
use vsockd.Outbound.Server.Laws as OutLaws
use vsockd.Reload.{World, prepare_apply}
use vsockd.Reload.Replaced.{Replaces, prepare_apply-Replaces}
use vsockd.App.{App, Error, Options, new, start_app, reload}
use vsockd.App.Atomic.{AllOrNothing, IsServed, reload-AllOrNothing}
use vsockd.App.Lifetime.{Reach, started, reloaded, IsServed-IsListening, Reach-IsServed}

abbrev free : List In.Listener → In.Address → Option Bytes
free ls a = none

abbrev machine : Out.System
machine = record {
  listen = λ ls p. none;
  open_file = λ ls p. none;
  quote = λ s. s;
  marshal_tags = λ ts. [];
}

abbrev web : InboundListener
web = record {
  bind = bytes "h";
  port = pos 80;
  mode = mode_http_host;
  routes = record { hostname = bytes "a"; cid = 16; vsock_port = 8080 } ∷ [];
}

abbrev proxy : OutboundListener
proxy = record { port = 3128; cids = record { cid = 16; allowed_hosts = bytes "*" ∷ [] } ∷ [] }

abbrev logs : LogRelayListener
logs = record {
  port = 5000;
  output = output_stdout;
  path = [];
  max_line_bytes = pos 4096;
  enrich = none;
}

abbrev first_config : Config
first_config = record {
  inbound = web ∷ [];
  outbound = proxy ∷ [];
  tcp_to_vsock = [];
  vsock_to_tcp = [];
  log_relay = logs ∷ [];
  metrics = record { bind = []; vsock_port = 0 };
  shutdown_grace = pos 0;
  log_format = [];
  log_level = [];
}

-- the log relay is gone, and the proxy serves another CID
abbrev second_config : Config
second_config = record first_config {
  outbound =
      record { port = 3128; cids = record { cid = 17; allowed_hosts = bytes "*" ∷ [] } ∷ [] } ∷ [];
  log_relay = [];
}

abbrev no_metrics_options : Options
no_metrics_options = record {
  metrics_addr = [];
  metrics_vsock_port = 0;
  listen_metrics = λ a. none;
}

abbrev built_or : App → Error ⊎ App → App
built_or a (inl e) = a
built_or a (inr b) = b

abbrev idle_app : App
idle_app = record {
  inbound = record {
    heap = [];
    loose = [];
    opened = 0;
    listeners = [];
    running = [];
    started = false;
  };
  out = record { heap = []; loose = []; opened = 0; listeners = []; running = []; started = false };
  current_cfg = first_config;
  successes = 0;
  failures = 0;
  metrics = vsockd.App.no_metrics;
}

abbrev new_app : App
new_app = built_or idle_app (new free machine first_config)

abbrev running_app : App
running_app = (start_app free machine no_metrics_options new_app).1

new_app-built : new free machine first_config ≡ inr new_app
unfolding new In.new_http_listener vsockd.Go.Strings.equal Out.new_http_listener Out.add_cid
    Out.find_matcher vsockd.Allowlist.Defs.new vsockd.Allowlist.Defs.parse_pattern
    Out.new_log_relay_listener
new_app-built = refl

running_app-started : start_app free machine no_metrics_options new_app ≡ (none, running_app)
unfolding start_app new In.new_http_listener vsockd.Go.Strings.equal Out.new_http_listener
    Out.add_cid Out.find_matcher vsockd.Allowlist.Defs.new vsockd.Allowlist.Defs.parse_pattern
    Out.new_log_relay_listener In.bind Out.bind
running_app-started = refl

running_app-Reach : Reach free machine running_app
running_app-Reach =
    started first_config no_metrics_options new_app running_app new_app-built running_app-started

Reach-IsServed_example :
    IsServed free machine
      (reload free machine running_app (inr second_config)).1
      (reload free machine running_app (inr second_config)).1.current_cfg
Reach-IsServed_example =
    Reach-IsServed free machine (reloaded running_app (inr second_config) running_app-Reach)

reload-AllOrNothing_example :
    AllOrNothing free machine running_app (reload free machine running_app (inr second_config))
reload-AllOrNothing_example = reload-AllOrNothing free machine running_app (inr second_config) (
    IsServed-IsListening free machine running_app running_app.current_cfg
      (Reach-IsServed free machine running_app-Reach))

-- the reload succeeds, keeps the first listener of the proxy and closes the log relay's
reload_succeeds : (reload free machine running_app (inr second_config)).0 ≡ none
unfolding reload start_app new vsockd.Config.Validate.check_inbound
    vsockd.Config.Listeners.validate_inbound vsockd.Config.Listeners.check_routes
    vsockd.Config.Types.mem_bytes vsockd.Config.Types.mem_bind vsockd.Config.Validate.check_tcp
    vsockd.Config.Validate.check_outbound vsockd.Config.Types.mem_num
    vsockd.Config.Validate.check_cids vsockd.Config.Validate.check_hosts
    vsockd.Config.Listeners.validate_pattern vsockd.Config.Validate.check_vsock
    vsockd.Config.Validate.check_relays vsockd.Config.Validate.check_metrics In.new_http_listener
    vsockd.Go.Strings.equal Out.new_http_listener Out.add_cid Out.find_matcher
    vsockd.Allowlist.Defs.new vsockd.Allowlist.Defs.parse_pattern Out.new_log_relay_listener In.bind
    Out.bind In.same_int In.swap_for Out.swap_for vsockd.Reload.find_entry
    vsockd.Reload.existing_from vsockd.Reload.put_entry
reload_succeeds = refl

reload_of_no_file_fails : (reload free machine running_app (inl (bytes "x"))).1.failures ≡ 1
unfolding reload start_app new In.new_http_listener vsockd.Go.Strings.equal Out.new_http_listener
    Out.add_cid Out.find_matcher vsockd.Allowlist.Defs.new vsockd.Allowlist.Defs.parse_pattern
    Out.new_log_relay_listener In.bind Out.bind
reload_of_no_file_fails = refl

abbrev proxy_now : Out.Listener
proxy_now = record {
  port = 3128;
  mode = Out.http_proxy;
  ln = Out.listening;
  done = false;
  matchers = [];
  upstream = none;
  relay = none;
}

abbrev logs_now : Out.Listener
logs_now = record proxy_now { port = 5000; mode = Out.log_relay }

abbrev two_listeners : World Out.Listener
two_listeners = record {
  heap = proxy_now ∷ logs_now ∷ [];
  loose = [];
  opened = 0;
  listeners = 0 ∷ 1 ∷ [];
  running = 0 ∷ 1 ∷ [];
  started = true;
}

abbrev proxy_only : List Out.Entry
proxy_only =
    Out.in_outbound 0
      (record { port = 3128; cids = record { cid = 17; allowed_hosts = bytes "*" ∷ [] } ∷ [] })
    ∷ []

ports_differ :
    (l m : Out.Listener)
    → ◌≡◌ {A = Option Out.Listener} (some proxy_now) (some l)
    → ◌≡◌ {A = Option Out.Listener} (some logs_now) (some m)
    → l.port ≢ m.port
ports_differ l m g h e =
    let a = ap (λ (x : Out.Listener). x.port) (some-injective g) in
    let b = ap (λ (x : Out.Listener). x.port) (some-injective h) in absurd (omega (arith, a, b, e))

prepare_apply-Replaces_example :
    Replaces
      (Out.ops machine)
      Out.port_of
      OutLaws.IsOpen
      (OutLaws.Serves machine)
      (OutLaws.ops-IsServing machine)
      OutLaws.IsShut
      OutLaws.close-IsShut_open
      OutLaws.close-IsShut_again
      two_listeners
      proxy_only
      (prepare_apply (Out.ops machine) two_listeners proxy_only)
prepare_apply-Replaces_example =
    prepare_apply-Replaces (Out.ops machine) Out.port_of OutLaws.IsOpen (OutLaws.Serves machine)
      (OutLaws.ops-IsServing machine) OutLaws.IsShut OutLaws.close-IsShut_open
      OutLaws.close-IsShut_again two_listeners proxy_only
      (
        (proxy_now, refl, record { listens = refl; not_done = refl }),
        ((logs_now, refl, record { listens = refl; not_done = refl }), tt),
      )
      ((λ l g. ((λ m h. ports_differ l m g h), tt)), ((λ l g. tt), tt)) (tt, tt)
