-- ===== src/Tests/Config.antt =====
-- internal/config/config.go on a small configuration.
use vsockd.Common.{◌≡◌, refl, false, none, [], ◌∷◌, pos, ok}
use vsockd.Go.Strings.{Bytes, bytes, equal, to_lower, has_prefix, contains_byte, last_index_byte}
use vsockd.Go.Net.{split_host_port, atoi}
use vsockd.Allowlist.Defs
use vsockd.Config.Types
use vsockd.Config.Listeners
use vsockd.Config.Validate
use vsockd.Config.Patterns.{is_ok, validate_pattern-parse_pattern}
use vsockd.Config.WellFormed.{WellFormed, validate-WellFormed}

abbrev pattern : Bytes
pattern = bytes "*.example.org:443"

validate_pattern-parse_pattern_example :
    is_ok (Listeners.validate_pattern pattern) ≡ is_ok (Defs.parse_pattern pattern)
validate_pattern-parse_pattern_example = validate_pattern-parse_pattern pattern

abbrev given : Types.Config
given = record {
  inbound =
      record {
        bind = bytes "0.0.0.0";
        port = pos 443;
        mode = Types.mode_tls_sni;
        routes = record { hostname = bytes "A.org"; cid = 16; vsock_port = 8443 } ∷ [];
      }
      ∷ [];
  outbound =
      record { port = 8080; cids = record { cid = 16; allowed_hosts = pattern ∷ [] } ∷ [] } ∷ [];
  tcp_to_vsock = [];
  vsock_to_tcp = [];
  log_relay =
      record {
        port = 9000;
        output = Types.output_stdout;
        path = [];
        max_line_bytes = pos 0;
        enrich = none;
      }
      ∷ [];
  metrics = record { bind = []; vsock_port = 9100 };
  shutdown_grace = pos 0;
  log_format = [];
  log_level = bytes "info";
}

abbrev filled : Types.Config
filled = record given {
  log_relay =
      record {
        port = 9000;
        output = Types.output_stdout;
        path = [];
        max_line_bytes = pos 1048576;
        enrich = none;
      }
      ∷ [];
}

given-validate : Validate.validate given ≡ ok filled
unfolding Validate.validate Validate.check_inbound Validate.check_tcp Validate.check_hosts
    Validate.check_cids Validate.check_outbound Validate.check_vsock Validate.check_relays
    Validate.check_metrics Listeners.validate_inbound Listeners.check_routes
    Listeners.validate_pattern Listeners.check_pattern_host Listeners.validate_log_relay
    Listeners.check_output Listeners.check_max_line Listeners.check_enrich Types.mem_bytes
    Types.mem_num Types.mem_bind equal to_lower split_host_port atoi has_prefix contains_byte
    last_index_byte
given-validate = refl

validate-WellFormed_example :
    WellFormed filled
    × (filled ≡ record given { log_relay = filled.log_relay })
    × (Validate.no_listeners given ≡ false)
validate-WellFormed_example = validate-WellFormed given filled given-validate
