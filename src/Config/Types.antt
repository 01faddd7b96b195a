-- ===== src/Config/Types.antt =====
-- internal/config/config.go: the configuration. Strings are bytes, an int is a ℤ, a uint32 is a ℕ, a
-- pointer is an option, and a map is the list of its entries in the order of the iteration. An error
-- names the message, under the section and the index that it is wrapped in.
use vsockd.Common.{ℕ, ◌^◌, Bool, false, Option, List, [], ◌∷◌, ◌||◌, ℤ, pos, ◌==◌, ◌&&◌}
use vsockd.Go.Strings.{Bytes, bytes, equal}

abbrev pub mode_http_host : Bytes
mode_http_host = bytes "http-host"

abbrev pub mode_tls_sni : Bytes
mode_tls_sni = bytes "tls-sni"

abbrev pub output_file : Bytes
output_file = bytes "file"

abbrev pub output_stdout : Bytes
output_stdout = bytes "stdout"

abbrev pub default_max_line_bytes : ℤ
default_max_line_bytes = pos (2 ^ 20)

abbrev pub min_max_line_bytes : ℕ
min_max_line_bytes = 16

abbrev pub default_host_key : Bytes
default_host_key = bytes "host"

abbrev pub relay_reserved_keys : List Bytes
relay_reserved_keys = bytes "type" ∷ bytes "msg" ∷ bytes "truncated" ∷ []

abbrev pub min_cid : ℕ
min_cid = 3

abbrev pub vsock_port_any : ℕ
vsock_port_any = 0xFFFFFFFF

pub record Route : Type 0 where
  pub hostname : Bytes
  pub cid : ℕ
  pub vsock_port : ℕ

pub record InboundListener : Type 0 where
  pub bind : Bytes
  pub port : ℤ
  pub mode : Bytes
  pub routes : List Route

pub record OutboundCid : Type 0 where
  pub cid : ℕ
  pub allowed_hosts : List Bytes

pub record OutboundListener : Type 0 where
  pub port : ℕ
  pub cids : List OutboundCid

pub record TcpToVsockListener : Type 0 where
  pub bind : Bytes
  pub port : ℤ
  pub vsock_cid : ℕ
  pub vsock_port : ℕ

pub record VsockToTcpListener : Type 0 where
  pub port : ℕ
  pub upstream : Bytes

pub record LogRelayEnrich : Type 0 where
  pub cid : Bool
  pub tags : List (Bytes × Bytes)
  pub host_key : Bytes

pub record LogRelayListener : Type 0 where
  pub port : ℕ
  pub output : Bytes
  pub path : Bytes
  pub max_line_bytes : ℤ
  pub enrich : Option LogRelayEnrich

pub record MetricsConfig : Type 0 where
  pub bind : Bytes
  pub vsock_port : ℕ

pub record Config : Type 0 where
  pub inbound : List InboundListener
  pub outbound : List OutboundListener
  pub tcp_to_vsock : List TcpToVsockListener
  pub vsock_to_tcp : List VsockToTcpListener
  pub log_relay : List LogRelayListener
  pub metrics : MetricsConfig
  pub shutdown_grace : ℤ
  pub log_format : Bytes
  pub log_level : Bytes

pub data Error : Type 0 where
  no_listeners empty_bind port_range bad_mode no_routes empty_hostname : Error
  duplicate_hostname reserved_cid vsock_port_range duplicate_bind duplicate_port : Error
  no_cids duplicate_cid no_allowed_hosts empty_upstream : Error
  not_host_port empty_host wildcard bad_wildcard stray_star invalid_port : Error
  no_path extra_path no_output bad_output negative_max_line small_max_line : Error
  empty_tag_key empty_tag_value reserved_host_key cid_host_key : Error
  bad_log_format bad_log_level negative_grace two_metrics bad_metrics_bind : Error
  metrics_port_range metrics_port_taken : Error
  at_inbound at_tcp_to_vsock at_outbound at_vsock_to_tcp at_log_relay : ℕ → Error → Error
  at_route at_cid at_host : ℕ → Error → Error
  at_upstream : Error → Error

-- membership of a string, of a number, and of a bind key
unfoldable pub mem_bytes : List Bytes → Bytes → Bool
mem_bytes [] k = false
mem_bytes (x ∷ xs) k = equal x k || mem_bytes xs k

unfoldable pub mem_num : List ℕ → ℕ → Bool
mem_num [] k = false
mem_num (x ∷ xs) k = x == k || mem_num xs k

-- `fmt.Sprintf("%s|%d", bind, port)`: the text fixes both, since the digits hold no bar
abbrev pub BindKey : Type 0
BindKey = Bytes × ℕ

unfoldable pub mem_bind : List BindKey → BindKey → Bool
mem_bind [] k = false
mem_bind (x ∷ xs) k = (equal x.0 k.0 && x.1 == k.1) || mem_bind xs k
