-- ===== src/Config/Listeners.antt =====
-- internal/config/config.go: the `validate` methods of the listeners, `validateHostPort` and
-- `validatePattern`.
use vsockd.Common.{
  ℕ, suc, Bool, true, false, not, ◌&&◌, ◌||◌, Option, none, some, List, [], ◌∷◌, if◌then◌else◌, ltb,
  leb, ◌==◌, drop, ℤ, ltz, lez, gtz, eqz, Outcome, ok, err, ◌>>=◌, ◌>>◌, reject,
}
use vsockd.Go.Net.{split_host_port, atoi}
use vsockd.Go.Strings.{Bytes, bytes, equal, is_empty, to_lower, has_prefix, contains_byte}
use vsockd.Config.Types.{
  Route, InboundListener, TcpToVsockListener, VsockToTcpListener, LogRelayEnrich, LogRelayListener,
  mode_http_host, mode_tls_sni, output_file, output_stdout, default_max_line_bytes,
  min_max_line_bytes, default_host_key, relay_reserved_keys, min_cid, vsock_port_any, mem_bytes,
  Error, empty_bind, port_range, bad_mode, no_routes, empty_hostname, duplicate_hostname,
  reserved_cid, vsock_port_range, empty_upstream, not_host_port, empty_host, wildcard, bad_wildcard,
  stray_star, invalid_port, no_path, extra_path, no_output, bad_output, negative_max_line,
  small_max_line, empty_tag_key, empty_tag_value, reserved_host_key, cid_host_key, at_route,
  at_upstream,
}

-- an error in the wrapping of its place
abbrev pub under : {A : Type 0} → (Error → Error) → Outcome Error A → Outcome Error A
under f (err e) = err (f e)
under f r = r

abbrev pub bad_vsock_port : ℕ → Bool
bad_vsock_port p = p == 0 || leb vsock_port_any p

abbrev pub bad_tcp_port : ℤ → Bool
bad_tcp_port p = lez p 0 || gtz p 65535

-- the loop over the routes of `InboundListener.validate`, from index `i`
unfoldable pub check_routes : ℕ → List Bytes → List Route → Outcome Error (Unit {0})
check_routes i seen [] = ok tt
check_routes i seen (r ∷ rs) = do
  reject (is_empty r.hostname) (at_route i empty_hostname)
  reject (mem_bytes seen (to_lower r.hostname)) (at_route i duplicate_hostname)
  reject (ltb r.cid min_cid) (at_route i reserved_cid)
  reject (bad_vsock_port r.vsock_port) (at_route i vsock_port_range)
  check_routes (suc i) (to_lower r.hostname ∷ seen) rs

abbrev pub is_nil : {A : Type 0} → List A → Bool
is_nil [] = true
is_nil (_ ∷ _) = false

-- `InboundListener.validate`
unfoldable pub validate_inbound : InboundListener → Outcome Error (Unit {0})
validate_inbound l = do
  reject (is_empty l.bind) empty_bind
  reject (bad_tcp_port l.port) port_range
  reject (not (equal l.mode mode_http_host || equal l.mode mode_tls_sni)) bad_mode
  reject (is_nil l.routes) no_routes
  check_routes 0 [] l.routes

-- `TCPToVsockListener.validate`
unfoldable pub validate_tcp_to_vsock : TcpToVsockListener → Outcome Error (Unit {0})
validate_tcp_to_vsock t = do
  reject (is_empty t.bind) empty_bind
  reject (bad_tcp_port t.port) port_range
  reject (ltb t.vsock_cid min_cid) reserved_cid
  reject (bad_vsock_port t.vsock_port) vsock_port_range

abbrev pub split_or_err : Option (Bytes × Bytes) → Outcome Error (Bytes × Bytes)
split_or_err none = err not_host_port
split_or_err (some hp) = ok hp

-- `p, err := strconv.Atoi(portStr)` with its range test
abbrev pub check_port : Option ℤ → Outcome Error (Unit {0})
check_port none = err invalid_port
check_port (some p) = reject (ltz p 1 || gtz p 65535) invalid_port

-- `validateHostPort`
unfoldable pub validate_host_port : Bytes → Outcome Error (Unit {0})
validate_host_port s = do
  hp ← split_or_err (split_host_port s)
  reject (is_empty hp.0) empty_host
  reject (contains_byte hp.0 b'*') wildcard
  check_port (atoi hp.1)

-- `VsockToTCPListener.validate`
unfoldable pub validate_vsock_to_tcp : VsockToTcpListener → Outcome Error (Unit {0})
unfolding validate_host_port
validate_vsock_to_tcp v = do
  reject (bad_vsock_port v.port) port_range
  reject (is_empty v.upstream) empty_upstream
  under at_upstream (validate_host_port v.upstream)

-- the switch of `validatePattern`
unfoldable pub check_pattern_host : Bytes → Outcome Error (Unit {0})
check_pattern_host host =
    if is_empty host
    then err empty_host
    else if equal host (b'*' ∷ [])
    then ok tt
    else if has_prefix host (b'*' ∷ b'.' ∷ [])
    then reject (is_empty (drop 2 host) || contains_byte (drop 2 host) b'*') bad_wildcard
    else reject (contains_byte host b'*') stray_star

-- `validatePattern`
unfoldable pub validate_pattern : Bytes → Outcome Error (Unit {0})
validate_pattern pat =
    if equal pat (b'*' ∷ [])
    then ok tt
    else do hp ← split_or_err (split_host_port pat); check_pattern_host hp.0; check_port (atoi hp.1)

-- the switch on `l.Output`
unfoldable pub check_output : LogRelayListener → Outcome Error (Unit {0})
check_output l =
    if equal l.output output_file
    then reject (is_empty l.path) no_path
    else if equal l.output output_stdout
    then reject (not (is_empty l.path)) extra_path
    else if is_empty l.output
    then err no_output
    else err bad_output

-- the test on `max_line_bytes`, with its default
unfoldable pub check_max_line : ℤ → Outcome Error ℤ
check_max_line n = do
  reject (ltz n 0) negative_max_line
  if eqz n 0
      then ok default_max_line_bytes
      else if ltz n min_max_line_bytes
      then err small_max_line
      else ok n

unfoldable pub check_tags : List (Bytes × Bytes) → Outcome Error (Unit {0})
check_tags [] = ok tt
check_tags ((k, v) ∷ tags) = do
  reject (is_empty k) empty_tag_key
  reject (is_empty v) empty_tag_value
  check_tags tags

abbrev pub host_key_or_default : Bytes → Bytes
host_key_or_default k = if is_empty k then default_host_key else k

-- the block on `l.Enrich`, with the default of the host key
unfoldable pub check_enrich : Option LogRelayEnrich → Outcome Error (Option LogRelayEnrich)
unfolding check_tags
check_enrich none = ok none
check_enrich (some e) = do
  check_tags e.tags
  let key = host_key_or_default e.host_key
  reject (not (is_nil e.tags) && mem_bytes relay_reserved_keys key) reserved_host_key
  reject (not (is_nil e.tags) && e.cid && equal key (bytes "cid")) cid_host_key
  ok (some (record e { host_key = key }))

-- `LogRelayListener.validate`
unfoldable pub validate_log_relay : LogRelayListener → Outcome Error LogRelayListener
unfolding check_output check_max_line check_enrich
validate_log_relay l = do
  reject (bad_vsock_port l.port) port_range
  check_output l
  n ← check_max_line l.max_line_bytes
  e ← check_enrich l.enrich
  ok (record l { max_line_bytes = n; enrich = e })
