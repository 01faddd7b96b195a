-- ===== src/Inbound/Sni.antt =====
-- internal/inbound/sni.go: `SniffSNI` and the walk over a TLS ClientHello. A reader is the bytes that
-- it still gives before its end. Slices and indices are checked, so that a bound out of range would
-- show as a panic; a loop takes fuel, and `no_fuel` would show that it is not enough.
pub mod Total
pub mod Consumes
pub mod Extensions
pub mod RoundTrip
use vsockd.Common.{
  ℕ, zero, suc, ◌+◌, ◌-◌, ◌*◌, Bool, true, false, not, ◌&&◌, ◌||◌, List, [], ◌∷◌, ◌++◌,
  if◌then◌else◌, ltb, leb, ◌==◌, length, take, drop, Outcome, ok, err, panic, no_fuel, ◌>>=◌, ◌>>◌,
  reject,
}
use vsockd.Go.Slices.{index, slice, slice_from}
use vsockd.Go.Strings.{Bytes, to_lower}

pub data Error : Type 0 where
  read_header read_fragment not_handshake empty_fragment long_fragment : Error
  short_header not_client_hello body_truncated no_session_id no_length vector_truncated : Error
  extension_truncated no_server_name short_server_name list_truncated name_truncated : Error
  empty_host_name no_host_name : Error
  session_id cipher_suites compression_methods extensions : Error → Error

abbrev pub record_header_len : ℕ
record_header_len = 5

abbrev content_type_handshake : ℕ
content_type_handshake = 0x16

abbrev handshake_client_hello : ℕ
handshake_client_hello = 0x01

abbrev max_record_fragment : ℕ
max_record_fragment = 16384

abbrev ext_server_name : ℕ
ext_server_name = 0

abbrev name_type_host : ℕ
name_type_host = 0

-- `io.ReadFull` of `n` bytes: they and the reader behind them
unfoldable pub read_full : Error → ℕ → Bytes → Outcome Error (Bytes × Bytes)
read_full e n r = if leb n (length r) then ok (take n r, drop n r) else err e

-- `binary.BigEndian.Uint16`
unfoldable pub uint16 : Bytes → Outcome Error ℕ
unfolding index
uint16 b = do hi ← index b 0; lo ← index b 1; ok (hi * 256 + lo)

-- `readVec8`
unfoldable pub read_vec8 : Bytes → Outcome Error (Bytes × Bytes)
unfolding index slice slice_from
read_vec8 b = do
  reject (ltb (length b) 1) no_length
  n ← index b 0
  reject (ltb (length b - 1) n) vector_truncated
  vec ← slice b 1 (1 + n)
  rest ← slice_from b (1 + n)
  ok (vec, rest)

-- `readVec16`
unfoldable pub read_vec16 : Bytes → Outcome Error (Bytes × Bytes)
unfolding uint16 slice slice_from
read_vec16 b = do
  reject (ltb (length b) 2) no_length
  prefix ← slice b 0 2
  n ← uint16 prefix
  reject (ltb (length b - 2) n) vector_truncated
  vec ← slice b 2 (2 + n)
  rest ← slice_from b (2 + n)
  ok (vec, rest)

-- one entry of a ServerNameList: its type, the name, and the rest
unfoldable pub read_name : Bytes → Outcome Error (ℕ × Bytes × Bytes)
unfolding uint16 slice slice_from index
read_name list = do
  name_type ← index list 0
  prefix ← slice list 1 3
  name_len ← uint16 prefix
  list' ← slice_from list 3
  reject (ltb (length list') name_len) name_truncated
  name ← slice list' 0 name_len
  rest ← slice_from list' name_len
  ok (name_type, name, rest)

-- the end of the loop's body at a host_name
host_of : Bytes → Outcome Error Bytes
host_of name = if length name == 0 then err empty_host_name else ok (to_lower name)

-- what follows in the loop: another round for a name of another type
unfoldable pub next_name : (Bytes → Outcome Error Bytes) → ℕ × Bytes × Bytes → Outcome Error Bytes
unfolding host_of
next_name again (name_type, name, rest) =
    if not (name_type == name_type_host) then again rest else host_of name

-- the loop of `parseSNIExtension`
unfoldable pub walk_names : ℕ → Bytes → Outcome Error Bytes
walk_names zero list = no_fuel
walk_names (suc fuel) list =
    if leb 3 (length list) then read_name list >>= next_name (walk_names fuel) else err no_host_name

-- `parseSNIExtension`
unfoldable pub parse_sni_extension : Bytes → Outcome Error Bytes
unfolding uint16 slice slice_from
parse_sni_extension ext = do
  reject (ltb (length ext) 2) short_server_name
  prefix ← slice ext 0 2
  list_len ← uint16 prefix
  list ← slice_from ext 2
  reject (ltb (length list) list_len) list_truncated
  list' ← slice list 0 list_len
  walk_names (suc (length list')) list'

-- one extension: its type, its data, and the rest
unfoldable pub read_extension : Bytes → Outcome Error (ℕ × Bytes × Bytes)
unfolding uint16 slice slice_from
read_extension exts = do
  type_prefix ← slice exts 0 2
  ext_type ← uint16 type_prefix
  len_prefix ← slice exts 2 4
  ext_len ← uint16 len_prefix
  exts' ← slice_from exts 4
  reject (ltb (length exts') ext_len) extension_truncated
  ext_data ← slice exts' 0 ext_len
  rest ← slice_from exts' ext_len
  ok (ext_type, ext_data, rest)

-- what follows in the loop: another round for an extension of another type
unfoldable pub next_extension :
    (Bytes → Outcome Error Bytes) → ℕ × Bytes × Bytes → Outcome Error Bytes
next_extension again (ext_type, ext_data, rest) =
    if not (ext_type == ext_server_name) then again rest else parse_sni_extension ext_data

-- the loop of `parseClientHelloSNI`
unfoldable pub walk_extensions : ℕ → Bytes → Outcome Error Bytes
walk_extensions zero exts = no_fuel
walk_extensions (suc fuel) exts =
    if leb 4 (length exts)
    then read_extension exts >>= next_extension (walk_extensions fuel)
    else err no_server_name

-- `fmt.Errorf("...: %w", err)` around a vector's error
abbrev pub under : {A : Type 0} → (Error → Error) → Outcome Error A → Outcome Error A
under f (err e) = err (f e)
under f r = r

-- the four vectors behind the random
unfoldable pub read_vectors : Bytes → Outcome Error Bytes
read_vectors body = do
  sid ← under session_id (read_vec8 body)
  cs ← under cipher_suites (read_vec16 sid.1)
  cm ← under compression_methods (read_vec8 cs.1)
  exts ← under extensions (read_vec16 cm.1)
  ok exts.0

-- the handshake header, and the body of the ClientHello up to the session id
unfoldable pub open_hello : Bytes → Outcome Error Bytes
unfolding index slice slice_from
open_hello hello = do
  reject (ltb (length hello) 4) short_header
  msg_type ← index hello 0
  reject (not (msg_type == handshake_client_hello)) not_client_hello
  l1 ← index hello 1
  l2 ← index hello 2
  l3 ← index hello 3
  body ← slice_from hello 4
  reject (ltb (length body) (l1 * 65536 + l2 * 256 + l3)) body_truncated
  body' ← slice body 0 (l1 * 65536 + l2 * 256 + l3)
  reject (ltb (length body') 34) no_session_id
  slice_from body' 34

-- `parseClientHelloSNI`
unfoldable pub parse_client_hello_sni : Bytes → Outcome Error Bytes
parse_client_hello_sni hello = do
  body ← open_hello hello
  exts ← read_vectors body
  walk_extensions (suc (length exts)) exts

-- the record header: the length of the fragment
unfoldable pub fragment_len : Bytes → Outcome Error ℕ
unfolding index slice uint16
fragment_len header = do
  content_type ← index header 0
  reject (not (content_type == content_type_handshake)) not_handshake
  prefix ← slice header 3 5
  frag_len ← uint16 prefix
  reject (frag_len == 0) empty_fragment
  reject (ltb max_record_fragment frag_len) long_fragment
  ok frag_len

-- `SniffSNI`: the host, the bytes consumed, and the reader behind them
unfoldable pub sniff_sni : Bytes → Outcome Error (Bytes × Bytes × Bytes)
sniff_sni r = do
  header ← read_full read_header record_header_len r
  frag_len ← fragment_len header.0
  frag ← read_full read_fragment frag_len header.1
  hello ← slice_from (header.0 ++ frag.0) record_header_len
  host ← parse_client_hello_sni hello
  ok (host, header.0 ++ frag.0, frag.1)
