-- ===== src/Supervisor/Config.antt =====
-- internal/supervisor/config.go: `Config` and `Validate`. Strings are bytes, a pointer is an option,
-- a map of tags is the list of its entries in the order of the iteration, and `Validate`, which fills
-- in defaults in place, returns the new value. An error names the message.
pub mod Processes
pub mod Accepts
use vsockd.Common.{
  ℕ, zero, suc, ◌+◌, ◌*◌, ◌^◌, Bool, true, false, not, ◌&&◌, ◌||◌, Option, none, some, List, [],
  ◌∷◌, if◌then◌else◌, ltb, leb, ◌==◌, ℤ, pos, negsuc, ltz, lez, gtz, eqz, Outcome, ok, err, ◌>>=◌,
  ◌>>◌, reject,
}
use vsockd.Go.Strings.{Bytes, bytes, equal, is_empty}

abbrev pub role_task : Bytes
role_task = bytes "task"

abbrev pub role_sidecar : Bytes
role_sidecar = bytes "sidecar"

abbrev pub restart_no : Bytes
restart_no = bytes "no"

abbrev pub restart_on_failure : Bytes
restart_on_failure = bytes "on-failure"

abbrev pub restart_always : Bytes
restart_always = bytes "always"

abbrev pub on_failure_terminate : Bytes
on_failure_terminate = bytes "terminate"

abbrev pub on_failure_continue : Bytes
on_failure_continue = bytes "continue"

abbrev pub default_log_cid : ℕ
default_log_cid = 3

abbrev pub min_cid : ℕ
min_cid = 3

abbrev pub vsock_port_any : ℕ
vsock_port_any = 0xFFFFFFFF

pub record Buffer : Type 0 where
  pub max_bytes : ℤ
  pub max_records : ℤ

abbrev pub default_buffer : Buffer
default_buffer = record { max_bytes = pos (8 * 2 ^ 20); max_records = pos 10000 }

pub record Process : Type 0 where
  pub name : Bytes
  pub command : Bytes
  pub args : List Bytes
  pub role : Bytes
  pub restart : Bytes
  pub max_restarts : ℤ
  pub restart_window : ℤ
  pub on_failure : Bytes

pub record Config : Type 0 where
  pub log_port : ℕ
  pub log_cid : ℕ
  pub tags : List (Bytes × Bytes)
  pub buffer : Option Buffer
  pub processes : List Process

pub data Error : Type 0 where
  log_port_range log_cid_reserved empty_tag_key empty_tag_value : Error
  negative_max_bytes negative_max_records unbounded_buffer : Error
  empty_name duplicate_name empty_command no_role bad_role bad_restart bad_on_failure : Error
  negative_max_restarts no_restart_window : Error
  at_process : ℕ → Bytes → Error → Error

-- the switch on `p.Role`
unfoldable pub check_role : Bytes → Outcome Error (Unit {0})
check_role role =
    if equal role role_task || equal role role_sidecar
    then ok tt
    else if is_empty role
    then err no_role
    else err bad_role

unfoldable pub is_restart : Bytes → Bool
is_restart r = equal r restart_no || equal r restart_on_failure || equal r restart_always

unfoldable pub is_on_failure : Bytes → Bool
is_on_failure f = equal f on_failure_terminate || equal f on_failure_continue

abbrev pub or_default : Bytes → Bytes → Bytes
or_default s d = if is_empty s then d else s

-- the rest of `Process.validate`, behind the defaults
unfoldable pub check_policy : Process → Outcome Error Process
check_policy p = do
  reject (not (is_restart p.restart)) bad_restart
  reject (not (is_on_failure (or_default p.on_failure on_failure_terminate))) bad_on_failure
  reject (ltz p.max_restarts 0) negative_max_restarts
  reject (not (equal p.restart restart_no) && gtz p.max_restarts 0 && lez p.restart_window 0)
      no_restart_window
  ok (record p { on_failure = or_default p.on_failure on_failure_terminate })

-- `Process.validate`
unfoldable pub validate_process : Process → Outcome Error Process
unfolding check_role check_policy
validate_process p = do
  reject (is_empty p.command) empty_command
  check_role p.role
  check_policy (record p { restart = or_default p.restart restart_on_failure })

-- the loop over `c.Tags`
unfoldable pub check_tags : List (Bytes × Bytes) → Outcome Error (Unit {0})
check_tags [] = ok tt
check_tags ((k, v) ∷ tags) = do
  reject (is_empty k) empty_tag_key
  reject (is_empty v) empty_tag_value
  check_tags tags

-- `validateBuffer`
unfoldable pub validate_buffer : Option Buffer → Outcome Error Buffer
validate_buffer none = ok default_buffer
validate_buffer (some b) = do
  reject (ltz b.max_bytes 0) negative_max_bytes
  reject (ltz b.max_records 0) negative_max_records
  reject (eqz b.max_bytes 0 && eqz b.max_records 0) unbounded_buffer
  ok b

unfoldable pub contains : List Bytes → Bytes → Bool
contains [] name = false
contains (x ∷ xs) name = equal x name || contains xs name

abbrev pub wrap : ℕ → Bytes → Outcome Error Process → Outcome Error Process
wrap i name (err e) = err (at_process i name e)
wrap i name r = r

-- the loop over `c.Processes`, from index `i`
unfoldable pub validate_processes : ℕ → List Bytes → List Process → Outcome Error (List Process)
unfolding validate_process contains
validate_processes i seen [] = ok []
validate_processes i seen (p ∷ ps) = do
  reject (is_empty p.name) empty_name
  reject (contains seen p.name) duplicate_name
  p' ← wrap i p.name (validate_process p)
  ps' ← validate_processes (suc i) (p.name ∷ seen) ps
  ok (p' ∷ ps')

-- the checks on `log_cid`, with its default
unfoldable pub validate_cid : ℕ → Outcome Error ℕ
validate_cid cid =
    if cid == 0
    then ok default_log_cid
    else if ltb cid min_cid
    then err log_cid_reserved
    else ok cid

-- `Config.Validate`
unfoldable pub validate : Config → Outcome Error Config
unfolding validate_cid check_tags validate_buffer validate_processes
validate c = do
  reject (c.log_port == 0 || leb vsock_port_any c.log_port) log_port_range
  cid ← validate_cid c.log_cid
  check_tags c.tags
  b ← validate_buffer c.buffer
  ps ← validate_processes 0 [] c.processes
  ok (record c { log_cid = cid; buffer = some b; processes = ps })
