-- ===== src/Supervisor/Config/Accepts.antt =====
-- internal/supervisor/config.go: what `Validate` accepts, and what it returns.
use vsockd.Common.{
  ℕ, ◌≤◌, ◌<◌, ◌≡◌, ◌≢◌, refl, sym, ◌↔◌, ◌⊎◌, true, false, ◌||◌, Option, none, some, List, [], ◌∷◌,
  map, arith, leb, ◌==◌, ltz, gtz, ok, reject, >>=-eq-ok, reject-eq-ok, ok-injective, All,
}
use vsockd.Go.Strings.{Bytes, equal}
use vsockd.Supervisor.Config
use vsockd.Supervisor.Config.Processes.{
  fill_process, fill_cid, fill_buffer, fill, ne-nil-of-is_empty, is_empty-of-ne-nil, Distinct,
  IsNamed, validate_processes_sound, validate_processes_complete,
}

abbrev IsTag : Bytes × Bytes → Type 0
IsTag t = (t.0 ≢ []) × (t.1 ≢ [])

check_tags_iff : (tags : List (Bytes × Bytes)) → (Config.check_tags tags ≡ ok tt) ↔ All IsTag tags
unfolding Config.check_tags
check_tags_iff [] = (λ _. tt, λ _. refl)
check_tags_iff ((k, v) ∷ tags) = ground (
  arith,
  check_tags_iff tags,
  is_empty-of-ne-nil k,
  is_empty-of-ne-nil v,
  ne-nil-of-is_empty k,
  ne-nil-of-is_empty v,
)

-- At least one bound, and none negative.
pub record IsBounded (b : Config.Buffer) : Type 0 where
  pub bytes_ok : ltz b.max_bytes 0 ≡ false
  pub records_ok : ltz b.max_records 0 ≡ false
  pub bounded : (gtz b.max_bytes 0 ≡ true) ⊎ (gtz b.max_records 0 ≡ true)

validate_buffer_sound :
    (o : Option Config.Buffer) (b : Config.Buffer)
    → Config.validate_buffer o ≡ ok b
    → (fill_buffer o ≡ some b) × IsBounded b
unfolding Config.validate_buffer
validate_buffer_sound none b e = ground arith
validate_buffer_sound (some a) b e = ground arith

validate_buffer_complete :
    (o : Option Config.Buffer) (b : Config.Buffer)
    → fill_buffer o ≡ some b
    → IsBounded b
    → Config.validate_buffer o ≡ ok b
unfolding Config.validate_buffer
validate_buffer_complete none b e h = ground arith
validate_buffer_complete (some a) b e h = ground arith

validate_cid_iff : (cid n : ℕ) → (Config.validate_cid cid ≡ ok n) ↔ ((n ≡ fill_cid cid) × (3 ≤ n))
unfolding Config.validate_cid
validate_cid_iff cid n = ground arith

-- A configuration that the supervisor can run with.
pub record WellFormed (c : Config.Config) : Type 0 where
  pub port_pos : 0 < c.log_port
  pub port_bound : c.log_port < Config.vsock_port_any
  pub cid_bound : 3 ≤ c.log_cid
  pub tags_ok : All IsTag c.tags
  pub buffer_ok : (b : Config.Buffer) × (c.buffer ≡ some b) × IsBounded b
  pub processes_ok : All IsNamed c.processes
  pub distinct : Distinct [] c.processes

validate_sound : (c d : Config.Config) → Config.validate c ≡ ok d → (d ≡ fill c) × WellFormed d
unfolding Config.validate
validate_sound c d e =
    let (_, port, e1) =
      >>=-eq-ok
        (reject (c.log_port == 0 || leb Config.vsock_port_any c.log_port) Config.log_port_range) _
        e in
    let (cid, this, e2) = >>=-eq-ok (Config.validate_cid c.log_cid) _ e1 in
    let (_, tags, e3) = >>=-eq-ok (Config.check_tags c.tags) _ e2 in
    let (b, buffer, e4) = >>=-eq-ok (Config.validate_buffer c.buffer) _ e3 in
    let (ps, processes, e5) = >>=-eq-ok (Config.validate_processes 0 [] c.processes) _ e4 in
    let (filled, named, distinct) = validate_processes_sound 0 [] c.processes ps processes in
    let (eq, lo) = (validate_cid_iff c.log_cid cid).0 this in
    let (eb, bounded) = validate_buffer_sound c.buffer b buffer in
    let p = reject-eq-ok _ _ port in
    rw (← ok-injective e5) (
      rw (eb, filled, eq) refl,
      record {
        port_pos = ground arith;
        port_bound = ground arith;
        cid_bound = lo;
        tags_ok = (check_tags_iff c.tags).0 tags;
        buffer_ok = (b, refl, bounded);
        processes_ok = named;
        distinct = distinct;
      },
    )

port-ok :
    (p : ℕ) → 0 < p → p < Config.vsock_port_any → (p == 0 || leb Config.vsock_port_any p) ≡ false
port-ok p lo hi = ground arith

validate_complete : (c : Config.Config) → WellFormed (fill c) → Config.validate c ≡ ok (fill c)
unfolding Config.validate
validate_complete c w =
    let (b, eb, bounded) = w.buffer_ok in
    rw
      (
        port-ok c.log_port w.port_pos w.port_bound,
        (validate_cid_iff c.log_cid (fill_cid c.log_cid)).1 (refl, w.cid_bound),
        (check_tags_iff c.tags).1 w.tags_ok,
        validate_buffer_complete c.buffer b eb bounded,
        validate_processes_complete 0 [] c.processes w.processes_ok w.distinct,
      )
      (rw eb refl)

-- `Validate` accepts a configuration exactly when it is well-formed with the defaults filled in, and
-- what it then returns is the configuration with the defaults filled in.
pub validate_iff :
    (c d : Config.Config) → (Config.validate c ≡ ok d) ↔ ((d ≡ fill c) × WellFormed d)
validate_iff c d = (validate_sound c d, λ (e, w). rw e (validate_complete c (rw e at w)))

kept_restart :
    (r : Bytes) → Config.is_restart r ≡ true → Config.or_default r Config.restart_on_failure ≡ r
unfolding Config.is_restart equal
kept_restart [] e = cc
kept_restart (c ∷ cs) e = refl

kept_on_failure :
    (f : Bytes)
    → Config.is_on_failure f ≡ true
    → Config.or_default f Config.on_failure_terminate ≡ f
unfolding Config.is_on_failure equal
kept_on_failure [] e = cc
kept_on_failure (c ∷ cs) e = refl

kept_processes : (ps : List Config.Process) → All IsNamed ps → map fill_process ps ≡ ps
kept_processes [] a = refl
kept_processes (p ∷ ps) a = rw (
  kept_restart p.restart a.0.1.policy.known_restart,
  kept_on_failure p.on_failure a.0.1.policy.known_on_failure,
  kept_processes ps a.1,
)

fill_fixed : (c : Config.Config) → WellFormed c → fill c ≡ c
fill_fixed c w =
    let (b, eb, bounded) = w.buffer_ok in
    let cid : fill_cid c.log_cid ≡ c.log_cid = (ground (arith, w.cid_bound)) in
    let buf : fill_buffer c.buffer ≡ c.buffer = rw eb refl in
    rw (cid, buf, kept_processes c.processes w.processes_ok)

-- Validating what `Validate` returned changes nothing more.
pub validate_again : (c d : Config.Config) → Config.validate c ≡ ok d → Config.validate d ≡ ok d
validate_again c d e =
    let w = ((validate_iff c d).0 e).1 in (validate_iff d d).1 (sym (fill_fixed d w), w)
