-- ===== src/Supervisor/Config/Processes.antt =====
-- internal/supervisor/config.go: the processes that `Validate` accepts.
use vsockd.Common.{
  ℕ, suc, ◌≡◌, ◌≢◌, refl, ap, ◌↔◌, ◌⊎◌, true, false, Option, none, some, List, [], ◌∷◌, map, arith,
  if◌then◌else◌, ◌==◌, ltz, gtz, Outcome, ok, err, panic, no_fuel, reject, >>=-eq-ok, reject-eq-ok,
  ok-injective, All,
}
use vsockd.Go.Strings.{Bytes, is_empty}
use vsockd.Go.Strings.Laws.{equal_iff}
use vsockd.Supervisor.Config

-- The defaults that `Validate` fills in.
abbrev pub fill_process : Config.Process → Config.Process
fill_process p = record p {
  restart = Config.or_default p.restart Config.restart_on_failure;
  on_failure = Config.or_default p.on_failure Config.on_failure_terminate;
}

abbrev pub fill_cid : ℕ → ℕ
fill_cid cid = if cid == 0 then Config.default_log_cid else cid

abbrev pub fill_buffer : Option Config.Buffer → Option Config.Buffer
fill_buffer none = some Config.default_buffer
fill_buffer (some b) = some b

abbrev pub fill : Config.Config → Config.Config
fill c = record c {
  log_cid = fill_cid c.log_cid;
  buffer = fill_buffer c.buffer;
  processes = map fill_process c.processes;
}

-- A policy as `Validate` leaves it.
pub record IsPolicy (p : Config.Process) : Type 0 where
  pub known_restart : Config.is_restart p.restart ≡ true
  pub known_on_failure : Config.is_on_failure p.on_failure ≡ true
  pub restarts : ltz p.max_restarts 0 ≡ false
  -- the crash-loop cap has a window wherever restarts can happen
  pub window :
      (p.restart ≡ Config.restart_no)
      ⊎ ((gtz p.max_restarts 0 ≡ false) ⊎ (gtz p.restart_window 0 ≡ true))

pub record IsProcess (p : Config.Process) : Type 0 where
  pub has_command : p.command ≢ []
  pub has_role : (p.role ≡ Config.role_task) ⊎ (p.role ≡ Config.role_sidecar)
  pub policy : IsPolicy p

abbrev fill_on_failure : Config.Process → Config.Process
fill_on_failure p = record p {
  on_failure = Config.or_default p.on_failure Config.on_failure_terminate;
}

check_policy_sound :
    (p q : Config.Process) → Config.check_policy p ≡ ok q → (q ≡ fill_on_failure p) × IsPolicy q
unfolding Config.check_policy
check_policy_sound p q e = ground (arith, equal_iff p.restart Config.restart_no)

check_policy_complete :
    (p : Config.Process)
    → IsPolicy (fill_on_failure p)
    → Config.check_policy p ≡ ok (fill_on_failure p)
unfolding Config.check_policy
check_policy_complete p h = ground (arith, equal_iff p.restart Config.restart_no)

check_role_iff :
    (r : Bytes)
    → (Config.check_role r ≡ ok tt) ↔ ((r ≡ Config.role_task) ⊎ (r ≡ Config.role_sidecar))
unfolding Config.check_role
check_role_iff r = ground (arith, equal_iff r Config.role_task, equal_iff r Config.role_sidecar)

abbrev fill_restart : Config.Process → Config.Process
fill_restart p = record p { restart = Config.or_default p.restart Config.restart_on_failure }

pub ne-nil-of-is_empty : (s : Bytes) → is_empty s ≡ false → s ≢ []
ne-nil-of-is_empty s e = ground arith

pub is_empty-of-ne-nil : (s : Bytes) → s ≢ [] → is_empty s ≡ false
is_empty-of-ne-nil s e = ground arith

validate_process_sound :
    (p q : Config.Process) → Config.validate_process p ≡ ok q → (q ≡ fill_process p) × IsProcess q
unfolding Config.validate_process
validate_process_sound p q e =
    let (_, command, e1) = >>=-eq-ok (reject (is_empty p.command) Config.empty_command) _ e in
    let (_, role, e2) = >>=-eq-ok (Config.check_role p.role) _ e1 in
    let (filled, policy) = check_policy_sound (fill_restart p) q e2 in
    (
      filled,
      record {
        has_command = rw filled (ne-nil-of-is_empty p.command (reject-eq-ok _ _ command));
        has_role = rw filled ((check_role_iff p.role).0 role);
        policy = policy;
      },
    )

validate_process_complete :
    (p : Config.Process)
    → IsProcess (fill_process p)
    → Config.validate_process p ≡ ok (fill_process p)
unfolding Config.validate_process
validate_process_complete p h =
    rw ((check_role_iff p.role).1 h.has_role)
      (ground (arith, h.has_command, check_policy_complete (fill_restart p) h.policy))

-- No name occurs twice, nor among those already seen.
abbrev pub Distinct : List Bytes → List Config.Process → Type 0
Distinct seen [] = Unit
Distinct seen (p ∷ ps) = (Config.contains seen p.name ≡ false) × Distinct (p.name ∷ seen) ps

abbrev pub IsNamed : Config.Process → Type 0
IsNamed p = (p.name ≢ []) × IsProcess p

wrap-eq-ok :
    (i : ℕ) (n : Bytes) (r : Outcome Config.Error Config.Process) {p : Config.Process}
    → Config.wrap i n r ≡ ok p
    → r ≡ ok p
wrap-eq-ok i n (ok p) e = e
wrap-eq-ok i n (err x) e = cc
wrap-eq-ok i n panic e = e
wrap-eq-ok i n no_fuel e = e

pub validate_processes_sound :
    (i : ℕ) (seen : List Bytes) (ps qs : List Config.Process)
    → Config.validate_processes i seen ps ≡ ok qs
    → (qs ≡ map fill_process ps) × All IsNamed qs × Distinct seen qs
unfolding Config.validate_processes
validate_processes_sound i seen [] qs e = rw (← ok-injective e) (refl, tt, tt)
validate_processes_sound i seen (p ∷ ps) qs e =
    let (_, named, e1) = >>=-eq-ok (reject (is_empty p.name) Config.empty_name) _ e in
    let (_, fresh, e2) =
      >>=-eq-ok (reject (Config.contains seen p.name) Config.duplicate_name) _ e1 in
    let (p', this, e3) = >>=-eq-ok (Config.wrap i p.name (Config.validate_process p)) _ e2 in
    let (ps', rest, e4) = >>=-eq-ok (Config.validate_processes (suc i) (p.name ∷ seen) ps) _ e3 in
    let (filled, good) = validate_process_sound p p' (wrap-eq-ok i p.name _ this) in
    let (filled', goods, distinct) = validate_processes_sound (suc i) (p.name ∷ seen) ps ps' rest in
    let n : p'.name ≡ p.name = ap (λ (x : Config.Process). x.name) filled in
    rw (← ok-injective e4) (
      rw (filled, filled') refl,
      ((rw n (ne-nil-of-is_empty p.name (reject-eq-ok _ _ named)), good), goods),
      (rw n (reject-eq-ok _ _ fresh), rw n distinct),
    )

pub validate_processes_complete :
    (i : ℕ) (seen : List Bytes) (ps : List Config.Process)
    → All IsNamed (map fill_process ps)
    → Distinct seen (map fill_process ps)
    → Config.validate_processes i seen ps ≡ ok (map fill_process ps)
unfolding Config.validate_processes
validate_processes_complete i seen [] a d = refl
validate_processes_complete i seen (p ∷ ps) a d = rw (
  is_empty-of-ne-nil p.name a.0.0,
  d.0,
  validate_process_complete p a.0.1,
  validate_processes_complete (suc i) (p.name ∷ seen) ps a.1 d.1,
)
