-- ===== src/Supervisor/Manager.antt =====
-- internal/supervisor/manager.go: `Manager`. The run loop is one goroutine, so its state is a record
-- that each function returns anew. What it does to the world is kept as a list of effects, and what
-- the world decides comes in: the outcome of starting a process, the clock, and the exit events. An
-- event names its unit by its index.
pub mod Budget
pub mod Units
pub mod Shutdown
pub mod ExitCode
use vsockd.Common.{
  ℕ, zero, suc, ◌+◌, Bool, true, false, not, ◌&&◌, ◌||◌, Option, none, some, List, [], ◌∷◌, ◌++◌,
  map, if◌then◌else◌, ltb, ◌==◌, length, set, get_elem?, ℤ, pos, negsuc, gtz, lez, eqz,
}
use vsockd.Go.Strings.{Bytes, equal}
use vsockd.Supervisor.Config.{
  Process, role_task, restart_always, restart_on_failure, on_failure_continue,
}

-- `procState`
pub data ProcState : Type 0 where
  running finished abandoned stopped : ProcState

-- `restartBudget`; an instant is a count of nanoseconds
pub record RestartBudget : Type 0 where
  pub max : ℤ
  pub window : ℤ
  pub history : List ℕ

-- `t.After(now.Add(-window))`
abbrev pub recent : ℕ → ℕ → ℕ → Bool
recent w now t = ltb now (t + w)

abbrev pub keep_recent : ℕ → ℕ → List ℕ → List ℕ
keep_recent w now [] = []
keep_recent w now (t ∷ ts) =
    let kept = keep_recent w now ts in if recent w now t then t ∷ kept else kept

unfoldable pub prune : ℤ → ℕ → List ℕ → List ℕ
prune (pos w) now ts = if w == 0 then ts else keep_recent w now ts
prune (negsuc _) now ts = ts

-- `allow`
unfoldable pub allow : RestartBudget → ℕ → RestartBudget × Bool
unfolding prune
allow b now =
    let kept = prune b.window now b.history in
    if lez b.max (length kept)
    then (record b { history = kept }, false)
    else (record b { history = kept ++ now ∷ [] }, true)

-- `unit`; `cmd` is the process of the last start that succeeded
pub record Proc : Type 0 where
  pub cfg : Process
  pub cmd : Option ℕ
  pub pid : ℕ
  pub state : ProcState
  pub budget : RestartBudget
  pub kill_timer : Bool

-- `exitEvent`, but for its unit
pub record ExitEvent : Type 0 where
  pub pid : ℕ
  pub code : ℤ
  pub signal : Bytes
  pub real : Bool

pub data Effect : Type 0 where
  start_record : Bytes → ℕ → Effect
  exit_record : Bytes → ℕ → ℤ → Bytes → Effect
  reaper : ℕ → Effect
  start_failed : Effect
  sigterm : ℕ → Effect

pub record Manager : Type 0 where
  pub units : List Proc
  pub shutting_down : Bool
  pub exit_code : ℤ
  pub has_tasks : Bool
  pub effects : List Effect

unfoldable pub is_task : Process → Bool
is_task p = equal p.role role_task

new_unit : Process → Proc
new_unit p = record {
  cfg = p;
  cmd = none;
  pid = 0;
  state = running;
  budget = record { max = p.max_restarts; window = p.restart_window; history = [] };
  kill_timer = false;
}

unfoldable any_task : List Process → Bool
unfolding is_task
any_task [] = false
any_task (p ∷ ps) = is_task p || any_task ps

-- `NewManager`
unfoldable new_manager : List Process → Manager
unfolding new_unit any_task
new_manager ps = record {
  units = map new_unit ps;
  shutting_down = false;
  exit_code = pos 0;
  has_tasks = any_task ps;
  effects = [];
}

-- `spawn`: the process starts under a pid, or the pipes or the start fail, which comes back as a
-- synthetic exit event
unfoldable spawn : Proc → Option ℕ → Proc × List Effect
spawn u (some pid) = (
  record u { state = running; cmd = some pid; pid = pid },
  start_record u.cfg.name pid ∷ reaper pid ∷ [],
)
spawn u none = (record u { state = running }, start_failed ∷ [])

-- `warrantsRestart`
unfoldable pub warrants_restart : Bytes → ℤ → Bool
warrants_restart policy code =
    if equal policy restart_always
    then true
    else if equal policy restart_on_failure
    then not (eqz code 0)
    else false

abbrev pub is_running : ProcState → Bool
is_running running = true
is_running _ = false

abbrev update : Manager → ℕ → Proc → List Effect → Manager
update m i u es = record m { units = set m.units i u; effects = m.effects ++ es }

-- whether `beginShutdown` signals the unit
abbrev has_process : Option ℕ → Bool
has_process none = false
has_process (some _) = true

terminate : Proc → Proc
terminate u = if is_running u.state && has_process u.cmd then record u { kill_timer = true } else u

signal_of : Bool → Option ℕ → List Effect
signal_of true (some pid) = sigterm pid ∷ []
signal_of _ _ = []

unfoldable pub terminate_all : List Proc → List Proc
unfolding terminate
terminate_all [] = []
terminate_all (u ∷ us) = terminate u ∷ terminate_all us

unfoldable pub signals : List Proc → List Effect
unfolding signal_of
signals [] = []
signals (u ∷ us) = signal_of (is_running u.state) u.cmd ++ signals us

-- `beginShutdown`
unfoldable pub begin_shutdown : Manager → Manager
unfolding terminate_all signals
begin_shutdown m = if m.shutting_down then m else record m {
  shutting_down = true;
  units = terminate_all m.units;
  effects = m.effects ++ signals m.units;
}

-- `setExitCode`
unfoldable set_exit_code : Manager → ℤ → Manager
set_exit_code m code =
    if eqz m.exit_code 0 && not (eqz code 0) then record m { exit_code = code } else m

-- `applyOnFailure`
unfoldable apply_on_failure : Manager → ℕ → Proc → ℤ → Manager
unfolding begin_shutdown set_exit_code
apply_on_failure m i u code =
    if equal u.cfg.on_failure on_failure_continue
    then (if is_task u.cfg
        then set_exit_code (update m i (record u { state = abandoned }) []) code
        else update m i (record u { state = stopped }) [])
    else begin_shutdown (set_exit_code (update m i (record u { state = stopped }) []) code)

unfoldable pub exit_effects : Proc → ExitEvent → List Effect
exit_effects u ev = if ev.real then exit_record u.cfg.name ev.pid ev.code ev.signal ∷ [] else []

-- a restart that the budget allows, or else the give-up
try_restart : Manager → ℕ → Proc → ℤ → RestartBudget × Bool → Option ℕ → Manager
unfolding spawn apply_on_failure
try_restart m i u code (b, true) outcome =
    let (u', es) = spawn (record u { budget = b }) outcome in update m i u' es
try_restart m i u code (b, false) outcome =
    apply_on_failure (update m i (record u { budget = b }) []) i (record u { budget = b }) code

-- `handleExit` of the unit `u`, which stands at index `i`, at the time `now`; `outcome` is that of a
-- restart, if there is one
unfoldable pub handle_exit : Manager → ℕ → Proc → ExitEvent → ℕ → Option ℕ → Manager
unfolding exit_effects warrants_restart try_restart
handle_exit m i u ev now outcome =
    let u' = record u { kill_timer = false } in
    let m' = update m i u' (exit_effects u ev) in
    if m.shutting_down
    then update m' i (record u' { state = stopped }) []
    else if warrants_restart u.cfg.restart ev.code
    then try_restart m' i u' ev.code (allow u'.budget now) outcome
    else if eqz ev.code 0
    then update m' i (record u' { state = if is_task u.cfg then finished else stopped }) []
    else apply_on_failure m' i u' ev.code

-- `allTasksTerminal`
unfoldable all_tasks_terminal : List Proc → Bool
all_tasks_terminal [] = true
all_tasks_terminal (u ∷ us) = not (is_task u.cfg && is_running u.state) && all_tasks_terminal us

-- `runningCount`
abbrev pub running_count : List Proc → ℕ
running_count [] = 0
running_count (u ∷ us) = (if is_running u.state then 1 else 0) + running_count us

-- the first test of the loop of `Run`
unfoldable pub settle : Manager → Manager
unfolding begin_shutdown all_tasks_terminal
settle m =
    if not m.shutting_down && m.has_tasks && all_tasks_terminal m.units then begin_shutdown m else m

-- What the `select` of `Run` receives.
pub data Input : Type 0 where
  cancel : Input
  exit : ℕ → ExitEvent → ℕ → Option ℕ → Input

exit_at : Manager → ℕ → ExitEvent → ℕ → Option ℕ → Option Proc → Manager
unfolding handle_exit
exit_at m i ev now outcome none = m
exit_at m i ev now outcome (some u) = handle_exit m i u ev now outcome

-- one branch of the `select`
unfoldable pub receive : Manager → Input → Manager
unfolding exit_at begin_shutdown
receive m cancel = begin_shutdown m
receive m (exit i ev now outcome) = exit_at m i ev now outcome (get_elem? m.units i)

abbrev pub is_over : Manager → Bool
is_over m = m.shutting_down && running_count m.units == 0

-- the loop of `Run` over the inputs that arrive; `none` while it waits for more
unfoldable pub run_loop : Manager → List Input → Option ℤ
unfolding settle receive
run_loop m [] = if is_over (settle m) then some (settle m).exit_code else none
run_loop m (e ∷ es) =
    let rest = run_loop (receive (settle m) e) es in
    if is_over (settle m) then some (settle m).exit_code else rest

-- the first loop of `Run`, over the outcomes of the starts
unfoldable spawn_all : List Proc → List (Option ℕ) → List Proc × List Effect
unfolding spawn
spawn_all [] outcomes = ([], [])
spawn_all (u ∷ us) [] =
    let (us', es') = spawn_all us [] in let (u', es) = spawn u none in (u' ∷ us', es ++ es')
spawn_all (u ∷ us) (o ∷ outcomes) =
    let (us', es') = spawn_all us outcomes in let (u', es) = spawn u o in (u' ∷ us', es ++ es')

-- `Run`
unfoldable run : Manager → List (Option ℕ) → List Input → Option ℤ
unfolding spawn_all run_loop
run m outcomes inputs =
    let (us, es) = spawn_all m.units outcomes in
    run_loop (record m { units = us; effects = m.effects ++ es }) inputs
