-- ===== src/Tests/Manager.antt =====
-- internal/supervisor/manager.go on a task and a sidecar.
use vsockd.Common.{
  ℕ, ◌≡◌, refl, true, false, not, ◌&&◌, some, none, List, [], ◌∷◌, pos, arith, if◌then◌else◌,
}
use vsockd.Go.Strings.{bytes}
use vsockd.Supervisor.Config.{Process, role_task, restart_no, restart_always, on_failure_terminate}
use vsockd.Supervisor.Manager.{
  running, RestartBudget, Proc, ExitEvent, Manager, Input, cancel, exit, handle_exit, receive,
  run_loop,
}
use vsockd.Supervisor.Manager.Units.{starts}
use vsockd.Supervisor.Manager.Shutdown.{
  Delivers, receive-shutting, run_loop-drains, run_loop-exit_code,
}
use vsockd.Supervisor.Manager.ExitCode.{gives_up, counts, first_failure, exit_code-handle_exit}
use vsockd.Supervisor.Manager.Budget.{
  attempts, permitted_by, IsCapped, attempts-permitted_by, attempts-IsCapped,
}

abbrev budget : RestartBudget
budget = record { max = pos 2; window = pos 10; history = [] }

attempts-permitted_by_example :
    (attempts budget (1 ∷ 2 ∷ 3 ∷ 20 ∷ [])).1
    ≡ permitted_by (pos 2) (pos 10) [] (1 ∷ 2 ∷ 3 ∷ 20 ∷ [])
attempts-permitted_by_example =
    attempts-permitted_by (1 ∷ 2 ∷ 3 ∷ 20 ∷ []) 0 budget [] (λ later h. refl)
      (omega arith, (omega arith, (omega arith, (omega arith, tt))))

attempts-IsCapped_example : IsCapped 2 (pos 10) [] (attempts budget (1 ∷ 2 ∷ 3 ∷ 20 ∷ [])).1
attempts-IsCapped_example =
    attempts-IsCapped budget 2 (1 ∷ 2 ∷ 3 ∷ 20 ∷ []) refl refl
      (omega arith, (omega arith, (omega arith, (omega arith, tt))))

abbrev task : Process
task = record {
  name = bytes "task";
  command = bytes "/bin/task";
  args = [];
  role = role_task;
  restart = restart_no;
  max_restarts = pos 0;
  restart_window = pos 0;
  on_failure = on_failure_terminate;
}

abbrev unit_of : ℕ → Proc
unit_of pid = record {
  cfg = task;
  cmd = some pid;
  pid = pid;
  state = running;
  budget = budget;
  kill_timer = false;
}

-- two units that still run, after the shutdown has begun
abbrev ending : Manager
ending = record {
  units = unit_of 11 ∷ unit_of 12 ∷ [];
  shutting_down = true;
  exit_code = pos 3;
  has_tasks = true;
  effects = [];
}

abbrev exited : ℕ → ExitEvent
exited pid = record { pid = pid; code = pos 1; signal = []; real = true }

abbrev events : List Input
events = cancel ∷ exit 0 (exited 11) 5 none ∷ exit 1 (exited 12) 6 none ∷ []

receive-shutting_example :
    (starts (receive ending (exit 0 (exited 11) 5 none)).effects ≡ 0)
    × ((receive ending (exit 0 (exited 11) 5 none)).exit_code ≡ pos 3)
    × ((receive ending (exit 0 (exited 11) 5 none)).shutting_down ≡ true)
receive-shutting_example = receive-shutting ending (exit 0 (exited 11) 5 none) refl

events-Delivers : Delivers 2 ending events
unfolding receive handle_exit
events-Delivers = (unit_of 11, refl, refl, (unit_of 12, refl, refl, tt))

run_loop-drains_example : run_loop ending events ≡ some (pos 3)
run_loop-drains_example = run_loop-drains 2 events ending refl refl events-Delivers

run_loop-exit_code_example : pos 3 ≡ ending.exit_code
run_loop-exit_code_example =
    run_loop-exit_code events ending (pos 3) refl
      (run_loop-drains 2 events ending refl refl events-Delivers)

abbrev busy : Manager
busy = record ending { shutting_down = false; exit_code = pos 0 }

exit_code-handle_exit_example : (handle_exit busy 0 (unit_of 11) (exited 11) 5 none).exit_code ≡ (
    if not busy.shutting_down && gives_up (unit_of 11) (pos 1) 5 && counts (unit_of 11)
    then first_failure busy.exit_code (pos 1)
    else busy.exit_code)
exit_code-handle_exit_example = exit_code-handle_exit busy 0 (unit_of 11) (exited 11) 5 none

-- restart=always with no budget: the task exits with 0, and is given up
abbrev without_budget : Proc
without_budget = record (unit_of 11) {
  cfg = record task { restart = restart_always };
  budget = record { max = pos 0; window = pos 10; history = [] };
}

abbrev alone : Manager
alone = record busy { units = without_budget ∷ [] }

abbrev succeeded : ExitEvent
succeeded = record (exited 11) { code = pos 0 }

give_up_of_success :
    (gives_up without_budget (pos 0) 5 ≡ true)
    × ((handle_exit alone 0 without_budget succeeded 5 none).shutting_down ≡ true)
    × ((handle_exit alone 0 without_budget succeeded 5 none).exit_code ≡ pos 0)
unfolding handle_exit vsockd.Go.Strings.equal vsockd.Supervisor.Manager.allow
give_up_of_success = (refl, refl, refl)
