-- ===== src/Supervisor/Manager/Shutdown.antt =====
-- internal/supervisor/manager.go: what happens once the shutdown has begun, and the exit code.
use mathlib.Core.List.{append-nil}
use vsockd.Common.{
  ℕ, zero, suc, ◌≡◌, refl, ap, ◌∙◌, true, false, Option, some, List, [], ◌∷◌, ◌++◌, if◌then◌else◌,
  set, get_elem?, arith, ℤ, Option-cases, Bool-cases, inl, inr,
}
use vsockd.Supervisor.Manager.{
  Manager, Proc, stopped, ExitEvent, is_running, running_count, handle_exit, receive, Input, cancel,
  exit, begin_shutdown, settle, is_over, run_loop, exit_effects,
}
use vsockd.Supervisor.Manager.Units.{set-set, running_count-set, starts, starts-append}

-- While shutting down, an exit is recorded and its unit stopped, and nothing else changes.
abbrev recorded : Manager → ℕ → Proc → ExitEvent → Manager
recorded m i u ev = record m {
  units = set m.units i (record u { kill_timer = false; state = stopped });
  effects = m.effects ++ exit_effects u ev;
}

handle_exit-shutting :
    (m : Manager) (i : ℕ) (u : Proc) (ev : ExitEvent) (now : ℕ) (o : Option ℕ)
    → m.shutting_down ≡ true
    → handle_exit m i u ev now o ≡ recorded m i u ev
unfolding handle_exit
handle_exit-shutting m i u ev now o h = rw (h, set-set, append-nil)

starts-exit_effects : (u : Proc) (ev : ExitEvent) → starts (exit_effects u ev) ≡ 0
unfolding exit_effects
starts-exit_effects u ev = ground arith

-- Once the shutdown has begun, whatever arrives, no process is started, the exit code stays, and the
-- shutdown goes on.
pub receive-shutting :
    (m : Manager) (e : Input)
    → m.shutting_down ≡ true
    → (starts (receive m e).effects ≡ starts m.effects)
      × ((receive m e).exit_code ≡ m.exit_code)
      × ((receive m e).shutting_down ≡ true)
unfolding receive
receive-shutting m cancel h = unfold begin_shutdown in ground arith
receive-shutting m (exit i ev now o) h = elim (Option-cases (get_elem? m.units i)) [
  | inl e ↦ rw e (refl, refl, h)
  | inr (u, e) ↦
      rw (e, handle_exit-shutting m i u ev now o h)
        (
          omega (arith, starts-append m.effects (exit_effects u ev), starts-exit_effects u ev),
          refl,
          h,
        )
]

settle-shutting : (m : Manager) → m.shutting_down ≡ true → settle m ≡ m
unfolding settle
settle-shutting m h = rw h refl

-- Among `inputs` there are `n` exits of processes that still run when they arrive.
abbrev pub Delivers : ℕ → Manager → List Input → Type 0
Delivers zero m inputs = Unit
Delivers (suc n) m [] = ⊥
Delivers (suc n) m (cancel ∷ inputs) = Delivers (suc n) m inputs
Delivers (suc n) m (exit i ev now o ∷ inputs) =
    (u : Proc) × (get_elem? m.units i ≡ some u)
    × (is_running u.state ≡ true)
    × Delivers n (receive m (exit i ev now o)) inputs

cancel-shutting : (m : Manager) → m.shutting_down ≡ true → receive m cancel ≡ m
unfolding receive begin_shutdown
cancel-shutting m h = rw h refl

-- The exit of a running process leaves one running process less.
running_count-exit :
    (m : Manager) (i : ℕ) (u : Proc) (ev : ExitEvent) (now : ℕ) (o : Option ℕ)
    → m.shutting_down ≡ true
    → get_elem? m.units i ≡ some u
    → is_running u.state ≡ true
    → suc (running_count (receive m (exit i ev now o)).units) ≡ running_count m.units
unfolding receive
running_count-exit m i u ev now o h e r =
    rw (e, handle_exit-shutting m i u ev now o h)
      (omega (
        arith,
        rw r at
            (running_count-set m.units i u (record u { kill_timer = false; state = stopped }) e),
      ))

run_loop-over :
    (m : Manager) (inputs : List Input)
    → m.shutting_down ≡ true
    → running_count m.units ≡ 0
    → run_loop m inputs ≡ some m.exit_code
unfolding run_loop
run_loop-over m [] h z = rw (settle-shutting m h, h, z) refl
run_loop-over m (e ∷ es) h z = rw (settle-shutting m h, h, z) refl

run_loop-step :
    (m : Manager) (e : Input) (es : List Input)
    → m.shutting_down ≡ true
    → (n : ℕ) → running_count m.units ≡ suc n
    → run_loop m (e ∷ es) ≡ run_loop (receive m e) es
unfolding run_loop
run_loop-step m e es h n z = rw (settle-shutting m h) (ground arith)

-- After the shutdown has begun, `Run` returns once each process that still runs has exited, with
-- the exit code that stood at the beginning, whatever else arrives.
pub run_loop-drains :
    (n : ℕ) (inputs : List Input) (m : Manager)
    → m.shutting_down ≡ true
    → running_count m.units ≡ n
    → Delivers n m inputs
    → run_loop m inputs ≡ some m.exit_code
run_loop-drains zero inputs m h z d = run_loop-over m inputs h z
run_loop-drains (suc n) [] m h z d = absurd d
run_loop-drains (suc n) (cancel ∷ es) m h z d =
    run_loop-step m cancel es h n z ∙ rw (cancel-shutting m h) (run_loop-drains (suc n) es m h z d)
run_loop-drains (suc n) (exit i ev now o ∷ es) m h z (u, e, r, d) =
    let m' = receive m (exit i ev now o) in
    let (_, code, h') = receive-shutting m (exit i ev now o) h in
    run_loop-step m (exit i ev now o) es h n z
    ∙ run_loop-drains n es m' h' (omega (arith, running_count-exit m i u ev now o h e r)) d
    ∙ ap some code

-- What `Run` returns after the shutdown has begun is the exit code that stood then.
pub run_loop-exit_code :
    (inputs : List Input) (m : Manager) (code : ℤ)
    → m.shutting_down ≡ true
    → run_loop m inputs ≡ some code
    → code ≡ m.exit_code
unfolding run_loop
run_loop-exit_code [] m code h r = ground (arith, settle-shutting m h)
run_loop-exit_code (e ∷ es) m code h r =
    let (_, same, h') = receive-shutting m e h in
    let r' : (if is_over m then some m.exit_code else run_loop (receive m e) es) ≡ some code =
      rw (settle-shutting m h) at r in
    elim (Bool-cases (is_over m)) [
      | inl over ↦ ground arith
      | inr waits ↦ run_loop-exit_code es (receive m e) code h' (rw waits at r') ∙ same
    ]
