-- ===== src/Supervisor/Manager/ExitCode.antt =====
-- internal/supervisor/manager.go: `handleExit`, `applyOnFailure` and `setExitCode` together: which
-- exits fail the supervisor, and which of them gives its exit code.
use vsockd.Common.{ℕ, ◌≡◌, Bool, not, ◌&&◌, ◌||◌, Option, if◌then◌else◌, arith, ℤ, eqz}
use vsockd.Go.Strings.{equal}
use vsockd.Supervisor.Config.{on_failure_continue}
use vsockd.Supervisor.Manager.{
  Manager, Proc, ExitEvent, handle_exit, begin_shutdown, allow, warrants_restart, is_task,
}

-- The exit is one after which the process is given up: it failed and is not restarted, or its
-- restart budget is used up.
abbrev pub gives_up : Proc → ℤ → ℕ → Bool
gives_up u code now =
    if warrants_restart u.cfg.restart code then not (allow u.budget now).1 else not (eqz code 0)

-- The give-up counts against the supervisor: always under on_failure=terminate, and for a task under
-- on_failure=continue.
abbrev pub counts : Proc → Bool
counts u = not (equal u.cfg.on_failure on_failure_continue) || is_task u.cfg

-- the first code that is not zero
abbrev pub first_failure : ℤ → ℤ → ℤ
first_failure old new = if eqz old 0 && not (eqz new 0) then new else old

exit_code-begin_shutdown : (m : Manager) → (begin_shutdown m).exit_code ≡ m.exit_code
unfolding begin_shutdown
exit_code-begin_shutdown m = ground arith

-- An exit changes the supervisor's exit code only if it comes before the shutdown, the process is
-- then given up and this counts, and only to the first code that is not zero. So a process that exits
-- with 0 under restart=always when its budget is used up leaves the code as it is, 0 where nothing failed
-- before, although it is given up.
pub exit_code-handle_exit :
    (m : Manager) (i : ℕ) (u : Proc) (ev : ExitEvent) (now : ℕ) (o : Option ℕ)
    → (handle_exit m i u ev now o).exit_code ≡ (
        if not m.shutting_down && gives_up u ev.code now && counts u
        then first_failure m.exit_code ev.code
        else m.exit_code)
unfolding handle_exit
exit_code-handle_exit m i u ev now o = ground arith
