-- ===== src/Supervisor/Manager/Units.antt =====
-- internal/supervisor/manager.go: the unit list under an update, and what each effect means.
use vsockd.Common.{
  ℕ, zero, suc, ◌+◌, ◌≡◌, refl, ap, some, List, [], ◌∷◌, ◌++◌, if◌then◌else◌, set, get_elem?, arith,
}
use vsockd.Supervisor.Manager.{
  Proc, Effect, start_record, exit_record, reaper, start_failed, sigterm, is_running, running_count,
  terminate_all, signals,
}

module _ {ℓ} {A : Type ℓ} where
  pub set-set : (xs : List A) (i : ℕ) (a b : A) → set (set xs i a) i b ≡ set xs i b
  set-set [] i a b = refl
  set-set (x ∷ xs) zero a b = refl
  set-set (x ∷ xs) (suc i) a b = ap (◌∷◌ x) (set-set xs i a b)

pub running_count-set :
    (us : List Proc) (i : ℕ) (u v : Proc)
    → get_elem? us i ≡ some u
    → running_count (set us i v) + (if is_running u.state then 1 else 0)
      ≡ running_count us + (if is_running v.state then 1 else 0)
running_count-set [] i u v e = cc
running_count-set (x ∷ us) zero u v e = ground arith
running_count-set (x ∷ us) (suc i) u v e = omega (arith, running_count-set us i u v e)

-- how many processes the effects start, or try to
abbrev pub starts : List Effect → ℕ
starts [] = 0
starts (start_record n p ∷ es) = suc (starts es)
starts (start_failed ∷ es) = suc (starts es)
starts (exit_record n p c s ∷ es) = starts es
starts (reaper p ∷ es) = starts es
starts (sigterm p ∷ es) = starts es

pub starts-append : (xs ys : List Effect) → starts (xs ++ ys) ≡ starts xs + starts ys
starts-append [] ys = omega arith
starts-append (start_record n p ∷ xs) ys = omega (arith, starts-append xs ys)
starts-append (start_failed ∷ xs) ys = omega (arith, starts-append xs ys)
starts-append (exit_record n p c s ∷ xs) ys = starts-append xs ys
starts-append (reaper p ∷ xs) ys = starts-append xs ys
starts-append (sigterm p ∷ xs) ys = starts-append xs ys

running_count-terminate_all : (us : List Proc) → running_count (terminate_all us) ≡ running_count us
unfolding terminate_all
running_count-terminate_all [] = refl
running_count-terminate_all (u ∷ us) = ground (arith, running_count-terminate_all us)

starts-signals : (us : List Proc) → starts (signals us) ≡ 0
unfolding signals
starts-signals [] = refl
starts-signals (u ∷ us) = ground (arith, starts-signals us)
