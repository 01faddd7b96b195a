-- ===== src/Supervisor/Manager/Budget.antt =====
-- internal/supervisor/manager.go: the windowed crash-loop budget.
use vsockd.Common.{
  ℕ, ◌+◌, ◌≤◌, ◌<◌, ◌≡◌, refl, ap, ◌∙◌, false, List, [], ◌∷◌, ◌++◌, if◌then◌else◌, ◌==◌, length, ℤ,
  pos, negsuc, lez, arith, length-append, Bool-cases, inl, inr,
}
use vsockd.Supervisor.Manager.{RestartBudget, recent, keep_recent, prune, allow}

-- how many of the instants `ts` lie in the window that ends at `now`
abbrev count_recent : ℕ → ℕ → List ℕ → ℕ
count_recent w now [] = 0
count_recent w now (t ∷ ts) = (if recent w now t then 1 else 0) + count_recent w now ts

length-keep_recent :
    (w now : ℕ) (ts : List ℕ) → length (keep_recent w now ts) ≡ count_recent w now ts
length-keep_recent w now [] = refl
length-keep_recent w now (t ∷ ts) = ground (arith, length-keep_recent w now ts)

count_recent-append :
    (w now : ℕ) (xs ys : List ℕ)
    → count_recent w now (xs ++ ys) ≡ count_recent w now xs + count_recent w now ys
count_recent-append w now [] ys = omega arith
count_recent-append w now (x ∷ xs) ys = omega (arith, count_recent-append w now xs ys)

-- What is pruned at an earlier time is not recent later.
count_recent-keep_recent :
    (w now later : ℕ) (ts : List ℕ)
    → now ≤ later
    → count_recent w later (keep_recent w now ts) ≡ count_recent w later ts
count_recent-keep_recent w now later [] h = refl
count_recent-keep_recent w now later (t ∷ ts) h =
    ground (arith, count_recent-keep_recent w now later ts h)

-- the same for any window: one that is not positive never ends
abbrev count_in : ℤ → ℕ → List ℕ → ℕ
count_in (pos w) now ts = if w == 0 then length ts else count_recent w now ts
count_in (negsuc _) now ts = length ts

length-prune : (w : ℤ) (now : ℕ) (ts : List ℕ) → length (prune w now ts) ≡ count_in w now ts
unfolding prune
length-prune (pos w) now ts = ground (arith, length-keep_recent w now ts)
length-prune (negsuc w) now ts = refl

count_in-prune :
    (w : ℤ) (now later : ℕ) (ts : List ℕ)
    → now ≤ later
    → count_in w later (prune w now ts) ≡ count_in w later ts
unfolding prune
count_in-prune (pos w) now later ts h = ground (arith, count_recent-keep_recent w now later ts h)
count_in-prune (negsuc w) now later ts h = refl

count_in-append :
    (w : ℤ) (now : ℕ) (xs ys : List ℕ)
    → count_in w now (xs ++ ys) ≡ count_in w now xs + count_in w now ys
count_in-append (pos w) now xs ys =
    ground (arith, count_recent-append w now xs ys, length-append xs ys)
count_in-append (negsuc w) now xs ys = length-append xs ys

-- The budget over attempts at `times`: it, and the instants of the restarts that it permits.
unfoldable pub attempts : RestartBudget → List ℕ → RestartBudget × List ℕ
attempts b [] = (b, [])
attempts b (now ∷ times) =
    let (b', good) = allow b now in
    let (b'', permitted) = attempts b' times in (b'', (if good then now ∷ permitted else permitted))

-- The rule: with `past` the instants of all earlier restarts, none ever forgotten, an attempt is
-- permitted when fewer than `max` of them lie in the window.
unfoldable pub permitted_by : ℤ → ℤ → List ℕ → List ℕ → List ℕ
permitted_by max w past [] = []
permitted_by max w past (now ∷ times) =
    let granted = now ∷ permitted_by max w (past ++ now ∷ []) times in
    let refused = permitted_by max w past times in
    if lez max (count_in w now past) then refused else granted

-- Each instant is no earlier than the one before.
abbrev Ascending : ℕ → List ℕ → Type 0
Ascending start [] = Unit
Ascending start (t ∷ ts) = (start ≤ t) × Ascending t ts

-- what the pruned history and the full one have in common from `start` on
abbrev Agrees : ℤ → ℕ → List ℕ → List ℕ → Type 0
Agrees w start history past =
    (later : ℕ) → start ≤ later → count_in w later history ≡ count_in w later past

Agrees-prune :
    (w : ℤ) (start now : ℕ) (history past : List ℕ)
    → start ≤ now
    → Agrees w start history past
    → Agrees w now (prune w now history) past
Agrees-prune w start now history past h a later g =
    count_in-prune w now later history g ∙ a later (omega arith)

Agrees-concat :
    (w : ℤ) (now : ℕ) (history past : List ℕ)
    → Agrees w now history past
    → Agrees w now (history ++ now ∷ []) (past ++ now ∷ [])
Agrees-concat w now history past a later g = omega (
  arith,
  a later g,
  count_in-append w later history (now ∷ []),
  count_in-append w later past (now ∷ []),
)

-- However the history is pruned, `allow` decides a series of attempts at times that do not go back
-- as the rule does that forgets no restart: a restart is permitted when fewer than `max` lie in the
-- window before it.
pub attempts-permitted_by :
    (times : List ℕ) (start : ℕ) (b : RestartBudget) (past : List ℕ)
    → Agrees b.window start b.history past
    → Ascending start times
    → (attempts b times).1 ≡ permitted_by b.max b.window past times
unfolding attempts permitted_by allow
attempts-permitted_by [] start b past a asc = refl
attempts-permitted_by (now ∷ times) start b past a asc =
    let kept = prune b.window now b.history in
    let same = Agrees-prune b.window start now b.history past asc.0 a in
    let n : length kept ≡ count_in b.window now past =
      length-prune b.window now b.history ∙ a now asc.0 in
    elim (Bool-cases (lez b.max (count_in b.window now past))) [
      | inl full ↦
          rw (n, full)
            (attempts-permitted_by times now (record b { history = kept }) past same asc.1)
      | inr free ↦
          rw (n, free)
            (ap (◌∷◌ now) (
              attempts-permitted_by times now (record b { history = kept ++ now ∷ [] })
                (past ++ now ∷ []) (Agrees-concat b.window now kept past same) asc.1))
    ]

-- At each restart, those in the window that ends there are at most `k`, itself among them.
abbrev pub IsCapped : ℕ → ℤ → List ℕ → List ℕ → Type 0
IsCapped k w past [] = Unit
IsCapped k w past (t ∷ ts) = (count_in w t (past ++ t ∷ []) ≤ k) × IsCapped k w (past ++ t ∷ []) ts

count_in-one : (w : ℤ) (now : ℕ) → count_in w now (now ∷ []) ≤ 1
count_in-one (pos w) now = ground arith
count_in-one (negsuc w) now = omega arith

lez-false : (k n : ℕ) → lez (pos k) n ≡ false → n < k
lez-false k n e = ground arith

permitted_by-IsCapped :
    (k : ℕ) (w : ℤ) (past times : List ℕ) → IsCapped k w past (permitted_by (pos k) w past times)
unfolding permitted_by
permitted_by-IsCapped k w past [] = tt
permitted_by-IsCapped k w past (now ∷ times) =
    elim (Bool-cases (lez (pos k) (count_in w now past))) [
      | inl full ↦ rw full (permitted_by-IsCapped k w past times)
      | inr free ↦ rw free (
        omega
            (arith, count_in-append w now past (now ∷ []), count_in-one w now, lez-false k _ free),
        permitted_by-IsCapped k w (past ++ now ∷ []) times,
      )
    ]

-- A crash loop is bounded: of the restarts that a budget of `k` with an empty history permits over
-- attempts at times that do not go back, at most `k` lie in any window that ends at one of them.
pub attempts-IsCapped :
    (b : RestartBudget) (k : ℕ) (times : List ℕ)
    → b.max ≡ pos k
    → b.history ≡ []
    → Ascending 0 times
    → IsCapped k b.window [] (attempts b times).1
attempts-IsCapped b k times m h asc =
    rw (attempts-permitted_by times 0 b [] (λ later g. rw h refl) asc, m)
      (permitted_by-IsCapped k b.window [] times)
