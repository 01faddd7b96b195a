-- ===== src/Supervisor/Shipper/Backoff.antt =====
-- internal/supervisor/shipper.go: the defaults of `NewShipper` and the bounded exponential backoff.
use native.Mathlib.Decide.{dec_le}
use native.Mathlib.Nat.{pow-suc}
use vsockd.Common.{
  ℕ, zero, suc, ◌*◌, ◌^◌, ◌≤◌, ◌<◌, ◌≡◌, refl, min, ◌⊎◌, inl, inr, ap, ◌∙◌, Bool, true, false, List,
  [], ◌∷◌, arith, ℤ, pos, gt_int,
}
use vsockd.Supervisor.Shipper.{ShipperConfig, with_defaults, next_backoff, backoff_after}

-- The filled-in timing: positive, and ordered.
pub record IsTimed (c : ShipperConfig) : Type 0 where
  pub min_pos : gt_int c.min_backoff (pos 0) ≡ true
  pub ordered : gt_int c.min_backoff c.max_backoff ≡ false
  pub drain_pos : gt_int c.drain_interval (pos 0) ≡ true

-- Whatever timing `NewShipper` is given, the shipper's own has a positive minimal backoff, a maximal
-- one that is no smaller, and a positive drain interval.
pub with_defaults-IsTimed : (c : ShipperConfig) → IsTimed (with_defaults c)
unfolding with_defaults
with_defaults-IsTimed c = ground arith

abbrev pub failures : ℕ → List Bool
failures zero = []
failures (suc k) = false ∷ failures k

next_backoff-doubles :
    (c : ShipperConfig) (mx n : ℕ)
    → c.max_backoff ≡ pos mx
    → mx < 2 ^ 62
    → 0 < n
    → n ≤ mx
    → next_backoff c (pos n) ≡ pos (min (n * 2) mx)
unfolding next_backoff
next_backoff-doubles c mx n e big p h = ground arith

pow_pos : (k : ℕ) → 1 ≤ 2 ^ k
pow_pos zero = omega arith
pow_pos (suc k) = omega (arith, pow-suc 2 k, pow_pos k)

le-mul : (a p : ℕ) → 1 ≤ p → a ≤ a * p
le-mul a p h = grind arith

mul_mono : (a b p : ℕ) → a ≤ b → a * p ≤ b * p
mul_mono a b p h = grind arith

min_step : (n mx p : ℕ) → 1 ≤ p → min (min (n * 2) mx * p) mx ≡ min (n * (p * 2)) mx
min_step n mx p h = elim (dec_le (n * 2) mx) [
  | yes small ↦ let e : min (n * 2) mx ≡ n * 2 = omega arith in rw e (omega arith)
  | no large ↦
      let e : min (n * 2) mx ≡ mx = omega arith in
      rw e (omega (arith, le-mul mx p h, mul_mono mx (n * 2) p (omega arith)))
]

-- From a backoff of `n`, each failed dial doubles it up to the maximum.
backoff_after-from :
    (c : ShipperConfig) (mx : ℕ)
    → c.max_backoff ≡ pos mx
    → mx < 2 ^ 62
    → (k n : ℕ) → 0 < n
    → n ≤ mx
    → backoff_after c (pos n) (failures k) ≡ pos (min (n * 2 ^ k) mx)
unfolding backoff_after
backoff_after-from c mx e big zero n p h = ap pos (omega arith)
backoff_after-from c mx e big (suc k) n p h =
    ap (λ b. backoff_after c b (failures k)) (next_backoff-doubles c mx n e big p h)
    ∙ backoff_after-from c mx e big k (min (n * 2) mx) (omega arith) (omega arith)
    ∙ ap pos (min_step n mx (2 ^ k) (pow_pos k) ∙ rw (pow-suc 2 k))

backoff_after-first :
    (c : ShipperConfig) (k : ℕ)
    → backoff_after c (pos 0) (failures (suc k)) ≡ backoff_after c c.min_backoff (failures k)
unfolding backoff_after next_backoff
backoff_after-first c k = refl

backoff_after-session :
    (c : ShipperConfig) (cur : ℤ) (k : ℕ)
    → backoff_after c cur (true ∷ failures k) ≡ backoff_after c c.min_backoff (failures k)
unfolding backoff_after
backoff_after-session c cur k = refl

abbrev pub Between : ℕ → ℕ → ℤ → Type 0
Between mn mx cur = (n : ℕ) × (cur ≡ pos n) × (mn ≤ n) × (n ≤ mx)

-- With a minimum of `mn` and a maximum of `mx` below 2 ^ 62 nanoseconds, `Run` sleeps
-- `min (mn * 2 ^ k) mx` after k + 1 dials in a row that failed, from its start or from the end of a
-- session: the doubling never overflows.
pub backoff_after-failures :
    (c : ShipperConfig) (mn mx : ℕ)
    → c.min_backoff ≡ pos mn
    → c.max_backoff ≡ pos mx
    → 0 < mn
    → mn ≤ mx
    → mx < 2 ^ 62
    → (k : ℕ)
    → (backoff_after c (pos 0) (failures (suc k)) ≡ pos (min (mn * 2 ^ k) mx))
      × ((cur : ℤ) → backoff_after c cur (true ∷ failures k) ≡ pos (min (mn * 2 ^ k) mx))
backoff_after-failures c mn mx e f p h big k = (
  backoff_after-first c k
      ∙ ap (λ b. backoff_after c b (failures k)) e
      ∙ backoff_after-from c mx f big k mn p h,
  λ cur.
      backoff_after-session c cur k
      ∙ ap (λ b. backoff_after c b (failures k)) e
      ∙ backoff_after-from c mx f big k mn p h,
)

next_backoff-Between :
    (c : ShipperConfig) (mn mx : ℕ) (cur : ℤ)
    → c.min_backoff ≡ pos mn
    → c.max_backoff ≡ pos mx
    → mn ≤ mx
    → mx < 2 ^ 62
    → (cur ≡ pos 0) ⊎ Between mn mx cur
    → Between mn mx (next_backoff c cur)
unfolding next_backoff
next_backoff-Between c mn mx cur e f h big (inl z) = rw z (rw e (mn, refl, omega arith, h))
next_backoff-Between c mn mx cur e f h big (inr (n, q, lo, hi)) = rw q (
    elim n as (λ n. n ≤ mx → mn ≤ n → Between mn mx (next_backoff c (pos n))) [
      | zero ↦ λ hi lo. rw e (mn, refl, omega arith, h)
      | suc i ↦ λ hi lo.
          rw (next_backoff-doubles c mx (suc i) f big (omega arith) hi)
            (min (suc i * 2) mx, refl, omega arith, omega arith)
    ]
      hi lo)

-- With such bounds every backoff after the first dial lies between the minimum and the maximum,
-- however the dials go.
pub backoff_after-Between :
    (c : ShipperConfig) (mn mx : ℕ)
    → c.min_backoff ≡ pos mn
    → c.max_backoff ≡ pos mx
    → mn ≤ mx
    → mx < 2 ^ 62
    → (dial : Bool) (dials : List Bool) (cur : ℤ) → (cur ≡ pos 0) ⊎ Between mn mx cur
    → Between mn mx (backoff_after c cur (dial ∷ dials))
unfolding backoff_after
backoff_after-Between c mn mx e f h big true [] cur b = rw e (mn, refl, omega arith, h)
backoff_after-Between c mn mx e f h big false [] cur b =
    next_backoff-Between c mn mx cur e f h big b
backoff_after-Between c mn mx e f h big true (d ∷ ds) cur b =
    backoff_after-Between c mn mx e f h big d ds c.min_backoff
      (inr (rw e (mn, refl, omega arith, h)))
backoff_after-Between c mn mx e f h big false (d ∷ ds) cur b =
    backoff_after-Between c mn mx e f h big d ds (next_backoff c cur)
      (inr (next_backoff-Between c mn mx cur e f h big b))
