-- ===== src/Reload/Launched.antt =====
-- internal/inbound/server.go and internal/outbound/server.go: the accept loops that `Start` and `CommitApply`
-- launch. A listener stands once in `running` for each loop that was launched for it.
use vsockd.Common.{
  ◌+◌, ℕ, suc, ◌≤◌, ◌<◌, ◌≡◌, refl, ap, List, [], ◌∷◌, ◌++◌, ◌==◌, inl, inr, length, All, All-map,
  length-append, if◌then◌else◌, arith, tests, Bool-cases,
}
use vsockd.Reload.{World}
use vsockd.Reload.Heap.{ids}
use vsockd.Reload.Owned.{Undisturbed}

-- how many accept loops a list of launches has for the listener `i`
abbrev pub loops_of : ℕ → List ℕ → ℕ
loops_of i [] = 0
loops_of i (j ∷ js) = let rest = loops_of i js in if j == i then suc rest else rest

abbrev pub Once : List ℕ → ℕ → Type 0
Once loops i = loops_of i loops ≡ 1

-- Each listener of the server has exactly one accept loop, and no loop was launched for an object that
-- does not exist.
pub record IsLaunched {L : Type 0} (w : World L) : Type 0 where
  pub existing : All (λ i. i < length w.heap) w.running
  pub once : All (λ i. loops_of i w.running ≡ 1) w.listeners

loops_of-append : (i : ℕ) (xs ys : List ℕ) → loops_of i (xs ++ ys) ≡ loops_of i xs + loops_of i ys
loops_of-append i [] ys = omega arith
loops_of-append i (x ∷ xs) ys = grind (arith, tests, loops_of-append i xs ys)

loops_of-beyond : (n i : ℕ) (xs : List ℕ) → n ≤ i → All (λ j. j < n) xs → loops_of i xs ≡ 0
loops_of-beyond n i [] h a = refl
loops_of-beyond n i (x ∷ xs) h a = elim (Bool-cases (x == i)) [
  | inl e ↦ absurd (grind (arith, tests, a.0))
  | inr e ↦ rw e (loops_of-beyond n i xs h a.1)
]

loops_of-here : (i : ℕ) (xs : List ℕ) → loops_of i (i ∷ xs) ≡ suc (loops_of i xs)
loops_of-here i xs = grind (arith, tests)

-- a loop for a new object behind those for older ones
pub new-Once : (n : ℕ) (xs : List ℕ) → All (λ j. j < n) xs → Once (xs ++ n ∷ []) n
new-Once n xs a = omega (
  arith,
  loops_of-append n xs (n ∷ []),
  loops_of-here n [],
  loops_of-beyond n n xs (omega arith) a,
)

pub old-Once : (n i : ℕ) (xs : List ℕ) → All (λ j. j < n) xs → Once xs i → Once (xs ++ n ∷ []) i
old-Once n i xs a o = elim (Bool-cases (n == i)) [
  | inl e ↦
      let same : n ≡ i = grind tests in
      absurd (omega (arith, o, loops_of-beyond n i xs (omega (arith, same)) a))
  | inr e ↦
      let none_here : loops_of i (n ∷ []) ≡ 0 = rw e refl in
      omega (arith, o, none_here, loops_of-append i xs (n ∷ []))
]

pub within-suc : (n : ℕ) (xs : List ℕ) → All (λ j. j < n) xs → All (λ j. j < n + 1) xs
within-suc n xs a = All-map (λ j. j < n) (λ j. j < n + 1) xs (λ j h. omega (arith, h)) a

-- the loops of a server that launched one for each of its objects
ids-within : {L : Type 0} (n : ℕ) (ls : List L) → All (λ i. n ≤ i × (i < n + length ls)) (ids n ls)
ids-within n [] = tt
ids-within n (l ∷ ls) = (
  (omega arith, omega arith),
  All-map _ _ (ids (suc n) ls) (λ i b. (omega (arith, b.0), omega (arith, b.1)))
      (ids-within (suc n) ls),
)

loops_of-ids_before : {L : Type 0} (n i : ℕ) (ls : List L) → i < n → loops_of i (ids n ls) ≡ 0
loops_of-ids_before n i [] h = refl
loops_of-ids_before n i (l ∷ ls) h = elim (Bool-cases (n == i)) [
  | inl e ↦ absurd (grind (arith, tests, h))
  | inr e ↦ rw e (loops_of-ids_before (suc n) i ls (omega (arith, h)))
]

loops_of-ids :
    {L : Type 0} (n i : ℕ) (ls : List L) → n ≤ i → i < n + length ls → loops_of i (ids n ls) ≡ 1
loops_of-ids n i [] a b = absurd (omega (arith, a, b))
loops_of-ids n i (l ∷ ls) a b = elim (Bool-cases (n == i)) [
  | inl e ↦
      let same : n ≡ i = grind tests in
      rw e (ap suc (loops_of-ids_before (suc n) i ls (omega (arith, same))))
  | inr e ↦ rw e (loops_of-ids (suc n) i ls (grind (arith, tests, a)) (omega (arith, b)))
]

pub ids-IsLaunched :
    {L : Type 0} (w : World L)
    → w.listeners ≡ ids 0 w.heap
    → w.running ≡ ids 0 w.heap
    → IsLaunched w
ids-IsLaunched w p q = record {
  existing = rw q (All-map _ _ (ids 0 w.heap) (λ i b. omega (arith, b.1)) (ids-within 0 w.heap));
  once =
      rw (p, q)
        (All-map _ _ (ids 0 w.heap) (λ i b. loops_of-ids 0 i w.heap b.0 b.1) (ids-within 0 w.heap));
}

-- an undisturbed server keeps its loops
pub Undisturbed-IsLaunched :
    {L : Type 0} (IsShut : L → Type 0) (w v : World L)
    → Undisturbed IsShut w v
    → IsLaunched w
    → IsLaunched v
Undisturbed-IsLaunched IsShut w v u i = record {
  existing =
      rw (u.heap_kept, u.running_kept, length-append w.heap u.litter)
        (All-map _ _ w.running (λ j h. omega (arith, h)) i.existing);
  once = rw (u.listeners_kept, u.running_kept) i.once;
}
