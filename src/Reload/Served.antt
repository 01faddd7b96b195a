-- ===== src/Reload/Served.antt =====
-- internal/inbound/server.go and internal/outbound/server.go: the listeners that a prepared reload will
-- serve the new configuration with.
use vsockd.Common.{
  ℕ, ◌≡◌, ◌≢◌, refl, sym, true, false, ◌==◌, some, List, [], ◌∷◌, ◌++◌, inl, inr, All, get_elem?,
  some-injective, if◌then◌else◌, arith, tests, Bool-cases,
}
use vsockd.Reload.{World, Ops, Entry, find_entry, has_key, put_entry, put_listener, existing_from}

-- What a server's operations owe to the configuration: `Serves c l` says that the listener `l` does
-- what the entry `c` asks for.
pub record IsServing {K C L S E : Type 0} (ops : Ops K C L S E) (key_of : C → K)
    (IsOpen : L → Type 0) (Serves : C → L → Type 0) : Type 0 where
  pub same_sound : (j k : K) → ops.same j k ≡ true → j ≡ k
  pub same_complete : (k : K) → ops.same k k ≡ true
  pub built_key :
      (heap : List L) (c : C) (new : L) → ops.build heap c ≡ inr new → ops.key new ≡ key_of c
  pub bound :
      (before now : List L) (c : C) (new l : L)
      → ops.build before c ≡ inr new
      → ops.bind now new ≡ inr l
      → Serves c l
  pub swapped :
      (heap : List L) (c : C) (new cur : L) (s : S)
      → ops.build heap c ≡ inr new
      → ops.key cur ≡ ops.key new
      → IsOpen cur
      → ops.swap_for c new cur ≡ inr s
      → Serves c (ops.install s cur).0

module _ {K C L S E : Type 0} (ops : Ops K C L S E) where
  -- the object at the index `i` once the swaps are installed
  abbrev pub installed : List (ℕ × S) → ℕ → L → L
  installed [] i l = l
  installed (x ∷ ss) i l = installed ss i (if x.0 == i then (ops.install x.1 l).0 else l)

  pub installed-untouched :
      (ss : List (ℕ × S)) (i : ℕ) (l : L) → All (λ x. x.0 ≢ i) ss → installed ss i l ≡ l
  installed-untouched [] i l a = refl
  installed-untouched (x ∷ ss) i l a = elim (Bool-cases (x.0 == i)) [
    | inl e ↦ absurd (a.0 (grind tests))
    | inr e ↦ rw e (installed-untouched ss i l a.1)
  ]

  installed-append :
      (ss : List (ℕ × S)) (x : ℕ × S) (i : ℕ) (l : L)
      → installed (ss ++ x ∷ []) i l ≡ installed (x ∷ []) i (installed ss i l)
  installed-append [] x i l = refl
  installed-append (y ∷ ss) x i l = installed-append ss x i _

  pub installed-last_other :
      (ss : List (ℕ × S)) (x : ℕ × S) (i : ℕ) (l : L)
      → x.0 ≢ i
      → installed (ss ++ x ∷ []) i l ≡ installed ss i l
  installed-last_other ss x i l n = elim (Bool-cases (x.0 == i)) [
    | inl e ↦ absurd (n (grind tests))
    | inr e ↦ rw (installed-append ss x i l, e) refl
  ]

  pub installed-last_same :
      (ss : List (ℕ × S)) (s : S) (i : ℕ) (l : L)
      → All (λ x. x.0 ≢ i) ss
      → installed (ss ++ (i, s) ∷ []) i l ≡ (ops.install s l).0
  installed-last_same ss s i l n = elim (Bool-cases (i == i)) [
    | inl e ↦ rw (installed-append ss (i, s) i l, e, installed-untouched ss i l n) refl
    | inr e ↦ absurd (grind tests)
  ]

  abbrev pub KeysDistinct : (C → K) → List C → Type 0
  KeysDistinct key_of [] = Unit
  KeysDistinct key_of (c ∷ cs) = All (λ d. key_of d ≢ key_of c) cs × KeysDistinct key_of cs

  module _ (key_of : C → K) (IsOpen : L → Type 0) (Serves : C → L → Type 0)
      (laws : IsServing ops key_of IsOpen Serves) where
    -- an entry of `existing` holds an open listener of the world and its key
    pub record IsEntry (w : World L) (e : Entry K L) : Type 0 where
      pub at : get_elem? w.heap e.id ≡ some e.cur
      pub keyed : e.key ≡ ops.key e.cur
      pub is_open : IsOpen e.cur

    abbrev pub ListensAt : World L → ℕ → Type 0
    ListensAt w i = (l : L) × (get_elem? w.heap i ≡ some l) × IsOpen l

    put_entry-IsEntry :
        (w : World L) (es : List (Entry K L)) (e : Entry K L)
        → All (IsEntry w) es
        → IsEntry w e
        → All (IsEntry w) (put_entry ops es e)
    unfolding put_entry
    put_entry-IsEntry w [] e a i = (i, tt)
    put_entry-IsEntry w (x ∷ es) e a i = elim (Bool-cases (ops.same x.key e.key)) [
      | inl s ↦ rw s (put_entry-IsEntry w es e a.1 i)
      | inr s ↦ rw s (a.0, put_entry-IsEntry w es e a.1 i)
    ]

    pub existing_from-IsEntry :
        (w : World L) (es : List (Entry K L)) (is : List ℕ)
        → All (ListensAt w) is
        → All (IsEntry w) es
        → All (IsEntry w) (existing_from ops es w.heap is)
    unfolding existing_from
    existing_from-IsEntry w es [] o a = a
    existing_from-IsEntry w es (i ∷ is) o a = rw o.0.1 (
        existing_from-IsEntry w (put_listener ops es i (some o.0.0)) is o.1
          (put_entry-IsEntry w es _ a (record { at = o.0.1; keyed = refl; is_open = o.0.2 })))

    pub find_entry-IsEntry :
        (w : World L) (es : List (Entry K L)) (k : K) (e : Entry K L)
        → All (IsEntry w) es
        → find_entry ops es k ≡ some e
        → IsEntry w e × (e.key ≡ k)
    unfolding find_entry
    find_entry-IsEntry w [] k e a f = cc
    find_entry-IsEntry w (x ∷ es) k e a f = elim (Bool-cases (ops.same x.key k)) [
      | inl s ↦ rw (← some-injective (rw s at f)) (a.0, laws.same_sound x.key k s)
      | inr s ↦ find_entry-IsEntry w es k e a.1 (rw s at f)
    ]

    pub has_key-left :
        (ks : List K) (j k : K) → has_key ops ks k ≡ true → has_key ops (ks ++ j ∷ []) k ≡ true
    unfolding has_key
    has_key-left [] j k h = cc
    has_key-left (x ∷ ks) j k h = elim (Bool-cases (ops.same x k)) [
      | inl s ↦ rw s refl
      | inr s ↦ rw s (has_key-left ks j k (rw s at h))
    ]

    pub has_key-right : (ks : List K) (k : K) → has_key ops (ks ++ k ∷ []) k ≡ true
    unfolding has_key
    has_key-right [] k = rw (laws.same_complete k) refl
    has_key-right (x ∷ ks) k = elim (Bool-cases (ops.same x k)) [
      | inl s ↦ rw s refl
      | inr s ↦ rw s (has_key-right ks k)
    ]

    pub has_key-other :
        (ks : List K) (j k : K)
        → has_key ops ks k ≡ false
        → k ≢ j
        → has_key ops (ks ++ j ∷ []) k ≡ false
    unfolding has_key
    has_key-other [] j k h n = elim (Bool-cases (ops.same j k)) [
      | inl s ↦ absurd (n (sym (laws.same_sound j k s)))
      | inr s ↦ rw s refl
    ]
    has_key-other (x ∷ ks) j k h n = elim (Bool-cases (ops.same x k)) [
      | inl s ↦ absurd (ground (arith, h, s))
      | inr s ↦ rw s (has_key-other ks j k (rw s at h) n)
    ]
