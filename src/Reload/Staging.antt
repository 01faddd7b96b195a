-- ===== src/Reload/Staging.antt =====
-- internal/inbound/server.go and internal/outbound/server.go: what a stage of the reload holds while it
-- takes the new configuration, one entry after another.
use mathlib.Core.List.{append_assoc, append-nil}
use vsockd.Common.{
  refl, Any, here, there, ap, ℕ, ◌≤◌, ◌≡◌, ◌≢◌, sym, ◌∙◌, true, false, some, List, [], ◌∷◌, ◌++◌,
  inr, length, All, All2, All-append, All2-concat, All2-map, get_elem?, get_elem?-append_left,
  get_elem?-concat, get_elem?-lt, length-append, arith,
}
use vsockd.Reload.{nothing_staged, opened_by, World, Ops, Entry, Stage, has_key}
use vsockd.Reload.Moves.{Move, keeps, binds}
use vsockd.Reload.Served.{
  IsServing, IsEntry, installed, installed-last_other, installed-last_same, KeysDistinct,
  find_entry-IsEntry, has_key-left, has_key-right, has_key-other,
}

module _ {K C L S E : Type 0} (ops : Ops K C L S E) where
  module _ (key_of : C → K) (IsOpen : L → Type 0) (Serves : C → L → Type 0)
      (laws : IsServing ops key_of IsOpen Serves) where
    -- how the listener at the index `i` serves `c` once the stage is committed over the world `w`
    pub data Takes (w : World L) (st : Stage K L S) (c : C) (i : ℕ) : Type 0 where
      kept_open :
          (cur : L)
          → get_elem? w.heap i ≡ some cur
          → has_key ops st.kept (ops.key cur) ≡ true
          → Serves c (installed ops st.swaps i cur)
          → Takes w st c i
      bound_new :
          (l : L)
          → get_elem? st.world.heap i ≡ some l
          → length w.heap ≤ i
          → Serves c l
          → Takes w st c i

    abbrev pub SwapsKept : World L → List K → ℕ × S → Type 0
    SwapsKept w kept x =
        (cur : L) × (get_elem? w.heap x.0 ≡ some cur) × (has_key ops kept (ops.key cur) ≡ true)

    -- what holds of a stage over `w` that has taken `done` and is to take `cs`
    pub record IsStage (w : World L) (done cs : List C) (st : Stage K L S) : Type 0 where
      pub bound : List L
      pub heap_is : st.world.heap ≡ w.heap ++ bound
      pub taken : All2 (Takes w st) done st.next
      pub swaps_kept : All (SwapsKept w st.kept) st.swaps
      pub kept_named : All (λ k. Any (λ c. key_of c ≡ k) done) st.kept
      pub unkept : All (λ d. has_key ops st.kept (key_of d) ≡ false) cs
      pub distinct : KeysDistinct ops key_of cs

    different :
        (w : World L) (kept : List K) (j i : ℕ) (l cur : L)
        → get_elem? w.heap j ≡ some l
        → has_key ops kept (ops.key l) ≡ true
        → get_elem? w.heap i ≡ some cur
        → has_key ops kept (ops.key cur) ≡ false
        → j ≢ i
    different w kept j i l cur f a g b e = cc

    pub other_swaps :
        (w : World L) (kept : List K) (ss : List (ℕ × S)) (i : ℕ) (cur : L)
        → get_elem? w.heap i ≡ some cur
        → has_key ops kept (ops.key cur) ≡ false
        → All (SwapsKept w kept) ss
        → All (λ x. x.0 ≢ i) ss
    other_swaps w kept [] i cur g h a = tt
    other_swaps w kept (x ∷ ss) i cur g h a =
        (different w kept x.0 i a.0.0 cur a.0.1 a.0.2 g h, other_swaps w kept ss i cur g h a.1)

    pub swaps_below :
        (w : World L) (kept : List K) (ss : List (ℕ × S)) (i : ℕ)
        → length w.heap ≤ i
        → All (SwapsKept w kept) ss
        → All (λ x. x.0 ≢ i) ss
    swaps_below w kept [] i h a = tt
    swaps_below w kept (x ∷ ss) i h a = (
      (λ e. absurd (omega (arith, e, h, get_elem?-lt w.heap x.0 a.0.0 a.0.1))),
      swaps_below w kept ss i h a.1,
    )

    SwapsKept-left :
        (w : World L) (kept : List K) (k : K) (ss : List (ℕ × S))
        → All (SwapsKept w kept) ss
        → All (SwapsKept w (kept ++ k ∷ [])) ss
    SwapsKept-left w kept k [] a = tt
    SwapsKept-left w kept k (x ∷ ss) a = (
      (a.0.0, a.0.1, has_key-left ops key_of IsOpen Serves laws kept k _ a.0.2),
      SwapsKept-left w kept k ss a.1,
    )

    unkept-other :
        (kept : List K) (k : K) (cs : List C)
        → All (λ d. has_key ops kept (key_of d) ≡ false) cs
        → All (λ d. key_of d ≢ k) cs
        → All (λ d. has_key ops (kept ++ k ∷ []) (key_of d) ≡ false) cs
    unkept-other kept k [] a n = tt
    unkept-other kept k (d ∷ cs) a n = (
      has_key-other ops key_of IsOpen Serves laws kept k (key_of d) a.0 n.0,
      unkept-other kept k cs a.1 n.1,
    )

    kept_entry-Takes :
        (w : World L) (st : Stage K L S) (id : ℕ) (s : S) (k : K) (cur : L) (c : C) (i : ℕ)
        → get_elem? w.heap id ≡ some cur
        → has_key ops st.kept (ops.key cur) ≡ false
        → Takes w st c i
        → Takes w
            (record st {
              next = st.next ++ id ∷ [];
              swaps = st.swaps ++ (id, s) ∷ [];
              kept = st.kept ++ k ∷ [];
            })
            c
            i
    kept_entry-Takes w st id s k cur c i g h (kept_open l f a v) =
        kept_open l f (has_key-left ops key_of IsOpen Serves laws st.kept k (ops.key l) a) (
          rw
            (installed-last_other ops st.swaps (id, s) i l
              (λ e. different w st.kept i id l cur f a g h (sym e)))
            v)
    kept_entry-Takes w st id s k cur c i g h (bound_new l f n v) = bound_new l f n v

    bound-Takes :
        (w : World L) (st : Stage K L S) (l : L) (c : C) (i : ℕ)
        → Takes w st c i
        → Takes w
            (record st {
              world = record st.world { heap = st.world.heap ++ l ∷ [] };
              next = st.next ++ length st.world.heap ∷ [];
              new_binds = st.new_binds ++ length st.world.heap ∷ [];
            })
            c
            i
    bound-Takes w st l c i (kept_open cur f a v) = kept_open cur f a v
    bound-Takes w st l c i (bound_new cur f n v) =
        bound_new cur (get_elem?-append_left st.world.heap _ i cur f) n v

    Any-left :
        (k : K) (done : List C) (c : C)
        → Any (λ x. key_of x ≡ k) done
        → Any (λ x. key_of x ≡ k) (done ++ c ∷ [])
    Any-left k [] c a = elim a [ ]
    Any-left k (_ ∷ done) c (here e) = here e
    Any-left k (_ ∷ done) c (there a) = there (Any-left k done c a)

    named-last :
        {k : K} (done : List C) (c : C) → key_of c ≡ k → Any (λ x. key_of x ≡ k) (done ++ c ∷ [])
    named-last [] c e = here e
    named-last (x ∷ done) c e = there (named-last done c e)

    named-left :
        (done : List C) (c : C) (ks : List K)
        → All (λ k. Any (λ x. key_of x ≡ k) done) ks
        → All (λ k. Any (λ x. key_of x ≡ k) (done ++ c ∷ [])) ks
    named-left done c [] a = tt
    named-left done c (k ∷ ks) a = (Any-left k done c a.0, named-left done c ks a.1)

    opened_by-Takes :
        (w : World L) (st : Stage K L S) (new : L) (c : C) (i : ℕ)
        → Takes w st c i
        → Takes w (opened_by ops new st) c i
    opened_by-Takes w st new c i (kept_open cur f a v) = kept_open cur f a v
    opened_by-Takes w st new c i (bound_new cur f n v) = bound_new cur f n v

    -- counting the sinks of a new listener changes nothing else
    pub opened_by-IsStage :
        (w : World L) (done cs : List C) (new : L) (st : Stage K L S)
        → IsStage w done cs st
        → IsStage w done cs (opened_by ops new st)
    opened_by-IsStage w done cs new st s = record {
      bound = s.bound;
      heap_is = s.heap_is;
      taken = All2-map _ _ done st.next (opened_by-Takes w st new) s.taken;
      swaps_kept = s.swaps_kept;
      kept_named = s.kept_named;
      unkept = s.unkept;
      distinct = s.distinct;
    }

    pub Move-IsStage :
        (w : World L) (existing : List (Entry K L)) (done cs : List C) (c : C) (new : L)
        (st st' : Stage K L S)
        → All (IsEntry ops key_of IsOpen Serves laws w) existing
        → ops.build st.world.heap c ≡ inr new
        → IsStage w done (c ∷ cs) st
        → Move ops existing c new st st'
        → IsStage w (done ++ c ∷ []) cs st'
    Move-IsStage w existing done cs c new st st' a b i (keeps e s f q) =
        let found =
          find_entry-IsEntry ops key_of IsOpen Serves laws w existing (ops.key new) e a f in
        let entry = found.0 in
        let same_key : ops.key e.cur ≡ ops.key new = sym entry.keyed ∙ found.1 in
        let key_is : ops.key e.cur ≡ key_of c = same_key ∙ laws.built_key st.world.heap c new b in
        let unkept : has_key ops st.kept (ops.key e.cur) ≡ false = rw key_is i.unkept.0 in
        record {
          bound = i.bound;
          heap_is = i.heap_is;
          taken =
              All2-concat _ done st.next c _
                (All2-map _ _ done st.next
                  (λ d j t. kept_entry-Takes w st e.id s e.key e.cur d j entry.at unkept t) i.taken)
                (kept_open e.cur entry.at
                  (rw (← entry.keyed) (has_key-right ops key_of IsOpen Serves laws st.kept e.key))
                  (rw
                    (installed-last_same ops st.swaps s e.id e.cur
                      (other_swaps w st.kept st.swaps e.id e.cur entry.at unkept i.swaps_kept))
                    (laws.swapped st.world.heap c new e.cur s b same_key entry.is_open q)));
          swaps_kept =
              All-append _ st.swaps _ (SwapsKept-left w st.kept e.key st.swaps i.swaps_kept) (
                (
                  e.cur,
                  entry.at,
                  rw (← entry.keyed) (has_key-right ops key_of IsOpen Serves laws st.kept e.key),
                ),
                tt,
              );
          kept_named =
              All-append _ st.kept _ (named-left done c st.kept i.kept_named)
                (named-last done c (sym (found.1 ∙ laws.built_key st.world.heap c new b)), tt);
          unkept =
              unkept-other st.kept e.key cs i.unkept.1
                (rw (found.1 ∙ laws.built_key st.world.heap c new b) i.distinct.0);
          distinct = i.distinct.1;
        }
    Move-IsStage w existing done cs c new st st' a b i (binds l f q) = record {
      bound = i.bound ++ l ∷ [];
      heap_is = ap (λ (hs : List L). hs ++ l ∷ []) i.heap_is ∙ append_assoc w.heap i.bound (l ∷ []);
      taken =
          All2-concat _ done st.next c _ (All2-map _ _ done st.next (bound-Takes w st l) i.taken) (
            bound_new l (get_elem?-concat st.world.heap l)
              (rw (i.heap_is, length-append w.heap i.bound) (omega arith))
              (laws.bound st.world.heap st.world.heap c new l b q));
      swaps_kept = i.swaps_kept;
      kept_named = named-left done c st.kept i.kept_named;
      unkept = i.unkept.1;
      distinct = i.distinct.1;
    }

    nothing_kept : (cs : List C) → All (λ d. has_key ops [] (key_of d) ≡ false) cs
    unfolding has_key
    nothing_kept [] = tt
    nothing_kept (c ∷ cs) = (refl, nothing_kept cs)

    -- nothing is staged yet
    pub nothing_staged-IsStage :
        (w : World L) (cs : List C)
        → KeysDistinct ops key_of cs
        → IsStage w [] cs (nothing_staged w)
    nothing_staged-IsStage w cs d = record {
      bound = [];
      heap_is = sym (append-nil w.heap);
      taken = tt;
      swaps_kept = tt;
      kept_named = tt;
      unkept = nothing_kept cs;
      distinct = d;
    }
