-- ===== src/Reload/Commit.antt =====
-- internal/inbound/server.go and internal/outbound/server.go: a reload that is committed.
use mathlib.Core.List.{append_assoc, append-nil}
use vsockd.Common.{
  ℕ, ◌≤◌, ◌≡◌, ◌≢◌, ap, ◌∙◌, Bool, true, false, ◌==◌, Option, none, some, List, [], ◌∷◌, ◌++◌, ◌⊎◌,
  inl, inr, length, All, All2, All2-map, get_elem?, get_elem?-append_left, get_elem?-lt,
  if◌then◌else◌, arith, tests, Bool-cases,
}
use vsockd.Reload.{
  opened_by, World, Ops, Entry, Stage, ApplyPlan, call, has_key, install_all, close_unkept,
  stage_one, stage_all, Prepared, ready, failed, existing_of, nothing_staged, prepare_apply,
  commit_apply, commit_prepared, apply, plan_of,
}
use vsockd.Reload.Heap.{call_at-get_other, call_at-get_same}
use vsockd.Reload.Moves.{Sum-cases, stage_one-Move}
use vsockd.Reload.Served.{
  IsServing, IsEntry, ListensAt, installed, installed-untouched, KeysDistinct,
  existing_from-IsEntry,
}
use vsockd.Reload.Owned.{IsOwned, Undisturbed}
use vsockd.Reload.Rollback.{RollsBack, prepare_apply-RollsBack}
use vsockd.Reload.Staging.{
  Takes, kept_open, bound_new, IsStage, swaps_below, Move-IsStage, opened_by-IsStage,
  nothing_staged-IsStage,
}

module _ {K C L S E : Type 0} (ops : Ops K C L S E) where
  pub install_all-get :
      (ss : List (ℕ × S)) (w : World L) (i : ℕ) (l : L)
      → get_elem? w.heap i ≡ some l
      → get_elem? (install_all ops ss w).heap i ≡ some (installed ops ss i l)
  unfolding install_all
  install_all-get [] w i l g = g
  install_all-get (x ∷ ss) w i l g = elim (Bool-cases (x.0 == i)) [
    | inl e ↦
        let same : x.0 ≡ i = grind tests in
        rw e (
          install_all-get ss (call (ops.install x.1) w x.0) i (ops.install x.1 l).0
            (rw same (call_at-get_same (ops.install x.1) w.heap i l g)))
    | inr e ↦
        let other : x.0 ≢ i = grind tests in
        rw e (
          install_all-get ss (call (ops.install x.1) w x.0) i l
            (call_at-get_other (ops.install x.1) w.heap x.0 i other ∙ g))
  ]

  -- no entry that would be closed is at the index `i`
  abbrev Spared : List K → ℕ → Entry K L → Type 0
  Spared kept i e = (has_key ops kept e.key ≡ true) ⊎ (e.id ≢ i)

  close_one-get :
      (kept_key : Bool) (w : World L) (id i : ℕ) (l : L)
      → (kept_key ≡ true) ⊎ (id ≢ i)
      → get_elem? w.heap i ≡ some l
      → get_elem? (if kept_key then w else call ops.close w id).heap i ≡ some l
  close_one-get true w id i l a g = g
  close_one-get false w id i l (inl t) g = absurd (ground (arith, t))
  close_one-get false w id i l (inr n) g = call_at-get_other ops.close w.heap id i n ∙ g

  close_unkept-get :
      (kept : List K) (es : List (Entry K L)) (w : World L) (i : ℕ) (l : L)
      → All (Spared kept i) es
      → get_elem? w.heap i ≡ some l
      → get_elem? (close_unkept ops kept es w).heap i ≡ some l
  unfolding close_unkept
  close_unkept-get kept [] w i l a g = g
  close_unkept-get kept (e ∷ es) w i l a g =
      close_unkept-get kept es (if has_key ops kept e.key then w else call ops.close w e.id) i l a.1
        (close_one-get (has_key ops kept e.key) w e.id i l a.0 g)

  module _ (key_of : C → K) (IsOpen : L → Type 0) (Serves : C → L → Type 0)
      (laws : IsServing ops key_of IsOpen Serves) where
    abbrev pub ServedAt : World L → C → ℕ → Type 0
    ServedAt w c i = (l : L) × (get_elem? w.heap i ≡ some l) × Serves c l

    entry_elsewhere :
        (w : World L) (kept : List K) (i : ℕ) (cur : L) (e : Entry K L)
        → get_elem? w.heap i ≡ some cur
        → has_key ops kept (ops.key cur) ≡ true
        → IsEntry ops key_of IsOpen Serves laws w e
        → has_key ops kept e.key ≡ false
        → e.id ≢ i
    entry_elsewhere w kept i cur e g h a k = let at = a.at in let keyed = a.keyed in λ q. cc

    kept-Spared :
        (w : World L) (kept : List K) (i : ℕ) (cur : L) (es : List (Entry K L))
        → get_elem? w.heap i ≡ some cur
        → has_key ops kept (ops.key cur) ≡ true
        → All (IsEntry ops key_of IsOpen Serves laws w) es
        → All (Spared kept i) es
    kept-Spared w kept i cur [] g h a = tt
    kept-Spared w kept i cur (e ∷ es) g h a = (
      elim (Bool-cases (has_key ops kept e.key)) [
        | inl k ↦ inl k
        | inr k ↦ inr (entry_elsewhere w kept i cur e g h a.0 k)
      ],
      kept-Spared w kept i cur es g h a.1,
    )

    new-Spared :
        (w : World L) (kept : List K) (i : ℕ) (es : List (Entry K L))
        → length w.heap ≤ i
        → All (IsEntry ops key_of IsOpen Serves laws w) es
        → All (Spared kept i) es
    new-Spared w kept i [] n a = tt
    new-Spared w kept i (e ∷ es) n a = (
      inr (λ q. absurd (omega (arith, n, q, get_elem?-lt w.heap e.id e.cur a.0.at))),
      new-Spared w kept i es n a.1,
    )

    Takes-ServedAt :
        (w : World L) (existing : List (Entry K L)) (done : List C) (st : Stage K L S)
        → All (IsEntry ops key_of IsOpen Serves laws w) existing
        → IsStage ops key_of IsOpen Serves laws w done [] st
        → (c : C) (i : ℕ) → Takes ops key_of IsOpen Serves laws w st c i
        → ServedAt (commit_apply ops (plan_of existing st) st.world).1 c i
    unfolding commit_apply
    Takes-ServedAt w existing done st a s c i (kept_open cur g h v) = (
      installed ops st.swaps i cur,
      close_unkept-get st.kept existing _ i _ (kept-Spared w st.kept i cur existing g h a) (
          install_all-get st.swaps st.world i cur
            (rw s.heap_is (get_elem?-append_left w.heap s.bound i cur g))),
      v,
    )
    Takes-ServedAt w existing done st a s c i (bound_new l g n v) = (
      l,
      close_unkept-get st.kept existing _ i _ (new-Spared w st.kept i existing n a) (
          install_all-get st.swaps st.world i l g
          ∙ ap some (
              installed-untouched ops st.swaps i l
                (swaps_below ops key_of IsOpen Serves laws w st.kept st.swaps i n s.swaps_kept))),
      v,
    )

    -- what `PrepareApply` promises of the commit that may follow
    abbrev pub Serving : List C → Prepared E L (ApplyPlan K L S) → Type 0
    Serving cs (failed e v) = Unit
    Serving cs (ready p v) =
        All2 (ServedAt (commit_apply ops p v).1) cs (commit_apply ops p v).1.listeners

    stage_all-Serving :
        (w : World L) (existing : List (Entry K L)) (done cs : List C) (st : Stage K L S)
        → All (IsEntry ops key_of IsOpen Serves laws w) existing
        → IsStage ops key_of IsOpen Serves laws w done cs st
        → Serving (done ++ cs) (stage_all ops existing cs st)
    unfolding stage_all commit_apply
    stage_all-Serving w existing done [] st a s =
        rw (append-nil done)
          (All2-map _ _ done st.next (Takes-ServedAt w existing done st a s) s.taken)
    stage_all-Serving w existing done (c ∷ cs) st a s =
        elim (Sum-cases (ops.build st.world.heap c)) [
          | inl (e, b) ↦ rw (stage_all, b) tt
          | inr (new, b) ↦
              rw (stage_all, b)
                (elim (Sum-cases (stage_one ops existing c new (opened_by ops new st))) [
                  | inl (e, q) ↦ rw q tt
                  | inr (st', q) ↦
                      rw (q, ← append_assoc done (c ∷ []) cs)
                        (stage_all-Serving w existing (done ++ c ∷ []) cs st' a (
                          Move-IsStage ops key_of IsOpen Serves laws w existing done cs c new
                            (opened_by ops new st) st' a b
                            (opened_by-IsStage ops key_of IsOpen Serves laws w done (c ∷ cs) new st
                              s)
                            (stage_one-Move ops existing c new (opened_by ops new st) st' q)))
                ])
        ]

    if-Serving :
        (cs : List C) (b : Bool) (x y : Prepared E L (ApplyPlan K L S))
        → Serving cs x
        → Serving cs y
        → Serving cs (if b then x else y)
    if-Serving cs true x y p q = p
    if-Serving cs false x y p q = q

    pub prepare_apply-Serving :
        (w : World L) (cs : List C)
        → All (ListensAt ops key_of IsOpen Serves laws w) w.listeners
        → KeysDistinct ops key_of cs
        → Serving cs (prepare_apply ops w cs)
    unfolding prepare_apply
    prepare_apply-Serving w cs o d =
        if-Serving cs w.started _ _
          (stage_all-Serving w (existing_of ops w) [] cs (nothing_staged w)
            (existing_from-IsEntry ops key_of IsOpen Serves laws w [] w.listeners o tt)
            (nothing_staged-IsStage ops key_of IsOpen Serves laws w cs d))
          tt

    -- all of the new configuration is served, or nothing is changed
    abbrev pub AllOrNothing : (L → Type 0) → World L → List C → Option E × World L → Type 0
    AllOrNothing IsShut w cs (some e, v) = Undisturbed IsShut w v
    AllOrNothing IsShut w cs (none, v) = All2 (ServedAt v) cs v.listeners

    -- a listener that is served is open
    pub served-ListensAt :
        ((c : C) (l : L) → Serves c l → IsOpen l)
        → (w : World L) (cs : List C) (is : List ℕ) → All2 (ServedAt w) cs is
        → All (ListensAt ops key_of IsOpen Serves laws w) is
    served-ListensAt opens w [] [] a = tt
    served-ListensAt opens w [] (_ ∷ _) a = elim a [ ]
    served-ListensAt opens w (_ ∷ _) [] a = elim a [ ]
    served-ListensAt opens w (c ∷ cs) (i ∷ is) a =
        ((a.0.0, a.0.1, opens c a.0.0 a.0.2), served-ListensAt opens w cs is a.1)

    -- what was served is served in a world that is undisturbed
    pub Undisturbed-ServedAt :
        (IsShut : L → Type 0) (w v : World L) (cs : List C)
        → Undisturbed IsShut w v
        → All2 (ServedAt w) cs w.listeners
        → All2 (ServedAt v) cs v.listeners
    Undisturbed-ServedAt IsShut w v cs u a = rw u.listeners_kept (
        All2-map (ServedAt w) (ServedAt v) cs w.listeners
          (λ c i s. (s.0, rw u.heap_kept (get_elem?-append_left w.heap u.litter i s.0 s.1), s.2)) a)

    module _ (IsShut : L → Type 0) (owned : IsOwned ops IsShut) where
      commit_prepared-AllOrNothing :
          (w : World L) (cs : List C) (r : Prepared E L (ApplyPlan K L S))
          → RollsBack ops IsShut owned w r
          → Serving cs r
          → AllOrNothing IsShut w cs (commit_prepared ops r)
      commit_prepared-AllOrNothing w cs (failed e v) u s = u
      commit_prepared-AllOrNothing w cs (ready p v) u s = s

      pub apply-AllOrNothing :
          (w : World L) (cs : List C)
          → All (ListensAt ops key_of IsOpen Serves laws w) w.listeners
          → KeysDistinct ops key_of cs
          → AllOrNothing IsShut w cs (apply ops w cs)
      unfolding apply
      apply-AllOrNothing w cs o d =
          commit_prepared-AllOrNothing w cs (prepare_apply ops w cs)
            (prepare_apply-RollsBack ops IsShut owned w cs) (prepare_apply-Serving w cs o d)
