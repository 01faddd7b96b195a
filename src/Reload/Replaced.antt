-- ===== src/Reload/Replaced.antt =====
-- internal/inbound/server.go and internal/outbound/server.go: what becomes of the listeners that a server had
-- before a reload.
use mathlib.Core.List.{append_assoc, append-nil}
use vsockd.Common.{
  ℕ, ◌≡◌, refl, ap, ◌∙◌, Bool, true, false, some, List, [], ◌∷◌, ◌++◌, ◌⊎◌, inl, inr, if◌then◌else◌,
  All, Any, here, there, get_elem?, get_elem?-append_left, Bool-cases,
}
use vsockd.Reload.{
  World, Ops, Entry, Stage, ApplyPlan, has_key, stage_one, stage_all, opened_by, Prepared, ready,
  failed, existing_of, nothing_staged, prepare_apply, commit_apply, plan_of,
}
use vsockd.Reload.Moves.{Sum-cases, stage_one-Move}
use vsockd.Reload.Served.{
  IsServing, IsEntry, ListensAt, installed-untouched, KeysDistinct, existing_from-IsEntry,
}
use vsockd.Reload.Staging.{
  IsStage, other_swaps, Move-IsStage, opened_by-IsStage, nothing_staged-IsStage,
}
use vsockd.Reload.Commit.{install_all-get}
use vsockd.Reload.Retired.{IsAt, ShutAt, OneEach, existing_from-listener, close_unkept-closes}

module _ {K C L S E : Type 0} (ops : Ops K C L S E) (key_of : C → K) (IsOpen : L → Type 0)
    (Serves : C → L → Type 0) (laws : IsServing ops key_of IsOpen Serves) (IsShut : L → Type 0)
    (open_shuts : (l : L) → IsOpen l → IsShut (ops.close l).0)
    (shut_stays : (l : L) → IsShut l → IsShut (ops.close l).0) where
  -- the listener at `i` has been shut, or its key is still configured
  abbrev pub IsReplaced : World L → World L → List C → ℕ → Type 0
  IsReplaced w v cs i =
      (l : L) × (get_elem? w.heap i ≡ some l)
      × (ShutAt ops laws.same_sound IsOpen IsShut open_shuts shut_stays v i
          ⊎ Any (λ c. key_of c ≡ ops.key l) cs)

  -- the listeners of `w` behind the commit of what `PrepareApply` returned
  abbrev pub Replaces : World L → List C → Prepared E L (ApplyPlan K L S) → Type 0
  Replaces w cs (failed e v) = Unit
  Replaces w cs (ready p v) = All (IsReplaced w (commit_apply ops p v).1 cs) w.listeners

  has_key-All : (P : K → Type 0) (ks : List K) (k : K) → has_key ops ks k ≡ true → All P ks → P k
  unfolding has_key
  has_key-All P [] k h a = cc
  has_key-All P (x ∷ ks) k h a = elim (Bool-cases (ops.same x k)) [
    | inl s ↦ rw (← laws.same_sound x k s) a.0
    | inr s ↦ has_key-All P ks k (rw (has_key, s) at h) a.1
  ]

  -- the entries of all listeners
  abbrev Covers : World L → List (Entry K L) → List ℕ → Type 0
  Covers w es is =
      All
        (λ i.
          (l : L) × (get_elem? w.heap i ≡ some l)
          × IsOpen l
          × Any (IsAt ops laws.same_sound i (ops.key l)) es)
        is

  stage-IsReplaced :
      (w : World L) (existing : List (Entry K L)) (done : List C) (st : Stage K L S) (is : List ℕ)
      → IsStage ops key_of IsOpen Serves laws w done [] st
      → Covers w existing is
      → All (IsReplaced w (commit_apply ops (plan_of existing st) st.world).1 done) is
  unfolding commit_apply
  stage-IsReplaced w existing done st [] s a = tt
  stage-IsReplaced w existing done st (i ∷ is) s a =
      let (l, g, o, e) = a.0 in
      (
        elim (Bool-cases (has_key ops st.kept (ops.key l))) [
          | inl h ↦ (l, g, inr (has_key-All _ st.kept (ops.key l) h s.kept_named))
          | inr h ↦ (
            l,
            g,
            inl (
                close_unkept-closes ops laws.same_sound IsOpen IsShut open_shuts shut_stays st.kept
                  i (ops.key l) l existing _ h
                  (install_all-get ops st.swaps st.world i l
                      (rw s.heap_is (get_elem?-append_left w.heap s.bound i l g))
                    ∙ ap some (
                        installed-untouched ops st.swaps i l (
                          other_swaps ops key_of IsOpen Serves laws w st.kept st.swaps i l g h
                            s.swaps_kept)))
                  o e),
          )
        ],
        stage-IsReplaced w existing done st is s a.1,
      )

  listeners-Covers :
      (w : World L) (is : List ℕ)
      → OneEach ops laws.same_sound w.heap w.listeners
      → All (ListensAt ops key_of IsOpen Serves laws w) is
      → ((i : ℕ) → Any (λ j. j ≡ i) is → Any (λ j. j ≡ i) w.listeners)
      → Covers w (existing_of ops w) is
  listeners-Covers w [] o a m = tt
  listeners-Covers w (i ∷ is) o a m = (
    (
      a.0.0,
      a.0.1,
      a.0.2,
      existing_from-listener ops laws.same_sound w.heap i a.0.0 w.listeners [] a.0.1 o
          (m i (here refl)),
    ),
    listeners-Covers w is o a.1 (λ j b. m j (there b)),
  )

  stage_all-Replaces :
      (w : World L) (existing : List (Entry K L)) (done cs : List C) (st : Stage K L S)
      → All (IsEntry ops key_of IsOpen Serves laws w) existing
      → Covers w existing w.listeners
      → IsStage ops key_of IsOpen Serves laws w done cs st
      → Replaces w (done ++ cs) (stage_all ops existing cs st)
  unfolding stage_all
  stage_all-Replaces w existing done [] st a v s =
      rw (append-nil done) (stage-IsReplaced w existing done st w.listeners s v)
  stage_all-Replaces w existing done (c ∷ cs) st a v s =
      elim (Sum-cases (ops.build st.world.heap c)) [
        | inl (e, b) ↦ rw (stage_all, b) tt
        | inr (new, b) ↦
            rw (stage_all, b)
              (elim (Sum-cases (stage_one ops existing c new (opened_by ops new st))) [
                | inl (e, q) ↦ rw q tt
                | inr (st', q) ↦
                    rw (q, ← append_assoc done (c ∷ []) cs)
                      (stage_all-Replaces w existing (done ++ c ∷ []) cs st' a v (
                        Move-IsStage ops key_of IsOpen Serves laws w existing done cs c new
                          (opened_by ops new st) st' a b
                          (opened_by-IsStage ops key_of IsOpen Serves laws w done (c ∷ cs) new st s)
                          (stage_one-Move ops existing c new (opened_by ops new st) st' q)))
              ])
      ]

  if-Replaces :
      (w : World L) (cs : List C) (b : Bool) (x y : Prepared E L (ApplyPlan K L S))
      → Replaces w cs x
      → Replaces w cs y
      → Replaces w cs (if b then x else y)
  if-Replaces w cs true x y p q = p
  if-Replaces w cs false x y p q = q

  -- When the listeners of a server are open and no two have the same key, and no two entries of the new
  -- configuration do, then behind a reload that is prepared and committed each listener that the server had
  -- is shut, unless its key is still configured.
  pub prepare_apply-Replaces :
      (w : World L) (cs : List C)
      → All (ListensAt ops key_of IsOpen Serves laws w) w.listeners
      → OneEach ops laws.same_sound w.heap w.listeners
      → KeysDistinct ops key_of cs
      → Replaces w cs (prepare_apply ops w cs)
  unfolding prepare_apply
  prepare_apply-Replaces w cs o one d =
      if-Replaces w cs w.started _ _
        (stage_all-Replaces w (existing_of ops w) [] cs (nothing_staged w)
          (existing_from-IsEntry ops key_of IsOpen Serves laws w [] w.listeners o tt)
          (listeners-Covers w w.listeners one o (λ i m. m))
          (nothing_staged-IsStage ops key_of IsOpen Serves laws w cs d))
        tt
