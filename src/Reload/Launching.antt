-- ===== src/Reload/Launching.antt =====
-- internal/inbound/server.go and internal/outbound/server.go: the accept loops behind a reload that is
-- committed.
use mathlib.Core.List.{append-nil, append_assoc}
use vsockd.Common.{
  ℕ, zero, suc, ◌<◌, ◌≡◌, refl, ap, ◌∙◌, Bool, true, false, Option, none, some, List, [], ◌∷◌, ◌++◌,
  inl, inr, length, All, All-append, All-map, get_elem?, some-injective, length-append,
  if◌then◌else◌, arith, Bool-cases,
}
use vsockd.Outbound.RefSink.{RefSink}
use vsockd.Reload.{
  World, Ops, Entry, Stage, call_at, call, has_key, find_entry, put_entry, put_listener,
  existing_from, install_all, close_unkept, opened_by, stage_one, stage_all, ApplyPlan, Prepared,
  ready, failed, existing_of, nothing_staged, prepare_apply, commit_apply, plan_of,
}
use vsockd.Reload.Moves.{Move, keeps, binds, Sum-cases, stage_one-Move}
use vsockd.Reload.Launched.{Once, IsLaunched, new-Once, old-Once, within-suc}

module _ {K C L S E : Type 0} (ops : Ops K C L S E) where
  module _ (P : ℕ → Type 0) where
    put_entry-All :
        (es : List (Entry K L)) (e : Entry K L)
        → All (λ (x : Entry K L). P x.id) es
        → P e.id
        → All (λ (x : Entry K L). P x.id) (put_entry ops es e)
    unfolding put_entry
    put_entry-All [] e a p = (p, tt)
    put_entry-All (x ∷ es) e a p = elim (Bool-cases (ops.same x.key e.key)) [
      | inl s ↦ rw s (put_entry-All es e a.1 p)
      | inr s ↦ rw s (a.0, put_entry-All es e a.1 p)
    ]

    put_listener-All :
        (es : List (Entry K L)) (i : ℕ) (l : Option L)
        → All (λ (x : Entry K L). P x.id) es
        → P i
        → All (λ (x : Entry K L). P x.id) (put_listener ops es i l)
    put_listener-All es i none a p = a
    put_listener-All es i (some l) a p = put_entry-All es _ a p

    existing_from-All :
        (es : List (Entry K L)) (heap : List L) (is : List ℕ)
        → All P is
        → All (λ (x : Entry K L). P x.id) es
        → All (λ (x : Entry K L). P x.id) (existing_from ops es heap is)
    unfolding existing_from
    existing_from-All es heap [] p a = a
    existing_from-All es heap (i ∷ is) p a =
        existing_from-All (put_listener ops es i (get_elem? heap i)) heap is p.1
          (put_listener-All es i (get_elem? heap i) a p.0)

    find_entry-All :
        (es : List (Entry K L)) (k : K) (e : Entry K L)
        → All (λ (x : Entry K L). P x.id) es
        → find_entry ops es k ≡ some e
        → P e.id
    unfolding find_entry
    find_entry-All [] k e a f = cc
    find_entry-All (x ∷ es) k e a f = elim (Bool-cases (ops.same x.key k)) [
      | inl s ↦ rw (← some-injective (rw s at f)) a.0
      | inr s ↦ find_entry-All es k e a.1 (rw s at f)
    ]

  -- the loops that a commit of the stage would leave
  abbrev loops : Stage K L S → List ℕ
  loops st = st.world.running ++ st.new_binds

  -- a stage whose commit leaves one loop for each listener that it has taken, and for each it may keep
  record IsLaunching (es : List (Entry K L)) (st : Stage K L S) : Type 0 where
    within : All (λ i. i < length st.world.heap) (loops st)
    entries_once : All (λ (e : Entry K L). Once (loops st) e.id) es
    next_once : All (Once (loops st)) st.next

  Move-IsLaunching :
      (es : List (Entry K L)) (c : C) (new : L) (st st' : Stage K L S)
      → IsLaunching es st
      → Move ops es c new st st'
      → IsLaunching es st'
  Move-IsLaunching es c new st st' i (keeps e s f q) = record {
    within = i.within;
    entries_once = i.entries_once;
    next_once =
        All-append _ st.next _ i.next_once
          (find_entry-All (Once (loops st)) es (ops.key new) e i.entries_once f, tt);
  }
  Move-IsLaunching es c new st st' i (binds l f q) =
      let n = length st.world.heap in
      record {
        within =
            rw
              (
                length-append st.world.heap (l ∷ []),
                ← append_assoc st.world.running st.new_binds (n ∷ []),
              )
              (All-append _ (loops st) (n ∷ []) (within-suc n (loops st) i.within)
                (omega arith, tt));
        entries_once =
            rw (← append_assoc st.world.running st.new_binds (n ∷ []))
              (All-map _ _ es (λ e o. old-Once n e.id (loops st) i.within o) i.entries_once);
        next_once = rw (← append_assoc st.world.running st.new_binds (n ∷ [])) (
            All-append _ st.next _
              (All-map _ _ st.next (λ j o. old-Once n j (loops st) i.within o) i.next_once)
              (new-Once n (loops st) i.within, tt));
      }

  length-call_at :
      (f : L → L × List RefSink) (heap : List L) (i : ℕ) → length (call_at f heap i).0 ≡ length heap
  unfolding call_at
  length-call_at f [] i = refl
  length-call_at f (l ∷ heap) zero = refl
  length-call_at f (l ∷ heap) (suc i) = ap suc (length-call_at f heap i)

  -- calls on listeners launch no loop and make no object
  record IsCalled (w v : World L) : Type 0 where
    length_kept : length v.heap ≡ length w.heap
    running_kept : v.running ≡ w.running

  install_all-IsCalled : (ss : List (ℕ × S)) (w : World L) → IsCalled w (install_all ops ss w)
  unfolding install_all
  install_all-IsCalled [] w = record { length_kept = refl; running_kept = refl }
  install_all-IsCalled (s ∷ ss) w =
      let rest = install_all-IsCalled ss (call (ops.install s.1) w s.0) in
      record {
        length_kept = rest.length_kept ∙ length-call_at (ops.install s.1) w.heap s.0;
        running_kept = rest.running_kept;
      }

  close_one-IsCalled :
      (b : Bool) (w : World L) (i : ℕ) → IsCalled w (if b then w else call ops.close w i)
  close_one-IsCalled true w i = record { length_kept = refl; running_kept = refl }
  close_one-IsCalled false w i = record {
    length_kept = length-call_at ops.close w.heap i;
    running_kept = refl;
  }

  close_unkept-IsCalled :
      (kept : List K) (es : List (Entry K L)) (w : World L)
      → IsCalled w (close_unkept ops kept es w)
  unfolding close_unkept
  close_unkept-IsCalled kept [] w = record { length_kept = refl; running_kept = refl }
  close_unkept-IsCalled kept (e ∷ es) w =
      let here = close_one-IsCalled (has_key ops kept e.key) w e.id in
      let rest = close_unkept-IsCalled kept es _ in
      record {
        length_kept = rest.length_kept ∙ here.length_kept;
        running_kept = rest.running_kept ∙ here.running_kept;
      }

  commit_apply-IsLaunched :
      (es : List (Entry K L)) (st : Stage K L S)
      → IsLaunching es st
      → IsLaunched (commit_apply ops (plan_of es st) st.world).1
  unfolding commit_apply
  commit_apply-IsLaunched es st i =
      let installed = install_all-IsCalled st.swaps st.world in
      let closed = close_unkept-IsCalled st.kept es (record (install_all ops st.swaps st.world) {
        running = (install_all ops st.swaps st.world).running ++ st.new_binds;
      }) in
      record {
        existing =
            rw
              (
                closed.running_kept, closed.length_kept, installed.running_kept,
                installed.length_kept,
              )
              i.within;
        once = rw (closed.running_kept, installed.running_kept) i.next_once;
      }

  -- the loops behind the commit of what `PrepareApply` returned
  abbrev pub Launches : Prepared E L (ApplyPlan K L S) → Type 0
  Launches (failed e v) = Unit
  Launches (ready p v) = IsLaunched (commit_apply ops p v).1

  stage_all-Launches :
      (es : List (Entry K L)) (cs : List C) (st : Stage K L S)
      → IsLaunching es st
      → Launches (stage_all ops es cs st)
  unfolding stage_all
  stage_all-Launches es [] st i = commit_apply-IsLaunched es st i
  stage_all-Launches es (c ∷ cs) st i = elim (Sum-cases (ops.build st.world.heap c)) [
    | inl (e, b) ↦ rw (stage_all, b) tt
    | inr (new, b) ↦
        rw (stage_all, b)
          (elim (Sum-cases (stage_one ops es c new (opened_by ops new st))) [
            | inl (e, q) ↦ rw q tt
            | inr (st', q) ↦ rw q (
                stage_all-Launches es cs st' (
                  Move-IsLaunching es c new (opened_by ops new st) st'
                    (record {
                      within = i.within;
                      entries_once = i.entries_once;
                      next_once = i.next_once;
                    })
                    (stage_one-Move ops es c new (opened_by ops new st) st' q)))
          ])
  ]

  if-Launches :
      (b : Bool) (x y : Prepared E L (ApplyPlan K L S))
      → Launches x
      → Launches y
      → Launches (if b then x else y)
  if-Launches true x y p q = p
  if-Launches false x y p q = q

  -- A reload that is committed leaves one accept loop for each listener: the kept ones have theirs, the
  -- new ones get one.
  pub prepare_apply-Launches :
      (w : World L) (cs : List C) → IsLaunched w → Launches (prepare_apply ops w cs)
  unfolding prepare_apply
  prepare_apply-Launches w cs i =
      if-Launches w.started _ _
        (stage_all-Launches (existing_of ops w) cs (nothing_staged w) (record {
          within = rw (append-nil w.running) i.existing;
          entries_once =
              rw (append-nil w.running)
                (existing_from-All (Once w.running) [] w.heap w.listeners i.once tt);
          next_once = tt;
        }))
        tt
