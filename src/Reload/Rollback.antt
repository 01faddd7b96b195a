-- ===== src/Reload/Rollback.antt =====
-- internal/inbound/server.go and internal/outbound/server.go: a reload that fails, or is aborted.
use mathlib.Core.List.{append_assoc, append-nil}
use vsockd.Common.{
  ℕ, ◌≡◌, refl, sym, ◌∙◌, Bool, true, false, List, [], ◌∷◌, ◌++◌, inl, inr, map, length, All,
  All-append, if◌then◌else◌, length-append, ◌+◌, ap, arith,
}
use vsockd.Outbound.RefSink.{RefSink}
use vsockd.Reload.{
  World, Ops, Entry, Stage, ApplyPlan, let_go, discard_all, opened_by, release_staged, stage_one,
  Prepared, ready, failed, stage_all, nothing_staged, existing_of, prepare_apply, abort_apply,
}
use vsockd.Reload.Owned.{IsGone, AllGone, IsOwned, Undisturbed}
use vsockd.Reload.Moves.{Move, keeps, binds, Sum-cases, stage_one-Move}
use vsockd.Reload.Heap.{ids, ids-append, after_call, sinks_of, call_all-ids}

module _ {K C L S E : Type 0} (ops : Ops K C L S E) (IsShut : L → Type 0) where
  abbrev Closes : L → Type 0
  Closes l = IsShut (ops.close l).0 × All IsGone (ops.close l).1

  abbrev Discards : ℕ × S → Type 0
  Discards s = All IsGone (ops.discard s.1)

  length-discard_all :
      (ss : List (ℕ × S)) (x : ℕ × S)
      → length (discard_all ops (ss ++ x ∷ []))
        ≡ length (discard_all ops ss) + length (ops.discard x.1)
  length-discard_all [] x = omega (arith, length-append (ops.discard x.1) [])
  length-discard_all (y ∷ ss) x = omega (
    arith,
    length-append (ops.discard y.1) (discard_all ops (ss ++ x ∷ [])),
    length-append (ops.discard y.1) (discard_all ops ss),
    length-discard_all ss x,
  )

  length-sinks_of :
      (ls : List L) (l : L)
      → length (sinks_of ops.close (ls ++ l ∷ []))
        ≡ length (sinks_of ops.close ls) + length (ops.close l).1
  length-sinks_of [] l = omega (arith, length-append (ops.close l).1 [])
  length-sinks_of (k ∷ ls) l = omega (
    arith,
    length-append (ops.close k).1 (sinks_of ops.close (ls ++ l ∷ [])),
    length-append (ops.close k).1 (sinks_of ops.close ls),
    length-sinks_of ls l,
  )

  -- the sinks that a stage would let go of
  abbrev held : List L → List (ℕ × S) → ℕ
  held bound swaps = length (sinks_of ops.close bound) + length (discard_all ops swaps)

  -- what has been staged over the world `w`, with `n` more sinks opened for a listener still to be taken
  record Staged (n : ℕ) (w : World L) (st : Stage K L S) : Type 0 where
    bound : List L
    world_is :
        st.world
        ≡ record w { heap = w.heap ++ bound; opened = w.opened + (held bound st.swaps + n) }
    binds_are : st.new_binds ≡ ids (length w.heap) bound
    bound_close : All Closes bound
    swaps_discard : All Discards st.swaps

  closed-IsShut : (ls : List L) → All Closes ls → All IsShut (map (after_call ops.close) ls)
  closed-IsShut [] a = tt
  closed-IsShut (l ∷ ls) a = (a.0.0, closed-IsShut ls a.1)

  closed-IsGone : (ls : List L) → All Closes ls → All IsGone (sinks_of ops.close ls)
  closed-IsGone [] a = tt
  closed-IsGone (l ∷ ls) a = All-append IsGone (ops.close l).1 _ a.0.1 (closed-IsGone ls a.1)

  discarded-IsGone : (ss : List (ℕ × S)) → All Discards ss → All IsGone (discard_all ops ss)
  discarded-IsGone [] a = tt
  discarded-IsGone (s ∷ ss) a = All-append IsGone (ops.discard s.1) _ a.0 (discarded-IsGone ss a.1)

  release_staged-Undisturbed :
      (n : ℕ) (w : World L) (st : Stage K L S) (rs : List RefSink)
      → Staged n w st
      → AllGone n rs
      → Undisturbed IsShut w (let_go rs (release_staged ops st.new_binds st.swaps st.world))
  unfolding release_staged
  release_staged-Undisturbed n w st rs s g =
      rw
        (
          s.world_is,
          s.binds_are,
          call_all-ids ops.close w.heap s.bound
              (record w {
                heap = w.heap ++ s.bound;
                opened = w.opened + (held s.bound st.swaps + n);
              })
              refl,
        )
        (record {
          litter = map (after_call ops.close) s.bound;
          sinks = sinks_of ops.close s.bound ++ (discard_all ops st.swaps ++ rs);
          heap_kept = refl;
          loose_kept =
              append_assoc (w.loose ++ sinks_of ops.close s.bound) (discard_all ops st.swaps) rs
              ∙ append_assoc w.loose (sinks_of ops.close s.bound) (discard_all ops st.swaps ++ rs);
          listeners_kept = refl;
          running_kept = refl;
          litter_shut = closed-IsShut s.bound s.bound_close;
          sinks_gone =
              All-append IsGone (sinks_of ops.close s.bound) _ (closed-IsGone s.bound s.bound_close)
                (All-append IsGone (discard_all ops st.swaps) rs
                  (discarded-IsGone st.swaps s.swaps_discard) g.0);
          accounted = omega (
            arith,
            length-append (sinks_of ops.close s.bound) (discard_all ops st.swaps ++ rs),
            length-append (discard_all ops st.swaps) rs,
            g.1,
          );
        })

  module _ (laws : IsOwned ops IsShut) where
    Move-Staged :
        (existing : List (Entry K L)) (c : C) (new : L) (w : World L) (st st' : Stage K L S)
        → ops.build st.world.heap c ≡ inr new
        → Staged (ops.opens new) w st
        → Move ops existing c new st st'
        → Staged 0 w st'
    Move-Staged existing c new w st st' b s (keeps e x f q) =
        let gone = laws.discarded st.world.heap c new e.cur x b q in
        record {
          bound = s.bound;
          world_is =
              s.world_is
              ∙ ap (λ (n : ℕ). record w { heap = w.heap ++ s.bound; opened = w.opened + n })
                  (omega (arith, length-discard_all st.swaps (e.id, x), gone.1));
          binds_are = s.binds_are;
          bound_close = s.bound_close;
          swaps_discard = All-append Discards st.swaps _ s.swaps_discard (gone.0, tt);
        }
    Move-Staged existing c new w st st' b s (binds l f q) =
        let gone = laws.shut st.world.heap c new l b q in
        record {
          bound = s.bound ++ l ∷ [];
          world_is =
              ap (λ (v : World L). record v { heap = v.heap ++ l ∷ [] }) s.world_is
              ∙ (ap
                    (λ (n : ℕ). record w {
                      heap = (w.heap ++ s.bound) ++ l ∷ [];
                      opened = w.opened + n;
                    })
                    (omega (arith, length-sinks_of s.bound l, gone.1.1))
                  ∙ ap
                      (λ (hs : List L). record w {
                        heap = hs;
                        opened = w.opened + (held (s.bound ++ l ∷ []) st.swaps + 0);
                      })
                      (append_assoc w.heap s.bound (l ∷ [])));
          binds_are =
              rw
                (
                  s.world_is,
                  s.binds_are,
                  ids-append (length w.heap) s.bound (l ∷ []),
                  length-append w.heap s.bound,
                )
                refl;
          bound_close = All-append Closes s.bound _ s.bound_close ((gone.0, gone.1.0), tt);
          swaps_discard = s.swaps_discard;
        }

    -- the sinks of a listener that has just been built
    opened_by-Staged :
        (new : L) (w : World L) (st : Stage K L S)
        → Staged 0 w st
        → Staged (ops.opens new) w (opened_by ops new st)
    opened_by-Staged new w st s = record {
      bound = s.bound;
      world_is =
          ap (λ (v : World L). record v { opened = v.opened + ops.opens new }) s.world_is
          ∙ ap (λ (n : ℕ). record w { heap = w.heap ++ s.bound; opened = n }) (omega arith);
      binds_are = s.binds_are;
      bound_close = s.bound_close;
      swaps_discard = s.swaps_discard;
    }

    -- a prepared reload that failed, or that is aborted, leaves the world undisturbed
    abbrev pub RollsBack : World L → Prepared E L (ApplyPlan K L S) → Type 0
    RollsBack w (failed e v) = Undisturbed IsShut w v
    RollsBack w (ready p v) = Undisturbed IsShut w (abort_apply ops p v).1

    let_go_nothing : (w v : World L) → Undisturbed IsShut w (let_go [] v) → Undisturbed IsShut w v
    let_go_nothing w v u = record {
      litter = u.litter;
      sinks = u.sinks;
      heap_kept = u.heap_kept;
      loose_kept = sym (append-nil v.loose) ∙ u.loose_kept;
      listeners_kept = u.listeners_kept;
      running_kept = u.running_kept;
      litter_shut = u.litter_shut;
      sinks_gone = u.sinks_gone;
      accounted = u.accounted;
    }

    pub untouched : (w : World L) → Undisturbed IsShut w w
    untouched w = record {
      litter = [];
      sinks = [];
      heap_kept = sym (append-nil w.heap);
      loose_kept = sym (append-nil w.loose);
      listeners_kept = refl;
      running_kept = refl;
      litter_shut = tt;
      sinks_gone = tt;
      accounted = omega arith;
    }

    nothing_staged-Staged : (w : World L) → Staged 0 w (nothing_staged w)
    nothing_staged-Staged w = record {
      bound = [];
      world_is = rw (append-nil w.heap) (ap (λ (n : ℕ). record w { opened = n }) (omega arith));
      binds_are = refl;
      bound_close = tt;
      swaps_discard = tt;
    }

    if-RollsBack :
        (w : World L) (b : Bool) (x y : Prepared E L (ApplyPlan K L S))
        → RollsBack w x
        → RollsBack w y
        → RollsBack w (if b then x else y)
    if-RollsBack w true x y p q = p
    if-RollsBack w false x y p q = q

    stage_all-RollsBack :
        (existing : List (Entry K L)) (cs : List C) (w : World L) (st : Stage K L S)
        → Staged 0 w st
        → RollsBack w (stage_all ops existing cs st)
    unfolding stage_all abort_apply
    stage_all-RollsBack existing [] w st s =
        let_go_nothing w _ (release_staged-Undisturbed 0 w st [] s (tt, refl))
    stage_all-RollsBack existing (c ∷ cs) w st s = elim (Sum-cases (ops.build st.world.heap c)) [
      | inl (e, b) ↦ rw (stage_all, b) (release_staged-Undisturbed 0 w st [] s (tt, refl))
      | inr (new, b) ↦
          let paid = opened_by-Staged new w st s in
          rw (stage_all, b)
            (elim (Sum-cases (stage_one ops existing c new (opened_by ops new st))) [
              | inl (e, q) ↦ rw q (
                  release_staged-Undisturbed (ops.opens new) w (opened_by ops new st) (ops.drop new)
                    paid (laws.dropped st.world.heap c new b))
              | inr (st', q) ↦ rw q (
                  stage_all-RollsBack existing cs w st' (
                    Move-Staged existing c new w (opened_by ops new st) st' b paid
                      (stage_one-Move ops existing c new (opened_by ops new st) st' q)))
            ])
    ]

    -- A reload that cannot be prepared, or that is aborted once it is, leaves the server as it was: the
    -- same listener objects in the same state, its sinks untouched, and every socket and sink that was
    -- opened on the way is closed, and each sink exactly once.
    pub prepare_apply-RollsBack : (w : World L) (cs : List C) → RollsBack w (prepare_apply ops w cs)
    unfolding prepare_apply
    prepare_apply-RollsBack w cs =
        if-RollsBack w w.started _ _
          (stage_all-RollsBack (existing_of ops w) cs w (nothing_staged w)
            (nothing_staged-Staged w))
          (untouched w)
