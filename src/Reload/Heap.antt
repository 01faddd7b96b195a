-- ===== src/Reload/Heap.antt =====
-- Calls on the objects of a heap.
use mathlib.Core.List.{append_assoc, append-nil}
use vsockd.Common.{
  ℕ, zero, suc, ◌+◌, ◌≡◌, ◌≢◌, refl, sym, ap, ◌∙◌, List, [], ◌∷◌, ◌++◌, map, length, get_elem?,
  some, arith,
}
use vsockd.Outbound.RefSink.{RefSink}
use vsockd.Reload.{World, call_at, call, call_all}

module _ {L : Type 0} where
  -- the indices of objects that stand one behind another, from `n` on
  abbrev pub ids : ℕ → List L → List ℕ
  ids n [] = []
  ids n (l ∷ ls) = n ∷ ids (suc n) ls

  pub ids-append : (n : ℕ) (xs ys : List L) → ids n (xs ++ ys) ≡ ids n xs ++ ids (n + length xs) ys
  ids-append n [] ys = ap (λ k. ids k ys) (omega arith)
  ids-append n (x ∷ xs) ys =
      ap (λ is. n ∷ is) (ids-append (suc n) xs ys)
      ∙ ap (λ (k : ℕ). n ∷ (ids (suc n) xs ++ ids k ys)) (omega arith)

module _ {L : Type 0} (f : L → L × List RefSink) where
  abbrev pub after_call : L → L
  after_call l = (f l).0

  abbrev pub sinks_of : List L → List RefSink
  sinks_of [] = []
  sinks_of (l ∷ ls) = (f l).1 ++ sinks_of ls

  call_at-here :
      (xs ys : List L) (l : L)
      → call_at f (xs ++ l ∷ ys) (length xs) ≡ (xs ++ (f l).0 ∷ ys, (f l).1)
  unfolding call_at
  call_at-here [] ys l = refl
  call_at-here (x ∷ xs) ys l = rw (call_at-here xs ys l) refl

  call-here :
      (xs ys : List L) (l : L) (w : World L)
      → w.heap ≡ xs ++ l ∷ ys
      → call f w (length xs) ≡ record w { heap = xs ++ (f l).0 ∷ ys; loose = w.loose ++ (f l).1 }
  call-here xs ys l w h = rw (h, call_at-here xs ys l) refl

  length-concat : (xs : List L) (x : L) → length (xs ++ x ∷ []) ≡ suc (length xs)
  length-concat [] x = refl
  length-concat (y ∷ xs) x = ap suc (length-concat xs x)

  -- a call on each of the last objects of the heap
  pub call_all-ids :
      (xs ys : List L) (w : World L)
      → w.heap ≡ xs ++ ys
      → call_all f (ids (length xs) ys) w
        ≡ record w { heap = xs ++ map after_call ys; loose = w.loose ++ sinks_of ys }
  unfolding call_all
  call_all-ids xs [] w h = rw (append-nil w.loose) (ap (λ (hs : List L). record w { heap = hs }) h)
  call_all-ids xs (l ∷ ys) w h =
      let w' = record w { heap = xs ++ (f l).0 ∷ ys; loose = w.loose ++ (f l).1 } in
      let ih = call_all-ids (xs ++ (f l).0 ∷ []) ys w' (sym (append_assoc xs ((f l).0 ∷ []) ys)) in
      let step : call_all f (ids (suc (length xs)) ys) w' ≡ record w {
        heap = xs ++ map after_call (l ∷ ys);
        loose = w.loose ++ sinks_of (l ∷ ys);
      } =
        ap (λ (n : ℕ). call_all f (ids n ys) w') (sym (length-concat xs (f l).0))
        ∙ (ih
            ∙ rw
                (
                  append_assoc xs ((f l).0 ∷ []) (map after_call ys),
                  append_assoc w.loose (f l).1 (sinks_of ys),
                )
                refl) in
      ap (call_all f (ids (suc (length xs)) ys)) (call-here xs ys l w h) ∙ step

  pub call_at-get_other :
      (heap : List L) (i j : ℕ) → i ≢ j → get_elem? (call_at f heap i).0 j ≡ get_elem? heap j
  unfolding call_at
  call_at-get_other [] i j n = refl
  call_at-get_other (x ∷ heap) zero zero n = absurd (n refl)
  call_at-get_other (x ∷ heap) zero (suc j) n = refl
  call_at-get_other (x ∷ heap) (suc i) zero n = refl
  call_at-get_other (x ∷ heap) (suc i) (suc j) n = call_at-get_other heap i j (λ e. n (ap suc e))

  pub call_at-get_same :
      (heap : List L) (i : ℕ) (l : L)
      → get_elem? heap i ≡ some l
      → get_elem? (call_at f heap i).0 i ≡ some (f l).0
  unfolding call_at
  call_at-get_same [] i l e = cc
  call_at-get_same (x ∷ heap) zero l e = ground arith
  call_at-get_same (x ∷ heap) (suc i) l e = call_at-get_same heap i l e
