-- ===== src/Reload/Started.antt =====
-- internal/inbound/server.go and internal/outbound/server.go: a server that has been built and started.
use mathlib.Core.List.{append_assoc, append-nil}
use vsockd.Common.{
  ◌+◌, ℕ, suc, ◌≡◌, refl, sym, ap, ◌∙◌, Option, none, some, List, [], ◌∷◌, ◌++◌, ◌⊎◌, inl, inr, set,
  length, All2, All2-concat, get_elem?, true, arith,
}
use vsockd.Reload.{World, Ops}
use vsockd.Reload.Heap.{ids, ids-append}
use vsockd.Reload.Life.{
  bound_at, bind_all, launch_or_close, start, build_all, new_server, empty_world,
}
use vsockd.Reload.Moves.{inr-injective, inl_not_inr, Sum-cases}
use vsockd.Reload.Served.{IsServing}
use vsockd.Reload.Commit.{ServedAt}
use vsockd.Reload.Launched.{IsLaunched, ids-IsLaunched}

pub some_not_none :
    {E W : Type 0} {e : E} {w v : W} → ◌≡◌ {A = Option E × W} (some e, w) (none, v) → ⊥
some_not_none q = cc

module _ {L : Type 0} where
  get_elem?-at : (xs ys : List L) (l : L) → get_elem? (xs ++ l ∷ ys) (length xs) ≡ some l
  get_elem?-at [] ys l = refl
  get_elem?-at (x ∷ xs) ys l = get_elem?-at xs ys l

  set-at : (xs ys : List L) (l m : L) → set (xs ++ l ∷ ys) (length xs) m ≡ xs ++ m ∷ ys
  set-at [] ys l m = refl
  set-at (x ∷ xs) ys l m = ap (λ zs. x ∷ zs) (set-at xs ys l m)

  length-snoc : (xs : List L) (x : L) → length (xs ++ x ∷ []) ≡ suc (length xs)
  length-snoc [] x = refl
  length-snoc (y ∷ xs) x = ap suc (length-snoc xs x)

module _ {K C L S E : Type 0} (ops : Ops K C L S E) where
  -- `l` came from `build`, or from `bind`, with some listeners open
  abbrev BuiltFrom : C → L → Type 0
  BuiltFrom c l = (heap : List L) × (ops.build heap c ≡ inr l)

  abbrev BoundFrom : L → L → Type 0
  BoundFrom l m = (heap : List L) × (ops.bind heap l ≡ inr m)

  record IsBuilt (cs : List C) (w : World L) : Type 0 where
    listeners_are : w.listeners ≡ ids 0 w.heap
    built : All2 BuiltFrom cs w.heap
    not_running : w.running ≡ []

  build_all-IsBuilt :
      (done cs : List C) (w v : World L)
      → IsBuilt done w
      → build_all ops w cs ≡ inr v
      → IsBuilt (done ++ cs) v
  unfolding build_all
  build_all-IsBuilt done [] w v i e = rw (← inr-injective e, append-nil done) i
  build_all-IsBuilt done (c ∷ cs) w v i e = elim (Sum-cases (ops.build w.heap c)) [
    | inl (x, b) ↦ absurd (inl_not_inr (rw (build_all, b) at e))
    | inr (l, b) ↦
        let w' = record w {
          heap = w.heap ++ l ∷ [];
          listeners = w.listeners ++ length w.heap ∷ [];
          opened = w.opened + ops.opens l;
        } in
        rw (← append_assoc done (c ∷ []) cs) (
          build_all-IsBuilt (done ++ c ∷ []) cs w' v
            (record {
              listeners_are =
                  rw (ids-append 0 w.heap (l ∷ []), i.listeners_are)
                    (ap (λ (n : ℕ). ids 0 w.heap ++ n ∷ []) (omega arith));
              built = All2-concat BuiltFrom done w.heap c l i.built (w.heap, b);
              not_running = i.not_running;
            })
            (rw (build_all, b) at e))
  ]

  record IsBoundFrom (pre post : List L) (w v : World L) : Type 0 where
    bound : List L
    heap_is : v.heap ≡ pre ++ bound
    each : All2 BoundFrom post bound
    listeners_kept : v.listeners ≡ w.listeners
    running_kept : v.running ≡ w.running

  bind_one-IsBoundFrom :
      (pre : List L) (l : L) (post : List L) (w v : World L) (r : E ⊎ L)
      → ops.bind w.heap l ≡ r
      → w.heap ≡ pre ++ l ∷ post
      → ((pre' : List L) (w' : World L)
          → w'.heap ≡ pre' ++ post
          → bind_all ops (ids (length pre') post) w' ≡ (none, v)
          → IsBoundFrom pre' post w' v)
      → ◌≡◌ {A = Option E × World L}
          (elim (bound_at ops w (length pre) r) [
            | inl e ↦ (some e, w)
            | inr w' ↦ bind_all ops (ids (suc (length pre)) post) w'
          ])
          (none, v)
      → IsBoundFrom pre (l ∷ post) w v
  bind_one-IsBoundFrom pre l post w v (inl x) b h ih e = absurd (some_not_none e)
  bind_one-IsBoundFrom pre l post w v (inr m) b h ih e =
      let w' = record w { heap = set w.heap (length pre) m } in
      let heap_now : w'.heap ≡ (pre ++ m ∷ []) ++ post =
        rw (h, set-at pre post l m) (sym (append_assoc pre (m ∷ []) post)) in
      let rest = ih (pre ++ m ∷ []) w' heap_now (rw (length-snoc pre m) e) in
      record {
        bound = m ∷ rest.bound;
        heap_is = rest.heap_is ∙ append_assoc pre (m ∷ []) rest.bound;
        each = ((w.heap, b), rest.each);
        listeners_kept = rest.listeners_kept;
        running_kept = rest.running_kept;
      }

  bind_all-IsBoundFrom :
      (pre post : List L) (w v : World L)
      → w.heap ≡ pre ++ post
      → bind_all ops (ids (length pre) post) w ≡ (none, v)
      → IsBoundFrom pre post w v
  unfolding bind_all
  bind_all-IsBoundFrom pre [] w v h e =
      rw (← ap (λ r. r.1) e)
        (record { bound = []; heap_is = h; each = tt; listeners_kept = refl; running_kept = refl })
  bind_all-IsBoundFrom pre (l ∷ post) w v h e =
      let here : get_elem? w.heap (length pre) ≡ some l = rw h (get_elem?-at pre post l) in
      bind_one-IsBoundFrom pre l post w v (ops.bind w.heap l) refl h
        (λ pre' w' h' e'. bind_all-IsBoundFrom pre' post w' v h' e') (rw (bind_all, here) at e)

  ids-All2 : (n : ℕ) (xs ys : List L) → All2 BoundFrom xs ys → ids n xs ≡ ids n ys
  ids-All2 n [] [] a = refl
  ids-All2 n [] (_ ∷ _) a = elim a [ ]
  ids-All2 n (_ ∷ _) [] a = elim a [ ]
  ids-All2 n (x ∷ xs) (y ∷ ys) a = ap (λ is. n ∷ is) (ids-All2 (suc n) xs ys a.1)

  started-IsLaunched :
      (cs : List C) (w v : World L) (r : Option E × World L)
      → IsBuilt cs w
      → bind_all ops w.listeners (record w { started = true }) ≡ r
      → launch_or_close ops r ≡ (none, v)
      → IsLaunched v
  started-IsLaunched cs w v (some x, u) i q e = absurd (some_not_none e)
  started-IsLaunched cs w v (none, u) i q e =
      let b =
        bind_all-IsBoundFrom [] w.heap (record w { started = true }) u refl
          (ap (λ is. bind_all ops is (record w { started = true })) (sym i.listeners_are) ∙ q) in
      let listed : u.listeners ≡ ids 0 u.heap =
        rw (b.listeners_kept, i.listeners_are, b.heap_is) (ids-All2 0 w.heap b.bound b.each) in
      rw (← ap (λ r. r.1) e) (
        ids-IsLaunched (record u { running = u.running ++ u.listeners }) listed
          (rw (b.running_kept, i.not_running) listed))

  -- a server that has started has launched one accept loop for each listener
  pub start-IsLaunched :
      (cs : List C) (w v : World L)
      → new_server ops cs ≡ inr w
      → start ops w ≡ (none, v)
      → IsLaunched v
  unfolding new_server start
  start-IsLaunched cs w v n e =
      started-IsLaunched cs w v _
        (build_all-IsBuilt [] cs (empty_world ops) w
          (record { listeners_are = refl; built = tt; not_running = refl }) n)
        refl e

  module _ (key_of : C → K) (IsOpen : L → Type 0) (Serves : C → L → Type 0)
      (laws : IsServing ops key_of IsOpen Serves) where
    both-Serves :
        (cs : List C) (news olds : List L)
        → All2 BuiltFrom cs news
        → All2 BoundFrom news olds
        → All2 Serves cs olds
    both-Serves [] [] [] a b = tt
    both-Serves [] [] (_ ∷ _) a b = elim b [ ]
    both-Serves [] (_ ∷ _) olds a b = elim a [ ]
    both-Serves (_ ∷ _) [] olds a b = elim a [ ]
    both-Serves (_ ∷ _) (_ ∷ _) [] a b = elim b [ ]
    both-Serves (c ∷ cs) (n ∷ news) (l ∷ olds) a b =
        (laws.bound a.0.0 b.0.0 c n l a.0.1 b.0.1, both-Serves cs news olds a.1 b.1)

    ids-ServedAt :
        (pre : List L) (cs : List C) (ls : List L) (w : World L)
        → w.heap ≡ pre ++ ls
        → All2 Serves cs ls
        → All2 (ServedAt ops key_of IsOpen Serves laws w) cs (ids (length pre) ls)
    ids-ServedAt pre [] [] w h a = tt
    ids-ServedAt pre [] (_ ∷ _) w h a = elim a [ ]
    ids-ServedAt pre (_ ∷ _) [] w h a = elim a [ ]
    ids-ServedAt pre (c ∷ cs) (l ∷ ls) w h a =
        let rest =
          ids-ServedAt (pre ++ l ∷ []) cs ls w (h ∙ sym (append_assoc pre (l ∷ []) ls)) a.1 in
        ((l, rw h (get_elem?-at pre ls l), a.0), rw (← length-snoc pre l) rest)

    started-Serves :
        (cs : List C) (w v : World L) (r : Option E × World L)
        → IsBuilt cs w
        → bind_all ops w.listeners (record w { started = true }) ≡ r
        → launch_or_close ops r ≡ (none, v)
        → All2 (ServedAt ops key_of IsOpen Serves laws v) cs v.listeners
    started-Serves cs w v (some x, u) i q e = absurd (some_not_none e)
    started-Serves cs w v (none, u) i q e =
        let b =
          bind_all-IsBoundFrom [] w.heap (record w { started = true }) u refl
            (ap (λ is. bind_all ops is (record w { started = true })) (sym i.listeners_are) ∙ q) in
        let served =
          ids-ServedAt [] cs b.bound u b.heap_is (both-Serves cs w.heap b.bound i.built b.each) in
        rw (← ap (λ r. r.1) e, b.listeners_kept, i.listeners_are, ids-All2 0 w.heap b.bound b.each)
          served

    -- a server that was built from `cs` and has started serves all of `cs`
    pub start-Serves :
        (cs : List C) (w v : World L)
        → new_server ops cs ≡ inr w
        → start ops w ≡ (none, v)
        → All2 (ServedAt ops key_of IsOpen Serves laws v) cs v.listeners
    unfolding new_server start
    start-Serves cs w v n e =
        started-Serves cs w v _
          (build_all-IsBuilt [] cs (empty_world ops) w
            (record { listeners_are = refl; built = tt; not_running = refl }) n)
          refl e
