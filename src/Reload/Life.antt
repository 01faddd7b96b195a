-- ===== src/Reload/Life.antt =====
-- internal/inbound/server.go and internal/outbound/server.go: the start and the shutdown that both servers
-- have. The wait for the handlers and the cancelled contexts are left out: only listeners are followed.
use vsockd.Common.{
  ◌+◌, ℕ, Option, none, some, List, [], ◌∷◌, ◌++◌, ◌⊎◌, inl, inr, true, false, set, length,
  get_elem?,
}
use vsockd.Outbound.RefSink.{RefSink}
use vsockd.Reload.{World, Ops, call_all}

module _ {K C L S E : Type 0} (ops : Ops K C L S E) where
  -- the result of `ln.bind()` at the index `i`, put back into the object
  abbrev pub bound_at : World L → ℕ → E ⊎ L → E ⊎ World L
  bound_at w i (inl e) = inl e
  bound_at w i (inr l) = inr (record w { heap = set w.heap i l })

  abbrev pub bind_object : World L → ℕ → Option L → E ⊎ World L
  bind_object w i none = inr w
  bind_object w i (some l) = bound_at w i (ops.bind w.heap l)

  -- the loop of `Start` that binds
  unfoldable pub bind_all : List ℕ → World L → Option E × World L
  bind_all [] w = (none, w)
  bind_all (i ∷ is) w = elim (bind_object w i (get_elem? w.heap i)) [
    | inl e ↦ (some e, w)
    | inr w' ↦ bind_all is w'
  ]

  abbrev pub launch_or_close : Option E × World L → Option E × World L
  launch_or_close (some e, w) = (some e, call_all ops.close w.listeners w)
  launch_or_close (none, w) = (none, record w { running = w.running ++ w.listeners })

  -- `Start`
  unfoldable pub start : World L → Option E × World L
  unfolding bind_all
  start w = launch_or_close (bind_all w.listeners (record w { started = true }))

  -- what `Shutdown` does to the listeners
  unfoldable pub shutdown : World L → World L
  shutdown w = call_all ops.close w.listeners w

  abbrev pub dropped : List L → List RefSink
  dropped [] = []
  dropped (l ∷ ls) = ops.drop l ++ dropped ls

  -- the loops of `NewServer`; a failure lets go of what `drop` gives for each listener built so far
  unfoldable pub build_all : World L → List C → (E × List RefSink) ⊎ World L
  build_all w [] = inr w
  build_all w (c ∷ cs) = elim (ops.build w.heap c) [
    | inl e ↦ inl (e, dropped w.heap)
    | inr l ↦
        build_all
          (record w {
            heap = w.heap ++ l ∷ [];
            listeners = w.listeners ++ length w.heap ∷ [];
            opened = w.opened + ops.opens l;
          })
          cs
  ]

  abbrev pub empty_world : World L
  empty_world = record {
    heap = [];
    loose = [];
    opened = 0;
    listeners = [];
    running = [];
    started = false;
  }

  -- `NewServer`, on arguments that are not nil
  unfoldable pub new_server : List C → (E × List RefSink) ⊎ World L
  unfolding build_all
  new_server cs = build_all empty_world cs
