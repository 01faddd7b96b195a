-- ===== src/Reload.antt =====
-- internal/inbound/server.go and internal/outbound/server.go: the two-phase reload that both servers have,
-- over the operations in which they differ. A listener object is an index into the heap, so that the
-- server, a plan and an accept loop that hold the same pointer see the same object. A reference-counted
-- sink stands in the listener or the plan that owns it, and goes to `loose` when its owner lets go of it.
pub mod Heap
pub mod Moves
pub mod Owned
pub mod Rollback
pub mod Served
pub mod Staging
pub mod Commit
pub mod Life
pub mod Started
pub mod Retired
pub mod Launched
pub mod Launching
pub mod Replaced
use vsockd.Common.{
  ◌+◌, ℕ, zero, suc, Bool, true, false, Option, none, some, List, [], ◌∷◌, ◌++◌, ◌⊎◌, inl, inr,
  if◌then◌else◌, ◌||◌, ◌&&◌, not, length, get_elem?,
}
use vsockd.Outbound.RefSink.{RefSink}

pub record World (L : Type 0) : Type 0 where
  pub heap : List L
  pub loose : List RefSink
  -- how many sinks have been opened: no field of the server, but what the process has open
  pub opened : ℕ
  -- `s.listeners`, the listeners whose accept loop has been launched, and whether `s.ctx` is set
  pub listeners : List ℕ
  pub running : List ℕ
  pub started : Bool

-- What the two servers do in their own way. `C` is one configured listener with its section and index;
-- the outcomes of the system calls may depend on what is open, the heap.
pub record Ops (K C L S E : Type 0) : Type 0 where
  pub same : K → K → Bool
  pub key : L → K
  pub before_start : E
  -- `newHTTPListener` and its like
  pub build : List L → C → E ⊎ L
  -- how many sinks a new listener has opened
  pub opens : L → ℕ
  -- the new listener against the one that has its key: what to swap
  pub swap_for : C → L → L → E ⊎ S
  -- why a new key cannot be bound next to the existing listeners
  pub refuse : List L → C → L → Option E
  pub bind : List L → L → E ⊎ L
  pub install : S → L → L × List RefSink
  pub close : L → L × List RefSink
  -- the sinks that an abandoned swap, and an abandoned new listener, let go of
  pub discard : S → List RefSink
  pub drop : L → List RefSink

-- an entry of the map `existing`
pub record Entry (K L : Type 0) : Type 0 where
  pub key : K
  pub id : ℕ
  pub cur : L

pub record Stage (K L S : Type 0) : Type 0 where
  pub world : World L
  pub next : List ℕ
  pub new_binds : List ℕ
  pub swaps : List (ℕ × S)
  pub kept : List K

-- `ApplyPlan`
pub record ApplyPlan (K L S : Type 0) : Type 0 where
  pub next : List ℕ
  pub new_binds : List ℕ
  pub swaps : List (ℕ × S)
  pub existing : List (Entry K L)
  pub kept : List K
  pub committed : Bool
  pub aborted : Bool

-- a method call on the object at an index
unfoldable pub call_at : {L : Type 0} → (L → L × List RefSink) → List L → ℕ → List L × List RefSink
call_at f [] i = ([], [])
call_at f (l ∷ ls) zero = ((f l).0 ∷ ls, (f l).1)
call_at f (l ∷ ls) (suc i) = (l ∷ (call_at f ls i).0, (call_at f ls i).1)

abbrev pub call : {L : Type 0} → (L → L × List RefSink) → World L → ℕ → World L
call f w i = record w { heap = (call_at f w.heap i).0; loose = w.loose ++ (call_at f w.heap i).1 }

unfoldable pub call_all : {L : Type 0} → (L → L × List RefSink) → List ℕ → World L → World L
call_all f [] w = w
call_all f (i ∷ is) w = call_all f is (call f w i)

abbrev pub let_go : {L : Type 0} → List RefSink → World L → World L
let_go rs w = record w { loose = w.loose ++ rs }

abbrev pub objects : {K L : Type 0} → List (Entry K L) → List L
objects [] = []
objects (e ∷ es) = e.cur ∷ objects es

abbrev pub keep_with : {K L S E : Type 0} → Stage K L S → Entry K L → E ⊎ S → E ⊎ Stage K L S
keep_with st e (inl err) = inl err
keep_with st e (inr s) = inr (record st {
  next = st.next ++ e.id ∷ [];
  swaps = st.swaps ++ (e.id, s) ∷ [];
  kept = st.kept ++ e.key ∷ [];
})

abbrev pub add_bound : {K L S E : Type 0} → Stage K L S → E ⊎ L → E ⊎ Stage K L S
add_bound st (inl err) = inl err
add_bound st (inr l) = inr (record st {
  world = record st.world { heap = st.world.heap ++ l ∷ [] };
  next = st.next ++ length st.world.heap ∷ [];
  new_binds = st.new_binds ++ length st.world.heap ∷ [];
})

abbrev pub plan_of : {K L S : Type 0} → List (Entry K L) → Stage K L S → ApplyPlan K L S
plan_of existing st = record {
  next = st.next;
  new_binds = st.new_binds;
  swaps = st.swaps;
  existing = existing;
  kept = st.kept;
  committed = false;
  aborted = false;
}

abbrev pub nothing_staged : {K L S : Type 0} → World L → Stage K L S
nothing_staged w = record { world = w; next = []; new_binds = []; swaps = []; kept = [] }

module _ {K C L S E : Type 0} (ops : Ops K C L S E) where
  -- `existing[k] = ln`, the latest entry last
  unfoldable pub put_entry : List (Entry K L) → Entry K L → List (Entry K L)
  put_entry [] e = e ∷ []
  put_entry (x ∷ xs) e =
      let rest = put_entry xs e in if ops.same x.key e.key then rest else x ∷ rest

  abbrev put_listener : List (Entry K L) → ℕ → Option L → List (Entry K L)
  put_listener es id none = es
  put_listener es id (some l) = put_entry es (record { key = ops.key l; id = id; cur = l })

  unfoldable pub existing_from : List (Entry K L) → List L → List ℕ → List (Entry K L)
  existing_from es heap [] = es
  existing_from es heap (id ∷ ids) = existing_from (put_listener es id (get_elem? heap id)) heap ids

  unfoldable pub find_entry : List (Entry K L) → K → Option (Entry K L)
  find_entry [] k = none
  find_entry (e ∷ es) k = if ops.same e.key k then some e else find_entry es k

  unfoldable pub has_key : List K → K → Bool
  has_key [] k = false
  has_key (x ∷ xs) k = ops.same x k || has_key xs k

  abbrev pub discard_all : List (ℕ × S) → List RefSink
  discard_all [] = []
  discard_all (s ∷ ss) = ops.discard s.1 ++ discard_all ss

  -- the closure `cleanup`, and the body of `AbortApply`
  unfoldable pub release_staged : List ℕ → List (ℕ × S) → World L → World L
  release_staged new_binds swaps w = let_go (discard_all swaps) (call_all ops.close new_binds w)

  -- the closure `apply`
  unfoldable pub stage_one : List (Entry K L) → C → L → Stage K L S → E ⊎ Stage K L S
  stage_one existing c new st = elim (find_entry existing (ops.key new)) [
    | some e ↦ keep_with st e (ops.swap_for c new e.cur)
    | none ↦ elim (ops.refuse (objects existing) c new) [
      | some err ↦ inl err
      | none ↦ add_bound st (ops.bind st.world.heap new)
    ]
  ]

-- what `PrepareApply` returns, with the world behind it
pub data Prepared (E L P : Type 0) : Type 0 where
  ready : P → World L → Prepared E L P
  failed : E → World L → Prepared E L P

module _ {K C L S E : Type 0} (ops : Ops K C L S E) where
  abbrev pub give_up : {P : Type 0} → Stage K L S → List RefSink → E → Prepared E L P
  give_up st rs e = failed e (let_go rs (release_staged ops st.new_binds st.swaps st.world))

  -- the sinks of a listener that has just been built
  abbrev pub opened_by : L → Stage K L S → Stage K L S
  opened_by new st = record st {
    world = record st.world { opened = st.world.opened + ops.opens new };
  }

  -- the loops over the new configuration, one after another
  unfoldable pub stage_all :
      List (Entry K L) → List C → Stage K L S → Prepared E L (ApplyPlan K L S)
  unfolding stage_one
  stage_all existing [] st = ready (plan_of existing st) st.world
  stage_all existing (c ∷ cs) st = elim (ops.build st.world.heap c) [
    | inl e ↦ give_up st [] e
    | inr new ↦ elim (stage_one ops existing c new (opened_by new st)) [
      | inl e ↦ give_up (opened_by new st) (ops.drop new) e
      | inr st' ↦ stage_all existing cs st'
    ]
  ]

  abbrev pub existing_of : World L → List (Entry K L)
  existing_of w = existing_from ops [] w.heap w.listeners

  -- `PrepareApply`
  unfoldable pub prepare_apply : World L → List C → Prepared E L (ApplyPlan K L S)
  unfolding stage_all
  prepare_apply w cs =
      if w.started
      then stage_all (existing_of w) cs (nothing_staged w)
      else failed ops.before_start w

  unfoldable pub install_all : List (ℕ × S) → World L → World L
  install_all [] w = w
  install_all (s ∷ ss) w = install_all ss (call (ops.install s.1) w s.0)

  unfoldable pub close_unkept : List K → List (Entry K L) → World L → World L
  close_unkept kept [] w = w
  close_unkept kept (e ∷ es) w =
      close_unkept kept es (if has_key ops kept e.key then w else call ops.close w e.id)

  -- `CommitApply`
  unfoldable pub commit_apply : ApplyPlan K L S → World L → ApplyPlan K L S × World L
  unfolding install_all close_unkept
  commit_apply p w =
      let installed = install_all p.swaps w in
      let launched = record installed { running = installed.running ++ p.new_binds } in
      let closed = close_unkept p.kept p.existing launched in
      if p.committed || p.aborted
      then (p, w)
      else (record p { committed = true }, record closed { listeners = p.next })

  -- `AbortApply`
  unfoldable pub abort_apply : ApplyPlan K L S → World L → ApplyPlan K L S × World L
  unfolding release_staged
  abort_apply p w =
      if p.committed || p.aborted
      then (p, w)
      else (record p { aborted = true }, release_staged ops p.new_binds p.swaps w)

  abbrev commit_prepared : Prepared E L (ApplyPlan K L S) → Option E × World L
  commit_prepared (failed e w) = (some e, w)
  commit_prepared (ready p w) = (none, (commit_apply p w).1)

  -- `Apply`
  unfoldable pub apply : World L → List C → Option E × World L
  unfolding prepare_apply commit_apply
  apply w cs = commit_prepared (prepare_apply w cs)
