-- ===== src/Reload/Owned.antt =====
-- internal/inbound/server.go and internal/outbound/server.go: what a server's operations owe a reload that fails.
use vsockd.Common.{ℕ, ◌+◌, ◌≡◌, List, ◌++◌, inr, length, All, pos}
use vsockd.Outbound.RefSink.{RefSink}
use vsockd.Reload.{World, Ops}

-- A sink with no reference left, closed once.
pub record IsGone (r : RefSink) : Type 0 where
  pub unreferenced : r.n ≡ pos 0
  pub closed_once : r.closes ≡ 1

-- `n` sinks, and all of them gone
abbrev pub AllGone : ℕ → List RefSink → Type 0
AllGone n rs = All IsGone rs × (length rs ≡ n)

-- What a server's operations owe the reload: a new listener owns the sinks that it opened, and gives
-- all of them up when it is dropped, when the swap made of it is discarded, or when it is closed.
pub record IsOwned {K C L S E : Type 0} (ops : Ops K C L S E) (IsShut : L → Type 0) : Type 0 where
  pub dropped :
      (heap : List L) (c : C) (new : L)
      → ops.build heap c ≡ inr new
      → AllGone (ops.opens new) (ops.drop new)
  pub discarded :
      (heap : List L) (c : C) (new cur : L) (s : S)
      → ops.build heap c ≡ inr new
      → ops.swap_for c new cur ≡ inr s
      → AllGone (ops.opens new) (ops.discard s)
  pub shut :
      (heap : List L) (c : C) (new l : L)
      → ops.build heap c ≡ inr new
      → ops.bind heap new ≡ inr l
      → IsShut (ops.close l).0 × AllGone (ops.opens new) (ops.close l).1

-- `v` is `w` but for objects that are shut and sinks that are closed: as many as have been opened.
pub record Undisturbed {L : Type 0} (IsShut : L → Type 0) (w v : World L) : Type 0 where
  pub litter : List L
  pub sinks : List RefSink
  pub heap_kept : v.heap ≡ w.heap ++ litter
  pub loose_kept : v.loose ≡ w.loose ++ sinks
  pub listeners_kept : v.listeners ≡ w.listeners
  pub running_kept : v.running ≡ w.running
  pub litter_shut : All IsShut litter
  pub sinks_gone : All IsGone sinks
  pub accounted : v.opened ≡ w.opened + length sinks
