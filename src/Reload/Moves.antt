-- ===== src/Reload/Moves.antt =====
-- internal/inbound/server.go and internal/outbound/server.go: the two ways in which the closure `apply` of
-- `PrepareApply` takes a new listener.
use vsockd.Common.{
  ◌≡◌, refl, Option, none, some, List, [], ◌∷◌, ◌++◌, ◌⊎◌, inl, inr, length, Option-cases,
}
use vsockd.Reload.{Ops, Entry, Stage, find_entry, keep_with, add_bound, stage_one, objects}

pub inr-injective : {A B : Type 0} {x y : B} → ◌≡◌ {A = A ⊎ B} (inr x) (inr y) → x ≡ y
inr-injective e = cc

pub inl_not_inr : {A B : Type 0} {x : A} {y : B} → ◌≡◌ {A = A ⊎ B} (inl x) (inr y) → ⊥
inl_not_inr e = cc

pub Sum-cases : {A B : Type 0} (r : A ⊎ B) → ((a : A) × (r ≡ inl a)) ⊎ ((b : B) × (r ≡ inr b))
Sum-cases (inl a) = inl (a, refl)
Sum-cases (inr b) = inr (b, refl)

module _ {K C L S E : Type 0} (ops : Ops K C L S E) where
  pub data Move (existing : List (Entry K L)) (c : C) (new : L) (st : Stage K L S)
      : Stage K L S → Type 0 where
    keeps :
        (e : Entry K L) (s : S)
        → find_entry ops existing (ops.key new) ≡ some e
        → ops.swap_for c new e.cur ≡ inr s
        → Move existing c new st (record st {
          next = st.next ++ e.id ∷ [];
          swaps = st.swaps ++ (e.id, s) ∷ [];
          kept = st.kept ++ e.key ∷ [];
        })
    binds :
        (l : L)
        → find_entry ops existing (ops.key new) ≡ none
        → ops.bind st.world.heap new ≡ inr l
        → Move existing c new st (record st {
          world = record st.world { heap = st.world.heap ++ l ∷ [] };
          next = st.next ++ length st.world.heap ∷ [];
          new_binds = st.new_binds ++ length st.world.heap ∷ [];
        })

  keep_with-Move :
      (existing : List (Entry K L)) (c : C) (new : L) (st st' : Stage K L S) (e : Entry K L)
      (r : E ⊎ S)
      → find_entry ops existing (ops.key new) ≡ some e
      → ops.swap_for c new e.cur ≡ r
      → keep_with st e r ≡ inr st'
      → Move existing c new st st'
  keep_with-Move existing c new st st' e (inl err) f s q = cc
  keep_with-Move existing c new st st' e (inr x) f s q = rw (← inr-injective q) (keeps e x f s)

  add_bound-Move :
      (existing : List (Entry K L)) (c : C) (new : L) (st st' : Stage K L S) (r : E ⊎ L)
      → find_entry ops existing (ops.key new) ≡ none
      → ops.bind st.world.heap new ≡ r
      → add_bound st r ≡ inr st'
      → Move existing c new st st'
  add_bound-Move existing c new st st' (inl err) f b q = cc
  add_bound-Move existing c new st st' (inr l) f b q = rw (← inr-injective q) (binds l f b)

  bind-Move :
      (existing : List (Entry K L)) (c : C) (new : L) (st st' : Stage K L S) (r : Option E)
      → find_entry ops existing (ops.key new) ≡ none
      → elim r [ some err ↦ inl err | none ↦ add_bound st (ops.bind st.world.heap new) ] ≡ inr st'
      → Move existing c new st st'
  bind-Move existing c new st st' (some err) f q = cc
  bind-Move existing c new st st' none f q = add_bound-Move existing c new st st' _ f refl q

  pub stage_one-Move :
      (existing : List (Entry K L)) (c : C) (new : L) (st st' : Stage K L S)
      → stage_one ops existing c new st ≡ inr st'
      → Move existing c new st st'
  unfolding stage_one
  stage_one-Move existing c new st st' q =
      elim (Option-cases (find_entry ops existing (ops.key new))) [
        | inr (e, f) ↦ keep_with-Move existing c new st st' e _ f refl (rw (stage_one, f) at q)
        | inl f ↦
            bind-Move existing c new st st' (ops.refuse (objects existing) c new) f
              (rw (stage_one, f) at q)
      ]
