-- ===== src/Reload/Retired.antt =====
-- internal/inbound/server.go and internal/outbound/server.go: the listeners that a committed reload retires.
use vsockd.Common.{
  ℕ, ◌≡◌, ◌≢◌, refl, sym, ◌∙◌, Bool, true, false, Option, none, some, List, [], ◌∷◌, inl, inr, ◌==◌,
  if◌then◌else◌, All, Any, here, there, get_elem?, tests, Bool-cases,
}
use vsockd.Reload.{
  World, Ops, Entry, call, put_entry, put_listener, existing_from, has_key, close_unkept,
}
use vsockd.Reload.Heap.{call_at-get_other, call_at-get_same}

module _ {K C L S E : Type 0} (ops : Ops K C L S E)
    (same_sound : (j k : K) → ops.same j k ≡ true → j ≡ k) where
  -- an entry at the index `i` under the key `k`
  abbrev pub IsAt : ℕ → K → Entry K L → Type 0
  IsAt i k e = (e.id ≡ i) × (e.key ≡ k)

  put_entry-new :
      (es : List (Entry K L)) (e : Entry K L) → Any (IsAt e.id e.key) (put_entry ops es e)
  unfolding put_entry
  put_entry-new [] e = here (refl, refl)
  put_entry-new (x ∷ es) e = elim (Bool-cases (ops.same x.key e.key)) [
    | inl s ↦ rw s (put_entry-new es e)
    | inr s ↦ rw s (there (put_entry-new es e))
  ]

  put_entry-old :
      (e : Entry K L) (i : ℕ) (k : K) (es : List (Entry K L))
      → k ≢ e.key
      → Any (IsAt i k) es
      → Any (IsAt i k) (put_entry ops es e)
  unfolding put_entry
  put_entry-old e i k [] n a = elim a [ ]
  put_entry-old e i k (x ∷ es) n (here a) = elim (Bool-cases (ops.same x.key e.key)) [
    | inl s ↦ absurd (n (sym a.1 ∙ same_sound x.key e.key s))
    | inr s ↦ rw s (here a)
  ]
  put_entry-old e i k (x ∷ es) n (there a) = elim (Bool-cases (ops.same x.key e.key)) [
    | inl s ↦ rw s (put_entry-old e i k es n a)
    | inr s ↦ rw s (there (put_entry-old e i k es n a))
  ]

  -- the object at the index `j`, if there is one, has another key than `k`
  abbrev pub OnlyAt : List L → K → ℕ → Type 0
  OnlyAt heap k j = (l : L) → get_elem? heap j ≡ some l → k ≢ ops.key l

  put_listener-old :
      (heap : List L) (i j : ℕ) (k : K) (es : List (Entry K L)) (o : Option L)
      → get_elem? heap j ≡ o
      → OnlyAt heap k j
      → Any (IsAt i k) es
      → Any (IsAt i k) (put_listener ops es j o)
  put_listener-old heap i j k es none g n a = a
  put_listener-old heap i j k es (some l) g n a =
      put_entry-old (record { key = ops.key l; id = j; cur = l }) i k es (n l g) a

  existing_from-old :
      (heap : List L) (i : ℕ) (k : K) (js : List ℕ) (es : List (Entry K L))
      → All (OnlyAt heap k) js
      → Any (IsAt i k) es
      → Any (IsAt i k) (existing_from ops es heap js)
  unfolding existing_from
  existing_from-old heap i k [] es n a = a
  existing_from-old heap i k (j ∷ js) es n a =
      existing_from-old heap i k js (put_listener ops es j (get_elem? heap j)) n.1
        (put_listener-old heap i j k es (get_elem? heap j) refl n.0 a)

  -- the indices of a server, each the only one with its key
  abbrev pub OneEach : List L → List ℕ → Type 0
  OneEach heap [] = Unit
  OneEach heap (i ∷ is) =
      ((l : L) → get_elem? heap i ≡ some l → All (OnlyAt heap (ops.key l)) is) × OneEach heap is

  pub existing_from-listener :
      (heap : List L) (i : ℕ) (l : L) (is : List ℕ) (es : List (Entry K L))
      → get_elem? heap i ≡ some l
      → OneEach heap is
      → Any (λ j. j ≡ i) is
      → Any (IsAt i (ops.key l)) (existing_from ops es heap is)
  unfolding existing_from
  existing_from-listener heap i l [] es g o a = elim a [ ]
  existing_from-listener heap i l (j ∷ is) es g o (here e) =
      let there_too : get_elem? heap j ≡ some l = rw e g in
      let entry : Entry K L = record { key = ops.key l; id = j; cur = l } in
      rw there_too (
        existing_from-old heap i (ops.key l) is (put_entry ops es entry) (o.0 l there_too)
          (rw (← e) (put_entry-new es entry)))
  existing_from-listener heap i l (j ∷ is) es g o (there a) =
      existing_from-listener heap i l is (put_listener ops es j (get_elem? heap j)) g o.1 a

  module _ (IsOpen IsShut : L → Type 0) (open_shuts : (l : L) → IsOpen l → IsShut (ops.close l).0)
      (shut_stays : (l : L) → IsShut l → IsShut (ops.close l).0) where
    abbrev pub ShutAt : World L → ℕ → Type 0
    ShutAt w i = (l : L) × (get_elem? w.heap i ≡ some l) × IsShut l

    call-ShutAt : (w : World L) (i j : ℕ) → ShutAt w i → ShutAt (call ops.close w j) i
    call-ShutAt w i j a = elim (Bool-cases (j == i)) [
      | inl e ↦
          let same : j ≡ i = grind tests in
          (
            (ops.close a.0).0,
            rw same (call_at-get_same ops.close w.heap i a.0 a.1),
            shut_stays a.0 a.2,
          )
      | inr e ↦
          let other : j ≢ i = grind tests in
          (a.0, call_at-get_other ops.close w.heap j i other ∙ a.1, a.2)
    ]

    if-ShutAt :
        (b : Bool) (w : World L) (i j : ℕ)
        → ShutAt w i
        → ShutAt (if b then w else call ops.close w j) i
    if-ShutAt true w i j a = a
    if-ShutAt false w i j a = call-ShutAt w i j a

    close_unkept-ShutAt :
        (kept : List K) (es : List (Entry K L)) (w : World L) (i : ℕ)
        → ShutAt w i
        → ShutAt (close_unkept ops kept es w) i
    unfolding close_unkept
    close_unkept-ShutAt kept [] w i a = a
    close_unkept-ShutAt kept (e ∷ es) w i a =
        close_unkept-ShutAt kept es (if has_key ops kept e.key then w else call ops.close w e.id) i
          (if-ShutAt (has_key ops kept e.key) w i e.id a)

    -- an entry that is not kept is closed
    pub close_unkept-closes :
        (kept : List K) (i : ℕ) (k : K) (l : L) (es : List (Entry K L)) (w : World L)
        → has_key ops kept k ≡ false
        → get_elem? w.heap i ≡ some l
        → IsOpen l
        → Any (IsAt i k) es
        → ShutAt (close_unkept ops kept es w) i
    unfolding close_unkept
    close_unkept-closes kept i k l [] w u g o a = elim a [ ]
    close_unkept-closes kept i k l (e ∷ es) w u g o (here a) =
        let h : has_key ops kept e.key ≡ false = rw a.1 u in
        rw (close_unkept, h)
          (close_unkept-ShutAt kept es (call ops.close w e.id) i
            ((ops.close l).0, rw a.0 (call_at-get_same ops.close w.heap i l g), open_shuts l o))
    close_unkept-closes kept i k l (e ∷ es) w u g o (there a) =
        elim (Bool-cases (has_key ops kept e.key)) [
          | inl h ↦ rw (close_unkept, h) (close_unkept-closes kept i k l es w u g o a)
          | inr h ↦ elim (Bool-cases (e.id == i)) [
            | inl q ↦
                let same : e.id ≡ i = grind tests in
                rw (close_unkept, h)
                  (close_unkept-ShutAt kept es (call ops.close w e.id) i (
                    (ops.close l).0,
                    rw same (call_at-get_same ops.close w.heap i l g),
                    open_shuts l o,
                  ))
            | inr q ↦
                let other : e.id ≢ i = grind tests in
                rw (close_unkept, h)
                  (close_unkept-closes kept i k l es (call ops.close w e.id) u
                    (call_at-get_other ops.close w.heap e.id i other ∙ g) o a)
          ]
        ]
