-- ===== src/Outbound/RefSink.antt =====
-- internal/outbound/logrelay.go: `refSink`, the reference-counted sink of a log_relay listener, and the
-- listener and its connection handlers as they take and drop references in any order.
use mathlib.Core.Path.{subst}
use vsockd.Common.{
  ℕ, zero, suc, ◌≡◌, ◌∙◌, ◌||◌, not, ◌==◌, refl, Bool, true, false, Option, none, some, ℤ, pos,
  negsuc, eqz, if◌then◌else◌, arith,
}

-- `closes` counts the calls of `Close` on the underlying sink.
pub record RefSink : Type 0 where
  pub n : ℤ
  pub closes : ℕ

abbrev increment : ℤ → ℤ
increment (pos k) = pos (suc k)
increment (negsuc zero) = pos 0
increment (negsuc (suc k)) = negsuc k

abbrev decrement : ℤ → ℤ
decrement (pos zero) = negsuc 0
decrement (pos (suc k)) = pos k
decrement (negsuc k) = negsuc (suc k)

-- `newRefSink`
unfoldable pub new_ref_sink : RefSink
new_ref_sink = record { n = pos 1; closes = 0 }

-- `acquire`: `none` for the answer false
unfoldable pub acquire : RefSink → Option RefSink
acquire r = if eqz r.n 0 then none else some (record r { n = increment r.n })

-- `release`
unfoldable pub release : RefSink → RefSink
release r =
    let n = decrement r.n in record { n = n; closes = if eqz n 0 then suc r.closes else r.closes }

-- Who holds a reference: the listener, until `closeSink` or a reload swaps its state out, and each
-- handler from its `acquire` to its deferred `release`.
pub record Holders : Type 0 where
  pub sink : RefSink
  pub listening : Bool
  pub handlers : ℕ

unfoldable pub opened : Holders
unfolding new_ref_sink
opened = record { sink = new_ref_sink; listening = true; handlers = 0 }

pub data Step : Holders → Holders → Type 0 where
  -- a handler that has loaded the listener's state acquires the sink, also after a swap
  accept :
      (h : Holders) (r : RefSink)
      → acquire h.sink ≡ some r
      → Step h (record h { sink = r; handlers = suc h.handlers })
  -- `closeSink`, or the swap of a reload
  swap_out :
      (h : Holders)
      → h.listening ≡ true
      → Step h (record h { sink = release h.sink; listening = false })
  -- a handler returns
  finish :
      (h : Holders) (k : ℕ)
      → h.handlers ≡ suc k
      → Step h (record h { sink = release h.sink; handlers = k })

pub data Reach : Holders → Type 0 where
  start : Reach opened
  next : {g h : Holders} → Reach g → Step g h → Reach h

abbrev count : Bool → ℕ → ℕ
count true k = suc k
count false k = k

abbrev closed : ℕ → ℕ
closed zero = 1
closed (suc k) = 0

record IsHeld (s : RefSink) (c : ℕ) : Type 0 where
  counted : s.n ≡ pos c
  once : s.closes ≡ closed c

acquire-IsHeld : (s r : RefSink) (c : ℕ) → IsHeld s c → acquire s ≡ some r → IsHeld r (suc c)
unfolding acquire
acquire-IsHeld s r zero i e = absurd (ground (arith, i.counted))
acquire-IsHeld s r (suc c) i e = record {
  counted = ground (arith, i.counted);
  once = ground (arith, i.counted, i.once);
}

release-IsHeld : (s : RefSink) (c : ℕ) → IsHeld s (suc c) → IsHeld (release s) c
unfolding release
release-IsHeld s zero i = rw (i.counted, i.once) (record { counted = refl; once = refl })
release-IsHeld s (suc c) i = record {
  counted = rw i.counted refl;
  once = ground (arith, i.counted, i.once);
}

abbrev IsCounted : Holders → Type 0
IsCounted h = IsHeld h.sink (count h.listening h.handlers)

count-suc : (b : Bool) (k : ℕ) → count b (suc k) ≡ suc (count b k)
count-suc true k = refl
count-suc false k = refl

Step-IsCounted : {g h : Holders} → Step g h → IsCounted g → IsCounted h
Step-IsCounted (accept g r e) i =
    rw (count-suc g.listening g.handlers) (acquire-IsHeld g.sink r _ i e)
Step-IsCounted (swap_out g e) i =
    release-IsHeld g.sink g.handlers (subst (λ b. IsHeld g.sink (count b g.handlers)) e i)
Step-IsCounted (finish g k e) i =
    release-IsHeld g.sink (count g.listening k) (rw (← count-suc g.listening k, ← e) i)

Reach-IsCounted : {h : Holders} → Reach h → IsCounted h
unfolding opened
Reach-IsCounted start = record { counted = refl; once = refl }
Reach-IsCounted (next r s) = Step-IsCounted s (Reach-IsCounted r)

closed-if : (b : Bool) (k : ℕ) → closed (count b k) ≡ (if b || not (k == 0) then 0 else 1)
closed-if true k = refl
closed-if false k = ground arith

-- However the listener's swap and the handlers interleave, the underlying sink is not closed while the
-- listener or a handler holds a reference, and has been closed exactly once when none does.
pub Reach-closed_once :
    {h : Holders}
    → Reach h
    → h.sink.closes ≡ (if h.listening || not (h.handlers == 0) then 0 else 1)
Reach-closed_once {h} r = (Reach-IsCounted r).once ∙ closed-if h.listening h.handlers
