-- ===== src/Supervisor/Buffer/Evict.antt =====
-- internal/supervisor/buffer.go: the loss policy. What `evict` drops, and what stays.
use vsockd.Common.{
  ◌+◌, ◌-◌, ◌≡◌, refl, ap, inl, inr, Bool, true, false, ◌&&◌, ◌||◌, List, [], ◌∷◌, ◌++◌,
  if◌then◌else◌, length, ℤ, gtz, ltz, arith, Bool-cases,
}
use vsockd.Go.Strings.{Bytes}
use vsockd.Supervisor.Buffer.{
  RingBuffer, over_budget, evict_from, evict, enqueue, requeue_front, total,
}

-- The budget, over the frames alone: a bound that is not positive binds nothing.
abbrev exceeds_budget : ℤ → ℤ → List Bytes → Bool
exceeds_budget max_bytes max_records fs =
    (gtz max_records 0 && ltz max_records (length fs))
    || (gtz max_bytes 0 && ltz max_bytes (total fs))

-- The byte counter is the size of the queued frames.
abbrev pub IsCounted : RingBuffer → Type 0
IsCounted b = b.bytes ≡ total b.frames

abbrev exceeds : RingBuffer → List Bytes → Bool
exceeds b fs = exceeds_budget b.max_bytes b.max_records fs

-- Each frame of `gone` stood at the head of a queue that was over the budget.
abbrev Needed : ℤ → ℤ → List Bytes → List Bytes → Type 0
Needed mb mr [] kept = Unit
Needed mb mr (f ∷ gone) kept =
    (exceeds_budget mb mr (f ∷ (gone ++ kept)) ≡ true) × Needed mb mr gone kept

-- `after` is `before` with the frames `gone` dropped from the front, and no more than it takes.
pub record Evicted (before after : RingBuffer) (gone : List Bytes) : Type 0 where
  pub splits : before.frames ≡ gone ++ after.frames
  pub dropped : after.drops ≡ before.drops + length gone
  pub counted : IsCounted after
  pub fits : exceeds before after.frames ≡ false
  pub bytes_kept : after.max_bytes ≡ before.max_bytes
  pub records_kept : after.max_records ≡ before.max_records
  pub least : Needed before.max_bytes before.max_records gone after.frames

over_budget-exceeds : (b : RingBuffer) → IsCounted b → over_budget b ≡ exceeds b b.frames
unfolding over_budget
over_budget-exceeds b c = ground arith

total-append : (xs ys : List Bytes) → total (xs ++ ys) ≡ total xs + total ys
total-append [] ys = omega arith
total-append (x ∷ xs) ys = omega (arith, total-append xs ys)

-- the evicted frames
unfoldable pub gone_from : ℤ → ℤ → List Bytes → List Bytes
gone_from mb mr [] = []
gone_from mb mr (f ∷ fs) =
    let rest = f ∷ gone_from mb mr fs in if exceeds_budget mb mr (f ∷ fs) then rest else []

abbrev pub gone : RingBuffer → List Bytes
gone b = gone_from b.max_bytes b.max_records b.frames

gtz-ltz_zero : (m : ℤ) → (gtz m 0 && ltz m 0) ≡ false
gtz-ltz_zero m = ground arith

evict_from-Evicted :
    (fs : List Bytes) (b : RingBuffer)
    → b.bytes ≡ total fs
    → Evicted (record b { frames = fs }) (evict_from b fs) (gone_from b.max_bytes b.max_records fs)
unfolding evict_from gone_from
evict_from-Evicted [] b c = record {
  splits = refl;
  dropped = omega arith;
  counted = c;
  fits = rw (gtz-ltz_zero b.max_records, gtz-ltz_zero b.max_bytes);
  bytes_kept = refl;
  records_kept = refl;
  least = tt;
}
evict_from-Evicted (f ∷ fs) b c = elim (Bool-cases (exceeds b (f ∷ fs))) [
  | inl over ↦
      let rest =
        evict_from-Evicted fs (record b { bytes = b.bytes - length f; drops = b.drops + 1 })
          (omega arith) in
      rw (over_budget-exceeds (record b { frames = f ∷ fs }) c, over)
        (record {
          splits = ap (◌∷◌ f) rest.splits;
          dropped = omega (arith, rest.dropped);
          counted = rest.counted;
          fits = rest.fits;
          bytes_kept = rest.bytes_kept;
          records_kept = rest.records_kept;
          least = (rw (← rest.splits) over, rest.least);
        })
  | inr under ↦
      rw (over_budget-exceeds (record b { frames = f ∷ fs }) c, under)
        (record {
          splits = refl;
          dropped = omega arith;
          counted = c;
          fits = under;
          bytes_kept = refl;
          records_kept = refl;
          least = tt;
        })
]

-- `evict` on a buffer whose byte counter is right drops frames from the front alone, counts each,
-- leaves a queue within the budget with a right byte counter, and drops no frame that fitted.
pub evict-Evicted : (b : RingBuffer) → IsCounted b → Evicted b (evict b) (gone b)
unfolding evict
evict-Evicted b c = evict_from-Evicted b.frames b c

abbrev pub appended : RingBuffer → Bytes → RingBuffer
appended b f = record b { frames = b.frames ++ f ∷ []; bytes = b.bytes + length f }

abbrev pub prepended : RingBuffer → List Bytes → RingBuffer
prepended b fs = record b { frames = fs ++ b.frames; bytes = b.bytes + total fs }

-- `Enqueue` puts the frame last and then drops the oldest frames, whole and counted, and only as
-- many as bring the queue within the budget.
pub enqueue-Evicted :
    (b : RingBuffer) (f : Bytes)
    → IsCounted b
    → Evicted (appended b f) (enqueue b f) (gone (appended b f))
unfolding enqueue
enqueue-Evicted b f c = evict-Evicted (appended b f) (omega (arith, total-append b.frames (f ∷ [])))

-- `requeueFront` puts the unwritten frames first and then drops the oldest frames, in the same way.
pub requeue_front-Evicted :
    (b : RingBuffer) (fs : List Bytes)
    → IsCounted b
    → Evicted (prepended b fs) (requeue_front b fs) (gone (prepended b fs))
unfolding requeue_front
requeue_front-Evicted b fs c =
    evict-Evicted (prepended b fs) (omega (arith, total-append fs b.frames))
