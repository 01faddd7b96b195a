-- ===== src/Supervisor/Shipper/Delivery.antt =====
-- internal/supervisor/shipper.go and buffer.go: the log channel as a system. Producers enqueue at any
-- time; the drain cycle of `drainOnce` takes its steps one by one, with the lock released between
-- them.
use vsockd.Common.{
  ℕ, ◌+◌, ◌<◌, ◌≡◌, refl, ap, List, [], ◌∷◌, ◌++◌, length, ℤ, arith, length-append, Subsequence,
  Subsequence-drop_middle, Subsequence-concat,
}
use mathlib.Core.List.{append_assoc, append-nil}
use vsockd.Go.Strings.{Bytes}
use vsockd.Supervisor.Buffer.{RingBuffer, enqueue, requeue_front}
use vsockd.Supervisor.Buffer.Evict.{
  IsCounted, enqueue-Evicted, requeue_front-Evicted, appended, prepended, gone,
}
use vsockd.Supervisor.Shipper.{Sent, frame, drop_record}

-- `wire` is what has been written to connections, `flight` the frames that the drain loop holds,
-- `history` every frame that was ever enqueued.
pub record Channel : Type 0 where
  pub buf : RingBuffer
  pub pending : ℕ
  pub flight : List Bytes
  pub wire : List Sent
  pub history : List Bytes

pub data Step (pid : ℤ) : Channel → Channel → Type 0 where
  produce :
      (c : Channel) (f : Bytes)
      → Step pid c (record c { buf = enqueue c.buf f; history = c.history ++ f ∷ [] })
  collect :
      (c : Channel)
      → Step pid c
          (record c { buf = record c.buf { drops = 0 }; pending = c.pending + c.buf.drops })
  report :
      (c : Channel)
      → 0 < c.pending
      → Step pid c (record c { pending = 0; wire = c.wire ++ drop_record pid c.pending ∷ [] })
  take :
      (c : Channel)
      → c.flight ≡ []
      → Step pid c
          (record c { flight = c.buf.frames; buf = record c.buf { frames = []; bytes = 0 } })
  write :
      (c : Channel) (f : Bytes) (fs : List Bytes)
      → c.flight ≡ f ∷ fs
      → Step pid c (record c { flight = fs; wire = c.wire ++ frame f ∷ [] })
  requeue :
      (c : Channel) → Step pid c (record c { flight = []; buf = requeue_front c.buf c.flight })

pub data Reach (pid : ℤ) (c : Channel) : Channel → Type 0 where
  here : Reach pid c c
  next : {d e : Channel} → Reach pid c d → Step pid d e → Reach pid c e

-- The captured frames among what was written, and the losses that drop records report.
abbrev pub frames_of : List Sent → List Bytes
frames_of [] = []
frames_of (frame f ∷ ss) = f ∷ frames_of ss
frames_of (drop_record pid n ∷ ss) = frames_of ss

abbrev pub reported : List Sent → ℕ
reported [] = 0
reported (frame f ∷ ss) = reported ss
reported (drop_record pid n ∷ ss) = n + reported ss

-- every frame not yet written, oldest first
abbrev waiting : Channel → List Bytes
waiting c = c.flight ++ c.buf.frames

pub record IsSound (c : Channel) : Type 0 where
  pub counted : IsCounted c.buf
  pub in_order : Subsequence (frames_of c.wire ++ waiting c) c.history
  pub accounted :
      length c.history
      ≡ length (frames_of c.wire) + reported c.wire + length (waiting c) + c.buf.drops + c.pending

frames_of-append : (xs ys : List Sent) → frames_of (xs ++ ys) ≡ frames_of xs ++ frames_of ys
frames_of-append [] ys = refl
frames_of-append (frame f ∷ xs) ys = ap (◌∷◌ f) (frames_of-append xs ys)
frames_of-append (drop_record p n ∷ xs) ys = frames_of-append xs ys

reported-append : (xs ys : List Sent) → reported (xs ++ ys) ≡ reported xs + reported ys
reported-append [] ys = omega arith
reported-append (frame f ∷ xs) ys = reported-append xs ys
reported-append (drop_record p n ∷ xs) ys = omega (arith, reported-append xs ys)

-- What `requeueFront` and `Enqueue` do to the queue, in one form: `before` is the queue that they
-- build, `after` the queue that stays.
record Trims (before : List Bytes) (drops : ℕ) (after : RingBuffer) : Type 0 where
  dropped : List Bytes
  splits : before ≡ dropped ++ after.frames
  counts : after.drops ≡ drops + length dropped
  counted : IsCounted after

enqueue-Trims :
    (b : RingBuffer) (f : Bytes) → IsCounted b → Trims (b.frames ++ f ∷ []) b.drops (enqueue b f)
enqueue-Trims b f c =
    let e = enqueue-Evicted b f c in
    record {
      dropped = gone (appended b f);
      splits = e.splits;
      counts = e.dropped;
      counted = e.counted;
    }

requeue_front-Trims :
    (b : RingBuffer) (fs : List Bytes)
    → IsCounted b
    → Trims (fs ++ b.frames) b.drops (requeue_front b fs)
requeue_front-Trims b fs c =
    let e = requeue_front-Evicted b fs c in
    record {
      dropped = gone (prepended b fs);
      splits = e.splits;
      counts = e.dropped;
      counted = e.counted;
    }

produce-IsSound :
    (c : Channel) (f : Bytes)
    → IsSound c
    → IsSound (record c { buf = enqueue c.buf f; history = c.history ++ f ∷ [] })
produce-IsSound c f s =
    let t = enqueue-Trims c.buf f s.counted in
    record {
      counted = t.counted;
      in_order = rw (← append_assoc (frames_of c.wire) c.flight (enqueue c.buf f).frames) (
          Subsequence-drop_middle (frames_of c.wire ++ c.flight) t.dropped (enqueue c.buf f).frames
            (rw (← t.splits)
              (simp append_assoc (simp append_assoc at (Subsequence-concat f s.in_order)))));
      accounted = omega (
        arith,
        s.accounted,
        ap length t.splits,
        length-append c.buf.frames (f ∷ []),
        length-append t.dropped (enqueue c.buf f).frames,
        t.counts,
        length-append c.history (f ∷ []),
        length-append c.flight c.buf.frames,
        length-append c.flight (enqueue c.buf f).frames,
      );
    }

requeue-IsSound :
    (c : Channel)
    → IsSound c
    → IsSound (record c { flight = []; buf = requeue_front c.buf c.flight })
requeue-IsSound c s =
    let t = requeue_front-Trims c.buf c.flight s.counted in
    record {
      counted = t.counted;
      in_order =
          Subsequence-drop_middle (frames_of c.wire) t.dropped (requeue_front c.buf c.flight).frames
            (rw (← t.splits) s.in_order);
      accounted = omega (
        arith,
        s.accounted,
        ap length t.splits,
        length-append t.dropped (requeue_front c.buf c.flight).frames,
        t.counts,
      );
    }

Step-IsSound : {pid : ℤ} {c d : Channel} → Step pid c d → IsSound c → IsSound d
Step-IsSound (produce c f) s = produce-IsSound c f s
Step-IsSound (collect c) s = record {
  counted = s.counted;
  in_order = s.in_order;
  accounted = omega (arith, s.accounted);
}
Step-IsSound {pid} (report c h) s = record {
  counted = s.counted;
  in_order = rw (frames_of-append c.wire (drop_record pid c.pending ∷ []), append-nil) s.in_order;
  accounted = omega (
    arith,
    s.accounted,
    reported-append c.wire (drop_record pid c.pending ∷ []),
    ap length (frames_of-append c.wire (drop_record pid c.pending ∷ [])),
    length-append (frames_of c.wire) [],
  );
}
Step-IsSound (take c e) s = record {
  counted = refl;
  in_order = rw append-nil (rw e at s.in_order);
  accounted = rw append-nil (rw e at s.accounted);
}
Step-IsSound (write c f fs e) s = record {
  counted = s.counted;
  in_order = rw (frames_of-append c.wire (frame f ∷ []), append_assoc) (rw e at s.in_order);
  accounted = omega (
    arith,
    rw e at s.accounted,
    reported-append c.wire (frame f ∷ []),
    ap length (frames_of-append c.wire (frame f ∷ [])),
    length-append (frames_of c.wire) (f ∷ []),
  );
}
Step-IsSound (requeue c) s = requeue-IsSound c s

-- In every state that the log channel reaches, what was written and what still waits is a
-- subsequence of what was enqueued, so no frame is reordered, repeated or made up; and each frame
-- ever enqueued is written, waiting, or counted as lost, in a drop record that was written, in the
-- count that waits for one, or in the buffer.
pub Reach-IsSound : {pid : ℤ} {c d : Channel} → IsSound c → Reach pid c d → IsSound d
Reach-IsSound s here = s
Reach-IsSound s (next r st) = Step-IsSound st (Reach-IsSound s r)
