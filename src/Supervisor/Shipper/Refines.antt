-- ===== src/Supervisor/Shipper/Refines.antt =====
-- internal/supervisor/shipper.go: `drainOnce` as steps of the log channel, and `idle`.
use vsockd.Common.{
  ℕ, ◌≡◌, refl, ap, Bool, true, false, List, [], ◌∷◌, ◌++◌, ℤ, arith, Bool-cases, inl, inr,
  if◌then◌else◌, ◌==◌, done,
}
use mathlib.Core.List.{append_assoc, append-nil}
use vsockd.Go.Strings.{Bytes}
use vsockd.Supervisor.Buffer.{
  RingBuffer, new_ring_buffer, enqueue, enqueue_all, write_frames, finish_drain, drain_to,
}
use vsockd.Supervisor.Shipper.{
  Sent, frame, drop_record, Shipper, ShipperConfig, new_shipper, collect_drops, report_drops,
  drain_buffer, drain_once, write_frame,
}
use vsockd.Supervisor.Shipper.Delivery.{
  Channel, produce, collect, report, take, write, requeue, Reach, here, next, IsSound,
}

abbrev channel : RingBuffer → ℕ → List Bytes → List Sent → List Bytes → Channel
channel b pending flight wire history = record {
  buf = b;
  pending = pending;
  flight = flight;
  wire = wire;
  history = history;
}

-- The channel between two drain cycles.
abbrev pub resting : Shipper → List Sent → List Bytes → Channel
resting s wire history = channel s.buf s.pending_drops [] wire history

Reach-trans : {pid : ℤ} {c d e : Channel} → Reach pid c d → Reach pid d e → Reach pid c e
Reach-trans r here = r
Reach-trans r (next q st) = next (Reach-trans r q) st

enqueue_all-Reach :
    (pid : ℤ) (fs : List Bytes) (c : Channel)
    → Reach pid c (record c { buf = enqueue_all c.buf fs; history = c.history ++ fs })
unfolding enqueue_all
enqueue_all-Reach pid [] c = rw append-nil here
enqueue_all-Reach pid (f ∷ fs) c = rw (← append_assoc c.history (f ∷ []) fs) (
    Reach-trans (next here (produce c f)) (
      enqueue_all-Reach pid fs (record c { buf = enqueue c.buf f; history = c.history ++ f ∷ [] })))

module _ {W : Type 0} (put : W → Sent → W × Bool) where
  keep_log : List Sent → Sent → W × Bool → (W × List Sent) × Bool
  keep_log log s (w, good) = ((w, (if good then log ++ s ∷ [] else log)), good)

  -- the writer, with what it accepted kept behind it
  unfoldable pub logged : W × List Sent → Sent → (W × List Sent) × Bool
  unfolding keep_log
  logged v s = keep_log v.1 s (put v.0 s)

module _ {W : Type 0} (put : W → Sent → W × Bool) where
  write_frames-Reach :
      (pid : ℤ) (fs : List Bytes) (w : W) (log : List Sent) (c : Channel)
      → c.flight ≡ fs
      → c.wire ≡ log
      → let r = write_frames (write_frame (logged put)) (w, log) fs in
        Reach pid c (record c { flight = r.2; wire = r.0.1 })
  unfolding write_frames logged
  write_frames-Reach pid [] w log c e l = rw (← e, ← l) here
  write_frames-Reach pid (f ∷ fs) w log c e l = elim (Bool-cases (put w (frame f)).1) [
    | inl good ↦ rw good (
        Reach-trans (next here (write c f fs e)) (
          write_frames-Reach pid fs (put w (frame f)).0 (log ++ frame f ∷ [])
            (record c { flight = fs; wire = c.wire ++ frame f ∷ [] }) refl
            (ap (λ (v : List Sent). v ++ frame f ∷ []) l)))
    | inr bad ↦ rw bad (rw (← e, ← l) here)
  ]

  -- the end of a drain: what was not written goes back
  finish_drain-Reach :
      (pid : ℤ) (unwritten : List Bytes) (c : Channel)
      → c.flight ≡ unwritten
      → Reach pid c (record c { flight = []; buf = (finish_drain c.buf unwritten).0 })
  unfolding finish_drain
  finish_drain-Reach pid [] c e = rw (← e) here
  finish_drain-Reach pid (f ∷ fs) c e = rw (← e) (next here (requeue c))

  drain_to-Reach :
      (pid : ℤ) (b : RingBuffer) (w : W) (pending : ℕ) (log : List Sent)
      (history meanwhile : List Bytes)
      → let r = drain_to (write_frame (logged put)) (w, log) b meanwhile in
        Reach pid
          (channel b pending [] log history)
          (channel r.1 pending [] r.0.1 (history ++ meanwhile))
  unfolding drain_to
  drain_to-Reach pid b w pending log history meanwhile =
      let emptied = record b { frames = []; bytes = 0 } in
      let r = write_frames (write_frame (logged put)) (w, log) b.frames in
      Reach-trans (next here (take (channel b pending [] log history) refl)) (
        Reach-trans
          (write_frames-Reach pid b.frames w log (channel emptied pending b.frames log history) refl
            refl)
          (Reach-trans (enqueue_all-Reach pid meanwhile (channel emptied pending r.2 r.0.1 history))
            (finish_drain-Reach pid r.2
              (channel (enqueue_all emptied meanwhile) pending r.2 r.0.1 (history ++ meanwhile))
              refl)))

  report_drops-Reach :
      (s : Shipper) (w : W) (log : List Sent) (history : List Bytes)
      → let r = report_drops (logged put) (w, log) s in
        Reach s.cfg.pid (resting s log history) (resting r.1 r.0.1 history)
  unfolding report_drops logged
  report_drops-Reach s w log history = elim (Bool-cases (s.pending_drops == 0)) [
    | inl none_due ↦ rw none_due here
    | inr due ↦ elim (Bool-cases (put w (drop_record s.cfg.pid s.pending_drops)).1) [
      | inl good ↦ rw (due, good) (next here (report (resting s log history) (ground arith)))
      | inr bad ↦ rw (due, bad) here
    ]
  ]

  drain_buffer-Reach :
      (s : Shipper) (w : W) (log : List Sent) (history before meanwhile : List Bytes)
      → let r = drain_buffer (logged put) (w, log) s before meanwhile in
        Reach s.cfg.pid
          (resting s log history)
          (resting r.1 r.0.1 (history ++ (before ++ meanwhile)))
  unfolding drain_buffer
  drain_buffer-Reach s w log history before meanwhile =
      rw (← append_assoc history before meanwhile) (
        Reach-trans (enqueue_all-Reach s.cfg.pid before (resting s log history)) (
          drain_to-Reach s.cfg.pid (enqueue_all s.buf before) w s.pending_drops log
            (history ++ before) meanwhile))

  -- the frames enqueued during a cycle: none of those after a drop record that failed
  abbrev pub enqueued : Bool → List Bytes → List Bytes → List Bytes
  enqueued true before meanwhile = before ++ meanwhile
  enqueued false before meanwhile = []

  report_drops-pid :
      (s : Shipper) (v : W × List Sent) → (report_drops (logged put) v s).1.cfg ≡ s.cfg
  unfolding report_drops
  report_drops-pid s v = ground arith

  -- A cycle of `drainOnce`, on a connection whose accepted writes are kept, is a run of the steps of
  -- the log channel from one resting state to another, whatever the connection answers and whatever
  -- is enqueued during the cycle.
  pub drain_once-Reach :
      (s : Shipper) (w : W) (log : List Sent) (history before meanwhile : List Bytes)
      → let r = drain_once (logged put) (w, log) s before meanwhile in
        let told =
          (report_drops (logged put) (w, log) (collect_drops (record s { draining = true }))).2 in
        Reach s.cfg.pid
          (resting s log history)
          (resting r.1 r.0.1 (history ++ enqueued told before meanwhile))
  unfolding drain_once
  drain_once-Reach s w log history before meanwhile =
      let s0 = collect_drops (record s { draining = true }) in
      let r = report_drops (logged put) (w, log) s0 in
      let start =
        Reach-trans (next here (collect (resting s log history)))
          (report_drops-Reach s0 w log history) in
      elim (Bool-cases r.2) [
        | inl good ↦ rw good (
            Reach-trans start (
              rw (report_drops-pid s0 (w, log)) at
                (drain_buffer-Reach r.1 r.0.0 r.0.1 history before meanwhile)))
        | inr bad ↦ rw (bad, append-nil) start
      ]

-- A new shipper over a new buffer starts from a sound channel, with nothing enqueued or written.
pub new_shipper-IsSound :
    (max_bytes max_records : ℤ) (cfg : ShipperConfig)
    → IsSound (resting (new_shipper (new_ring_buffer max_bytes max_records) cfg) [] [])
unfolding new_shipper new_ring_buffer
new_shipper-IsSound max_bytes max_records cfg = record {
  counted = refl;
  in_order = done;
  accounted = omega arith;
}
