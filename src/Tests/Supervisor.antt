-- ===== src/Tests/Supervisor.antt =====
-- internal/supervisor on a small buffer, shipper and configuration.
use vsockd.Common.{
  ℕ, zero, suc, ◌*◌, ◌^◌, min, ◌≡◌, refl, ◌↔◌, inl, Bool, true, false, none, List, [], ◌∷◌, ◌++◌, ℤ,
  pos, ok, arith,
}
use vsockd.Go.Strings.{Bytes, bytes, equal}
use vsockd.Supervisor.Buffer.{RingBuffer, new_ring_buffer, evict, enqueue, requeue_front}
use vsockd.Supervisor.Buffer.Evict.{
  Evicted, gone, appended, prepended, evict-Evicted, enqueue-Evicted, requeue_front-Evicted,
}
use vsockd.Supervisor.Shipper.{
  Shipper, ShipperConfig, Sent, frame, drop_record, with_defaults, new_shipper, backoff_after,
  collect_drops, report_drops, drain_once,
}
use vsockd.Supervisor.Shipper.Backoff.{
  IsTimed, Between, failures, with_defaults-IsTimed, backoff_after-failures, backoff_after-Between,
}
use vsockd.Supervisor.Shipper.Delivery.{Channel, produce, Reach, here, next, IsSound, Reach-IsSound}
use vsockd.Supervisor.Shipper.Refines.{
  resting, logged, enqueued, drain_once-Reach, new_shipper-IsSound,
}
use vsockd.Supervisor.Config
use vsockd.Supervisor.Config.Processes.{fill}
use vsockd.Supervisor.Config.Accepts.{WellFormed, validate_iff, validate_again}

-- room for two records and four bytes
abbrev small : RingBuffer
small = record {
  frames = (1 ∷ 2 ∷ []) ∷ (3 ∷ []) ∷ [];
  bytes = 3;
  max_bytes = pos 4;
  max_records = pos 2;
  drops = 0;
}

abbrev long : Bytes
long = 7 ∷ 8 ∷ 9 ∷ []

-- over its budget by one record
abbrev crowded : RingBuffer
crowded = appended small long

evict-Evicted_example : Evicted crowded (evict crowded) (gone crowded)
evict-Evicted_example = evict-Evicted crowded refl

enqueue-Evicted_example :
    Evicted (appended small long) (enqueue small long) (gone (appended small long))
enqueue-Evicted_example = enqueue-Evicted small long refl

requeue_front-Evicted_example :
    Evicted
      (prepended small (long ∷ []))
      (requeue_front small (long ∷ []))
      (gone (prepended small (long ∷ [])))
requeue_front-Evicted_example = requeue_front-Evicted small (long ∷ []) refl

abbrev timing : ShipperConfig
timing = record {
  cid = 3;
  port = 9000;
  pid = pos 1;
  min_backoff = pos 100;
  max_backoff = pos 5000;
  drain_interval = pos 10;
}

abbrev no_timing : ShipperConfig
no_timing = record timing { min_backoff = pos 0; max_backoff = pos 0; drain_interval = pos 0 }

with_defaults-IsTimed_example : IsTimed (with_defaults no_timing)
with_defaults-IsTimed_example = with_defaults-IsTimed no_timing

backoff_after-failures_example :
    (backoff_after timing (pos 0) (failures 4) ≡ pos (min (100 * 2 ^ 3) 5000))
    × ((cur : ℤ) → backoff_after timing cur (true ∷ failures 3) ≡ pos (min (100 * 2 ^ 3) 5000))
backoff_after-failures_example =
    backoff_after-failures timing 100 5000 refl refl (omega arith) (omega arith) (omega arith) 3

backoff_after-Between_example :
    Between 100 5000 (backoff_after timing (pos 0) (false ∷ false ∷ true ∷ false ∷ []))
backoff_after-Between_example =
    backoff_after-Between timing 100 5000 refl refl (omega arith) (omega arith) false
      (false ∷ true ∷ false ∷ []) (pos 0) (inl refl)

abbrev fresh : Shipper
fresh = new_shipper (new_ring_buffer (pos 4) (pos 2)) timing

abbrev one_frame : Channel
one_frame = record (resting fresh [] []) {
  buf = enqueue (new_ring_buffer (pos 4) (pos 2)) long;
  history = long ∷ [];
}

one_frame-Reach : Reach (pos 1) (resting fresh [] []) one_frame
unfolding new_shipper
one_frame-Reach = next here (produce (resting fresh [] []) long)

Reach-IsSound_example : IsSound one_frame
Reach-IsSound_example = Reach-IsSound (new_shipper-IsSound (pos 4) (pos 2) timing) one_frame-Reach

-- a connection that accepts two writes
abbrev accepts : ℕ → Sent → ℕ × Bool
accepts zero s = (0, false)
accepts (suc n) s = (n, true)

abbrev told : Bool
told = (report_drops (logged accepts) (2, []) (collect_drops (record fresh { draining = true }))).2

drain_once-Reach_example : Reach fresh.cfg.pid (resting fresh [] []) (
    resting
      (drain_once (logged accepts) (2, []) fresh (long ∷ []) ((1 ∷ []) ∷ [])).1
      (drain_once (logged accepts) (2, []) fresh (long ∷ []) ((1 ∷ []) ∷ [])).0.1
      ([] ++ enqueued accepts told (long ∷ []) ((1 ∷ []) ∷ [])))
drain_once-Reach_example = drain_once-Reach accepts fresh 2 [] [] (long ∷ []) ((1 ∷ []) ∷ [])

-- after a frame was written, and another dropped and reported
abbrev drained : Shipper
drained = record {
  buf = new_ring_buffer (pos 4) (pos 2);
  cfg = timing;
  wake = false;
  pending_drops = 0;
  draining = false;
}

abbrev written : List Sent
written = drop_record (pos 1) 1 ∷ frame long ∷ []

abbrev app : Config.Process
app = record {
  name = bytes "app";
  command = bytes "/bin/app";
  args = [];
  role = Config.role_task;
  restart = [];
  max_restarts = pos 3;
  restart_window = pos 60;
  on_failure = [];
}

abbrev given : Config.Config
given = record { log_port = 9000; log_cid = 0; tags = []; buffer = none; processes = app ∷ [] }

given-validate : Config.validate given ≡ ok (fill given)
unfolding Config.validate Config.check_role Config.check_policy Config.is_restart
    Config.is_on_failure equal
given-validate = refl

validate_iff_example :
    (Config.validate given ≡ ok (fill given))
    ↔ ((fill given ≡ fill given) × WellFormed (fill given))
validate_iff_example = validate_iff given (fill given)

validate_again_example : Config.validate (fill given) ≡ ok (fill given)
validate_again_example = validate_again given (fill given) given-validate
