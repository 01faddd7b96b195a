-- ===== src/Supervisor/Shipper.antt =====
-- internal/supervisor/shipper.go: `Shipper`. Times are nanoseconds of a 64-bit `time.Duration`; the
-- dialer and the connection are functions that the environment answers; what is written to the
-- connection is kept as the record that the frame stands for. The wake channel is a flag, since it
-- holds one token at most.
pub mod Backoff
pub mod Delivery
pub mod Refines
use vsockd.Common.{
  ℕ, zero, suc, ◌+◌, ◌-◌, ◌*◌, ◌^◌, Bool, true, false, not, ◌&&◌, ◌||◌, Option, none, some, List,
  [], ◌∷◌, ◌++◌, if◌then◌else◌, length, ltb, ◌==◌, ℤ, pos, negsuc, gtz, lez, gt_int,
}
use vsockd.Go.Strings.{Bytes}
use vsockd.Supervisor.Buffer.{RingBuffer, enqueue, enqueue_all, take_drops, drain_to, len}

abbrev millisecond : ℕ
millisecond = 1000000

abbrev default_min_backoff : ℤ
default_min_backoff = pos (100 * millisecond)

abbrev default_max_backoff : ℤ
default_max_backoff = pos (5000 * millisecond)

abbrev default_drain_interval : ℤ
default_drain_interval = pos (100 * millisecond)

pub record ShipperConfig : Type 0 where
  pub cid : ℕ
  pub port : ℕ
  pub pid : ℤ
  pub min_backoff : ℤ
  pub max_backoff : ℤ
  pub drain_interval : ℤ

pub record Shipper : Type 0 where
  pub buf : RingBuffer
  pub cfg : ShipperConfig
  pub wake : Bool
  pub pending_drops : ℕ
  pub draining : Bool

-- the defaults that `NewShipper` fills in, one test after another
default_min : ShipperConfig → ShipperConfig
default_min c = if lez c.min_backoff 0 then record c { min_backoff = default_min_backoff } else c

default_max : ShipperConfig → ShipperConfig
default_max c =
    if gt_int c.min_backoff c.max_backoff then record c { max_backoff = default_max_backoff } else c

raise_max : ShipperConfig → ShipperConfig
raise_max c =
    if gt_int c.min_backoff c.max_backoff then record c { max_backoff = c.min_backoff } else c

default_drain : ShipperConfig → ShipperConfig
default_drain c =
    if lez c.drain_interval 0 then record c { drain_interval = default_drain_interval } else c

unfoldable pub with_defaults : ShipperConfig → ShipperConfig
unfolding default_min default_max raise_max default_drain
with_defaults c = default_drain (raise_max (default_max (default_min c)))

-- `NewShipper`
unfoldable pub new_shipper : RingBuffer → ShipperConfig → Shipper
unfolding with_defaults
new_shipper buf cfg = record {
  buf = buf;
  cfg = with_defaults cfg;
  wake = false;
  pending_drops = 0;
  draining = false;
}

-- `notify`
unfoldable notify : Shipper → Shipper
notify s = record s { wake = true }

-- `Shipper.Enqueue`
unfoldable enqueue_frame : Shipper → Bytes → Shipper
unfolding notify
enqueue_frame s f = notify (record s { buf = enqueue s.buf f })

-- `cur * 2` on a positive 64-bit duration
unfoldable double : ℕ → ℤ
double n = if ltb (n * 2) (2 ^ 63) then pos (n * 2) else negsuc (2 ^ 64 - n * 2 - 1)

next_of : ℤ → ℤ → ℤ
next_of n max_backoff = if gt_int n max_backoff then max_backoff else n

-- `nextBackoff`
unfoldable pub next_backoff : ShipperConfig → ℤ → ℤ
unfolding next_of double
next_backoff c (negsuc n) = c.min_backoff
next_backoff c (pos n) = if n == 0 then c.min_backoff else next_of (double n) c.max_backoff

-- The backoff that `Run` sleeps before its next dial, after dials that failed (`false`) or that led
-- to a session which has ended (`true`).
unfoldable pub backoff_after : ShipperConfig → ℤ → List Bool → ℤ
unfolding next_backoff
backoff_after c cur [] = cur
backoff_after c cur (true ∷ dials) = backoff_after c c.min_backoff dials
backoff_after c cur (false ∷ dials) = backoff_after c (next_backoff c cur) dials

-- What one `conn.Write` carries: a captured frame, or `framer.Drop(pid, count)`.
pub data Sent : Type 0 where
  frame : Bytes → Sent
  drop_record : ℤ → ℕ → Sent

-- the first lock section of `drainOnce`
unfoldable pub collect_drops : Shipper → Shipper
unfolding take_drops
collect_drops s =
    let (d, b) = take_drops s.buf in record s { buf = b; pending_drops = s.pending_drops + d }

module _ {W : Type 0} (write : W → Sent → W × Bool) where
  abbrev pub write_frame : W → Bytes → W × Bool
  write_frame w f = write w (frame f)

  -- the drop record, if one is due: whether `err == nil`
  unfoldable pub report_drops : W → Shipper → W × Shipper × Bool
  report_drops w s =
      let (w', good) = write w (drop_record s.cfg.pid s.pending_drops) in
      if s.pending_drops == 0
      then (w, s, true)
      else if good
      then (w', record s { pending_drops = 0 }, true)
      else (w', s, false)

module _ {W : Type 0} (write : W → Sent → W × Bool) where
  -- `DrainTo` on the shipper's buffer; producers enqueue `before` it takes the frames, and
  -- `meanwhile`
  unfoldable pub drain_buffer : W → Shipper → List Bytes → List Bytes → W × Shipper × Bool
  unfolding drain_to enqueue_all
  drain_buffer w s before meanwhile =
      let (w', b, n, good) = drain_to (write_frame write) w (enqueue_all s.buf before) meanwhile in
      (w', record s { buf = b }, good)

module _ {W : Type 0} (write : W → Sent → W × Bool) where
  -- `drainOnce`: whether `err == nil`
  unfoldable pub drain_once : W → Shipper → List Bytes → List Bytes → W × Shipper × Bool
  unfolding collect_drops report_drops drain_buffer
  drain_once w s before meanwhile =
      let (w', s', good) = report_drops write w (collect_drops (record s { draining = true })) in
      let (w'', s'', good') = drain_buffer write w' s' before meanwhile in
      if good
      then (w'', record s'' { draining = false }, good')
      else (w', record s' { draining = false }, false)

-- `idle`
unfoldable pub idle : Shipper → Bool
idle s = not (s.draining || not (s.pending_drops == 0)) && len s.buf == 0 && s.buf.drops == 0
