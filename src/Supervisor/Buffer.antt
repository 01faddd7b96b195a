-- ===== src/Supervisor/Buffer.antt =====
-- internal/supervisor/buffer.go: `RingBuffer`. A method that mutates the receiver returns the new
-- record; each lock section is one function. A writer is a function from its state and a frame to
-- its next state and whether the write went through.
pub mod Evict
use vsockd.Common.{
  ℕ, zero, suc, ◌+◌, ◌-◌, Bool, true, false, ◌&&◌, List, [], ◌∷◌, ◌++◌, if◌then◌else◌, length, ℤ,
  gtz, ltz,
}
use vsockd.Go.Strings.{Bytes}

pub record RingBuffer : Type 0 where
  pub frames : List Bytes
  pub bytes : ℕ
  pub max_bytes : ℤ
  pub max_records : ℤ
  pub drops : ℕ

-- `NewRingBuffer`
unfoldable pub new_ring_buffer : ℤ → ℤ → RingBuffer
new_ring_buffer max_bytes max_records = record {
  frames = [];
  bytes = 0;
  max_bytes = max_bytes;
  max_records = max_records;
  drops = 0;
}

unfoldable pub over_budget : RingBuffer → Bool
over_budget b =
    if gtz b.max_records 0 && ltz b.max_records (length b.frames)
    then true
    else if gtz b.max_bytes 0 && ltz b.max_bytes b.bytes
    then true
    else false

-- the loop of `evict`, over the frames that are left
unfoldable pub evict_from : RingBuffer → List Bytes → RingBuffer
unfolding over_budget
evict_from b [] = record b { frames = [] }
evict_from b (old ∷ rest) =
    let evicted =
      evict_from (record b { bytes = b.bytes - length old; drops = b.drops + 1 }) rest in
    if over_budget (record b { frames = old ∷ rest })
    then evicted
    else record b { frames = old ∷ rest }

unfoldable pub evict : RingBuffer → RingBuffer
unfolding evict_from
evict b = evict_from b b.frames

unfoldable pub enqueue : RingBuffer → Bytes → RingBuffer
unfolding evict
enqueue b f = evict (record b { frames = b.frames ++ f ∷ []; bytes = b.bytes + length f })

-- the first lock section of `DrainTo`: the frames are handed over
unfoldable take_frames : RingBuffer → List Bytes × RingBuffer
take_frames b = (b.frames, record b { frames = []; bytes = 0 })

abbrev pub total : List Bytes → ℕ
total [] = 0
total (f ∷ fs) = length f + total fs

-- `requeueFront`
unfoldable pub requeue_front : RingBuffer → List Bytes → RingBuffer
unfolding evict
requeue_front b unwritten =
    evict (record b { frames = unwritten ++ b.frames; bytes = b.bytes + total unwritten })

-- `TakeDrops`
unfoldable pub take_drops : RingBuffer → ℕ × RingBuffer
take_drops b = (b.drops, record b { drops = 0 })

-- `Len`
abbrev pub len : RingBuffer → ℕ
len b = length b.frames

-- the frames that producers enqueue one after another
unfoldable pub enqueue_all : RingBuffer → List Bytes → RingBuffer
enqueue_all b [] = b
enqueue_all b (f ∷ fs) = enqueue_all (enqueue b f) fs

module _ {W : Type 0} (write : W → Bytes → W × Bool) where
  -- the writing loop of `DrainTo`: the writer, the frames written, and those that were not
  unfoldable pub write_frames : W → List Bytes → W × ℕ × List Bytes
  write_frames w [] = (w, 0, [])
  write_frames w (f ∷ fs) =
      let (w', good) = write w f in
      let rest = write_frames w' fs in
      if good then (rest.0, suc rest.1, rest.2) else (w', 0, f ∷ fs)

-- the end of `DrainTo`: on a write error the rest goes back
unfoldable pub finish_drain : RingBuffer → List Bytes → RingBuffer × Bool
finish_drain b [] = (b, true)
finish_drain b (f ∷ fs) = (requeue_front b (f ∷ fs), false)

module _ {W : Type 0} (write : W → Bytes → W × Bool) where
  -- `DrainTo`: the writer, the buffer, the number of frames written, and whether `err == nil`.
  -- `meanwhile` are the frames enqueued while the loop writes without the lock.
  unfoldable pub drain_to : W → RingBuffer → List Bytes → W × RingBuffer × ℕ × Bool
  unfolding take_frames write_frames finish_drain enqueue_all
  drain_to w b meanwhile =
      let (frames, emptied) = take_frames b in
      let (w', n, unwritten) = write_frames write w frames in
      let (b', good) = finish_drain (enqueue_all emptied meanwhile) unwritten in (w', b', n, good)
