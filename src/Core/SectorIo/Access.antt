-- ===== src/Core/SectorIo/Access.antt =====
-- The reads, the writes and the flush of crates/burnout-core/src/sector_io.rs.
use burnout.Prelude.{
  ℕ, zero, suc, ◌+◌, ◌-◌, ◌*◌, ◌/◌, ◌%◌, min, checked_add_signed, Bool, true, false, not, ◌&&◌,
  ◌||◌, Option, none, some, List, [], ◌∷◌, ◌++◌, length, take, drop, slice, copy_at, ltb, leb, ◌==◌,
  if◌then◌else◌,
}
use burnout.Core.Error.{Result, ok, err, io, write_zero, invalid_input}
use burnout.Core.Target.{
  Io, Target, SeekFrom, start, end, current, ◌>>=◌, ◌>>◌, pure, raise, gets, modify,
}
use burnout.Core.SectorIo.Cache.{Slot, Cache, slot_bytes, lookup, change, forget, uncached_run}
use burnout.Core.SectorIo.State.{
  SectorIo, is_empty, on_inner, send_waiting, send_run, send_waiting_under, get_at, write_back,
  load,
}

abbrev pub put_bytes : ℕ → List ℕ → Slot → Slot
put_bytes offset part slot = record { bytes = copy_at offset part slot.bytes; dirty = true }

abbrev pub any_dirty : Cache → Bool
any_dirty [] = false
any_dirty ((k, slot) ∷ c) = slot.dirty || any_dirty c

module _ {T : Type 0} where
  abbrev pub advance : ℕ → SectorIo T → SectorIo T
  advance n s = record s { position = s.position + n }

  -- The whole sectors from `index` on that a read of `left` bytes takes from the target.
  abbrev pub direct : SectorIo T → ℕ → ℕ
  direct s left =
      if s.position % s.sector == 0 && leb s.sector left
      then uncached_run s.cache (s.position / s.sector) (left / s.sector)
      else 0

  abbrev pub sought : SectorIo T → Option ℕ → Result ℕ × SectorIo T
  sought s none = (err (io invalid_input), s)
  sought s (some n) = (ok n, record s { position = n })

module _ {T : Type 0} (target : Target T) where
  unfoldable pub read_run : ℕ → ℕ → Io (SectorIo T) (List ℕ)
  read_run at bytes = do
    send_waiting_under target at bytes
    chunk ← get_at target at bytes
    modify (advance bytes)
    pure chunk

  unfoldable pub read_cached : ℕ → ℕ → ℕ → Io (SectorIo T) (List ℕ)
  read_cached index offset count = do
    load target index
    chunk ← gets (λ s. slice offset count (slot_bytes (lookup index s.cache)))
    modify (advance count)
    pure chunk

  -- One round of `read`, with `left` bytes to go.
  unfoldable pub read_step : ℕ → Io (SectorIo T) (List ℕ)
  read_step left s =
      let index = s.position / s.sector in
      let offset = s.position % s.sector in
      let run = direct s left in
      if ltb 0 run
      then read_run (index * s.sector) (run * s.sector) s
      else read_cached index offset (min (s.sector - offset) left) s

  -- A round gives a byte at least, so a round for each byte is enough.
  unfoldable pub read_loop : ℕ → ℕ → Io (SectorIo T) (List ℕ)
  read_loop fuel zero = pure []
  read_loop zero (suc left) = raise (io write_zero)
  read_loop (suc fuel) (suc left) = read_step (suc left) >>= λ chunk.
      read_loop fuel (suc left - length chunk) >>= λ more. pure (chunk ++ more)

  unfoldable pub read : ℕ → Io (SectorIo T) (List ℕ)
  read count s = let want = min count (target.size s.inner - s.position) in read_loop want want s

  unfoldable pub write_direct : ℕ → ℕ → List ℕ → Io (SectorIo T) ℕ
  write_direct index run buf s =
      let bytes = run * s.sector in
      (do
        modify (λ z. record z { cache = forget index run z.cache })
        send_run target (index * s.sector) (take bytes buf)
        modify (advance bytes)
        pure bytes)
        s

  unfoldable pub write_cached : ℕ → ℕ → ℕ → List ℕ → Io (SectorIo T) ℕ
  write_cached index offset count buf = do
    load target index
    modify (λ s. record s { cache = change index (put_bytes offset (take count buf)) s.cache })
    modify (advance count)
    pure count

  -- One round of `write`: how many bytes of the buffer it took.
  unfoldable pub write_step : List ℕ → Io (SectorIo T) ℕ
  write_step buf s =
      let index = s.position / s.sector in
      let offset = s.position % s.sector in
      let left = length buf in
      if offset == 0 && leb s.sector left
      then write_direct index (left / s.sector) buf s
      else write_cached index offset (min (s.sector - offset) left) buf s

  unfoldable pub write_loop : ℕ → List ℕ → Io (SectorIo T) ℕ
  write_loop fuel [] = pure 0
  write_loop zero (b ∷ bs) = raise (io write_zero)
  write_loop (suc fuel) (b ∷ bs) =
      write_step (b ∷ bs) >>= λ n. write_loop fuel (drop n (b ∷ bs)) >>= λ more. pure (n + more)

  unfoldable pub write : List ℕ → Io (SectorIo T) ℕ
  write buf s =
      let room = target.size s.inner - s.position in
      let want = min (length buf) room in
      if is_empty buf
      then (ok 0, s)
      else if room == 0
      then (err (io write_zero), s)
      else write_loop want (take want buf) s

  unfoldable pub flush : Io (SectorIo T) (Unit {0})
  flush = do send_waiting target; write_back target; on_inner target.flush

  unfoldable pub sync : Io (SectorIo T) (Unit {0})
  sync = do flush; on_inner target.sync

  abbrev pub seek_to : SectorIo T → SeekFrom → Option ℕ
  seek_to s (start n) = some n
  seek_to s (end z) = checked_add_signed (target.size s.inner) z
  seek_to s (current z) = checked_add_signed s.position z

  unfoldable pub seek : SeekFrom → Io (SectorIo T) ℕ
  seek from s = sought s (seek_to s from)

  -- The state that a drop leaves; what the two calls answer is lost.
  unfoldable pub drop_sector_io : SectorIo T → SectorIo T
  drop_sector_io s =
      if not (is_empty s.waiting) || any_dirty s.cache
      then (write_back target (send_waiting target s).1).1
      else s
