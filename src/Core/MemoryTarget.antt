-- ===== src/Core/MemoryTarget.antt =====
-- crates/burnout-core/src/memory_target.rs: a drive image in memory, which counts what was asked of it.
pub mod Device
use burnout.Prelude.{
  ℕ, zero, suc, ◌+◌, ◌-◌, ◌*◌, min, Option, none, some, List, [], ◌∷◌, ◌++◌, length, take, drop,
  slice, replicate, ◌==◌, ◌&&◌, not, if◌then◌else◌, u32, u64, checked_add_signed,
}
use burnout.Core.Error.{Error, Result, ok, err, io, write_zero, invalid_input, ◌>>=◌}
use burnout.Core.Alignment.{check_sector_size, check_aligned}
use burnout.Core.Target.{Io, Target, SeekFrom, start, end, current}

-- The cursor over the bytes is `bytes` and `position`.
pub record MemoryTarget : Type 0 where
  pub bytes : List ℕ
  pub position : ℕ
  pub sector_size : ℕ
  pub size : ℕ
  pub sync_count : ℕ
  pub written : ℕ
  pub bytes_at_last_sync : ℕ

unfoldable pub new : ℕ → ℕ → Result MemoryTarget
new size sector_size = do
  sector ← check_sector_size sector_size
  _ ← check_aligned size sector
  ok (record {
    bytes = replicate size 0;
    position = 0;
    sector_size = sector;
    size = size;
    sync_count = 0;
    written = 0;
    bytes_at_last_sync = 0;
  })

-- The write of a `Cursor<Vec<u8>>`, which pads with zero up to the position and grows past the end.
abbrev pub cursor_write : ℕ → List ℕ → List ℕ → List ℕ
cursor_write at buf bytes =
    let padded = bytes ++ replicate (at - length bytes) 0 in
    take at padded ++ (buf ++ drop (at + length buf) padded)

abbrev pub seek_to : MemoryTarget → SeekFrom → Option ℕ
seek_to t (start n) = some n
seek_to t (end z) = checked_add_signed (length t.bytes) z
seek_to t (current z) = checked_add_signed t.position z

abbrev pub sought : MemoryTarget → Option ℕ → Result ℕ × MemoryTarget
sought t none = (err (io invalid_input), t)
sought t (some n) = (ok n, record t { position = n })

unfoldable pub seek : SeekFrom → Io MemoryTarget ℕ
seek from t = sought t (seek_to t from)

unfoldable pub read : ℕ → Io MemoryTarget (List ℕ)
read count t =
    let got = slice t.position count t.bytes in
    (ok got, record t { position = t.position + length got })

unfoldable pub write : List ℕ → Io MemoryTarget ℕ
write buf t =
    let room = t.size - t.position in
    let count = min (length buf) room in
    if room == 0 && not (length buf == 0) then (err (io write_zero), t) else (
      ok count,
      record t {
        bytes = cursor_write t.position (take count buf) t.bytes;
        position = t.position + count;
        written = u64 (t.written + count);
      },
    )

unfoldable pub sync : Io MemoryTarget (Unit {0})
sync t = (ok tt, record t { sync_count = u32 (t.sync_count + 1); bytes_at_last_sync = t.written })

abbrev pub memory_target : Target MemoryTarget
memory_target = record {
  logical_sector_size = λ t. t.sector_size;
  size = λ t. t.size;
  seek = seek;
  read = read;
  write = write;
  flush = λ t. (ok tt, t);
  sync = sync;
}
