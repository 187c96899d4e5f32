-- ===== src/Core/Window.antt =====
-- crates/burnout-core/src/window.rs: one partition of a drive, as a target of its own.
pub mod Device
use burnout.Prelude.{
  ℕ, ◌+◌, ◌-◌, ◌^◌, min, Option, none, some, Bool, List, [], length, take, ltb, ◌==◌, if◌then◌else◌,
  checked_add_signed,
}
use burnout.Core.Error.{Result, ok, err, io, write_zero, invalid_input, too_small}
use burnout.Core.Alignment.{check_aligned}
use burnout.Core.Target.{
  Io, Target, SeekFrom, start, end, current, continue, ◌>>=◌, ◌>>◌, pure, raise, modify,
}

-- A check and then what follows it.
abbrev pub and_then : {A : Type 0} → Result (Unit {0}) → Result A → Result A
and_then (ok u) r = r
and_then (err e) r = err e

pub record Window (T : Type 0) : Type 0 where
  pub inner : T
  pub start_at : ℕ
  pub size : ℕ
  pub position : ℕ

module _ {T : Type 0} where
  abbrev pub on_inner : {A : Type 0} → Io T A → Io (Window T) A
  on_inner m w = ((m w.inner).0, record w { inner = (m w.inner).1 })

  abbrev pub remaining : Window T → ℕ
  remaining w = w.size - w.position

  abbrev pub seek_to : Window T → SeekFrom → Option ℕ
  seek_to w (start n) = some n
  seek_to w (end z) = checked_add_signed w.size z
  seek_to w (current z) = checked_add_signed w.position z

  abbrev pub sought : Window T → Option ℕ → Result ℕ × Window T
  sought w none = (err (io invalid_input), w)
  sought w (some n) = (ok n, record w { position = n })

  unfoldable pub seek : SeekFrom → Io (Window T) ℕ
  seek from w = sought w (seek_to w from)

module _ {T : Type 0} (target : Target T) where
  abbrev pub make : T → ℕ → ℕ → Result (Window T)
  make inner start_at size =
      if ltb (target.size inner) (start_at + size)
      then err (too_small (start_at + size) (target.size inner))
      else ok (record { inner = inner; start_at = start_at; size = size; position = 0 })

  -- `start + length` is a checked sum of `u64`.
  unfoldable pub new : T → ℕ → ℕ → Result (Window T)
  new inner start_at size =
      let sector = target.logical_sector_size inner in
      and_then (check_aligned start_at sector) (
        and_then (check_aligned size sector) (
          if ltb (start_at + size) (2 ^ 64)
          then make inner start_at size
          else err (too_small (2 ^ 64 - 1) (target.size inner))))

  unfoldable pub place : Io (Window T) (Unit {0})
  place w = (do _ ← on_inner (target.seek (start (w.start_at + w.position))); pure tt) w

  unfoldable pub read : ℕ → Io (Window T) (List ℕ)
  read count w =
      let some_bytes = min count (remaining w) in
      if some_bytes == 0
      then (ok [], w)
      else (do
        place
        got ← on_inner (target.read some_bytes)
        modify (λ z. record z { position = z.position + length got })
        pure got)
          w

  unfoldable pub write : List ℕ → Io (Window T) ℕ
  write buf w =
      let some_bytes = min (length buf) (remaining w) in
      if length buf == 0
      then (ok 0, w)
      else if some_bytes == 0
      then (err (io write_zero), w)
      else (do
        place
        n ← on_inner (target.write (take some_bytes buf))
        modify (λ z. record z { position = z.position + n })
        pure n)
          w

  abbrev pub window_target : Target (Window T)
  window_target = record {
    logical_sector_size = λ w. target.logical_sector_size w.inner;
    size = λ w. w.size;
    seek = seek;
    read = read;
    write = write;
    flush = on_inner target.flush;
    sync = on_inner target.sync;
  }
