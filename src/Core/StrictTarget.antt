-- ===== src/Core/StrictTarget.antt =====
-- crates/burnout-core/src/strict_target.rs: a target that takes whole sectors only, as a raw device does.
pub mod Device
use burnout.Prelude.{ℕ, ◌+◌, ◌%◌, Bool, not, ◌||◌, List, length, ◌==◌, if◌then◌else◌}
use burnout.Core.Error.{Result, ok, err, io, invalid_input}
use burnout.Core.Target.{Io, Target, SeekFrom, continue, ◌>>=◌, ◌>>◌, pure, raise, modify}

pub record StrictTarget (T : Type 0) : Type 0 where
  pub inner : T
  pub position : ℕ

unfoldable pub new : {T : Type 0} → T → StrictTarget T
new inner = record { inner = inner; position = 0 }

module _ {T : Type 0} where
  abbrev pub on_inner : {A : Type 0} → Io T A → Io (StrictTarget T) A
  on_inner m s = ((m s.inner).0, record s { inner = (m s.inner).1 })

module _ {T : Type 0} (target : Target T) where
  -- A drive answers a sector size above 0, by which the code divides.
  unfoldable pub check : ℕ → Io (StrictTarget T) (Unit {0})
  check length s =
      let sector = target.logical_sector_size s.inner in
      if not (s.position % sector == 0) || not (length % sector == 0)
      then (err (io invalid_input), s)
      else (ok tt, s)

  unfoldable pub read : ℕ → Io (StrictTarget T) (List ℕ)
  read count = do
    check count
    got ← on_inner (target.read count)
    modify (λ s. record s { position = s.position + length got })
    pure got

  unfoldable pub write : List ℕ → Io (StrictTarget T) ℕ
  write buf = do
    check (length buf)
    n ← on_inner (target.write buf)
    modify (λ s. record s { position = s.position + n })
    pure n

  unfoldable pub seek : SeekFrom → Io (StrictTarget T) ℕ
  seek from = do n ← on_inner (target.seek from); modify (λ s. record s { position = n }); pure n

  abbrev pub strict_target : Target (StrictTarget T)
  strict_target = record {
    logical_sector_size = λ s. target.logical_sector_size s.inner;
    size = λ s. target.size s.inner;
    seek = seek;
    read = read;
    write = write;
    flush = on_inner target.flush;
    sync = on_inner target.sync;
  }
