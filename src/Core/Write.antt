-- ===== src/Core/Write.antt =====
-- Raw mode of crates/burnout-core/src/write.rs: an image goes onto a target byte for byte, and is read
-- back. The state of a call is its source, its target, the running hash and the events so far, the last
-- first. The events are those of crates/burnout-core/src/progress.rs.
pub mod Blocks
pub mod Copy
pub mod Image
pub mod Tests
use burnout.Prelude.{
  ℕ, zero, suc, ◌+◌, ◌-◌, ◌*◌, ◌/◌, min, Bool, true, false, not, ◌&&◌, Option, none, some, List, [],
  ◌∷◌, ◌++◌, length, replicate, ltb, ◌==◌, if◌then◌else◌, ℤ, pos,
}
use burnout.Core.Error.{
  Error, Result, ok, err, io, unexpected_eof, image_ended, drive_ended, verify_failed,
}
use burnout.Core.Alignment.{check_sector_size, check_aligned, round_up}
use burnout.Core.Safety.{check_fits}
use burnout.Core.Target.{
  Io, Target, SeekFrom, start, end, continue, ◌>>=◌, ◌>>◌, pure, raise, gets, modify, write_all,
}

pub data Stage : Type 0 where
  unmount_stage write_stage flush_stage verify_stage : Stage

pub data ProgressEvent : Type 0 where
  started : Stage → Option ℕ → ProgressEvent
  advanced : Stage → ℕ → ProgressEvent
  done : Stage → ℕ → ProgressEvent

-- An image that reads and seeks.
pub record Source (S : Type 0) : Type 0 where
  pub seek : SeekFrom → Io S ℕ
  pub read : ℕ → Io S (List ℕ)

-- The running hash: `Sha256::new`, `update` and `finish`.
pub record Hasher (H : Type 0) : Type 0 where
  pub fresh : H
  pub update : List ℕ → H → H
  pub finish : H → List ℕ

pub record Job (S T H : Type 0) : Type 0 where
  pub source : S
  pub target : T
  pub hash : H
  pub events : List ProgressEvent

pub record WriteReport : Type 0 where
  pub image_bytes : ℕ
  pub written_bytes : ℕ
  pub digest : List ℕ

-- `BLOCK_BYTES`.
abbrev pub block_size : ℕ
block_size = 4 * 1024 * 1024

unfoldable pub block_bytes : ℕ → ℕ
block_bytes sector = block_size / sector * sector

-- The bytes of a block, with zeros up to a whole sector.
unfoldable pub padded : ℕ → List ℕ → List ℕ
padded sector got = got ++ replicate (round_up (length got) sector - length got) 0

-- `n` bytes to go. A round that goes on has read a byte at least.
unfoldable pub fill_loop : {X : Type 0} → (ℕ → Io X (List ℕ)) → ℕ → ℕ → Io X (List ℕ)
fill_loop read fuel zero = pure []
fill_loop read zero (suc n) = pure []
fill_loop read (suc fuel) (suc n) = read (suc n) >>= λ got.
    let rest = fill_loop read fuel (suc n - length got) in
    if length got == 0 then pure [] else rest >>= λ more. pure (got ++ more)

unfoldable pub fill : {X : Type 0} → (ℕ → Io X (List ℕ)) → ℕ → Io X (List ℕ)
fill read n = fill_loop read n n

module _ {S T H : Type 0} where
  abbrev pub on_source : {A : Type 0} → Io S A → Io (Job S T H) A
  on_source m j = ((m j.source).0, record j { source = (m j.source).1 })

  abbrev pub on_target : {A : Type 0} → Io T A → Io (Job S T H) A
  on_target m j = ((m j.target).0, record j { target = (m j.target).1 })

  abbrev pub report : ProgressEvent → Io (Job S T H) (Unit {0})
  report e j = (ok tt, record j { events = e ∷ j.events })

  -- A check, which changes nothing.
  abbrev pub lift : {A : Type 0} → Result A → Io (Job S T H) A
  lift r j = (r, j)

module _ {S T H : Type 0} (source : Source S) (target : Target T) (hasher : Hasher H) where
  unfoldable pub length_of : Io (Job S T H) ℕ
  length_of = do
    length ← on_source (source.seek (end (pos 0)))
    _ ← on_source (source.seek (start 0))
    pure length

  -- The bytes that came, and those that go to the drive.
  unfoldable pub next_block : ℕ → ℕ → ℕ → ℕ → Io (Job S T H) (List ℕ × List ℕ)
  next_block size read image_bytes sector =
      let want = min (image_bytes - read) size in
      on_source (fill source.read want) >>= λ got.
      if length got == 0 && ltb 0 want then raise (image_ended read image_bytes) else (do
        modify (λ j. record j { hash = hasher.update got j.hash })
        pure (got, padded sector got))

  -- The blocks after the first one. A round reads a byte at least.
  unfoldable pub write_blocks : ℕ → ℕ → ℕ → ℕ → ℕ → ℕ → ℕ → Io (Job S T H) (ℕ × ℕ)
  write_blocks zero size image_bytes sector read so_far written = raise (io unexpected_eof)
  write_blocks (suc fuel) size image_bytes sector read so_far written =
      let round : Io (Job S T H) (ℕ × ℕ) = next_block size read image_bytes sector >>= λ block.
      let got = block.0 in
      let out = block.1 in
      (do
        on_target (write_all target out)
        report (advanced write_stage (so_far + length got))
        write_blocks fuel size image_bytes sector (read + length got) (so_far + length got)
            (written + length out)) in
      if ltb read image_bytes then round else pure (so_far, written)

  -- The flush, and the report of it and of the write.
  unfoldable pub finish_write : ℕ → ℕ → ℕ → Io (Job S T H) WriteReport
  finish_write image_bytes so_far written = do
    report (started flush_stage none)
    on_target target.sync
    report (done flush_stage written)
    report (done write_stage so_far)
    hash ← gets (λ j. j.hash)
    pure
        (record { image_bytes = image_bytes; written_bytes = written; digest = hasher.finish hash })

  -- Every block, the first one last.
  unfoldable pub copy_image : ℕ → ℕ → Io (Job S T H) WriteReport
  copy_image image_bytes sector = do
    _ ← on_source (source.seek (start 0))
    report (started write_stage (some image_bytes))
    (first, first_out) ← next_block (block_bytes sector) 0 image_bytes sector
    _ ← on_target (target.seek (start (length first_out)))
    (so_far, written) ←
        write_blocks (suc image_bytes) (block_bytes sector) image_bytes sector (length first) 0 0
    _ ← on_target (target.seek (start 0))
    on_target (write_all target first_out)
    report (advanced write_stage (so_far + length first))
    finish_write image_bytes (so_far + length first) (written + length first_out)

  unfoldable pub write_image : Io (Job S T H) WriteReport
  write_image = do
    modify (λ j. record j { hash = hasher.fresh })
    logical ← gets (λ j. target.logical_sector_size j.target)
    sector ← lift (check_sector_size logical)
    size ← gets (λ j. target.size j.target)
    lift (check_aligned size sector)
    image_bytes ← length_of
    lift (check_fits image_bytes size)
    copy_image image_bytes sector
