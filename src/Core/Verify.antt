-- ===== src/Core/Verify.antt =====
-- `verify_image` of crates/burnout-core/src/write.rs: the drive is read back and compared with the image.
pub mod Reading
pub mod Rounds
pub mod Answer
mod Tests
use burnout.Prelude.{
  ℕ, zero, suc, ◌+◌, ◌-◌, min, Bool, true, false, not, Option, none, some, List, [], ◌∷◌, length,
  take, ltb, ◌==◌, if◌then◌else◌,
}
use burnout.Core.Error.{
  Error, Result, ok, err, io, unexpected_eof, image_ended, drive_ended, verify_failed,
}
use burnout.Core.Alignment.{check_sector_size, check_aligned, round_up}
use burnout.Core.Safety.{check_fits}
use burnout.Core.Target.{Io, Target, start, continue, ◌>>=◌, ◌>>◌, pure, raise, gets, modify}
use burnout.Core.Write.{
  Source, Hasher, Job, started, advanced, done, verify_stage, block_bytes, fill, length_of,
  on_source, on_target, report, lift,
}

pub record Verification : Type 0 where
  pub bytes : ℕ
  pub digest : List ℕ

abbrev pub shift : ℕ → Option ℕ → Option ℕ
shift at none = none
shift at (some n) = some (at + n)

abbrev pub first_of : Option ℕ → Option ℕ → Option ℕ
first_of none later = later
first_of (some n) later = some n

-- The first place where two lists differ, as far as both go.
unfoldable pub differs_at : List ℕ → List ℕ → Option ℕ
differs_at [] bs = none
differs_at (x ∷ xs) [] = none
differs_at (x ∷ xs) (b ∷ bs) =
    let later = differs_at xs bs in if x == b then shift 1 later else some 0

-- The first difference that was found, or that of the block at `at`.
unfoldable pub note_difference : Option ℕ → ℕ → List ℕ → List ℕ → Option ℕ
note_difference found at left right = first_of found (shift at (differs_at left right))

-- `==` of two digests.
unfoldable pub same_bytes : List ℕ → List ℕ → Bool
same_bytes [] [] = true
same_bytes [] (b ∷ bs) = false
same_bytes (x ∷ xs) [] = false
same_bytes (x ∷ xs) (b ∷ bs) = let rest = same_bytes xs bs in if x == b then rest else false

-- The bytes compared, the first difference, and the hash of the drive.
pub record Compared (H : Type 0) : Type 0 where
  pub so_far : ℕ
  pub difference : Option ℕ
  pub drive_hash : H

module _ {S T H : Type 0} (source : Source S) (target : Target T) (hasher : Hasher H) where
  unfoldable pub fill_exact : ℕ → ℕ → Io (Job S T H) (List ℕ)
  fill_exact count at = on_target (fill target.read count) >>= λ bytes.
      if length bytes == count
      then pure bytes
      else (λ j. (err (drive_ended (at + length bytes) (target.size j.target)), j))

  -- The loop over the blocks. A round reads a byte at least.
  unfoldable pub compare_blocks : ℕ → ℕ → ℕ → ℕ → Compared H → Io (Job S T H) (Compared H)
  compare_blocks zero size image_bytes sector c = raise (io unexpected_eof)
  compare_blocks (suc fuel) size image_bytes sector c =
      let want = min (image_bytes - c.so_far) size in
      let round : Io (Job S T H) (Compared H) = on_source (fill source.read want) >>= λ got.
      if length got == 0
      then raise (image_ended c.so_far image_bytes)
      else (fill_exact (round_up (length got) sector) c.so_far >>= λ drive. (do
        modify (λ j. record j { hash = hasher.update got j.hash })
        report (advanced verify_stage (c.so_far + length got))
        compare_blocks fuel size image_bytes sector (record {
          so_far = c.so_far + length got;
          difference = note_difference c.difference c.so_far got (take (length got) drive);
          drive_hash = hasher.update (take (length got) drive) c.drive_hash;
        }))) in
      if ltb c.so_far image_bytes then round else pure c

  -- The answer, from the two hashes.
  unfoldable pub judge : Compared H → Io (Job S T H) Verification
  judge c j =
      let expected = hasher.finish j.hash in
      let got = hasher.finish c.drive_hash in
      if same_bytes expected got
      then (do
        report (done verify_stage c.so_far)
        pure (record { bytes = c.so_far; digest = expected }))
          j
      else (err (verify_failed expected got c.difference), j)

  unfoldable pub verify_image : Io (Job S T H) Verification
  verify_image = do
    modify (λ j. record j { hash = hasher.fresh })
    logical ← gets (λ j. target.logical_sector_size j.target)
    sector ← lift (check_sector_size logical)
    size ← gets (λ j. target.size j.target)
    lift (check_aligned size sector)
    image_bytes ← length_of source target hasher
    lift (check_fits image_bytes size)
    _ ← on_source (source.seek (start 0))
    _ ← on_target (target.seek (start 0))
    report (started verify_stage (some image_bytes))
    c ←
        compare_blocks (suc image_bytes) (block_bytes sector) image_bytes sector
          (record { so_far = 0; difference = none; drive_hash = hasher.fresh })
    judge c
