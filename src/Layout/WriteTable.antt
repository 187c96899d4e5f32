-- ===== src/Layout/WriteTable.antt =====
-- `write_table` of crates/burnout-layout/src/mbr.rs: the table goes onto a drive, after every trace of the
-- one before it.
pub mod Erased
mod Tests
use burnout.Prelude.{ℕ, ◌-◌, List, [], ◌∷◌, replicate, copy_at}
use burnout.Core.Target.{Io, Target, start, continue, ◌>>=◌, ◌>>◌, pure, write_all}
use burnout.Layout.Plan.{Layout, align}
use burnout.Layout.Mbr.{mbr_bytes}

-- The first bytes of the four mebibytes that go to zero.
abbrev pub traces : Layout → List ℕ
traces l = 0 ∷ l.boot.start ∷ l.install.start ∷ (l.drive_bytes - align) ∷ []

-- A mebibyte of zeros.
unfoldable pub zeros : List ℕ
zeros = replicate align 0

-- The first sector, with the table in it.
unfoldable pub first_bytes : Layout → ℕ → List ℕ
first_bytes l disk_signature = copy_at 0 (mbr_bytes l disk_signature) (replicate l.sector_size 0)

module _ {T : Type 0} (target : Target T) where
  unfoldable pub put : ℕ → List ℕ → Io T (Unit {0})
  put at bytes = do _ ← target.seek (start at); write_all target bytes

  -- The loop over the four places.
  unfoldable pub erase : List ℕ → Io T (Unit {0})
  erase [] = pure tt
  erase (at ∷ ats) = do put at zeros; erase ats

  unfoldable pub write_table : Layout → ℕ → Io T (Unit {0})
  write_table l disk_signature = do
    erase (traces l)
    put 0 (first_bytes l disk_signature)
    target.flush
