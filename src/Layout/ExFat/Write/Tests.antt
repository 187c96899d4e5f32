-- ===== src/Layout/ExFat/Write/Tests.antt =====
-- The FAT and the bitmap of crates/burnout-layout/src/exfat/write.rs for a small tree.
use burnout.Prelude.{ℕ, ◌+◌, ◌≡◌, refl, inl, inr, some, [], ◌∷◌, get_or, arith, ltb}
use burnout.Core.Error.{ok}
use burnout.Core.Target.{Io}
use burnout.Layout.ExFat.Place.{used_clusters}
use burnout.Layout.ExFat.Place.Tests.{listed, placed, placed-IsAllocated}
use burnout.Layout.ExFat.Reader.Chains.{chain}
use burnout.Layout.ExFat.Reader.OneRun.{ReadsFat, chains-placed}
use burnout.Layout.ExFat.Write.{fat_entries, bitmap}
use burnout.Layout.ExFat.Write.Bitmap.{bit, bitmap-bit}

abbrev fat : ℕ → Io ℕ ℕ
fat c reads = (ok (get_or (fat_entries placed) c 0), reads + 1)

abbrev AnyCount : ℕ → Type 0
AnyCount reads = Unit

reads_fat : ReadsFat fat AnyCount (fat_entries placed)
reads_fat = record { next = λ c reads. reads + 1; returns = λ c x v lt. refl; valid = λ c x v. tt }

chains-placed_example :
    (x' : ℕ) × (chain fat 100 4096 3 (some 5836) 0 ≡ (ok ((3, 2) ∷ []), x')) × AnyCount x'
chains-placed_example =
    chains-placed fat AnyCount listed placed 4096 0 placed-IsAllocated reads_fat (omega arith) tt
      (record { first = 3; clusters = 2 }) 5836 (inr (inl refl)) (omega arith) refl

bitmap-bit_example : bit (bitmap placed) 7 ≡ ltb 7 (used_clusters placed)
bitmap-bit_example = bitmap-bit listed placed placed-IsAllocated 7
