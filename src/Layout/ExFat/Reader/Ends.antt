-- ===== src/Layout/ExFat/Reader/Ends.antt =====
-- Every walk along the FAT in crates/burnout-layout/src/exfat/read.rs ends, whatever the FAT holds.
use burnout.Prelude.{ℕ, ◌+◌, ◌≤◌, ◌≡◌, Option, some, none, List, [], ◌∷◌, div_ceil}
use burnout.Core.Error.{Result, ok, err, io, unexpected_eof}
use burnout.Core.Target.{Io}
use burnout.Layout.ExFat.Reader.Chains.{ClusterRun}

-- A FAT that counts how often it is read.
abbrev pub counted : (ℕ → ℕ) → ℕ → Io ℕ ℕ
counted fat cluster reads = (ok (fat cluster), reads + 1)

-- Each run is inside the heap.
abbrev pub InHeap : ℕ → List ClusterRun → Type 0
InHeap count [] = Unit
InHeap count ((start, n) ∷ runs) = (2 ≤ start) × (start + n ≤ count + 2) × InHeap count runs

abbrev pub clusters_of : List ClusterRun → ℕ
clusters_of [] = 0
clusters_of ((start, n) ∷ runs) = n + clusters_of runs

-- A walk that has counted `total` reads ends after at most `count` of them, and not for want of fuel; a chain
-- that it finds has a cluster for each read, all in the heap.
abbrev Ended : ℕ → Result (ℕ × List ClusterRun) × ℕ → Type 0
Ended count (err e, reads) = (reads ≤ count) × (¬ (e ≡ io unexpected_eof))
Ended count (ok (n, runs), reads) =
    (reads ≤ count) × (n ≡ reads) × (clusters_of runs ≡ reads) × InHeap count runs

-- What `chain` answers: where it finds a chain, its runs hold a cluster for each read of the FAT, all in the
-- heap, and as many as the bytes need where a length is given.
abbrev pub ChainEnds : ℕ → ℕ → Option ℕ → Result (List ClusterRun) × ℕ → Type 0
ChainEnds count cluster_bytes wanted (err e, reads) = (reads ≤ count) × (¬ (e ≡ io unexpected_eof))
ChainEnds count cluster_bytes none (ok runs, reads) =
    (reads ≤ count) × (clusters_of runs ≡ reads) × InHeap count runs
ChainEnds count cluster_bytes (some length) (ok runs, reads) =
    (reads ≤ count)
    × (clusters_of runs ≡ reads)
    × InHeap count runs
    × (div_ceil length cluster_bytes ≡ reads)
