-- ===== src/Layout/ExFat/Reader/Chains.antt =====
-- The chains of the FAT, and the clusters that are claimed, from crates/burnout-layout/src/exfat/read.rs. The
-- loop takes `fat_entry` as a function of the cluster, so that a proof can count its calls.
use burnout.Prelude.{
  ℕ, zero, suc, ◌+◌, ◌-◌, ◌/◌, ◌%◌, ◌^◌, Bool, not, ◌||◌, Option, none, some, List, [], ◌∷◌, get_or,
  set, slice, le_value, ◌*◌, ltb, ◌==◌, if◌then◌else◌, div_ceil,
}
use burnout.Core.Error.{Result, ok, err, io, unexpected_eof, invalid_data, volume_differs}
use burnout.Core.Target.{Io, Target, start, ◌>>=◌, pure, raise, read_exact}
use burnout.Core.Tree.{TreePath}
use burnout.Layout.ExFat.Reader.Sets.{Data}
use burnout.Layout.ExFat.Write.{end_of_chain}

-- The first cluster of a run, and how many.
abbrev pub ClusterRun : Type 0
ClusterRun = ℕ × ℕ

-- The runs are kept the last first.
unfoldable pub add_cluster : ℕ → List ClusterRun → List ClusterRun
add_cluster cluster [] = (cluster, 1) ∷ []
add_cluster cluster ((first, n) ∷ runs) =
    if first + n == cluster then (first, n + 1) ∷ runs else (cluster, 1) ∷ (first, n) ∷ runs

-- The fields of `Volume` that its reads of the drive use.
pub record VolumeShape : Type 0 where
  pub sector : ℕ
  pub cluster : ℕ
  pub count : ℕ
  pub fat_start : ℕ

-- `Volume::fat_entry`: the four bytes of an entry, from the sector that they lie in.
unfoldable pub fat_entry : {T : Type 0} → Target T → VolumeShape → ℕ → Io T ℕ
fat_entry target v cluster =
    let place = v.fat_start + cluster * 4 in
    let from = place / v.sector * v.sector in
    (do
      _ ← target.seek (start from)
      sector ← read_exact target v.sector
      pure (le_value (slice (place - from) 4 sector)))

module _ {X : Type 0} (fat_entry : ℕ → Io X ℕ) (count : ℕ) where
  -- The loop. `total` clusters are in the chain before, and their runs, the last first. Each round of it is
  -- one cluster more, so a round more than there are clusters is fuel enough.
  unfoldable pub chain_loop : ℕ → ℕ → ℕ → List ClusterRun → Io X (ℕ × List ClusterRun)
  unfolding add_cluster
  chain_loop zero cluster total runs = raise (io unexpected_eof)
  chain_loop (suc fuel) cluster total runs =
      let round : Io X (ℕ × List ClusterRun) = fat_entry cluster >>= λ next.
      let rest = chain_loop fuel next (total + 1) (add_cluster cluster runs) in
      if next == end_of_chain then pure (total + 1, add_cluster cluster runs) else rest in
      if ltb cluster 2 || ltb (count + 1) cluster
      then raise (io (invalid_data "a chain in its FAT names a cluster that is not there"))
      else if ltb count (total + 1)
      then raise (io (invalid_data "a chain in its FAT never ends"))
      else round

  -- With a length, the chain has exactly the clusters that it needs.
  unfoldable pub right_length : ℕ → Option ℕ → ℕ × List ClusterRun → Io X (List ClusterRun)
  right_length cluster_bytes none (total, runs) = pure runs
  right_length cluster_bytes (some length) (total, runs) =
      if total == div_ceil length cluster_bytes
      then pure runs
      else raise (io (invalid_data "a chain does not hold the bytes of its entry"))

  unfoldable pub chain : ℕ → ℕ → Option ℕ → Io X (List ClusterRun)
  unfolding chain_loop right_length
  chain cluster_bytes first wanted =
      chain_loop (suc count) first 0 [] >>= λ found. right_length cluster_bytes wanted found

  unfoldable pub runs_of : ℕ → TreePath → Data → Io X (List ClusterRun)
  unfolding chain
  runs_of cluster_bytes path d =
      let clusters = div_ceil d.length cluster_bytes in
      if d.first == 0
      then (if d.length == 0
          then pure []
          else raise (volume_differs path "it has a length and no cluster"))
      else if not d.contiguous
      then chain cluster_bytes d.first (some d.length)
      else if clusters == 0 || (ltb d.first 2 || ltb (count + 1) (d.first + clusters - 1))
      then raise (volume_differs path "its clusters are not inside the cluster heap")
      else pure ((d.first, clusters) ∷ [])

-- Whether the bit of a cluster is set.
unfoldable pub is_claimed : List ℕ → ℕ → Bool
is_claimed claimed cluster = get_or claimed ((cluster - 2) / 8) 0 / 2 ^ ((cluster - 2) % 8) % 2 == 1

-- `n` clusters from this one on, each claimed once. A bit that is not set is added.
unfoldable pub claim_run : TreePath → ℕ → ℕ → List ℕ → Result (List ℕ)
unfolding is_claimed
claim_run what zero cluster claimed = ok claimed
claim_run what (suc n) cluster claimed =
    let at = (cluster - 2) / 8 in
    let rest =
      claim_run what n (cluster + 1)
        (set claimed at (get_or claimed at 0 + 2 ^ ((cluster - 2) % 8))) in
    if is_claimed claimed cluster
    then err (volume_differs what "a cluster belongs to two things")
    else rest
