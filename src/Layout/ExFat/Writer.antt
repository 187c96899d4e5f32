-- ===== src/Layout/ExFat/Writer.antt =====
-- crates/burnout-layout/src/exfat/write.rs: a tree goes onto an exFAT volume, with the manifest of
-- crates/burnout-layout/src/manifest.rs. The state of a call is the volume and the numbers that `tally`
-- heard, the last first. The label of the options is trimmed before it comes here.
pub mod Spans
pub mod Smallest
pub mod Runs
pub mod Kept
pub mod Parts
pub mod Pieces
pub mod Tree
pub mod Last
mod Tests
use burnout.Prelude.{
  ℕ, zero, suc, ◌+◌, ◌-◌, ◌*◌, ◌/◌, min, Bool, true, false, Option, none, some, List, [], ◌∷◌, ◌++◌,
  length, replicate, ltb, leb, ◌==◌, if◌then◌else◌, div_ceil, String,
}
use burnout.Core.Error.{Error, Result, ok, err, partition_too_small, exfat}
use burnout.Core.Target.{Io, Target, start, ◌>>=◌, ◌>>◌, pure, write_all}
use burnout.Core.Tree.{TreePath, Entry, FileSource}
use burnout.Core.Sha256.{new as new_hash}
use burnout.Layout.Stream.{chunk_bytes, Streams, stream_file}
use burnout.Layout.WriteTable.{put}
use burnout.Layout.ExFat.Geometry.{
  Geometry, first_cluster, cluster_bytes, cluster_offset, fat_start, new as new_geometry,
}
use burnout.Layout.ExFat.UpCase.{recommended_bytes, from_table}
use burnout.Layout.ExFat.UpCase.Table.{recommended_table}
use burnout.Layout.ExFat.Entries.{dir_kind, file_kind, Kind, label_entry}
use burnout.Layout.ExFat.Place.{
  Run, Item, Placement, resize, directory, root_directory, percent_in_use, new as place_tree,
}
use burnout.Layout.ExFat.Boot.{BootFields, boot_region, region_sectors}
use burnout.Layout.ExFat.Write.{fat_head, bitmap}

pub record CopiedFile : Type 0 where
  pub path : TreePath
  pub bytes : ℕ
  pub digest : List ℕ

pub record Manifest : Type 0 where
  pub dirs : List TreePath
  pub files : List CopiedFile

-- `ExfatOptions`.
pub record Options : Type 0 where
  pub label : List ℕ
  pub serial : ℕ
  pub first_sector : ℕ

pub record Copy (T : Type 0) : Type 0 where
  pub volume : T
  pub told : List ℕ

-- `UpCase::recommended`; the table is one that `from_table` takes.
unfoldable pub recommended : List ℕ
recommended = elim (from_table recommended_table) [ none ↦ [] | some map ↦ map ]

-- Whether a volume of these bytes holds an exFAT file system with nothing on it.
unfoldable pub holds_nothing : ℕ → ℕ → Bool
unfolding recommended
holds_nothing sector bytes = elim (new_geometry bytes sector) [
  | none ↦ false
  | some g ↦ elim (place_tree g none [] recommended) [ err e ↦ false | ok p ↦ true ]
]

-- The loop of `min_volume_bytes`, with fuel for the volumes up to four mebibytes.
unfoldable pub smallest : ℕ → ℕ → ℕ → ℕ
unfolding holds_nothing
smallest zero sector bytes = bytes
smallest (suc fuel) sector bytes =
    let next = smallest fuel sector (bytes + sector) in
    if holds_nothing sector bytes then bytes else next

unfoldable pub min_volume_bytes : ℕ → ℕ
unfolding smallest
min_volume_bytes sector = smallest (3 * 1024 * 1024 / sector) sector (1024 * 1024)

-- Where a tree goes: the volume must hold an empty tree first.
unfoldable pub place : ℕ → ℕ → List ℕ → List Entry → Result Placement
unfolding recommended min_volume_bytes
place volume_bytes sector label entries =
    let too_small = partition_too_small exfat volume_bytes (min_volume_bytes sector) in
    elim (new_geometry volume_bytes sector) [
      | none ↦ err too_small
      | some g ↦ elim (place_tree g (label_entry label) [] recommended) [
        | err e ↦ err too_small
        | ok empty ↦ place_tree g (label_entry label) entries recommended
      ]
    ]

unfoldable pub check_exfat_fits : ℕ → ℕ → List ℕ → List Entry → Result (Unit {0})
unfolding place
check_exfat_fits volume_bytes sector label entries =
    elim (place volume_bytes sector label entries) [ err e ↦ err e | ok p ↦ ok tt ]

module _ {T : Type 0} (volume : Target T) where
  abbrev pub on_volume : {A : Type 0} → Io T A → Io (Copy T) A
  on_volume m c = ((m c.volume).0, record c { volume = (m c.volume).1 })

  -- `bytes`, and zero to the end of the last cluster of the run.
  unfoldable pub write_run : Geometry → Run → List ℕ → Io T (Unit {0})
  write_run g run bytes =
      put volume (cluster_offset g run.first) (resize bytes (run.clusters * cluster_bytes g))

  -- `while rest > 0`. A round writes a byte at least, so a round for each byte is enough.
  unfoldable pub write_zeros : ℕ → ℕ → Io T (Unit {0})
  write_zeros zero rest = pure tt
  write_zeros (suc fuel) rest =
      let n = min rest chunk_bytes in
      let round = write_all volume (replicate n 0) >> write_zeros fuel (rest - n) in
      if rest == 0 then pure tt else round

  unfoldable pub write_fat : Placement → Io T (Unit {0})
  unfolding write_zeros
  write_fat p =
      let g = p.geometry in
      let head = fat_head g.sector_bytes p in
      let rest = g.fat_length * g.sector_bytes - length head in
      (do put volume (fat_start g) head; write_zeros rest rest)

  -- A whole chunk is whole clusters, and the last piece gets zeros to the end of its cluster.
  unfoldable pub write_piece : ℕ → List ℕ → Io (Copy T) (Unit {0})
  write_piece cluster piece =
      let n = length piece in
      let tail = piece ++ replicate (div_ceil n cluster * cluster - n) 0 in
      (do
        on_volume (write_all volume (if n == chunk_bytes then piece else tail))
        λ c. (ok tt, record c { told = n ∷ c.told }))

  module _ {R : Type 0} (text_of : Error → String) (source : FileSource R) where
    -- An empty file has no run.
    unfoldable pub seek_run : Geometry → Run → Io (Copy T) (Unit {0})
    seek_run g run =
        let seek = on_volume (volume.seek (start (cluster_offset g run.first))) >>= λ at. pure tt in
        if leb first_cluster run.first then seek else pure tt

    unfoldable pub copy_in : Geometry → Item → Io (Copy T) (List ℕ)
    unfolding write_piece
    copy_in g i = (λ c. (source.open_file i.path, c)) >>= λ reader c.
        let (digest, s) =
          stream_file text_of source.read (write_piece (cluster_bytes g)) i.path i.data_length
            chunk_bytes (record { reader = reader; sink = c; hash = new_hash }) in
        (digest, s.sink)

    unfoldable pub write_file : Geometry → Item → Io (Copy T) (List ℕ)
    unfolding seek_run copy_in
    write_file g i = do seek_run g i.run; copy_in g i

    unfoldable pub write_item : Kind → Placement → Item → Manifest → Io (Copy T) Manifest
    unfolding write_run write_file
    write_item dir_kind p i m = do
      on_volume (write_run p.geometry i.run (directory p i))
      pure (record m { dirs = m.dirs ++ i.path ∷ [] })
    write_item file_kind p i m = write_file p.geometry i >>= λ digest.
        let copied : CopiedFile = record {
          path = i.path;
          bytes = i.data_length;
          digest = digest;
        } in
        pure (record m { files = m.files ++ copied ∷ [] })

    unfoldable pub write_items : Placement → List Item → Manifest → Io (Copy T) Manifest
    unfolding write_item
    write_items p [] m = pure m
    write_items p (i ∷ items) m = write_item i.kind p i m >>= λ m'. write_items p items m'

    -- Everything but the boot regions.
    unfoldable pub write_tree : Placement → Io (Copy T) Manifest
    unfolding write_fat write_run write_items
    write_tree p = do
      on_volume (write_fat p)
      on_volume (write_run p.geometry p.bitmap (bitmap p))
      on_volume (write_run p.geometry p.upcase recommended_bytes)
      on_volume (write_run p.geometry p.root (root_directory p))
      m ← write_items p p.items (record { dirs = []; files = [] })
      on_volume volume.flush
      pure m

    -- The copy of the region, and then the region itself.
    unfoldable pub write_regions : ℕ → List ℕ → Io T (Unit {0})
    write_regions sector region = do
      put volume (region_sectors * sector) region
      put volume 0 region
      volume.flush

    abbrev pub region_of : Options → Placement → List ℕ
    region_of options p = boot_region p.geometry (record {
      partition_offset = options.first_sector;
      serial = options.serial;
      root_cluster = p.root.first;
      percent_in_use = percent_in_use p;
    })

    -- `write_exfat_with`; `write_exfat` is the same with a `tally` that hears nothing.
    unfoldable pub write_exfat : Options → Io (Copy T) Manifest
    unfolding place write_tree write_regions
    write_exfat options c =
        let sector = volume.logical_sector_size c.volume in
        let size = volume.size c.volume in
        let run : Io (Copy T) Manifest = (do
          entries ← λ c. (source.entries, c)
          p ← λ c. (place size sector options.label entries, c)
          m ← write_tree p
          on_volume (write_regions sector (region_of options p))
          pure m) in
        run c
