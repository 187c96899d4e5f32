-- ===== src/Lib.antt =====
-- Burnout writes a drive image, or a Windows installation drive, onto a USB drive. This library models
-- the parts of it that decide which bytes reach the drive, and states what makes them correct.
--
-- The parts and their files, with the code of each:
--
-- - Prelude: tests on the native numbers, lists and parts of them, machine words and their bytes in
--   both orders, multiples of a block, and checked sums with a signed offset. It models no code of
--   Burnout.
-- - Core/Error (crates/burnout-core/src/error.rs): every variant of `Error`, and `Result`.
-- - Core/Alignment (alignment.rs beside it): sector sizes, `round_up`, `sector_count`.
-- - Core/Drive (drive.rs) and Core/Safety (safety.rs): what is known of a drive, and the checks that
--   come before a write: `check_target`, `check_fits`, `check_same_drive`.
-- - Core/Target (target.rs): `BlockTarget` as a record of operations over a state. Target/Device has
--   the laws that the code relies on of a target that keeps its bytes, `IsDevice`: whole sectors at a
--   sector boundary inside its length are taken and given back, maybe in parts. They say nothing of
--   any other access. `write_all` and `read_exact` of the standard library are loops over them.
-- - Core/MemoryTarget (memory_target.rs), Core/StrictTarget (strict_target.rs) and Core/Window
--   (window.rs): an image in memory, a wrapper that takes whole sectors only, and a partition of a
--   target. Each has a file Device that proves the laws of it: the image by itself, the other two over
--   any device, so a client proved over a device holds of any stack of them.
-- - Core/SectorIo (sector_io.rs): reads and writes of any bytes over a device. Cache has the map of
--   cached sectors, State the record and what moves sectors, Access the operations. View says what a
--   reader sees (the cache over the waiting bytes over the target) and the invariant; the files after
--   it prove one operation each against that view.
-- - Core/Sha256 (sha256.rs): the running hash. Compress has the compression of one block. Standard and
--   Reference write FIPS 180-4 out on its own, its constants from the roots of the primes, and
--   Standing, Absorbed and Digest relate the two.
-- - Core/Write (write.rs, progress.rs): `write_image` with its source, its target, its hash and its
--   events; Core/Verify: `verify_image` of the same file. The hash is an interface (`Hasher`,
--   `IsHasher`): a running hash holds the bytes it was given, and ends in their digest. Core/Sha256
--   fills it.
-- - Core/Tree (tree.rs): the paths of a tree, its entries, and `FileSource`.
-- - Layout/Plan (crates/burnout-layout/src/plan.rs), Layout/Mbr and Layout/WriteTable (mbr.rs beside
--   it): the two partitions of the Windows layout, the partition table, and how it goes onto a drive.
-- - Layout/Stream (stream.rs): a file of a tree in chunks, with its digest.
-- - Layout/ExFat (exfat beside it): Geometry (geometry.rs) has where the parts of a volume go, Sums
--   (sums.rs) its checksums, UpCase (upcase.rs) the up-case table, Entries (entries.rs) the directory
--   entries and the rules for a name, Place (place.rs) the items of a tree and their clusters, Boot
--   (boot.rs) the boot region, Write the bytes of the FAT and of the bitmap and Writer the calls that
--   put a tree onto a volume (write.rs, manifest.rs), and Reader (read.rs) how a volume reads back:
--   Sets what an entry set says, Utf16 its name as text, ReadSet the whole `read_set` over a drive,
--   Chains the FAT and the claimed clusters, and Region the boot region. Place gives the writer its
--   runs, and the proofs of Writer and of Reader start from what is proved of Place and Geometry.
--
-- A state that changes is passed on beside the answer, also where the answer is an error, so what was
-- done before an error stays done. A `&mut self` method is a function from the state to the answer and
-- the state after it. A buffer to read into is its length, and the answer is the bytes that came. A
-- text is the list of its code points where the code looks into it.
--
-- Loops run on fuel: `write_all`, `read_exact`, `fill`, the zeros behind the FAT and the loops of
-- SectorIo take one round for each byte to go, which is enough since a round that goes on moves a byte
-- at least; `write_back` takes one round for each changed sector; `write_blocks`, `compare_blocks` and
-- `stream_loop` take one for each byte of the image or file and one more. The padding of the hash has
-- 64 rounds, as many as the buffer has bytes. The loop of a chain has one round more than the volume
-- has clusters, and its own guard ends it before that. The smallest exFAT volume is looked for up to
-- four mebibytes, where sectors of 512 and of 4096 bytes both leave room for one.
--
-- Numbers are natural numbers. A sum or product of the code that can wrap around is taken modulo the
-- word; those of sector_io.rs stay at or below the length of the target and are written without it,
-- and so are those of the exFAT files on a volume of at most 2 ^ 64 bytes. A `BTreeMap` is the list of
-- its entries in the order of their keys, a `HashMap` the list of its entries, the newest first.
--
-- Not modelled: the hosts (crates/burnout/src/platform), the command line, the readers of ISO 9660 and
-- UDF (crates/burnout-iso), the FAT32 writer, which is a crate of others, the copies and checks of the
-- Windows layout around it, the sources of a tree, the texts of the messages, and of the exFAT reader
-- `open`, the walk of the directories, the reading of the files and `check_allocation`. The trimming
-- of a label and the texts of errors are the host's.
pub mod Prelude
pub mod Core
pub mod Layout
