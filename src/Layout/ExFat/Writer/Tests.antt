-- ===== src/Layout/ExFat/Writer/Tests.antt =====
-- A tree of one file that goes onto a volume in memory, as crates/burnout-layout/src/exfat/write.rs and
-- crates/burnout-layout/src/stream.rs put it there.
use burnout.Prelude.{
  ℕ, ◌≡◌, refl, ◌⊎◌, inl, List, [], ◌∷◌, take, drop, replicate, arith, String, length-replicate,
  length-take,
}
use burnout.Core.Error.{Error, ok, ok-injective}
use burnout.Core.Target.{Io}
use burnout.Core.MemoryTarget.{MemoryTarget, memory_target}
use burnout.Core.MemoryTarget.Device.{IsImage, memory-IsDevice, byte, at}
use burnout.Core.Sha256.{new}
use burnout.Core.Tree.{FileSource, file}
use burnout.Layout.Stream.{Streams, stream_loop}
use burnout.Layout.ExFat.Writer.{Copy, Options, write_exfat}
use burnout.Layout.Stream.Bounded.{Bounded}
use burnout.Layout.ExFat.Writer.Last.{Failed, Answered, write_exfat-BootLast}

abbrev text_of : Error → String
text_of e = "it failed"

-- A reader is the bytes that are left of it.
abbrev read_list : ℕ → Io (List ℕ) (List ℕ)
read_list n left = (ok (take n left), drop n left)

read_list-Bounded : Bounded read_list
read_list-Bounded n left got h = rw (← ok-injective h) (omega (arith, length-take n left))

abbrev five : List ℕ
five = 1 ∷ 2 ∷ 3 ∷ 4 ∷ 5 ∷ []

-- The pieces that a sink gets, the last first.
abbrev collect : List ℕ → Io (List (List ℕ)) (Unit {0})
collect piece pieces = (ok tt, piece ∷ pieces)

abbrev streams : Streams (List ℕ) (List (List ℕ))
streams = record { reader = five; sink = []; hash = new }

pieces_of_five :
    (stream_loop text_of read_list collect (b'a' ∷ []) 6 5 2 0 streams).1.sink
    ≡ (5 ∷ []) ∷ (3 ∷ 4 ∷ []) ∷ (1 ∷ 2 ∷ []) ∷ []
unfolding stream_loop burnout.Core.Write.fill burnout.Core.Write.fill_loop
    burnout.Core.Sha256.update burnout.Core.Sha256.absorb
pieces_of_five = refl

abbrev tree : FileSource (List ℕ)
tree = record {
  entries = ok (file (b'a' ∷ []) 5 ∷ []);
  open_file = λ path. ok five;
  read = read_list;
}

abbrev volume : MemoryTarget
volume = record {
  bytes = replicate 8388608 0;
  position = 0;
  sector_size = 512;
  size = 8388608;
  sync_count = 0;
  written = 0;
  bytes_at_last_sync = 0;
}

volume-IsImage : IsImage volume
volume-IsImage = record {
  bytes = length-replicate {A = ℕ} 8388608 0;
  sector_pos = omega arith;
  size_whole = refl;
}

abbrev options : Options
options = record { label = b'b' ∷ []; serial = 7; first_sector = 2048 }

abbrev copy : Copy MemoryTarget
copy = record { volume = volume; told = [] }

write_exfat-BootLast_example :
    Failed memory_target IsImage byte at memory-IsDevice text_of tree read_list-Bounded copy
      (write_exfat memory_target text_of tree options copy)
    ⊎ Answered memory_target IsImage byte at memory-IsDevice text_of tree read_list-Bounded options
        copy
        (write_exfat memory_target text_of tree options copy)
write_exfat-BootLast_example =
    write_exfat-BootLast memory_target IsImage byte at memory-IsDevice text_of tree
      read_list-Bounded options copy volume-IsImage (inl refl)
