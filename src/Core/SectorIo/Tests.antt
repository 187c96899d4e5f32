-- ===== src/Core/SectorIo/Tests.antt =====
-- An image in memory behind a target that takes whole sectors only, under the cached target of
-- crates/burnout-core/src/sector_io.rs: the theorems at a concrete state.
use burnout.Prelude.{
  ℕ, ◌<◌, ◌≤◌, ◌≡◌, refl, List, [], ◌∷◌, arith, replicate, length-replicate, ◌⊎◌, min, ◌-◌, take,
}
use burnout.Core.Alignment.{check_sector_size, check_aligned}
use burnout.Core.MemoryTarget.{MemoryTarget, memory_target, new}
use burnout.Core.MemoryTarget.Device.{IsImage, new-IsImage, memory-IsDevice, byte, at}
use burnout.Core.StrictTarget.{StrictTarget, strict_target}
use burnout.Core.StrictTarget.Device.{InStep, strict-IsDevice}
use burnout.Core.Window
use burnout.Core.Window.{Window, window_target}
use burnout.Core.Window.Device.{InPlace, window_byte, window-IsDevice, Confined, write-Confined}
use burnout.Core.Error.{err, io, write_zero}
use burnout.Core.Target.{Target, write_all}
use burnout.Core.Target.Device.{IsDevice, WroteAll, write_all-WroteAll}
use burnout.Core.SectorIo.Cache.{lookup}
use burnout.Core.SectorIo.State.{SectorIo, with_cache, send_run}
use burnout.Core.SectorIo.Access.{read, write, flush, sync}
use burnout.Core.SectorIo.View.{Inv}
use burnout.Core.SectorIo.SendRun.{SentRun, send_run-SentRun}
use burnout.Core.SectorIo.WriteBack.{WrittenBack, write_back-WrittenBack}
use burnout.Core.SectorIo.Load.{Loaded, load-Loaded}
use burnout.Core.SectorIo.Read.{GivesAll, read-GivesAll}
use burnout.Core.SectorIo.Write.{Writes, write-Writes}
use burnout.Core.SectorIo.Flush.{OnTarget, flush-OnTarget, sync-OnMedium, with_cache-Inv}

abbrev image : MemoryTarget
image = record {
  bytes = replicate 1024 7;
  position = 0;
  sector_size = 512;
  size = 1024;
  sync_count = 0;
  written = 0;
  bytes_at_last_sync = 0;
}

abbrev image0 : MemoryTarget
image0 = record image { bytes = replicate 1024 0 }

abbrev Drive : Type 0
Drive = StrictTarget MemoryTarget

abbrev drive : Target Drive
drive = strict_target memory_target

abbrev Ready : Drive → Type 0
Ready = InStep IsImage at

abbrev drive_byte : Drive → ℕ → ℕ
drive_byte s = byte s.inner

abbrev drive_at : Drive → ℕ
drive_at s = s.position

drive-IsDevice : IsDevice drive Ready drive_byte drive_at
drive-IsDevice = strict-IsDevice memory_target IsImage byte at memory-IsDevice

image-Ready : Ready (record { inner = image; position = 0 })
image-Ready = (
  record { bytes = length-replicate {A = ℕ} 1024 7; sector_pos = omega arith; size_whole = refl },
  refl,
)

abbrev cached : SectorIo Drive
cached = with_cache drive (record { inner = image; position = 0 }) 2

cached-Inv : Inv drive Ready drive_byte cached
cached-Inv =
    (with_cache-Inv drive Ready drive_byte drive_at drive-IsDevice
      (record { inner = image; position = 0 }) 2 image-Ready).0

read-GivesAll_example :
    GivesAll drive Ready drive_byte drive_at drive-IsDevice
      (min 700 (drive.size cached.inner - cached.position))
      cached
      (read drive 700 cached)
read-GivesAll_example =
    read-GivesAll drive Ready drive_byte drive_at drive-IsDevice 700 cached cached-Inv

abbrev five : List ℕ
five = 1 ∷ 2 ∷ 3 ∷ 4 ∷ 5 ∷ []

write-Writes_example :
    Writes drive Ready drive_byte drive_at drive-IsDevice
      (take (min 5 (drive.size cached.inner - cached.position)) five)
      cached
      (write drive five cached)
    ⊎ ((0 < 5)
        × (drive.size cached.inner ≤ cached.position)
        × (write drive five cached ≡ (err (io write_zero), cached)))
write-Writes_example =
    write-Writes drive Ready drive_byte drive_at drive-IsDevice five cached cached-Inv

flush-OnTarget_example :
    OnTarget drive Ready drive_byte drive_at drive-IsDevice cached (flush drive cached)
flush-OnTarget_example =
    flush-OnTarget drive Ready drive_byte drive_at drive-IsDevice cached cached-Inv

-- Nothing was written to the image since its last sync.
abbrev Synced : Drive → Type 0
Synced s = s.inner.bytes_at_last_sync ≡ s.inner.written

drive_syncs : (t : Drive) → Ready t → Synced (drive.sync t).1
unfolding burnout.Core.MemoryTarget.sync
drive_syncs t v = refl

sync-OnMedium_example :
    (o : OnTarget drive Ready drive_byte drive_at drive-IsDevice cached (sync drive cached))
    × Synced o.after.inner
sync-OnMedium_example =
    sync-OnMedium drive Ready drive_byte drive_at drive-IsDevice Synced drive_syncs cached
      cached-Inv

load-Loaded_example : Loaded drive Ready drive_byte drive_at drive-IsDevice 1 cached
unfolding with_cache
load-Loaded_example =
    load-Loaded drive Ready drive_byte drive_at drive-IsDevice 1 cached cached-Inv (omega arith)

write_back-WrittenBack_example : WrittenBack drive Ready drive_byte drive_at drive-IsDevice cached
write_back-WrittenBack_example =
    write_back-WrittenBack drive Ready drive_byte drive_at drive-IsDevice cached cached-Inv

send_run-SentRun_example :
    SentRun drive Ready drive_byte drive_at drive-IsDevice 512
      (replicate 512 9)
      cached
      (send_run drive 512 (replicate 512 9) cached)
unfolding with_cache lookup
send_run-SentRun_example =
    send_run-SentRun drive Ready drive_byte drive_at drive-IsDevice 512 (replicate 512 9) cached
      cached-Inv refl refl (omega (arith, length-replicate {A = ℕ} 512 9)) (λ a p q. refl)

write_all-WroteAll_example :
    WroteAll drive Ready drive_byte drive_at
      (replicate 512 9)
      (record { inner = image; position = 0 })
      (write_all drive (replicate 512 9) (record { inner = image; position = 0 }))
write_all-WroteAll_example =
    write_all-WroteAll drive Ready drive_byte drive_at drive-IsDevice (replicate 512 9)
      (record { inner = image; position = 0 }) image-Ready refl refl
      (omega (arith, length-replicate {A = ℕ} 512 9))

strict-IsDevice_example :
    IsDevice (strict_target memory_target) (InStep IsImage at) (λ s. byte s.inner) (λ s. s.position)
strict-IsDevice_example = strict-IsDevice memory_target IsImage byte at memory-IsDevice

abbrev partition : Window MemoryTarget
partition = record { inner = image; start_at = 512; size = 512; position = 0 }

partition-InPlace : InPlace memory_target IsImage byte at memory-IsDevice partition
partition-InPlace = record {
  valid = image-Ready.0;
  start_whole = refl;
  size_whole = refl;
  fits = omega arith;
}

window-IsDevice_example :
    IsDevice
      (window_target memory_target)
      (InPlace memory_target IsImage byte at memory-IsDevice)
      (window_byte memory_target IsImage byte at memory-IsDevice)
      (λ w. w.position)
window-IsDevice_example = window-IsDevice memory_target IsImage byte at memory-IsDevice

write-Confined_example :
    Confined memory_target IsImage byte at memory-IsDevice partition
      (Window.write memory_target (replicate 1024 9) partition).1
write-Confined_example =
    write-Confined memory_target IsImage byte at memory-IsDevice (replicate 1024 9) partition
      partition-InPlace refl refl

new-IsImage_example : IsImage image0 × (image0.size ≡ 1024) × ((a : ℕ) → byte image0 a ≡ 0)
unfolding new check_sector_size check_aligned
new-IsImage_example = new-IsImage 1024 512 image0 refl
