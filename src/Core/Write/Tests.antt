-- ===== src/Core/Write/Tests.antt =====
-- A write of a short image onto an image in memory, for crates/burnout-core/src/write.rs.
use burnout.Prelude.{
  ℕ, ◌+◌, ◌-◌, refl, ap, inl, List, [], ◌∷◌, length, slice, replicate, arith, pos, negsuc,
  length-slice, length-replicate,
}
use burnout.Core.Error.{ok}
use burnout.Core.Target.{Io, SeekFrom, start, end, current}
use burnout.Core.MemoryTarget.{MemoryTarget, memory_target}
use burnout.Core.MemoryTarget.Device.{IsImage, memory-IsDevice, byte, at}
use burnout.Core.Sha256.{Sha256, new, hasher}
use burnout.Core.Sha256.Reference.{digest}
use burnout.Core.Sha256.Digest.{Holds, hasher-IsHasher}
use burnout.Core.Write.{Source, Job, write_image}
use burnout.Core.Write.Blocks.{IsSource}
use burnout.Core.Write.Image.{ImageWritten, write_image-ImageWritten}

-- A file of fixed bytes, as its position.
abbrev pub file_seek : List ℕ → SeekFrom → Io ℕ ℕ
file_seek bytes (start n) s = (ok n, n)
file_seek bytes (end (pos n)) s = (ok (length bytes + n), length bytes + n)
file_seek bytes (end (negsuc n)) s = (ok (length bytes - (n + 1)), length bytes - (n + 1))
file_seek bytes (current (pos n)) s = (ok (s + n), s + n)
file_seek bytes (current (negsuc n)) s = (ok (s - (n + 1)), s - (n + 1))

abbrev pub file : List ℕ → Source ℕ
file bytes = record {
  seek = file_seek bytes;
  read = λ n s. (ok (slice s n bytes), s + length (slice s n bytes));
}

abbrev pub Anywhere : ℕ → Type 0
Anywhere s = Unit

pub file-IsSource : (bytes : List ℕ) → IsSource (file bytes) Anywhere bytes (λ s. s)
file-IsSource bytes = record {
  seek_start = λ n s v. (record { next = n; returns = refl; valid = tt }, refl);
  seek_end = λ s v. record {
    next = length bytes + 0;
    returns = ap (λ (n : ℕ). (ok n, length bytes + 0)) (omega arith);
    valid = tt;
  };
  read_some = λ n s v pos fits. record {
    next = s + length (slice s n bytes);
    count = n;
    returns = refl;
    some_bytes = pos;
    at_most = omega arith;
    inside = fits;
    valid = tt;
    position = omega (arith, length-slice s n bytes fits);
  };
}

abbrev pub drive : MemoryTarget
drive = record {
  bytes = replicate 1024 7;
  position = 0;
  sector_size = 512;
  size = 1024;
  sync_count = 0;
  written = 0;
  bytes_at_last_sync = 0;
}

pub drive-IsImage : IsImage drive
drive-IsImage = record {
  bytes = length-replicate {A = ℕ} 1024 7;
  sector_pos = omega arith;
  size_whole = refl;
}

abbrev pub five : List ℕ
five = 1 ∷ 2 ∷ 3 ∷ 4 ∷ 5 ∷ []

abbrev pub job : Job ℕ MemoryTarget Sha256
job = record { source = 0; target = drive; hash = new; events = [] }

write_image-ImageWritten_example :
    ImageWritten
      (file five)
      Anywhere
      five
      (λ s. s)
      (file-IsSource five)
      memory_target
      IsImage
      byte
      at
      memory-IsDevice
      hasher
      Holds
      digest
      hasher-IsHasher
      job
      (write_image (file five) memory_target hasher job)
write_image-ImageWritten_example =
    write_image-ImageWritten (file five) Anywhere five (λ s. s) (file-IsSource five) memory_target
      IsImage byte at memory-IsDevice hasher Holds digest hasher-IsHasher job tt drive-IsImage
      (inl refl) (omega arith) (omega arith)
