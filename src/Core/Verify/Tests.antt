-- ===== src/Core/Verify/Tests.antt =====
-- A check of a short image against a drive that does not hold it, for crates/burnout-core/src/write.rs.
use burnout.Prelude.{ℕ, ◌<◌, ◌≡◌, refl, inl, zero, suc, List, [], ◌∷◌, get_or, arith}
use burnout.Core.MemoryTarget.{memory_target}
use burnout.Core.MemoryTarget.Device.{IsImage, memory-IsDevice, byte, at}
use burnout.Core.Sha256.{hasher}
use burnout.Core.Sha256.Reference.{digest}
use burnout.Core.Sha256.Digest.{Holds, hasher-IsHasher}
use burnout.Core.Verify.{verify_image}
use burnout.Core.Verify.Answer.{Answered, verify_image-Answered}
use burnout.Core.Write.Tests.{file, Anywhere, file-IsSource, drive, drive-IsImage, five, job}

abbrev sevens : List ℕ
sevens = 7 ∷ 7 ∷ 7 ∷ 7 ∷ 7 ∷ []

drive_holds : (i : ℕ) → i < 5 → byte drive i ≡ get_or sevens i 0
drive_holds zero h = refl
drive_holds (suc zero) h = refl
drive_holds (suc (suc zero)) h = refl
drive_holds (suc (suc (suc zero))) h = refl
drive_holds (suc (suc (suc (suc zero)))) h = refl
drive_holds (suc (suc (suc (suc (suc i))))) h = absurd (omega arith)

verify_image-Answered_example :
    Answered
      (file five)
      Anywhere
      five
      (λ s. s)
      (file-IsSource five)
      memory_target
      IsImage
      byte
      at
      memory-IsDevice
      hasher
      Holds
      digest
      hasher-IsHasher
      sevens
      (verify_image (file five) memory_target hasher job)
verify_image-Answered_example =
    verify_image-Answered (file five) Anywhere five (λ s. s) (file-IsSource five) memory_target
      IsImage byte at memory-IsDevice hasher Holds digest hasher-IsHasher sevens job tt
      drive-IsImage (inl refl) (omega arith) (omega arith) refl drive_holds
