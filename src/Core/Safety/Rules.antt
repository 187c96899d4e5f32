-- ===== src/Core/Safety/Rules.antt =====
-- The refusals of crates/burnout-core/src/safety.rs, decided exactly.
use text.Mathlib.TextEquality.{eq_iff}
use burnout.Prelude.{
  ℕ, ◌≤◌, String, ◌≡◌, ◌↔◌, ◌⊎◌, refl, ap, true, false, Option, none, some, arith,
}
use burnout.Core.Error.{ok}
use burnout.Core.Drive.{DriveInfo, removable}
use burnout.Core.Safety.{
  Force, not_forced, forced, option_eq, check_target, check_fits, check_same_drive,
}

-- A drive that Burnout may write to: not the system disk, not refusing each write, and removable
-- unless the person forced it.
pub record MayWrite (d : DriveInfo) (force : Force) : Type 0 where
  pub not_system : d.system ≡ false
  pub writable : d.read_only ≡ false
  pub safe : (removable d ≡ true) ⊎ (force ≡ forced)

-- `check_target` passes exactly the drives that Burnout may write to.
pub check_target_iff : (d : DriveInfo) (f : Force) → (check_target d f ≡ ok tt) ↔ MayWrite d f
unfolding check_target
check_target_iff d not_forced = (λ h. ground arith, λ m. ground arith)
check_target_iff d forced = (λ h. ground arith, λ m. ground arith)

-- `check_fits` passes exactly the images that are not larger than the drive.
pub check_fits_iff : (i d : ℕ) → (check_fits i d ≡ ok tt) ↔ (i ≤ d)
unfolding check_fits
check_fits_iff i d = (λ h. ground arith, λ h. ground arith)

option_eq_iff : (a b : Option String) → (option_eq a b ≡ true) ↔ (a ≡ b)
option_eq_iff none none = (λ h. refl, λ h. refl)
option_eq_iff none (some b) = (λ h. cc, λ h. cc)
option_eq_iff (some a) none = (λ h. cc, λ h. cc)
option_eq_iff (some a) (some b) = (λ h. ap some ((eq_iff a b).0 h), λ h. ground (arith, eq_iff a b))

-- Two drives that agree on all that the person was shown.
pub record SameDrive (a b : DriveInfo) : Type 0 where
  pub id : a.id ≡ b.id
  pub size : a.size_bytes ≡ b.size_bytes
  pub model : a.model ≡ b.model
  pub serial : a.serial ≡ b.serial

-- `check_same_drive` passes exactly the drives with the identity, the size, the model and the serial
-- number of the one that was confirmed.
pub check_same_drive_iff : (a b : DriveInfo) → (check_same_drive a b ≡ ok tt) ↔ SameDrive a b
unfolding check_same_drive
check_same_drive_iff a b =
    let i = eq_iff a.id b.id in
    let m = option_eq_iff a.model b.model in
    let s = option_eq_iff a.serial b.serial in
    (λ h. ground (arith, i, m, s), λ h. ground (arith, i, m, s))
