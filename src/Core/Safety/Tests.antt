-- ===== src/Core/Safety/Tests.antt =====
-- Runs of the refusals.
use burnout.Prelude.{◌≡◌, refl, false, some, ◌↔◌}
use burnout.Core.Error.{ok, err, not_removable}
use burnout.Core.Drive
use burnout.Core.Drive.{DriveInfo}
use burnout.Core.Safety.{not_forced, forced, check_target, check_same_drive}
use burnout.Core.Safety.Rules.{MayWrite, SameDrive, check_target_iff, check_same_drive_iff}

abbrev stick : DriveInfo
stick = record {
  id = "sdb";
  node = "/dev/sdb";
  name = "USB stick";
  vendor = some "Acme";
  model = some "Flash";
  serial = some "42";
  size_bytes = 8000000;
  logical_sector_size = 512;
  physical_sector_size = some 512;
  bus = Drive.Bus.usb;
  connection = Drive.Connection.external;
  removable_media = false;
  system = false;
  read_only = false;
}

stick_passes : check_target stick not_forced ≡ ok tt
unfolding check_target
stick_passes = refl

fixed_disk :
    check_target (record stick { connection = Drive.Connection.internal }) not_forced
    ≡ err (not_removable "USB stick")
unfolding check_target
fixed_disk = refl

check_target_iff_example : (check_target stick forced ≡ ok tt) ↔ MayWrite stick forced
check_target_iff_example = check_target_iff stick forced

check_same_drive_iff_example : (check_same_drive stick stick ≡ ok tt) ↔ SameDrive stick stick
check_same_drive_iff_example = check_same_drive_iff stick stick
