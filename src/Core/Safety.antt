-- ===== src/Core/Safety.antt =====
-- crates/burnout-core/src/safety.rs: what Burnout refuses to write to. A `describe`d drive is kept as
-- the values that its line prints.
pub mod Rules
mod Tests
use text.Mathlib.Text.{◌==◌ as str_eq}
use burnout.Prelude.{
  ℕ, String, Bool, true, false, not, ◌&&◌, Option, none, some, ltb, ◌==◌, if◌then◌else◌,
}
use burnout.Core.Error.{
  Error, Result, ok, err, system_disk, read_only, not_removable, too_small, drive_changed,
  Description,
}
use burnout.Core.Drive.{DriveInfo, removable}

-- Whether the person passed `--force`; the constructors are `No` and `Yes`.
pub data Force : Type 0 where
  not_forced forced : Force

abbrev pub is_no : Force → Bool
is_no not_forced = true
is_no forced = false

unfoldable pub check_target : DriveInfo → Force → Result (Unit {0})
unfolding removable
check_target d force =
    if d.system
    then err (system_disk d.name)
    else if d.read_only
    then err (read_only d.name)
    else if not (removable d) && is_no force
    then err (not_removable d.name)
    else ok tt

unfoldable pub check_fits : ℕ → ℕ → Result (Unit {0})
check_fits image_bytes drive_bytes =
    if ltb drive_bytes image_bytes then err (too_small image_bytes drive_bytes) else ok tt

-- `==` on `Option<String>`.
abbrev pub option_eq : Option String → Option String → Bool
option_eq none none = true
option_eq (some a) (some b) = str_eq a b
option_eq _ _ = false

unfoldable pub describe : DriveInfo → Description
describe d = record { name = d.name; id = d.id; size_bytes = d.size_bytes }

unfoldable pub same_drive : DriveInfo → DriveInfo → Bool
same_drive wanted found =
    str_eq wanted.id found.id
    && (wanted.size_bytes == found.size_bytes
        && (option_eq wanted.model found.model && option_eq wanted.serial found.serial))

unfoldable pub check_same_drive : DriveInfo → DriveInfo → Result (Unit {0})
unfolding same_drive describe
check_same_drive wanted found =
    if same_drive wanted found
    then ok tt
    else err (drive_changed (describe wanted) (describe found))
