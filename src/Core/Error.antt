-- ===== src/Core/Error.antt =====
-- crates/burnout-core/src/error.rs: the error that every operation returns, and its result type.
use burnout.Prelude.{◌⊎◌, inl, inr, ℕ, String, List, Option, ◌≡◌, refl}

-- `std::io::ErrorKind`, the kinds that the code makes itself, and any other that a host gives.
pub data IoKind : Type 0 where
  write_zero invalid_input unexpected_eof : IoKind
  invalid_data : String → IoKind
  other : ℕ → IoKind

-- What is said of a path, by the values that its text prints. A file that is too long has no size of
-- its own in `wrong_size`.
pub data Detail : Type 0 where
  bad_character : ℕ → Detail
  name_length : ℕ → Detail
  no_directory : List ℕ → Detail
  same_name_as : List ℕ → Detail
  directory_bytes : ℕ → Detail
  wrong_size : ℕ → Option ℕ → Detail
  text : String → Detail

pub data FileSystem : Type 0 where
  fat32 exfat : FileSystem

-- What a message names a drive by: the name, the host's name and the size that its line prints.
pub record Description : Type 0 where
  pub name : String
  pub id : String
  pub size_bytes : ℕ

-- A path is the list of its code points; a digest is the list of its bytes.
pub data Error : Type 0 where
  io : IoKind → Error
  unsupported : String → Error
  host : String → String → Error
  no_such_drive : String → Error
  sector_size : ℕ → Error
  unaligned : ℕ → ℕ → Error
  too_small : ℕ → ℕ → Error
  system_disk : String → Error
  read_only : String → Error
  not_removable : String → Error
  drive_changed : Description → Description → Error
  in_use : String → Error
  not_confirmed : String → Error
  verify_failed : List ℕ → List ℕ → Option ℕ → Error
  image_ended : ℕ → ℕ → Error
  drive_ended : ℕ → ℕ → Error
  incomplete : String → ℕ → ℕ → Error
  image : String → String → Error
  macos_media : String → String → Error
  windows_option : String → Error
  no_mode : String → Error
  needs_privilege : String → Error
  source : List ℕ → Detail → Error
  file_too_large : String → ℕ → FileSystem → ℕ → Error
  cannot_copy : List ℕ → Detail → Error
  volume_differs : List ℕ → String → Error
  partition_too_small : FileSystem → ℕ → ℕ → Error
  needs_larger_drive : ℕ → ℕ → Error
  volume_full : FileSystem → ℕ → ℕ → Error

pub data Result {ℓ} (A : Type ℓ) : Type ℓ where
  err : Error → Result A
  ok : A → Result A

infixl 5 ◌>>◌ ◌>>=◌
-- `?`: the first error of a chain is its answer.
abbrev pub ◌>>=◌ {ℓ κ} : {X : Type ℓ} {Y : Type κ} → Result X → (X → Result Y) → Result Y
err reason >>= next = err reason
ok value >>= next = next value

abbrev pub ◌>>◌ {ℓ} : {Y : Type ℓ} → Result (Unit {0}) → Result Y → Result Y
check >> after = check >>= λ u. after

-- `Error::kind`.
unfoldable pub kind : Error → String
kind (io k) = "io"
kind (unsupported os) = "unsupported"
kind (host a b) = "host"
kind (no_such_drive n) = "no_such_drive"
kind (sector_size n) = "sector_size"
kind (unaligned n s) = "unaligned"
kind (too_small n d) = "too_small"
kind (system_disk n) = "system_disk"
kind (read_only n) = "read_only"
kind (not_removable n) = "not_removable"
kind (drive_changed w f) = "drive_changed"
kind (in_use n) = "in_use"
kind (not_confirmed n) = "not_confirmed"
kind (verify_failed e g a) = "verify_failed"
kind (image_ended r n) = "image_ended"
kind (drive_ended a n) = "drive_ended"
kind (incomplete n a b) = "incomplete"
kind (image a b) = "image"
kind (macos_media a b) = "macos_media"
kind (windows_option n) = "windows_option"
kind (no_mode n) = "no_mode"
kind (needs_privilege n) = "needs_privilege"
kind (source a b) = "source"
kind (file_too_large a n f m) = "file_too_large"
kind (cannot_copy p d) = "cannot_copy"
kind (volume_differs p d) = "volume_differs"
kind (partition_too_small f a b) = "partition_too_small"
kind (needs_larger_drive a b) = "needs_larger_drive"
kind (volume_full f a b) = "volume_full"

pub ok-injective {ℓ} : {X : Type ℓ} {found wanted : X} → ok found ≡ ok wanted → found ≡ wanted
ok-injective same = cc

-- What a chain of two answers with came from the first of them.
pub bind-eq-ok {ℓ κ} :
    {X : Type ℓ} {Y : Type κ} {next : X → Result Y} {last : Y} (first : Result X)
    → (first >>= next) ≡ ok last
    → (mid : X) × (first ≡ ok mid) × (next mid ≡ ok last)
bind-eq-ok (err reason) chain = cc
bind-eq-ok (ok mid) chain = (mid, refl, chain)

pub Result-cases {ℓ} :
    {X : Type ℓ} (answer : Result X)
    → ((value : X) × (answer ≡ ok value)) ⊎ ((reason : Error) × (answer ≡ err reason))
Result-cases (err reason) = inr (reason, refl)
Result-cases (ok value) = inl (value, refl)
