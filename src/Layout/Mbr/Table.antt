-- ===== src/Layout/Mbr/Table.antt =====
-- The table of crates/burnout-layout/src/mbr.rs, read back by the offsets of an MBR.
use Prim.Native.Nat.{bit_and, bit_or}
use mathlib.Core.Path.{ap₂}
use burnout.Prelude.{
  ℕ, ◌+◌, ◌-◌, ◌*◌, ◌/◌, ◌%◌, ◌^◌, ◌<◌, ◌≡◌, inl, inr, refl, ap, ◌∙◌, List, [], ◌∷◌, arith, ltb,
  Bool-cases, get_or, slice, le_bytes, le_value, le_value-le_bytes, u8, u32, length, replicate,
}
use burnout.Layout.Plan.{Extent, Layout, first_sector, sectors}
use burnout.Layout.Plan.Bounds.{IsSound}
use burnout.Layout.Mbr.{type_fat32, type_exfat, active, chs, mbr_bytes}

-- What firmware reads of one of the four entries.
pub record TableEntry : Type 0 where
  pub status : ℕ
  pub first_chs : List ℕ
  pub kind : ℕ
  pub last_chs : List ℕ
  pub first : ℕ
  pub count : ℕ

abbrev pub table_entry : List ℕ → ℕ → TableEntry
table_entry mbr number =
    let at = 446 + 16 * number in
    record {
      status = get_or mbr at 0;
      first_chs = slice (at + 1) 3 mbr;
      kind = get_or mbr (at + 4) 0;
      last_chs = slice (at + 5) 3 mbr;
      first = le_value (slice (at + 8) 4 mbr);
      count = le_value (slice (at + 12) 4 mbr);
    }

record Three (xs : List ℕ) : Type 0 where
  a : ℕ
  b : ℕ
  c : ℕ
  bytes : xs ≡ a ∷ b ∷ c ∷ []

Three-intro : {xs : List ℕ} (a b c : ℕ) → xs ≡ a ∷ b ∷ c ∷ [] → Three xs
Three-intro a b c e = record { a = a; b = b; c = c; bytes = e }

chs-Three : (lba : ℕ) → Three (chs lba)
unfolding chs
chs-Three lba = elim (Bool-cases (ltb 1023 (lba / (255 * 63)))) [
  | inl e ↦ Three-intro 0xFE 0xFF 0xFF (rw e)
  | inr e ↦
      let c = lba / (255 * 63) in
      Three-intro (u8 ((lba / 63) % 255))
        (bit_or (u8 (lba % 63 + 1)) (u8 (bit_and (c / 2 ^ 2) 0xC0))) (u8 (bit_and c 0xFF)) (rw e)
]

-- The entry that the table of `l` should have for an extent.
abbrev pub entry_of : Layout → Extent → ℕ → ℕ → TableEntry
entry_of l e kind status = record {
  status = status;
  first_chs = chs (first_sector l e);
  kind = kind;
  last_chs = chs (first_sector l e + sectors l e - 1);
  first = u32 (first_sector l e);
  count = u32 (sectors l e);
}

-- An entry of zeros is not used.
abbrev pub unused : TableEntry
unused = record {
  status = 0;
  first_chs = 0 ∷ 0 ∷ 0 ∷ [];
  kind = 0;
  last_chs = 0 ∷ 0 ∷ 0 ∷ [];
  first = 0;
  count = 0;
}

word : (n : ℕ) → le_value (le_bytes 4 (u32 n)) ≡ u32 n
word n = le_value-le_bytes 4 (u32 n) (omega arith)

abbrev with_words : Layout → Extent → ℕ → ℕ → ℕ → ℕ → TableEntry
with_words l e kind status first count = record (entry_of l e kind status) {
  first = first;
  count = count;
}

read_words :
    (l : Layout) (e : Extent) (kind status : ℕ)
    → with_words l e kind status
        (le_value (le_bytes 4 (u32 (first_sector l e))))
        (le_value (le_bytes 4 (u32 (sectors l e))))
      ≡ entry_of l e kind status
read_words l e kind status =
    ap₂ (with_words l e kind status) (word (first_sector l e)) (word (sectors l e))

module _ (l : Layout) (sig : ℕ) where
  boot_entry : table_entry (mbr_bytes l sig) 0 ≡ entry_of l l.boot type_fat32 active
  unfolding mbr_bytes
  boot_entry =
      let p = chs-Three (first_sector l l.boot) in
      let q = chs-Three (first_sector l l.boot + sectors l l.boot - 1) in
      let raw : table_entry (mbr_bytes l sig) 0
          ≡ with_words l l.boot type_fat32 active
              (le_value (le_bytes 4 (u32 (first_sector l l.boot))))
              (le_value (le_bytes 4 (u32 (sectors l l.boot)))) =
        rw (p.bytes, q.bytes) in
      raw ∙ read_words l l.boot type_fat32 active

  install_entry : table_entry (mbr_bytes l sig) 1 ≡ entry_of l l.install type_exfat 0
  unfolding mbr_bytes
  install_entry =
      let p = chs-Three (first_sector l l.boot) in
      let q = chs-Three (first_sector l l.boot + sectors l l.boot - 1) in
      let r = chs-Three (first_sector l l.install) in
      let s = chs-Three (first_sector l l.install + sectors l l.install - 1) in
      let raw : table_entry (mbr_bytes l sig) 1
          ≡ with_words l l.install type_exfat 0
              (le_value (le_bytes 4 (u32 (first_sector l l.install))))
              (le_value (le_bytes 4 (u32 (sectors l l.install)))) =
        rw (p.bytes, q.bytes, r.bytes, s.bytes) in
      raw ∙ read_words l l.install type_exfat 0

  no_code_sig :
      (slice 0 440 (mbr_bytes l sig) ≡ replicate 440 0)
      × (slice 440 4 (mbr_bytes l sig) ≡ le_bytes 4 sig)
  unfolding mbr_bytes
  no_code_sig = (refl, refl)

  after_entries :
      (table_entry (mbr_bytes l sig) 2 ≡ unused)
      × (table_entry (mbr_bytes l sig) 3 ≡ unused)
      × (slice 510 2 (mbr_bytes l sig) ≡ 0x55 ∷ 0xAA ∷ [])
      × (length (mbr_bytes l sig) ≡ 512)
  unfolding mbr_bytes
  after_entries =
      let p = chs-Three (first_sector l l.boot) in
      let q = chs-Three (first_sector l l.boot + sectors l l.boot - 1) in
      let r = chs-Three (first_sector l l.install) in
      let s = chs-Three (first_sector l l.install + sectors l l.install - 1) in
      rw (p.bytes, q.bytes, r.bytes, s.bytes) (refl, refl, refl, refl)

-- A table that names the two partitions of a layout, and nothing else.
pub record Names (l : Layout) (sig : ℕ) (mbr : List ℕ) : Type 0 where
  pub size : length mbr ≡ 512
  pub no_code : slice 0 440 mbr ≡ replicate 440 0
  pub disk_signature : le_value (slice 440 4 mbr) ≡ sig
  pub signature : slice 510 2 mbr ≡ 0x55 ∷ 0xAA ∷ []
  -- The boot partition is the active one, and FAT32.
  pub boot_kind : ((table_entry mbr 0).status ≡ 0x80) × ((table_entry mbr 0).kind ≡ 0x0C)
  pub boot_start : (table_entry mbr 0).first * l.sector_size ≡ l.boot.start
  pub boot_length : (table_entry mbr 0).count * l.sector_size ≡ l.boot.length
  -- The install partition is not active, and exFAT.
  pub install_kind : ((table_entry mbr 1).status ≡ 0) × ((table_entry mbr 1).kind ≡ 0x07)
  pub install_start : (table_entry mbr 1).first * l.sector_size ≡ l.install.start
  pub install_length : (table_entry mbr 1).count * l.sector_size ≡ l.install.length
  pub third : table_entry mbr 2 ≡ unused
  pub fourth : table_entry mbr 3 ≡ unused

-- The words of an extent of a sound layout are exact: nothing is lost to the 32 bits of an entry.
words_exact :
    (d b : ℕ) (l : Layout)
    → IsSound d b l
    → (u32 (first_sector l l.boot) * l.sector_size ≡ l.boot.start)
      × (u32 (sectors l l.boot) * l.sector_size ≡ l.boot.length)
      × (u32 (first_sector l l.install) * l.sector_size ≡ l.install.start)
      × (u32 (sectors l l.install) * l.sector_size ≡ l.install.length)
unfolding first_sector sectors
words_exact d b l sound = elim sound.sector [
  | inl e ↦ ground (arith, e, sound)
  | inr e ↦ ground (arith, e, sound)
]

-- The table of a sound layout names exactly its two partitions, in sectors, with the boot partition
-- active and FAT32 and the other exFAT; it has the disk signature, no boot code, two entries that are
-- not used, and the signature of an MBR.
pub mbr_bytes-Names :
    (d b : ℕ) (l : Layout) (sig : ℕ) → IsSound d b l → sig < 2 ^ 32 → Names l sig (mbr_bytes l sig)
mbr_bytes-Names d b l sig sound fits =
    let c = no_code_sig l sig in
    let f = after_entries l sig in
    let w = words_exact d b l sound in
    let at_boot = boot_entry l sig in
    let at_install = install_entry l sig in
    record {
      size = f.3;
      no_code = c.0;
      disk_signature = ap le_value c.1 ∙ le_value-le_bytes 4 sig fits;
      signature = f.2;
      boot_kind =
          (ap (λ (t : TableEntry). t.status) at_boot, ap (λ (t : TableEntry). t.kind) at_boot);
      boot_start = ap (λ (t : TableEntry). t.first * l.sector_size) at_boot ∙ w.0;
      boot_length = ap (λ (t : TableEntry). t.count * l.sector_size) at_boot ∙ w.1;
      install_kind = (
        ap (λ (t : TableEntry). t.status) at_install,
        ap (λ (t : TableEntry). t.kind) at_install,
      );
      install_start = ap (λ (t : TableEntry). t.first * l.sector_size) at_install ∙ w.2;
      install_length = ap (λ (t : TableEntry). t.count * l.sector_size) at_install ∙ w.3;
      third = f.0;
      fourth = f.1;
    }
