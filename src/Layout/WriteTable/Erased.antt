-- ===== src/Layout/WriteTable/Erased.antt =====
-- What the drive holds after `write_table` of crates/burnout-layout/src/mbr.rs.
use native.Mathlib.Nat.{zero-mod, mod_self}
use native.Mathlib.Decide.{dec_lt}
use burnout.Prelude.{
  get_or-replicate_self, ℕ, ◌+◌, ◌-◌, ◌%◌, ◌^◌, ◌≤◌, ◌<◌, ◌≡◌, refl, ap, ◌∙◌, ◌⊎◌, inl, inr, List,
  [], ◌∷◌, length, get_or, replicate, arith, length-replicate, length-copy_at, get_or-copy_at,
  sub_whole,
}
use burnout.Core.Error.{Result, ok}
use burnout.Core.Target.{Target}
use burnout.Core.Target.Device.{
  written, written_ext, written_in, written_away, SameDevice, SameDevice-trans, IsDevice,
  write_all-WroteAll,
}
use burnout.Layout.Plan.{Layout, align}
use burnout.Layout.Plan.Bounds.{IsSound}
use burnout.Layout.Mbr.{mbr_bytes}
use burnout.Layout.Mbr.Table.{mbr_bytes-Names}
use burnout.Layout.WriteTable.{traces, zeros, first_bytes, put, erase, write_table}

-- A byte of one of the mebibytes that start there.
abbrev pub Traced : List ℕ → ℕ → Type 0
Traced [] a = ⊥
Traced (at ∷ ats) a = ((at ≤ a) × (a < at + align)) ⊎ Traced ats a

length-zeros : length zeros ≡ align
unfolding zeros
length-zeros = length-replicate {A = ℕ} align 0

get_or-zeros : (a : ℕ) → get_or zeros a 0 ≡ 0
unfolding zeros
get_or-zeros a = get_or-replicate_self {A = ℕ} align 0 a

-- Whole sectors at a place that is on the drive.
abbrev Fit : ℕ → ℕ → List ℕ → Type 0
Fit sector size [] = Unit
Fit sector size (at ∷ ats) = (at % sector ≡ 0) × (at + align ≤ size) × Fit sector size ats

length-first_bytes : (l : Layout) (sig : ℕ) → length (first_bytes l sig) ≡ l.sector_size
unfolding first_bytes
length-first_bytes l sig =
    length-copy_at 0 (mbr_bytes l sig) (replicate l.sector_size 0)
    ∙ length-replicate {A = ℕ} l.sector_size 0

-- The table, and zeros after it.
first_bytes_lem :
    (l : Layout) (sig : ℕ)
    → length (mbr_bytes l sig) ≡ 512
    → 512 ≤ l.sector_size
    → (a : ℕ)
    → (a < 512 → get_or (first_bytes l sig) a 0 ≡ get_or (mbr_bytes l sig) a 0)
      × (512 ≤ a → get_or (first_bytes l sig) a 0 ≡ 0)
unfolding first_bytes
first_bytes_lem l sig size room a =
    let g =
      get_or-copy_at 0 (mbr_bytes l sig) (replicate l.sector_size 0) a 0
        (omega (arith, size, length-replicate {A = ℕ} l.sector_size 0)) in
    let index : a - 0 ≡ a = omega arith in
    let shift : get_or (mbr_bytes l sig) (a - 0) 0 ≡ get_or (mbr_bytes l sig) a 0 =
      ap (λ (n : ℕ). get_or (mbr_bytes l sig) n 0) index in
    (
      λ h. g ∙ ground (arith, size, shift),
      λ h. g ∙ ground (arith, size, get_or-replicate_self {A = ℕ} l.sector_size 0 a),
    )

-- Whole mebibytes are whole sectors.
whole_in : (x s : ℕ) → (s ≡ 512) ⊎ (s ≡ 4096) → x % align ≡ 0 → x % s ≡ 0
whole_in x s (inl e) h = rw e (omega arith)
whole_in x s (inr e) h = rw e (omega arith)

mebibytes :
    (from count next : ℕ)
    → from ≡ align
    → count % align ≡ 0
    → next ≡ from + count
    → next % align ≡ 0
mebibytes from count next e h q = omega arith

module _ {T : Type 0} (target : Target T) (Valid : T → Type 0) (byte : T → ℕ → ℕ) (at : T → ℕ)
    (device : IsDevice target Valid byte at) where
  pub record Stored (to : ℕ) (bytes : List ℕ) (t : T) : Type 0 where
    pub next : T
    pub returns : put target to bytes t ≡ (ok tt, next)
    pub same : SameDevice target Valid t next
    pub position : at next ≡ to + length bytes
    pub bytes_at : (a : ℕ) → byte next a ≡ written (byte t) to bytes a

  pub put-Stored :
      (to : ℕ) (bytes : List ℕ) (t : T)
      → Valid t
      → to % target.logical_sector_size t ≡ 0
      → length bytes % target.logical_sector_size t ≡ 0
      → to + length bytes ≤ target.size t
      → Stored to bytes t
  unfolding put
  put-Stored to bytes t v p q r =
      let k = device.seek_start to t v in
      let w =
        write_all-WroteAll target Valid byte at device bytes k.next k.same.valid
          (rw (k.same.sector, k.position) p) (rw k.same.sector q)
          (rw (k.position, k.same.size) r) in
      record {
        next = w.next;
        returns = rw k.returns w.returns;
        same = SameDevice-trans target Valid k.same w.same;
        position = omega (arith, w.position, k.position);
        bytes_at = λ a.
            w.bytes a
            ∙ ap (λ (n : ℕ). written (byte k.next) n bytes a) k.position
            ∙ written_ext (byte k.next) (byte t) to bytes a (k.bytes a);
      }

  -- The mebibytes at the places are zero, and all else is as before.
  record Zeroed (ats : List ℕ) (t : T) (r : Result (Unit {0}) × T) : Type 0 where
    next : T
    returns : r ≡ (ok tt, next)
    same : SameDevice target Valid t next
    zero_there : (a : ℕ) → (Traced ats a ⊎ (byte t a ≡ 0)) → byte next a ≡ 0
    kept : (a : ℕ) → (Traced ats a → ⊥) → byte next a ≡ byte t a

  erase-Zeroed :
      (sector : ℕ) (ats : List ℕ) (t : T)
      → Valid t
      → target.logical_sector_size t ≡ sector
      → align % sector ≡ 0
      → Fit sector (target.size t) ats
      → Zeroed ats t (erase target ats t)
  unfolding erase
  erase-Zeroed sector [] t v e whole fit = record {
    next = t;
    returns = refl;
    same = record { valid = v; sector = refl; size = refl };
    zero_there = λ a h. elim h [ inl x ↦ absurd x | inr x ↦ x ];
    kept = λ a h. refl;
  }
  erase-Zeroed sector (to ∷ ats) t v e whole fit =
      let p =
        put-Stored to zeros t v (rw e fit.0) (rw (e, length-zeros) whole) (rw length-zeros fit.1) in
      let rest =
        erase-Zeroed sector ats p.next p.same.valid (p.same.sector ∙ e) whole
          (rw p.same.size fit.2) in
      record {
        next = rest.next;
        returns = rw p.returns rest.returns;
        same = SameDevice-trans target Valid p.same rest.same;
        zero_there = λ a h. elim h [
          | inl (inl (x, y)) ↦ rest.zero_there a (
              inr (
                p.bytes_at a
                ∙ written_in (byte t) to zeros a x (rw length-zeros y)
                ∙ get_or-zeros (a - to)))
          | inl (inr later) ↦ rest.zero_there a (inl later)
          | inr was ↦ rest.zero_there a (inr (p.bytes_at a ∙ still_zero (byte t) to a was))
        ];
        kept = λ a h.
            rest.kept a (λ later. h (inr later))
            ∙ p.bytes_at a
            ∙ written_away (byte t) to zeros a
                (rw length-zeros (outside to a (λ x y. h (inl (x, y)))));
      }
    where
      still_zero : (f : ℕ → ℕ) (to a : ℕ) → f a ≡ 0 → written f to zeros a ≡ 0
      still_zero f to a was = ground (arith, get_or-zeros (a - to))

      outside : (to a : ℕ) → (to ≤ a → a < to + align → ⊥) → (a < to) ⊎ (to + align ≤ a)
      outside to a h = ground (arith, h)

  -- The table is in the first sector, every other byte of the four mebibytes is zero, and each byte
  -- outside them and the first sector is as it was.
  pub record Fresh (l : Layout) (disk_signature : ℕ) (t : T) (r : Result (Unit {0}) × T)
      : Type 0 where
    pub next : T
    pub returns : r ≡ (ok tt, next)
    pub same : SameDevice target Valid t next
    pub table : (a : ℕ) → a < 512 → byte next a ≡ get_or (mbr_bytes l disk_signature) a 0
    pub zero_there : (a : ℕ) → 512 ≤ a → Traced (traces l) a → byte next a ≡ 0
    pub kept : (a : ℕ) → (Traced (traces l) a → ⊥) → byte next a ≡ byte t a

  -- On a device of the layout's size and sectors, with a layout that is sound for it, `write_table`
  -- answers: the first 512 bytes are the table, all else of the first mebibyte, of the last one and of
  -- the first one of each partition is zero, and every other byte is as it was.
  pub write_table-Fresh :
      (d b : ℕ) (l : Layout) (disk_signature : ℕ) (t : T)
      → IsSound d b l
      → Valid t
      → disk_signature < 2 ^ 32
      → target.size t ≡ l.drive_bytes
      → target.logical_sector_size t ≡ l.sector_size
      → Fresh l disk_signature t (write_table target l disk_signature t)
  unfolding write_table
  write_table-Fresh d b l disk_signature t sound v signed size e =
      let names = mbr_bytes-Names d b l disk_signature sound signed in
      let sector = l.sector_size in
      let drive_whole : l.drive_bytes % sector ≡ 0 = rw (← size, ← e) (device.size_whole t v) in
      let start_whole : l.install.start % align ≡ 0 =
        mebibytes l.boot.start l.boot.length l.install.start sound.boot_start sound.boot_whole
          sound.follows in
      let z = erase-Zeroed sector (traces l) t v e (whole_in align sector sound.sector refl) (
        zero-mod sector,
        omega (arith, size),
        (
          whole_in l.boot.start sector sound.sector (rw sound.boot_start refl),
          omega (arith, size),
          (
            whole_in l.install.start sector sound.sector start_whole,
            omega (arith, size),
            (
              sub_whole l.drive_bytes align sector drive_whole
                  (whole_in align sector sound.sector refl) (omega arith),
              omega (arith, size),
              tt,
            ),
          ),
        ),
      ) in
      let bytes = first_bytes l disk_signature in
      let bytes_size : length bytes ≡ sector = length-first_bytes l disk_signature in
      let p =
        put-Stored 0 bytes z.next z.same.valid (zero-mod _)
          (rw (z.same.sector, e, bytes_size) (mod_self sector))
          (omega (arith, z.same.size, size, bytes_size)) in
      let f = device.flush_all p.next p.same.valid in
      let there : (a : ℕ) → a < sector → byte f.next a ≡ get_or bytes (a - 0) 0 = λ a h.
        f.bytes a
        ∙ p.bytes_at a
        ∙ written_in (byte z.next) 0 bytes a (omega arith) (omega (arith, bytes_size)) in
      let past : (a : ℕ) → sector ≤ a → byte f.next a ≡ byte z.next a = λ a h.
        f.bytes a
        ∙ p.bytes_at a
        ∙ written_away (byte z.next) 0 bytes a (inr (omega (arith, bytes_size))) in
      record {
        next = f.next;
        returns = rw z.returns (rw p.returns f.returns);
        same = SameDevice-trans target Valid z.same (SameDevice-trans target Valid p.same f.same);
        table = λ a h.
            there a (omega arith)
            ∙ ap (λ (n : ℕ). get_or bytes n 0) (omega arith)
            ∙ (first_bytes_lem l disk_signature names.size (omega arith) a).0 h;
        zero_there = λ a h traced. elim (dec_lt a sector) [
          | yes inside ↦
              there a inside
              ∙ ap (λ (n : ℕ). get_or bytes n 0) (omega arith)
              ∙ (first_bytes_lem l disk_signature names.size (omega arith) a).1 h
          | no outside ↦ past a (omega arith) ∙ z.zero_there a (inl traced)
        ];
        kept = λ a h. elim (dec_lt a align) [
          | yes inside ↦ absurd (h (inl (omega arith, omega arith)))
          | no outside ↦ past a (omega arith) ∙ z.kept a h
        ];
      }
