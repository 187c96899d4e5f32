-- ===== src/Layout/ExFat/Sums/Skips.antt =====
-- The bytes that the checksums of crates/burnout-layout/src/exfat/sums.rs skip do not count.
use native.Mathlib.Nat.{mod-lt}
use burnout.Prelude.{
  ℕ, zero, suc, ◌+◌, ◌^◌, ◌<◌, ◌≡◌, refl, ap, ◌∙◌, inl, inr, Bool, true, false, List, [], ◌∷◌, set,
  if◌then◌else◌, arith, Bool-cases,
}
use burnout.Layout.ExFat.Sums.{
  add_byte, sum_from, in_boot, in_set, never, boot_checksum, set_checksum, name_hash,
  table_checksum, unit_bytes,
}

chosen : (b : Bool) (p q r : ℕ) → b ≡ true → (if b then p else q) ≡ (if b then p else r)
chosen true p q r h = refl
chosen false p q r h = cc

sum_from-set :
    (w : ℕ) (skipped : ℕ → Bool) (at sum : ℕ) (xs : List ℕ) (i v : ℕ)
    → skipped (at + i) ≡ true
    → sum_from w skipped at sum (set xs i v) ≡ sum_from w skipped at sum xs
unfolding sum_from
sum_from-set w skipped at sum [] i v h = refl
sum_from-set w skipped at sum (x ∷ xs) zero v h =
    let here : skipped at ≡ true = ap skipped {x = at} {y = at + 0} (omega arith) ∙ h in
    ap (λ (n : ℕ). sum_from w skipped (at + 1) n xs)
      (chosen (skipped at) sum (add_byte w sum v) (add_byte w sum x) here)
sum_from-set w skipped at sum (x ∷ xs) (suc i) v h =
    sum_from-set w skipped (at + 1) (if skipped at then sum else add_byte w sum x) xs i v
      (ap skipped {x = at + 1 + i} {y = at + suc i} (omega arith) ∙ h)

-- The checksum of an entry set is the same whatever its own two bytes hold, so it can be stored there;
-- the checksum of a boot region is the same whatever the volume flags and the percent in use are.
pub checksums-stored :
    (bytes : List ℕ) (a b c : ℕ)
    → (set_checksum (set (set bytes 2 a) 3 b) ≡ set_checksum bytes)
      × (boot_checksum (set (set (set bytes 106 a) 107 b) 112 c) ≡ boot_checksum bytes)
unfolding set_checksum boot_checksum
checksums-stored bytes a b c = (
  sum_from-set 16 in_set 0 0 (set bytes 2 a) 3 b refl ∙ sum_from-set 16 in_set 0 0 bytes 2 a refl,
  sum_from-set 32 in_boot 0 0 (set (set bytes 106 a) 107 b) 112 c refl
      ∙ sum_from-set 32 in_boot 0 0 (set bytes 106 a) 107 b refl
      ∙ sum_from-set 32 in_boot 0 0 bytes 106 a refl,
)

sum_from-lt :
    (w : ℕ) (skipped : ℕ → Bool) (at sum : ℕ) (xs : List ℕ)
    → sum < 2 ^ w
    → 0 < 2 ^ w
    → sum_from w skipped at sum xs < 2 ^ w
unfolding sum_from add_byte
sum_from-lt w skipped at sum [] h pos = h
sum_from-lt w skipped at sum (x ∷ xs) h pos = elim (Bool-cases (skipped at)) [
  | inl e ↦ rw e (sum_from-lt w skipped (at + 1) sum xs h pos)
  | inr e ↦ rw e (sum_from-lt w skipped (at + 1) (add_byte w sum x) xs (mod-lt _ pos) pos)
]

-- Each checksum fits the field that holds it.
pub checksums_fit :
    (bytes : List ℕ)
    → (boot_checksum bytes < 2 ^ 32)
      × (set_checksum bytes < 2 ^ 16)
      × (name_hash bytes < 2 ^ 16)
      × (table_checksum bytes < 2 ^ 32)
unfolding boot_checksum set_checksum name_hash table_checksum
checksums_fit bytes = (
  sum_from-lt 32 in_boot 0 0 bytes (omega arith) (omega arith),
  sum_from-lt 16 in_set 0 0 bytes (omega arith) (omega arith),
  sum_from-lt 16 never 0 0 (unit_bytes bytes) (omega arith) (omega arith),
  sum_from-lt 32 never 0 0 bytes (omega arith) (omega arith),
)
