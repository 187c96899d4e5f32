-- ===== src/Layout/Mbr/Chs.antt =====
-- The cylinder, head and sector address of crates/burnout-layout/src/mbr.rs, read back.
use Prim.Native.Nat.{bit_and, bit_or}
use mathlib.Core.Path.{ap₂}
use burnout.Prelude.{
  sym, ◌∙◌, ℕ, ◌+◌, ◌-◌, ◌*◌, ◌/◌, ◌%◌, ◌≤◌, ◌<◌, ◌≡◌, refl, true, List, [], ◌∷◌, arith, ◌==◌, ==→≡,
  all_below, all_below_sound,
}
use burnout.Layout.Mbr.{chs}

-- The sector that an address names: the two high bits of its second byte belong to the cylinder.
abbrev pub chs_sector : List ℕ → ℕ
chs_sector (head ∷ sector ∷ cylinder ∷ []) =
    ((sector / 64 * 256 + cylinder) * 255 + head) * 63 + sector % 64 - 1
chs_sector _ = 0

high_bits_table : all_below 256 (λ c. bit_and c 0xC0 == c / 64 * 64) ≡ true
unfolding all_below
high_bits_table = refl

low_byte_table : all_below 1024 (λ c. bit_and c 0xFF == c % 256) ≡ true
unfolding all_below
low_byte_table = refl

join_table : all_below 256 (λ c. bit_or (c % 64) (c / 64 * 64) == c) ≡ true
unfolding all_below
join_table = refl

high_bits : (c : ℕ) → c < 256 → bit_and c 0xC0 ≡ c / 64 * 64
high_bits c h =
    ==→≡ _ _ (all_below_sound 256 (λ x. bit_and x 0xC0 == x / 64 * 64) c high_bits_table h)

low_byte : (c : ℕ) → c < 1024 → bit_and c 0xFF ≡ c % 256
low_byte c h = ==→≡ _ _ (all_below_sound 1024 (λ x. bit_and x 0xFF == x % 256) c low_byte_table h)

join : (a b : ℕ) → a < 64 → b < 4 → bit_or a (b * 64) ≡ a + b * 64
join a b ha hb =
    let n = a + b * 64 in
    let whole : bit_or (n % 64) (n / 64 * 64) ≡ n =
      ==→≡ _ _ (
        all_below_sound 256 (λ c. bit_or (c % 64) (c / 64 * 64) == c) n join_table (omega arith)) in
    let low : n % 64 ≡ a = omega arith in
    let high : n / 64 * 64 ≡ b * 64 = omega arith in ap₂ bit_or (sym low) (sym high) ∙ whole

-- An address below 1024 cylinders names its sector again; past it, it is the largest address.
pub chs_lem :
    (lba : ℕ)
    → (lba < 1024 * 255 * 63 → chs_sector (chs lba) ≡ lba)
      × (1024 * 255 * 63 ≤ lba → chs lba ≡ 0xFE ∷ 0xFF ∷ 0xFF ∷ [])
unfolding chs
chs_lem lba =
    let c = lba / 16065 in
    (
      λ h. ground (
        arith,
        high_bits (c / 4) (omega arith),
        low_byte c (omega arith),
        join (lba % 63 + 1) (c / 256) (omega arith) (omega arith),
      ),
      λ h. ground arith,
    )
