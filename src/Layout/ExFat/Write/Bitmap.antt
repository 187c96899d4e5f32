-- ===== src/Layout/ExFat/Write/Bitmap.antt =====
-- The allocation bitmap of crates/burnout-layout/src/exfat/write.rs, as the reader of
-- crates/burnout-layout/src/exfat/read.rs takes it apart.
use mathlib.Core.Bool.{beq}
use native.Mathlib.Decide.{dec_lt}
use burnout.Prelude.{
  ℕ, ◌+◌, ◌-◌, ◌*◌, ◌/◌, ◌%◌, ◌^◌, ◌≤◌, ◌<◌, ◌≡◌, refl, ap, ◌∙◌, sym, Bool, Bool-cases, true, false,
  not, inl, inr, List, ◌++◌, length, replicate, set, get_or, arith, ltb, lt→ltb, le→ltb, ◌==◌, ==→≡,
  ==→≢, if◌then◌else◌, get_or-append, get_or-replicate, get_or-replicate_self, get_or-set,
  length-append, length-replicate, all_below, all_below_sound,
}
use burnout.Layout.ExFat.Geometry.{Geometry, bitmap_bytes}
use burnout.Layout.ExFat.Place.{Placement, used_clusters}
use burnout.Layout.ExFat.Place.Allocated.{IsAllocated}
use burnout.Layout.ExFat.Write.{bitmap}

-- `bytes[n / 8] >> (n % 8) & 1 == 1`.
abbrev pub bit : List ℕ → ℕ → Bool
bit bytes n = get_or bytes (n / 8) 0 / 2 ^ (n % 8) % 2 == 1

abbrev low_bits_right : ℕ → ℕ → Bool
low_bits_right r j = beq ((2 ^ r - 1) / 2 ^ j % 2 == 1) (ltb j r)

low_bits_table : all_below 8 (λ r. all_below 8 (low_bits_right r)) ≡ true
unfolding all_below
low_bits_table = refl

full_byte_table : all_below 8 (λ j. 255 / 2 ^ j % 2 == 1) ≡ true
unfolding all_below
full_byte_table = refl

beq→≡ : (a b : Bool) → beq a b ≡ true → a ≡ b
beq→≡ true true h = refl
beq→≡ true false h = cc
beq→≡ false true h = cc
beq→≡ false false h = refl

-- The byte whose first `r` bits are set.
low_bits : (r j : ℕ) → r < 8 → j < 8 → ((2 ^ r - 1) / 2 ^ j % 2 == 1) ≡ ltb j r
low_bits r j hr hj = beq→≡ ((2 ^ r - 1) / 2 ^ j % 2 == 1) (ltb j r) (
    all_below_sound 8 (low_bits_right r) j
      (all_below_sound 8 (λ m. all_below 8 (low_bits_right m)) r low_bits_table hr) hj)

full_byte : (j : ℕ) → j < 8 → (255 / 2 ^ j % 2 == 1) ≡ true
full_byte j h = all_below_sound 8 (λ m. 255 / 2 ^ m % 2 == 1) j full_byte_table h

no_bits_table : all_below 8 (λ j. not (0 / 2 ^ j % 2 == 1)) ≡ true
unfolding all_below
no_bits_table = refl

not→≡ : (a : Bool) → not a ≡ true → a ≡ false
not→≡ true h = cc
not→≡ false h = refl

no_bits : (j : ℕ) → j < 8 → (0 / 2 ^ j % 2 == 1) ≡ false
no_bits j h =
    not→≡ (0 / 2 ^ j % 2 == 1) (all_below_sound 8 (λ m. not (0 / 2 ^ m % 2 == 1)) j no_bits_table h)

module _ (used size : ℕ) (fits : used ≤ size * 8) where
  abbrev whole : List ℕ
  whole = replicate (used / 8) 0xFF ++ replicate (size - used / 8) 0

  whole_byte : (i : ℕ) → get_or whole i 0 ≡ (if ltb i (used / 8) then 0xFF else 0)
  whole_byte i =
      get_or-append (replicate (used / 8) 0xFF) (replicate (size - used / 8) 0) i 0
      ∙ ground (
        arith,
        length-replicate {A = ℕ} (used / 8) 0xFF,
        get_or-replicate {A = ℕ} (used / 8) 0xFF i 0,
        get_or-replicate_self {A = ℕ} (size - used / 8) 0
            (i - length (replicate {A = ℕ} (used / 8) 0xFF)),
      )

  abbrev marks : List ℕ
  marks = if used % 8 == 0 then whole else set whole (used / 8) (2 ^ (used % 8) - 1)

  length-whole : length whole ≡ size
  length-whole = omega (
    arith,
    length-append (replicate {A = ℕ} (used / 8) 0xFF) (replicate (size - used / 8) 0),
    length-replicate {A = ℕ} (used / 8) 0xFF,
    length-replicate {A = ℕ} (size - used / 8) 0,
  )

  abbrev byte_of : ℕ → ℕ
  byte_of i = if ltb i (used / 8) then 0xFF else if used / 8 == i then 2 ^ (used % 8) - 1 else 0

  mark_byte : (i : ℕ) → get_or marks i 0 ≡ byte_of i
  mark_byte i = elim (Bool-cases (used % 8 == 0)) [
    | inl even ↦
        let none_over : 2 ^ (used % 8) - 1 ≡ 0 =
          ap (λ (n : ℕ). 2 ^ n - 1) {x = used % 8} {y = 0} (==→≡ (used % 8) 0 even) in
        rw even (whole_byte i ∙ ground (arith, none_over))
    | inr odd ↦ rw odd (
        get_or-set whole (used / 8) (2 ^ (used % 8) - 1) i 0
          (omega (arith, length-whole, ==→≢ (used % 8) 0 odd))
        ∙ ground (arith, whole_byte i))
  ]

  byte_bit : (i j : ℕ) → j < 8 → (byte_of i / 2 ^ j % 2 == 1) ≡ ltb (i * 8 + j) used
  byte_bit i j h = elim (dec_lt i (used / 8)) [
    | yes before ↦
        rw (lt→ltb i (used / 8) before)
          (full_byte j h ∙ sym (lt→ltb (i * 8 + j) used (omega arith)))
    | no after ↦ rw (le→ltb i (used / 8) (omega arith)) (elim (Bool-cases (used / 8 == i)) [
      | inl here ↦
          let at : used / 8 ≡ i = ==→≡ (used / 8) i here in
          rw here (low_bits (used % 8) j (omega arith) h ∙ ground (arith, at))
      | inr past ↦
          rw past
            (no_bits j h ∙ sym (le→ltb (i * 8 + j) used (omega (arith, ==→≢ (used / 8) i past))))
    ])
  ]

  marks-bit : (n : ℕ) → bit marks n ≡ ltb n used
  marks-bit n =
      ap (λ (b : ℕ). b / 2 ^ (n % 8) % 2 == 1) (mark_byte (n / 8))
      ∙ byte_bit (n / 8) (n % 8) (omega arith)
      ∙ ap (λ (m : ℕ). ltb m used) {x = n / 8 * 8 + n % 8} {y = n} (omega arith)

-- The bitmap marks a cluster of the heap, counted from 0, exactly where it lies before the end of the last run, for
-- a placement in the heap.
pub bitmap-bit :
    (p q : Placement) → IsAllocated p q → (n : ℕ) → bit (bitmap q) n ≡ ltb n (used_clusters q)
unfolding bitmap bitmap_bytes
bitmap-bit p q a n =
    marks-bit (used_clusters q) (bitmap_bytes q.geometry)
      (omega (arith, a.inside, ap (λ (g : Geometry). g.cluster_count) a.geometry)) n
