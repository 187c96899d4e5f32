-- ===== src/Core/Alignment/Rounding.antt =====
-- What the rounding of crates/burnout-core/src/alignment.rs gives.
use native.Mathlib.Nat.{
  div-mul-le_self, lt-div-mul-add, mul-mod_left, mod-eq_of_lt, div-add-mod', mul-add-div_right,
  div-eq_of_lt,
}
use native.Mathlib.Decide.{dec_lt}
use burnout.Prelude.{
  ℕ, ◌+◌, ◌-◌, ◌*◌, ◌/◌, ◌%◌, ◌^◌, ◌≤◌, ◌<◌, ◌≡◌, ◌↔◌, refl, arith, u64, div_ceil, ≢→==, ap, ◌∙◌,
  mul_mono, ◌⊎◌,
}
use burnout.Core.Error.{ok}
use burnout.Core.Alignment.{check_sector_size, check_aligned, round_up, sector_count}

-- The rounded quotient is the least that covers `n`.
pub div_ceil_bounds : (n s : ℕ) → 0 < s → (n ≤ div_ceil n s * s) × (div_ceil n s * s < n + s)
div_ceil_bounds n s h = (
  omega (arith, lt-div-mul-add {a = n + s - 1} {b = s} h),
  omega (arith, div-mul-le_self (n + s - 1) s),
)

-- Where there is room for one more sector, nothing wraps around.
pub round_up-eq :
    (length s : ℕ) → 0 < s → length + s ≤ 2 ^ 64 → round_up length s ≡ div_ceil length s * s
unfolding round_up
round_up-eq length s h fits =
    let b = div_ceil_bounds length s h in
    let whole : u64 (div_ceil length s * s) ≡ div_ceil length s * s = mod-eq_of_lt (omega arith) in
    rw (≢→== s 0 (omega arith)) whole

-- For a sector size above 0 and a length that leaves room for one more sector in 64 bits, `round_up`
-- gives the whole sectors that hold the length: it is a multiple of the sector, it is not less than
-- the length, it is less than one sector more, and `sector_count` counts the same sectors.
pub round_up_lem :
    (length s : ℕ)
    → 0 < s
    → length + s ≤ 2 ^ 64
    → (length ≤ round_up length s)
      × (round_up length s < length + s)
      × (round_up length s % s ≡ 0)
      × (sector_count length s * s ≡ round_up length s)
unfolding sector_count
round_up_lem length s h fits =
    let b = div_ceil_bounds length s h in
    rw (round_up-eq length s h fits, ≢→== s 0 (omega arith))
      (b.0, b.1, mul-mod_left (div_ceil length s) s, refl)

-- `check_aligned` passes exactly the multiples of a sector size above 0.
pub check_aligned_iff :
    (length s : ℕ) → (check_aligned length s ≡ ok tt) ↔ ((0 < s) × (length % s ≡ 0))
unfolding check_aligned
check_aligned_iff length s = (λ h. ground arith, λ h. ground arith)

-- An aligned length is its own rounding.
pub round_up-aligned :
    (length s : ℕ) → 0 < s → length + s ≤ 2 ^ 64 → length % s ≡ 0 → round_up length s ≡ length
round_up-aligned length s h fits e =
    let q = length / s in
    let whole : q * s ≡ length = omega (arith, div-add-mod' length s) in
    let same : div_ceil length s ≡ q =
      ap (λ (n : ℕ). n / s) (omega (arith, whole))
      ∙ mul-add-div_right {m = s} h q (s - 1)
      ∙ omega (arith, div-eq_of_lt {n = s - 1} {m = s} (omega arith)) in
    round_up-eq length s h fits ∙ ap (λ (n : ℕ). n * s) same ∙ whole

-- A sector size is taken as it is if it is one of the two, and refused with its value if not.
pub check_sector_size-eq-ok :
    (s : ℕ) {r : ℕ} → check_sector_size s ≡ ok r → (r ≡ s) × ((s ≡ 512) ⊎ (s ≡ 4096))
unfolding check_sector_size
check_sector_size-eq-ok s h = ground arith

-- No multiple that holds a length is less than its rounding.
pub div_ceil-least : (n m s : ℕ) → 0 < s → n ≤ m → m % s ≡ 0 → div_ceil n s * s ≤ m
div_ceil-least n m s h le whole =
    let q : m / s * s ≡ m = omega (arith, div-add-mod' m s) in
    elim (dec_lt (m / s) (div_ceil n s)) [
      | yes more ↦ absurd (
          omega (
            arith,
            (div_ceil_bounds n s h).1,
            mul_mono (m / s + 1) (div_ceil n s) s (omega arith),
            q,
          ))
      | no few ↦ omega (arith, mul_mono (div_ceil n s) (m / s) s (omega arith), q)
    ]

-- Whole sectors before a length come before its rounding.
pub div_ceil-add : (n m s : ℕ) → 0 < s → m % s ≡ 0 → div_ceil (m + n) s * s ≡ m + div_ceil n s * s
div_ceil-add n m s h whole =
    let q : m / s * s ≡ m = omega (arith, div-add-mod' m s) in
    ap (λ (k : ℕ). k / s * s) (omega (arith, q))
    ∙ ap (λ (k : ℕ). k * s) (mul-add-div_right {m = s} h (m / s) (n + s - 1))
    ∙ omega (arith, q)
