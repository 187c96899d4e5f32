-- ===== src/Prelude/Multiples.antt =====
-- Multiples of a unit, as remainders that are 0.
use native.Mathlib.Nat.{
  div-add-mod', add-mul-mod_self_right, mul-mod_left, div-eq_of_lt-le, mod-lt, le-div_iff_mul-le,
  div-lt_iff_lt-mul,
}
use Prim.Native.Nat.{ℕ, ◌+◌, ◌-◌, ◌*◌, ◌/◌, ◌%◌, ◌≤◌, ◌<◌, min}
use mathlib.Core.Path.{◌≡◌, sym, ap, ◌∙◌}
use native.Mathlib.Omega.{arith}
use native.Mathlib.Decide.{dec_lt}

pub whole_quotient : (a s : ℕ) → a % s ≡ 0 → a / s * s ≡ a
whole_quotient a s h = omega (arith, div-add-mod' a s)

pub add_whole : (a b s : ℕ) → a % s ≡ 0 → b % s ≡ 0 → (a + b) % s ≡ 0
add_whole a b s p q =
    ap (λ (n : ℕ). (a + n) % s) (sym (whole_quotient b s q))
    ∙ add-mul-mod_self_right a (b / s) s
    ∙ p

pub sub_whole : (a b s : ℕ) → a % s ≡ 0 → b % s ≡ 0 → b ≤ a → (a - b) % s ≡ 0
sub_whole a b s p q h =
    sym (add-mul-mod_self_right (a - b) (b / s) s)
    ∙ ap (λ (n : ℕ). (a - b + n) % s) (whole_quotient b s q)
    ∙ ap (λ (n : ℕ). n % s) (omega arith)
    ∙ p

pub min_whole : (a b s : ℕ) → a % s ≡ 0 → b % s ≡ 0 → min a b % s ≡ 0
min_whole a b s p q = elim (dec_lt a b) [
  | yes h ↦ ap (λ (n : ℕ). n % s) (omega arith) ∙ p
  | no h ↦ ap (λ (n : ℕ). n % s) (omega arith) ∙ q
]

pub mul_whole : (k s : ℕ) → k * s % s ≡ 0
mul_whole k s = mul-mod_left k s

-- A byte lies in the block that its quotient names, at its remainder.
pub block_lem : (a s : ℕ) → 0 < s → (a / s * s + a % s ≡ a) × (a % s < s)
block_lem a s h = (div-add-mod' a s, mod-lt a h)

pub block_unique : (a k s : ℕ) → k * s ≤ a → a < k * s + s → a / s ≡ k
block_unique a k s p q = div-eq_of_lt-le {k = k} s {m = a} p (omega arith)

pub mul_mono : (a b s : ℕ) → a ≤ b → a * s ≤ b * s
mul_mono a b s h = grind arith

-- A byte of an earlier block comes before a later block.
pub block_before : (k f i s : ℕ) → k < f → i < s → k * s + i < f * s
block_before k f i s h q = omega (arith, mul_mono (k + 1) f s (omega arith))

-- The block and the place of a byte that is given by them.
pub block_of : (k i s : ℕ) → i < s → ((k * s + i) / s ≡ k) × ((k * s + i) % s ≡ i)
block_of k i s h =
    let q : (k * s + i) / s ≡ k = block_unique (k * s + i) k s (omega arith) (omega arith) in
    let whole : (k * s + i) / s * s + (k * s + i) % s ≡ k * s + i = div-add-mod' (k * s + i) s in
    (q, omega (arith, whole, ap (λ (n : ℕ). n * s) q))

-- A byte of the blocks `f` to `f + n` lies between their ends, and the other way round.
pub block_range :
    (a f n s : ℕ)
    → 0 < s
    → (f * s ≤ a → a < (f + n) * s → (f ≤ a / s) × (a / s < f + n))
      × (f ≤ a / s → a / s < f + n → (f * s ≤ a) × (a < (f + n) * s))
block_range a f n s h =
    let lo = le-div_iff_mul-le {k = s} {x = f} {y = a} h in
    let hi = div-lt_iff_lt-mul {k = s} {x = a} {y = f + n} h in
    (λ p q. (lo.1 p, hi.1 q), λ p q. (lo.0 p, hi.0 q))

-- The block of a byte below a whole number of blocks lies below it too.
pub block_fits : (a z s : ℕ) → 0 < s → z % s ≡ 0 → a < z → a / s * s + s ≤ z
block_fits a z s h whole lt =
    let q = whole_quotient z s whole in
    let b = (block_lem a s h).0 in
    let below : a / s < z / s =
      (div-lt_iff_lt-mul {k = s} {x = a} {y = z / s} h).1 (omega (arith, q)) in
    omega (arith, q, mul_mono (a / s + 1) (z / s) s (omega (arith, below)))

-- A step inside the block of `a`.
pub block_step :
    (a i s : ℕ) → 0 < s → a % s + i < s → ((a + i) / s ≡ a / s) × ((a + i) % s ≡ a % s + i)
block_step a i s h lt =
    let b = block_lem a s h in
    let o = block_of (a / s) (a % s + i) s lt in
    let e : a / s * s + (a % s + i) ≡ a + i = omega (arith, b.0) in
    (ap (λ (n : ℕ). n / s) (sym e) ∙ o.0, ap (λ (n : ℕ). n % s) (sym e) ∙ o.1)
