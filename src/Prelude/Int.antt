-- ===== src/Prelude/Int.antt =====
-- Signed offsets over the native numbers, and their checked sum with an unsigned word.
use burnout.Prelude.Tests.{ltb, leb, if◌then◌else◌}
use Prim.Native.Nat.{ℕ, suc, ◌+◌, ◌-◌, ◌^◌}
use mathlib.Core.Option.{Option, none, some}

-- `negsuc n` is -(n + 1).
pub data ℤ : Type 0 where
  pos : ℕ → ℤ
  negsuc : ℕ → ℤ

-- `a.checked_add_signed(z)` on `u64`.
abbrev pub checked_add_signed : ℕ → ℤ → Option ℕ
checked_add_signed a (pos n) = if ltb (a + n) (2 ^ 64) then some (a + n) else none
checked_add_signed a (negsuc n) = if leb (suc n) a then some (a - suc n) else none
