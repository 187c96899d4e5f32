-- ===== src/Core/SectorIo/View.antt =====
-- What the caller of crates/burnout-core/src/sector_io.rs sees, and the invariant behind it.
use burnout.Prelude.{
  ℕ, ◌+◌, ◌*◌, ◌/◌, ◌%◌, ◌≤◌, ◌<◌, ◌≡◌, ◌⊎◌, false, Option, none, some, length, get_or,
}
use burnout.Core.Target.{Target}
use burnout.Core.Target.Device.{written}
use burnout.Core.SectorIo.Cache.{Slot, lookup}
use burnout.Core.SectorIo.State.{SectorIo}

-- A byte of a sector that is cached, or not.
abbrev pub through_cache : Option Slot → ℕ → ℕ → ℕ
through_cache none offset under = under
through_cache (some slot) offset under = get_or slot.bytes offset 0

module _ {T : Type 0} (byte : T → ℕ → ℕ) where
  -- The bytes of the target with the waiting sectors over them.
  abbrev pub under : SectorIo T → ℕ → ℕ
  under s a = written (byte s.inner) s.waiting_at s.waiting a

  -- The byte that a reader gets at `a`.
  abbrev pub view : SectorIo T → ℕ → ℕ
  view s a = through_cache (lookup (a / s.sector) s.cache) (a % s.sector) (under s a)

  pub cached_view :
      (s : SectorIo T) (a k o : ℕ) (w : Slot)
      → a / s.sector ≡ k
      → a % s.sector ≡ o
      → lookup k s.cache ≡ some w
      → view s a ≡ get_or w.bytes o 0
  cached_view s a k o w p q e = rw (p, q, e)

  pub uncached_view :
      (s : SectorIo T) (a : ℕ) → lookup (a / s.sector) s.cache ≡ none → view s a ≡ under s a
  uncached_view s a e = rw e

-- Byte `a` does not wait.
abbrev pub NotWaiting : {T : Type 0} → SectorIo T → ℕ → Type 0
NotWaiting s a = (a < s.waiting_at) ⊎ (s.waiting_at + length s.waiting ≤ a)

module _ {T : Type 0} (target : Target T) (Valid : T → Type 0) (byte : T → ℕ → ℕ) where
  -- A cached sector is whole and on the target, none of its bytes waits, and one that is not changed
  -- holds what the target holds.
  pub record GoodSlot (s : SectorIo T) (k : ℕ) (w : Slot) : Type 0 where
    pub size : length w.bytes ≡ s.sector
    pub fits : k * s.sector + s.sector ≤ target.size s.inner
    pub apart : (i : ℕ) → i < s.sector → NotWaiting s (k * s.sector + i)
    pub current :
        w.dirty ≡ false
        → (i : ℕ) → i < s.sector
        → get_or w.bytes i 0 ≡ byte s.inner (k * s.sector + i)

  pub record Inv (s : SectorIo T) : Type 0 where
    pub valid : Valid s.inner
    pub sector : s.sector ≡ target.logical_sector_size s.inner
    pub slots : (k : ℕ) (w : Slot) → lookup k s.cache ≡ some w → GoodSlot s k w
    pub waiting_start : s.waiting_at % s.sector ≡ 0
    pub waiting_whole : length s.waiting % s.sector ≡ 0
    pub waiting_fits : s.waiting_at + length s.waiting ≤ target.size s.inner

  -- A step that no reader can tell: it keeps the invariant, each byte, the position and the target's
  -- size.
  pub record Keeps (s s' : SectorIo T) : Type 0 where
    pub inv : Inv s'
    pub views : (a : ℕ) → view byte s' a ≡ view byte s a
    pub position : s'.position ≡ s.position
    pub sector : s'.sector ≡ s.sector
    pub size : target.size s'.inner ≡ target.size s.inner

  -- The position goes on by `n`, on the same target.
  pub record Moves (n : ℕ) (s s' : SectorIo T) : Type 0 where
    pub inv : Inv s'
    pub position : s'.position ≡ s.position + n
    pub sector : s'.sector ≡ s.sector
    pub size : target.size s'.inner ≡ target.size s.inner
