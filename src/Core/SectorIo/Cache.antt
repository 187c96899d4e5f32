-- ===== src/Core/SectorIo/Cache.antt =====
-- The cache of crates/burnout-core/src/sector_io.rs. The `BTreeMap` is the list of its entries in the
-- order of their keys.
use burnout.Prelude.{
  ℕ, zero, suc, ◌+◌, Bool, true, false, Option, none, some, List, [], ◌∷◌, ◌++◌, ltb, ◌==◌,
  if◌then◌else◌,
}

-- One sector in the cache.
pub record Slot : Type 0 where
  pub bytes : List ℕ
  pub dirty : Bool

abbrev pub Cache : Type 0
Cache = List (ℕ × Slot)

unfoldable pub lookup : ℕ → Cache → Option Slot
lookup k [] = none
lookup k ((j, slot) ∷ c) = if j == k then some slot else lookup k c

unfoldable pub insert : ℕ → Slot → Cache → Cache
insert k v [] = (k, v) ∷ []
insert k v ((j, w) ∷ c) =
    if ltb k j then (k, v) ∷ (j, w) ∷ c else if j == k then (k, v) ∷ c else (j, w) ∷ insert k v c

unfoldable pub remove : ℕ → Cache → Cache
remove k [] = []
remove k ((j, w) ∷ c) = let rest = remove k c in if j == k then rest else (j, w) ∷ rest

abbrev pub is_some {ℓ} : {A : Type ℓ} → Option A → Bool
is_some none = false
is_some (some a) = true

unfoldable pub contains : ℕ → Cache → Bool
contains k c = is_some (lookup k c)

-- `cache.get_mut(&k)` and a change of what it gives, if it is there.
unfoldable pub change : ℕ → (Slot → Slot) → Cache → Cache
change k f [] = []
change k f ((j, w) ∷ c) = if j == k then (j, f w) ∷ c else (j, w) ∷ change k f c

-- `cache[&k].bytes`, which panics where the cache holds no `k`.
abbrev pub slot_bytes : Option Slot → List ℕ
slot_bytes none = []
slot_bytes (some slot) = slot.bytes

-- The keys of the changed sectors.
unfoldable pub dirty_keys : Cache → List ℕ
dirty_keys [] = []
dirty_keys ((j, w) ∷ c) = if w.dirty then j ∷ dirty_keys c else dirty_keys c

-- How many keys after `next` follow one another: the count that the inner loop of `write_back` adds.
unfoldable pub run_length : ℕ → List ℕ → ℕ
run_length next [] = 0
run_length next (k ∷ ks) = let more = run_length (next + 1) ks in if k == next then suc more else 0

-- The bytes of `count` cached sectors from `first` on.
unfoldable pub run_bytes : Cache → ℕ → ℕ → List ℕ
run_bytes c first zero = []
run_bytes c first (suc count) = slot_bytes (lookup first c) ++ run_bytes c (first + 1) count

unfoldable pub mark_clean : ℕ → ℕ → Cache → Cache
mark_clean first zero c = c
mark_clean first (suc count) c =
    mark_clean (first + 1) count (change first (λ slot. record slot { dirty = false }) c)

-- Sectors `index` to `index + count` leave the cache.
unfoldable pub forget : ℕ → ℕ → Cache → Cache
forget index zero c = c
forget index (suc count) c = forget (index + 1) count (remove index c)

-- How many sectors from `index` on are not in the cache, up to `most`.
unfoldable pub uncached_run : Cache → ℕ → ℕ → ℕ
uncached_run c index zero = 0
uncached_run c index (suc most) =
    let more = uncached_run c (index + 1) most in if contains index c then 0 else suc more
