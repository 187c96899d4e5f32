-- ===== src/Core/SectorIo/Lookup.antt =====
-- What the cache of crates/burnout-core/src/sector_io.rs gives after each change of it.
use native.Mathlib.Decide.{ℕ_discrete}
use burnout.Prelude.{
  ℕ, zero, suc, ◌+◌, ◌-◌, ◌*◌, ◌≤◌, ◌<◌, ◌≡◌, refl, ap, ◌∙◌, sym, ◌⊎◌, inl, inr, Bool, true, false,
  ◌&&◌, ◌||◌, Option, none, some, List, [], ◌∷◌, length, length-append, drop, get_or, get_or-append,
  mul_mono, arith, ltb, leb, ◌==◌, if◌then◌else◌, Bool-cases, ==→≡, lt→ltb, le→ltb, ≡→==,
}
use burnout.Core.SectorIo.Cache.{
  Slot, Cache, lookup, insert, remove, contains, change, slot_bytes, dirty_keys, run_length,
  run_bytes, mark_clean, forget, uncached_run,
}

pub lookup-insert :
    (k j : ℕ) (v : Slot) (c : Cache)
    → lookup j (insert k v c) ≡ (if k == j then some v else lookup j c)
unfolding lookup insert
lookup-insert k j v [] = refl
lookup-insert k j v ((i, w) ∷ c) = ground (arith, lookup-insert k j v c)

pub lookup-remove :
    (k j : ℕ) (c : Cache) → lookup j (remove k c) ≡ (if k == j then none else lookup j c)
unfolding lookup remove
lookup-remove k j [] = ground arith
lookup-remove k j ((i, w) ∷ c) = ground (arith, lookup-remove k j c)

abbrev pub map_slot : (Slot → Slot) → Option Slot → Option Slot
map_slot f none = none
map_slot f (some w) = some (f w)

pub lookup-change :
    (k j : ℕ) (f : Slot → Slot) (c : Cache)
    → lookup j (change k f c) ≡ (if k == j then map_slot f (lookup j c) else lookup j c)
unfolding lookup change
lookup-change k j f [] = ground arith
lookup-change k j f ((i, w) ∷ c) = ground (arith, lookup-change k j f c)

pub lookup-forget :
    (i n j : ℕ) (c : Cache)
    → lookup j (forget i n c) ≡ (if leb i j && ltb j (i + n) then none else lookup j c)
unfolding forget
lookup-forget i zero j c = ground arith
lookup-forget i (suc n) j c =
    ground (arith, lookup-forget (i + 1) n j (remove i c), lookup-remove i j c)

abbrev pub clean : Slot → Slot
clean w = record w { dirty = false }

pub lookup-mark_clean :
    (i n j : ℕ) (c : Cache)
    → lookup j (mark_clean i n c)
      ≡ (if leb i j && ltb j (i + n) then map_slot clean (lookup j c) else lookup j c)
unfolding mark_clean
lookup-mark_clean i zero j c = ground arith
lookup-mark_clean i (suc n) j c =
    ground (arith, lookup-mark_clean (i + 1) n j (change i clean c), lookup-change i j clean c)

pub uncached_run-le : (c : Cache) (i most : ℕ) → uncached_run c i most ≤ most
unfolding uncached_run
uncached_run-le c i zero = omega arith
uncached_run-le c i (suc most) = ground (arith, uncached_run-le c (i + 1) most)

pub uncached_run-none :
    (c : Cache) (i most j : ℕ) → i ≤ j → j < i + uncached_run c i most → lookup j c ≡ none
unfolding uncached_run contains
uncached_run-none c i zero j p q = absurd (omega arith)
uncached_run-none c i (suc most) j p q = elim (ℕ_discrete i j) [
  | yes e ↦ ap (λ (n : ℕ). lookup n c) (sym e) ∙ first
  | no n ↦ ground (arith, uncached_run-none c (i + 1) most j)
]
  where
    first : lookup i c ≡ none
    first = ground arith

-- `k` is one of the keys.
abbrev pub elem : ℕ → List ℕ → Bool
elem k [] = false
elem k (j ∷ ks) = j == k || elem k ks

abbrev pub All : (ℕ → Type 0) → List ℕ → Type 0
All P [] = Unit
All P (k ∷ ks) = P k × All P ks

pub All-drop : (P : ℕ → Type 0) (n : ℕ) (ks : List ℕ) → All P ks → All P (drop n ks)
All-drop P zero ks h = h
All-drop P (suc n) [] h = tt
All-drop P (suc n) (k ∷ ks) h = All-drop P n ks h.1

-- The keys of a run are those that follow one another.
pub run_length-All :
    (P : ℕ → Type 0) (next : ℕ) (ks : List ℕ) (k : ℕ)
    → All P ks
    → next ≤ k
    → k < next + run_length next ks
    → P k
unfolding run_length
run_length-All P next [] k h p q = absurd (omega arith)
run_length-All P next (j ∷ ks) k h p q = elim (Bool-cases (j == next)) [
  | inl e ↦ elim (ℕ_discrete k next) [
    | yes same ↦ rw (same ∙ sym (==→≡ j next e)) h.0
    | no other ↦ run_length-All P (next + 1) ks k h.1 (omega arith) (ground (arith, e))
  ]
  | inr e ↦ absurd (ground (arith, e))
]

pub run_length-elem :
    (next : ℕ) (ks : List ℕ) (k : ℕ)
    → elem k ks ≡ true
    → ((next ≤ k) × (k < next + run_length next ks))
      ⊎ (elem k (drop (run_length next ks) ks) ≡ true)
unfolding run_length
run_length-elem next [] k h = cc
run_length-elem next (j ∷ ks) k h = ground (arith, run_length-elem (next + 1) ks k)

pub run_length-le : (next : ℕ) (ks : List ℕ) → run_length next ks ≤ length ks
unfolding run_length
run_length-le next [] = omega arith
run_length-le next (j ∷ ks) = ground (arith, run_length-le (next + 1) ks)

pub dirty_keys-elem :
    (c : Cache) (k : ℕ) (w : Slot)
    → lookup k c ≡ some w
    → w.dirty ≡ true
    → elem k (dirty_keys c) ≡ true
unfolding lookup dirty_keys
dirty_keys-elem [] k w e d = cc
dirty_keys-elem ((j, v) ∷ c) k w e d = ground (arith, dirty_keys-elem c k w)

-- The cache holds sector `k`.
abbrev pub Holds : Cache → ℕ → Type 0
Holds c k = (w : Slot) × (lookup k c ≡ some w)

pub All-weaken : (P Q : ℕ → Type 0) (ks : List ℕ) → ((k : ℕ) → P k → Q k) → All P ks → All Q ks
All-weaken P Q [] f h = tt
All-weaken P Q (k ∷ ks) f h = (f k h.0, All-weaken P Q ks f h.1)

Holds-later : (j : ℕ) (w : Slot) (c : Cache) (k : ℕ) → Holds c k → Holds ((j, w) ∷ c) k
unfolding lookup
Holds-later j w c k (v, e) = elim (Bool-cases (j == k)) [
  | inl here ↦ (w, rw here)
  | inr past ↦ (v, rw past e)
]

All-if :
    (P : ℕ → Type 0) (b : Bool) (xs ys : List ℕ)
    → All P xs
    → All P ys
    → All P (if b then xs else ys)
All-if P true xs ys h g = h
All-if P false xs ys h g = g

-- Each key that is written back is in the cache.
pub dirty_keys-Holds : (c : Cache) → All (Holds c) (dirty_keys c)
unfolding lookup dirty_keys
dirty_keys-Holds [] = tt
dirty_keys-Holds ((j, w) ∷ c) =
    let rest =
      All-weaken (Holds c) (Holds ((j, w) ∷ c)) (dirty_keys c) (Holds-later j w c)
        (dirty_keys-Holds c) in
    All-if (Holds ((j, w) ∷ c)) w.dirty (j ∷ dirty_keys c) (dirty_keys c)
      ((w, rw (≡→== j j refl)), rest) rest

module _ (c : Cache) (s : ℕ) where
  abbrev Full : ℕ → ℕ → Type 0
  Full first n = (k : ℕ) → first ≤ k → k < first + n → length (slot_bytes (lookup k c)) ≡ s

  pub length-run_bytes : (first n : ℕ) → Full first n → length (run_bytes c first n) ≡ n * s
  unfolding run_bytes
  length-run_bytes first zero h = omega arith
  length-run_bytes first (suc n) h = omega (
    arith,
    length-append {0} (slot_bytes (lookup first c)) (run_bytes c (first + 1) n),
    h first (omega arith) (omega arith),
    length-run_bytes (first + 1) n (λ k p q. h k (omega arith) (omega arith)),
  )

  pub get_or-run_bytes :
      (first n k i : ℕ)
      → Full first n
      → first ≤ k
      → k < first + n
      → i < s
      → get_or (run_bytes c first n) (k * s + i - first * s) 0
        ≡ get_or (slot_bytes (lookup k c)) i 0
  unfolding run_bytes
  get_or-run_bytes first zero k i h p q r = absurd (omega arith)
  get_or-run_bytes first (suc n) k i h p q r =
      let head = slot_bytes (lookup first c) in
      let head_size = h first (omega arith) (omega arith) in
      get_or-append head (run_bytes c (first + 1) n) (k * s + i - first * s) 0
      ∙ (elim (ℕ_discrete first k) [
        | yes e ↦
            let place : k * s + i - first * s ≡ i = omega (arith, ap (λ (m : ℕ). m * s) e) in
            rw (lt→ltb (k * s + i - first * s) (length head) (omega (arith, place, head_size))) (
              ap (λ (m : ℕ). get_or head m 0) place
              ∙ ap (λ (m : ℕ). get_or (slot_bytes (lookup m c)) i 0) e)
        | no e ↦
            let later = mul_mono (first + 1) k s (omega arith) in
            let place : k * s + i - first * s - length head ≡ k * s + i - (first + 1) * s =
              omega (arith, head_size, later) in
            rw (le→ltb (k * s + i - first * s) (length head) (omega (arith, head_size, later))) (
              ap (λ (m : ℕ). get_or (run_bytes c (first + 1) n) m 0) place
              ∙ get_or-run_bytes (first + 1) n k i (λ j x y. h j (omega arith) (omega arith))
                  (omega arith) (omega arith) r)
      ])
