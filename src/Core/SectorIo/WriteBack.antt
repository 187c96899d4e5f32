-- ===== src/Core/SectorIo/WriteBack.antt =====
-- `write_back` of crates/burnout-core/src/sector_io.rs: every changed sector reaches the target, and no
-- reader can tell.
use mathlib.Core.Bool.{true≢false}
use native.Mathlib.Decide.{dec_lt, ℕ_discrete}
use burnout.Prelude.{
  ℕ, zero, suc, ◌+◌, ◌*◌, ◌/◌, ◌%◌, ◌≤◌, ◌<◌, ◌≡◌, refl, ap, ◌∙◌, sym, ◌⊎◌, inl, inr, true, false,
  ◌&&◌, none, some, List, [], ◌∷◌, length, drop, get_or, arith, ltb, leb, Bool-cases, Option-cases,
  length-drop, mul_mono, block_before, block_lem, mul_whole,
}
use burnout.Core.Error.{Result, ok}
use burnout.Core.Target.{Target}
use burnout.Core.Target.Device.{
  written, written_ext, written_in, written_away, SameDevice, IsDevice,
}
use burnout.Core.SectorIo.Cache.{
  Slot, Cache, lookup, slot_bytes, dirty_keys, run_length, run_bytes, mark_clean,
}
use burnout.Core.SectorIo.State.{SectorIo, write_run, write_runs, write_back}
use burnout.Core.SectorIo.Lookup.{
  clean, lookup-mark_clean, elem, All, All-drop, run_length-All, run_length-elem, dirty_keys-elem,
  dirty_keys-Holds, All-weaken, Holds, length-run_bytes, get_or-run_bytes,
}
use burnout.Core.SectorIo.View.{view, GoodSlot, Inv, Keeps}
use burnout.Core.SectorIo.Send.{put_at-Stored, Keeps-refl}

module _ {T : Type 0} (target : Target T) (Valid : T → Type 0) (byte : T → ℕ → ℕ) (at : T → ℕ)
    (device : IsDevice target Valid byte at) where
  abbrev HoldsRun : SectorIo T → ℕ → ℕ → Type 0
  HoldsRun s first run = (k : ℕ) → first ≤ k → k < first + run → Holds s.cache k

  -- The state after sectors `first` to `first + run` went to `t`.
  abbrev ran : SectorIo T → ℕ → ℕ → T → SectorIo T
  ran s first run t = record s { inner = t; cache = mark_clean first run s.cache }

  -- A run as the bytes of its slots.
  run_size :
      (s : SectorIo T) (first run : ℕ)
      → Inv target Valid byte s
      → HoldsRun s first run
      → (k : ℕ) → first ≤ k
      → k < first + run
      → length (slot_bytes (lookup k s.cache)) ≡ s.sector
  run_size s first run inv holds k p q =
      let (w, e) = holds k p q in ap (λ o. length (slot_bytes o)) e ∙ (inv.slots k w e).size

  -- What the target holds of a sector of the run, and of any other.
  module _ (s : SectorIo T) (first run : ℕ) (t : T) (inv : Inv target Valid byte s)
      (holds : HoldsRun s first run)
      (bytes : (a : ℕ)
        → byte t a
          ≡ written (byte s.inner) (first * s.sector) (run_bytes s.cache first run) a) where
    sector_pos : 0 < s.sector
    sector_pos = rw inv.sector (device.sector_pos s.inner inv.valid)

    size_of_run : length (run_bytes s.cache first run) ≡ run * s.sector
    size_of_run = length-run_bytes s.cache s.sector first run (run_size s first run inv holds)

    in_run :
        (k i : ℕ) (w : Slot)
        → first ≤ k
        → k < first + run
        → i < s.sector
        → lookup k s.cache ≡ some w
        → byte t (k * s.sector + i) ≡ get_or w.bytes i 0
    in_run k i w p q r e =
        let a = k * s.sector + i in
        let out = run_bytes s.cache first run in
        bytes a
        ∙ written_in (byte s.inner) (first * s.sector) out a
            (omega (arith, mul_mono first k s.sector p))
            (omega (arith, size_of_run, block_before k (first + run) i s.sector q r))
        ∙ get_or-run_bytes s.cache s.sector first run k i (run_size s first run inv holds) p q r
        ∙ ap (λ o. get_or (slot_bytes o) i 0) e

    off_run :
        (k i : ℕ)
        → (k < first) ⊎ (first + run ≤ k)
        → i < s.sector
        → byte t (k * s.sector + i) ≡ byte s.inner (k * s.sector + i)
    off_run k i away r =
        let a = k * s.sector + i in
        bytes a
        ∙ written_away (byte s.inner) (first * s.sector) (run_bytes s.cache first run) a (side away)
      where
        side :
            (k < first) ⊎ (first + run ≤ k)
            → (k * s.sector + i < first * s.sector)
              ⊎ (first * s.sector + length (run_bytes s.cache first run) ≤ k * s.sector + i)
        side (inl h) = inl (block_before k first i s.sector h r)
        side (inr h) = inr (omega (arith, size_of_run, mul_mono (first + run) k s.sector h))

    -- A slot of the state after the run, and the slot that it was.
    record Old (k : ℕ) (w : Slot) : Type 0 where
      was : Slot
      found : lookup k s.cache ≡ some was
      same_bytes : w.bytes ≡ was.bytes
      still_dirty : w.dirty ≡ true → (was.dirty ≡ true) × ((k < first) ⊎ (first + run ≤ k))
      fresh :
          w.dirty ≡ false
          → (was.dirty ≡ false) × ((k < first) ⊎ (first + run ≤ k))
            ⊎ (first ≤ k) × (k < first + run)

    slot_before : (k : ℕ) (w : Slot) → lookup k (ran s first run t).cache ≡ some w → Old k w
    slot_before k w h =
        let law = lookup-mark_clean first run k s.cache in
        elim (Option-cases (lookup k s.cache)) [
          | inl e ↦ absurd (ground (arith, law, e))
          | inr (was, e) ↦ record {
            was = was;
            found = e;
            same_bytes = ground (arith, law, e);
            still_dirty = λ d. ground (arith, law, e);
            fresh = λ d. ground (arith, law, e);
          }
        ]

    ran-GoodSlot :
        SameDevice target Valid s.inner t
        → (k : ℕ) (w : Slot) → lookup k (ran s first run t).cache ≡ some w
        → GoodSlot target Valid byte (ran s first run t) k w
    ran-GoodSlot same k w h =
        let o = slot_before k w h in
        let good = inv.slots k o.was o.found in
        record {
          size = ap length o.same_bytes ∙ good.size;
          fits = rw same.size good.fits;
          apart = good.apart;
          current = λ d i r. elim (o.fresh d) [
            | inl (d', away) ↦
                ap (λ b. get_or b i 0) o.same_bytes ∙ good.current d' i r ∙ sym (off_run k i away r)
            | inr (p, q) ↦
                ap (λ b. get_or b i 0) o.same_bytes ∙ sym (in_run k i o.was p q r o.found)
          ];
        }

    -- A byte of a sector that is not cached.
    under_run : (a : ℕ) → lookup (a / s.sector) s.cache ≡ none → byte t a ≡ byte s.inner a
    under_run a e =
        let k = a / s.sector in
        let i = a % s.sector in
        let b = block_lem a s.sector sector_pos in
        let away : (k < first) ⊎ (first + run ≤ k) = elim (dec_lt k first) [
          | yes h ↦ inl h
          | no h ↦ elim (dec_lt k (first + run)) [
            | yes q ↦ absurd (not_held k (omega arith) q e)
            | no q ↦ inr (omega arith)
          ]
        ] in
        let moved = off_run k i away b.1 in ap (byte t) (sym b.0) ∙ moved ∙ ap (byte s.inner) b.0
      where
        not_held : (k : ℕ) → first ≤ k → k < first + run → ¬ (lookup k s.cache ≡ none)
        not_held k p q e = let (w, h) = holds k p q in cc

    through_run :
        (a : ℕ) (w : Slot)
        → lookup (a / s.sector) s.cache ≡ some w
        → view byte (ran s first run t) a ≡ view byte s a
    through_run a w e =
        let k = a / s.sector in
        let law = lookup-mark_clean first run k s.cache in
        elim (Bool-cases (leb first k && ltb k (first + run))) [
          | inl r ↦
              let there : lookup k (ran s first run t).cache ≡ some (clean w) = law ∙ rw (r, e) in
              rw (there, e)
          | inr r ↦
              let there : lookup k (ran s first run t).cache ≡ some w = law ∙ rw (r, e) in
              rw (there, e)
        ]

    ran-view : (a : ℕ) → view byte (ran s first run t) a ≡ view byte s a
    ran-view a =
        let k = a / s.sector in
        let i = a % s.sector in
        let law = lookup-mark_clean first run k s.cache in
        elim (Option-cases (lookup k s.cache)) [
          | inl e ↦
              let gone : lookup k (ran s first run t).cache ≡ none = ground (arith, law, e) in
              rw (gone, e)
                (written_ext (byte t) (byte s.inner) s.waiting_at s.waiting a (under_run a e))
          | inr (w, e) ↦ through_run a w e
        ]

  -- One round of `write_back`, and what is changed after it.
  record RanRun (first run : ℕ) (s : SectorIo T) : Type 0 where
    after : SectorIo T
    returns : write_run target first run s ≡ (ok tt, after)
    keeps : Keeps target Valid byte s after
    waiting : after.waiting ≡ s.waiting
    held : (k : ℕ) → Holds s.cache k → Holds after.cache k
    dirty :
        (k : ℕ) (w : Slot)
        → lookup k after.cache ≡ some w
        → w.dirty ≡ true
        → (was : Slot) × (lookup k s.cache ≡ some was)
          × (was.dirty ≡ true)
          × ((k < first) ⊎ (first + run ≤ k))

  held_after : (first run k : ℕ) (c : Cache) → Holds c k → Holds (mark_clean first run c) k
  held_after first run k c (w, e) =
      let law = lookup-mark_clean first run k c in
      elim (Bool-cases (leb first k && ltb k (first + run))) [
        | inl r ↦ (clean w, law ∙ rw (r, e))
        | inr r ↦ (w, law ∙ rw (r, e))
      ]

  run_fits :
      (s : SectorIo T) (first run : ℕ)
      → Inv target Valid byte s
      → HoldsRun s first (suc run)
      → first * s.sector + suc run * s.sector ≤ target.size s.inner
  run_fits s first run inv holds =
      let (w, e) = holds (first + run) (omega arith) (omega arith) in
      omega (arith, (inv.slots (first + run) w e).fits)

  write_run-RanRun :
      (s : SectorIo T) (first run : ℕ)
      → Inv target Valid byte s
      → HoldsRun s first (suc run)
      → RanRun first (suc run) s
  unfolding write_run
  write_run-RanRun s first run inv holds =
      let n = suc run in
      let size = length-run_bytes s.cache s.sector first n (run_size s first n inv holds) in
      let p =
        put_at-Stored target Valid byte at device (first * s.sector) (run_bytes s.cache first n) s
          inv (mul_whole first s.sector) (rw size (mul_whole n s.sector))
          (rw size (run_fits s first run inv holds)) in
      let after = ran s first n p.next in
      record {
        after = after;
        returns = rw p.returns;
        keeps = record {
          inv = record {
            valid = p.same.valid;
            sector = inv.sector ∙ sym p.same.sector;
            slots = ran-GoodSlot s first n p.next inv holds p.bytes_at p.same;
            waiting_start = inv.waiting_start;
            waiting_whole = inv.waiting_whole;
            waiting_fits = rw p.same.size inv.waiting_fits;
          };
          views = ran-view s first n p.next inv holds p.bytes_at;
          position = refl;
          sector = refl;
          size = p.same.size;
        };
        waiting = refl;
        held = λ k h. held_after first n k s.cache h;
        dirty = λ k w e d.
            let o = slot_before s first n p.next inv holds p.bytes_at k w e in
            (o.was, o.found, (o.still_dirty d).0, (o.still_dirty d).1);
      }

  pub Keeps-trans :
      {r s t : SectorIo T}
      → Keeps target Valid byte r s
      → Keeps target Valid byte s t
      → Keeps target Valid byte r t
  Keeps-trans x y = record {
    inv = y.inv;
    views = λ a. y.views a ∙ x.views a;
    position = y.position ∙ x.position;
    sector = y.sector ∙ x.sector;
    size = y.size ∙ x.size;
  }

  -- The rounds over some keys of the cache.
  record Ran (ks : List ℕ) (s : SectorIo T) (r : Result (Unit {0}) × SectorIo T) : Type 0 where
    after : SectorIo T
    returns : r ≡ (ok tt, after)
    keeps : Keeps target Valid byte s after
    waiting : after.waiting ≡ s.waiting
    dirty :
        (k : ℕ) (w : Slot)
        → lookup k after.cache ≡ some w
        → w.dirty ≡ true
        → (was : Slot) × (lookup k s.cache ≡ some was) × (was.dirty ≡ true) × (elem k ks ≡ false)

  holds_run :
      (first : ℕ) (rest : List ℕ) (s : SectorIo T)
      → All (Holds s.cache) (first ∷ rest)
      → HoldsRun s first (suc (run_length (first + 1) rest))
  holds_run first rest s h k p q = elim (ℕ_discrete first k) [
    | yes e ↦ rw (← e) h.0
    | no e ↦ run_length-All (Holds s.cache) (first + 1) rest k h.1 (omega arith) (omega arith)
  ]

  -- A key outside the run and not among the keys after it is none of the keys.
  not_elem :
      (first k : ℕ) (rest : List ℕ)
      → elem k (drop (run_length (first + 1) rest) rest) ≡ false
      → (k < first) ⊎ (first + suc (run_length (first + 1) rest) ≤ k)
      → elem k (first ∷ rest) ≡ false
  not_elem first k rest gone away = elim (Bool-cases (elem k rest)) [
    | inl e ↦ elim (run_length-elem (first + 1) rest k e) [
      | inl (p, q) ↦ absurd (omega arith)
      | inr later ↦ cc
    ]
    | inr e ↦ ground (arith, e)
  ]

  write_runs-Ran :
      (fuel : ℕ) (ks : List ℕ) (s : SectorIo T)
      → length ks ≤ fuel
      → Inv target Valid byte s
      → All (Holds s.cache) ks
      → Ran ks s (write_runs target fuel ks s)
  unfolding write_runs
  write_runs-Ran fuel [] s f inv h = record {
    after = s;
    returns = refl;
    keeps = Keeps-refl target Valid byte at device s inv;
    waiting = refl;
    dirty = λ k w e d. (w, e, d, refl);
  }
  write_runs-Ran zero (first ∷ rest) s f inv h = absurd (omega arith)
  write_runs-Ran (suc fuel) (first ∷ rest) s f inv h =
      let more = run_length (first + 1) rest in
      let left = drop more rest in
      let one = write_run-RanRun s first more inv (holds_run first rest s h) in
      let all =
        write_runs-Ran fuel left one.after (omega (arith, length-drop more rest)) one.keeps.inv (
          All-weaken (Holds s.cache) (Holds one.after.cache) left one.held
            (All-drop (Holds s.cache) more rest h.1)) in
      record {
        after = all.after;
        returns = rw one.returns all.returns;
        keeps = Keeps-trans one.keeps all.keeps;
        waiting = all.waiting ∙ one.waiting;
        dirty = λ k w e d.
            let (was, e1, d1, n1) = all.dirty k w e d in
            let (was2, e2, d2, n2) = one.dirty k was e1 d1 in
            (was2, e2, d2, not_elem first k rest n1 n2);
      }

  -- What `write_back` comes to.
  pub record WrittenBack (s : SectorIo T) : Type 0 where
    pub after : SectorIo T
    pub returns : write_back target s ≡ (ok tt, after)
    pub keeps : Keeps target Valid byte s after
    pub waiting : after.waiting ≡ s.waiting
    pub none_dirty : (k : ℕ) (w : Slot) → lookup k after.cache ≡ some w → w.dirty ≡ false

  -- Over a device, from a state that keeps the invariant: `write_back` answers, no reader can tell, what
  -- waits still waits, and no sector of the cache is changed after it.
  pub write_back-WrittenBack : (s : SectorIo T) → Inv target Valid byte s → WrittenBack s
  unfolding write_back
  write_back-WrittenBack s inv =
      let ks = dirty_keys s.cache in
      let r = write_runs-Ran (length ks) ks s (omega arith) inv (dirty_keys-Holds s.cache) in
      record {
        after = r.after;
        returns = r.returns;
        keeps = r.keeps;
        waiting = r.waiting;
        none_dirty = λ k w e. elim (Bool-cases w.dirty) [
          | inl d ↦
              let (was, e', d', n) = r.dirty k w e d in
              absurd (true≢false (sym (dirty_keys-elem s.cache k was e' d') ∙ n))
          | inr d ↦ d
        ];
      }
