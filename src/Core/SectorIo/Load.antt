-- ===== src/Core/SectorIo/Load.antt =====
-- `load` of crates/burnout-core/src/sector_io.rs: a sector gets into the cache, and no reader can tell.
use native.Mathlib.Nat.{mod_self}
use mathlib.Core.Path.{subst₂}
use native.Mathlib.Decide.{ℕ_discrete}
use burnout.Prelude.{
  ℕ, ◌+◌, ◌*◌, ◌/◌, ◌%◌, ◌≤◌, ◌<◌, ◌≡◌, ◌≢◌, refl, ap, ◌∙◌, sym, inl, inr, false, none, some, [],
  length, get_or, arith, leb, Bool-cases, Option-cases, block_lem, mul_whole, ≡→==, ≢→==,
}
use burnout.Core.Error.{ok}
use burnout.Core.Target.{Target}
use burnout.Core.Target.Device.{written_ext, written_away, IsDevice}
use burnout.Core.SectorIo.Cache.{Slot, lookup, insert, contains}
use burnout.Core.SectorIo.State.{SectorIo, get_at, make_room, load}
use burnout.Core.SectorIo.Lookup.{lookup-insert, Holds}
use burnout.Core.SectorIo.View.{through_cache, under, view, NotWaiting, GoodSlot, Inv, Keeps}
use burnout.Core.SectorIo.Send.{Fetched, get_at-Fetched, send_waiting_under-SentUnder, Keeps-refl}
use burnout.Core.SectorIo.WriteBack.{write_back-WrittenBack, Keeps-trans}

slot-injective : (v w : Slot) → some v ≡ some w → v ≡ w
slot-injective v w e = cc

module _ {T : Type 0} (target : Target T) (Valid : T → Type 0) (byte : T → ℕ → ℕ) (at : T → ℕ)
    (device : IsDevice target Valid byte at) where
  pub sector_pos : (s : SectorIo T) → Inv target Valid byte s → 0 < s.sector
  sector_pos s inv = rw inv.sector (device.sector_pos s.inner inv.valid)

  -- A byte that is cached and not changed is the target's, and none waits over it.
  pub current_under :
      (s : SectorIo T) (a : ℕ) (w : Slot)
      → Inv target Valid byte s
      → lookup (a / s.sector) s.cache ≡ some w
      → w.dirty ≡ false
      → under byte s a ≡ get_or w.bytes (a % s.sector) 0
  current_under s a w inv e d =
      let b = block_lem a s.sector (sector_pos s inv) in
      let good = inv.slots (a / s.sector) w e in
      ap (under byte s) (sym b.0)
      ∙ written_away (byte s.inner) s.waiting_at s.waiting _ (good.apart (a % s.sector) b.1)
      ∙ sym (good.current d (a % s.sector) b.1)

  -- A cache with no changed sector can be emptied.
  emptied-Keeps :
      (s : SectorIo T)
      → Inv target Valid byte s
      → ((k : ℕ) (w : Slot) → lookup k s.cache ≡ some w → w.dirty ≡ false)
      → Keeps target Valid byte s (record s { cache = [] })
  unfolding lookup
  emptied-Keeps s inv all_clean = record {
    inv = record {
      valid = inv.valid;
      sector = inv.sector;
      slots = λ k w e. cc;
      waiting_start = inv.waiting_start;
      waiting_whole = inv.waiting_whole;
      waiting_fits = inv.waiting_fits;
    };
    views = λ a. elim (Option-cases (lookup (a / s.sector) s.cache)) [
      | inl e ↦ rw e
      | inr (w, e) ↦ rw e (current_under s a w inv e (all_clean (a / s.sector) w e))
    ];
    position = refl;
    sector = refl;
    size = refl;
  }

  -- A cache that is full is written back and emptied.
  record Roomy (s : SectorIo T) : Type 0 where
    after : SectorIo T
    returns : make_room target s ≡ (ok tt, after)
    keeps : Keeps target Valid byte s after
    gone : (k : ℕ) → lookup k s.cache ≡ none → lookup k after.cache ≡ none

  make_room-Roomy : (s : SectorIo T) → Inv target Valid byte s → Roomy s
  unfolding make_room lookup
  make_room-Roomy s inv = elim (Bool-cases (leb s.capacity (length s.cache))) [
    | inl full ↦
        let w = write_back-WrittenBack target Valid byte at device s inv in
        record {
          after = record (w.after) { cache = [] };
          returns = rw full (rw w.returns);
          keeps =
              Keeps-trans target Valid byte at device w.keeps
                (emptied-Keeps w.after w.keeps.inv w.none_dirty);
          gone = λ k e. refl;
        }
    | inr room ↦ record {
      after = s;
      returns = rw room;
      keeps = Keeps-refl target Valid byte at device s inv;
      gone = λ k e. e;
    }
  ]

  -- A sector as the target has it comes into the cache.
  module _ (s : SectorIo T) (index : ℕ) (inv : Inv target Valid byte s)
      (g : Fetched target Valid byte at device (index * s.sector) s.sector s)
      (fits : index * s.sector + s.sector ≤ target.size s.inner)
      (gone : lookup index s.cache ≡ none)
      (apart : (a : ℕ)
        → index * s.sector ≤ a
        → a < index * s.sector + s.sector
        → NotWaiting s a) where
    abbrev fresh : Slot
    fresh = record { bytes = g.got; dirty = false }

    abbrev inserted : SectorIo T
    inserted = record s { inner = g.next; cache = insert index fresh s.cache }

    at_index : lookup index inserted.cache ≡ some fresh
    at_index = lookup-insert index index fresh s.cache ∙ rw (≡→== index index refl)

    elsewhere : (k : ℕ) → index ≢ k → lookup k inserted.cache ≡ lookup k s.cache
    elsewhere k other = lookup-insert index k fresh s.cache ∙ rw (≢→== index k other)

    fresh-GoodSlot : GoodSlot target Valid byte inserted index fresh
    fresh-GoodSlot = record {
      size = g.size;
      fits = rw g.same.size fits;
      apart = λ i q. apart (index * s.sector + i) (omega arith) (omega arith);
      current = λ d i q. g.given i q ∙ sym (g.bytes (index * s.sector + i));
    }

    old-GoodSlot :
        (k : ℕ) (w : Slot) → lookup k s.cache ≡ some w → GoodSlot target Valid byte inserted k w
    old-GoodSlot k w e =
        let good = inv.slots k w e in
        record {
          size = good.size;
          fits = rw g.same.size good.fits;
          apart = good.apart;
          current = λ d i q. good.current d i q ∙ sym (g.bytes (k * s.sector + i));
        }

    inserted-slots :
        (k : ℕ) (w : Slot)
        → lookup k inserted.cache ≡ some w
        → GoodSlot target Valid byte inserted k w
    inserted-slots k w e = elim (ℕ_discrete index k) [
      | yes same ↦
          subst₂ (GoodSlot target Valid byte inserted) same
            (slot-injective fresh w (sym at_index ∙ ap (λ n. lookup n inserted.cache) same ∙ e))
            fresh-GoodSlot
      | no other ↦ old-GoodSlot k w (sym (elsewhere k other) ∙ e)
    ]

    fresh_view : (a : ℕ) → index ≡ a / s.sector → view byte inserted a ≡ view byte s a
    fresh_view a e =
        let b = block_lem a s.sector (sector_pos s inv) in
        let i = a % s.sector in
        let place : index * s.sector + i ≡ a = ap (λ (n : ℕ). n * s.sector + i) e ∙ b.0 in
        let now : lookup (a / s.sector) inserted.cache ≡ some fresh =
          ap (λ n. lookup n inserted.cache) (sym e) ∙ at_index in
        let before : lookup (a / s.sector) s.cache ≡ none =
          ap (λ n. lookup n s.cache) (sym e) ∙ gone in
        rw (now, before)
          (g.given i b.1
            ∙ ap (byte s.inner) place
            ∙ sym (
                written_away (byte s.inner) s.waiting_at s.waiting a
                  (apart a (omega (arith, place)) (omega (arith, place)))))

    inserted-view : (a : ℕ) → view byte inserted a ≡ view byte s a
    inserted-view a = elim (ℕ_discrete index (a / s.sector)) [
      | yes e ↦ fresh_view a e
      | no other ↦ rw (elsewhere (a / s.sector) other) (
          ap (through_cache (lookup (a / s.sector) s.cache) (a % s.sector))
            (written_ext (byte g.next) (byte s.inner) s.waiting_at s.waiting a (g.bytes a)))
    ]

    inserted-Keeps : Keeps target Valid byte s inserted
    inserted-Keeps = record {
      inv = record {
        valid = g.same.valid;
        sector = inv.sector ∙ sym g.same.sector;
        slots = inserted-slots;
        waiting_start = inv.waiting_start;
        waiting_whole = inv.waiting_whole;
        waiting_fits = rw g.same.size inv.waiting_fits;
      };
      views = inserted-view;
      position = refl;
      sector = refl;
      size = g.same.size;
    }

  -- What `load` comes to.
  pub record Loaded (index : ℕ) (s : SectorIo T) : Type 0 where
    pub after : SectorIo T
    pub returns : load target index s ≡ (ok tt, after)
    pub keeps : Keeps target Valid byte s after
    pub holds : Holds after.cache index

  -- Over a device, from a state that keeps the invariant: for a sector that the target has, `load`
  -- answers, the sector is cached after it, and no reader can tell.
  pub load-Loaded :
      (index : ℕ) (s : SectorIo T)
      → Inv target Valid byte s
      → index * s.sector + s.sector ≤ target.size s.inner
      → Loaded index s
  unfolding load contains
  load-Loaded index s inv fits = elim (Option-cases (lookup index s.cache)) [
    | inl gone ↦
        let m = make_room-Roomy s inv in
        let u =
          send_waiting_under-SentUnder target Valid byte at device (index * m.after.sector)
            m.after.sector m.after m.keeps.inv in
        let seen = Keeps-trans target Valid byte at device m.keeps u.keeps in
        let here : u.after.sector ≡ m.after.sector = u.keeps.sector in
        let fits' : index * u.after.sector + u.after.sector ≤ target.size u.after.inner =
          rw (seen.sector, seen.size) fits in
        let g =
          get_at-Fetched target Valid byte at device (index * u.after.sector) u.after.sector u.after
            u.keeps.inv (mul_whole index u.after.sector) (mod_self u.after.sector) fits' in
        let got : get_at target (index * m.after.sector) m.after.sector u.after
            ≡ (ok g.got, record (u.after) { inner = g.next }) =
          ap (λ n. get_at target (index * n) n u.after) (sym here) ∙ g.returns in
        let empty : lookup index u.after.cache ≡ none =
          ap (lookup index) u.cache ∙ m.gone index gone in
        let apart : (a : ℕ)
            → index * u.after.sector ≤ a
            → a < index * u.after.sector + u.after.sector
            → NotWaiting u.after a =
          λ a p q. u.apart a (rw (← here) p) (rw (← here) q) in
        record {
          after = inserted u.after index u.keeps.inv g fits' empty apart;
          returns = rw gone (rw m.returns (rw u.returns (rw got)));
          keeps =
              Keeps-trans target Valid byte at device seen
                (inserted-Keeps u.after index u.keeps.inv g fits' empty apart);
          holds = (
            fresh u.after index u.keeps.inv g fits' empty apart,
            at_index u.after index u.keeps.inv g fits' empty apart,
          );
        }
    | inr (w, e) ↦ record {
      after = s;
      returns = rw e;
      keeps = Keeps-refl target Valid byte at device s inv;
      holds = (w, e);
    }
  ]
