-- ===== src/Core/SectorIo/Flush.antt =====
-- `flush`, `sync` and the start of crates/burnout-core/src/sector_io.rs: what a reader sees reaches the
-- target.
use mathlib.Core.Path.{subst}
use native.Mathlib.Nat.{zero-mod}
use burnout.Prelude.{
  ℕ, ◌+◌, ◌*◌, ◌/◌, ◌%◌, ◌≡◌, refl, ap, ◌∙◌, sym, inl, inr, false, some, [], arith, Option-cases,
}
use burnout.Core.Error.{Result, ok}
use burnout.Core.Target.{Target}
use burnout.Core.Target.Device.{written_ext, written_nil, Flushed, IsDevice}
use burnout.Core.SectorIo.Cache.{Slot, lookup}
use burnout.Core.SectorIo.State.{SectorIo, with_cache}
use burnout.Core.SectorIo.Access.{flush, sync}
use burnout.Core.SectorIo.View.{through_cache, under, view, Inv, Keeps}
use burnout.Core.SectorIo.Send.{send_waiting-Sent}
use burnout.Core.SectorIo.WriteBack.{write_back-WrittenBack, Keeps-trans}
use burnout.Core.SectorIo.Load.{current_under}

module _ {T : Type 0} (target : Target T) (Valid : T → Type 0) (byte : T → ℕ → ℕ) (at : T → ℕ)
    (device : IsDevice target Valid byte at) where
  -- A call of the target that keeps its bytes.
  on_inner-Keeps :
      (s : SectorIo T) {r : Result (Unit {0}) × T}
      → Inv target Valid byte s
      → (f : Flushed target Valid byte at r s.inner)
      → Keeps target Valid byte s (record s { inner = f.next })
  on_inner-Keeps s inv f = record {
    inv = record {
      valid = f.same.valid;
      sector = inv.sector ∙ sym f.same.sector;
      slots = λ k w e.
          let good = inv.slots k w e in
          record {
            size = good.size;
            fits = rw f.same.size good.fits;
            apart = good.apart;
            current = λ d i q. good.current d i q ∙ sym (f.bytes (k * s.sector + i));
          };
      waiting_start = inv.waiting_start;
      waiting_whole = inv.waiting_whole;
      waiting_fits = rw f.same.size inv.waiting_fits;
    };
    views = λ a.
        ap (through_cache (lookup (a / s.sector) s.cache) (a % s.sector))
          (written_ext (byte f.next) (byte s.inner) s.waiting_at s.waiting a (f.bytes a));
    position = refl;
    sector = refl;
    size = f.same.size;
  }

  -- The target holds each byte that a reader sees, and no reader can tell.
  pub record OnTarget (s : SectorIo T) (r : Result (Unit {0}) × SectorIo T) : Type 0 where
    pub after : SectorIo T
    pub returns : r ≡ (ok tt, after)
    pub keeps : Keeps target Valid byte s after
    pub bytes : (a : ℕ) → byte after.inner a ≡ view byte s a

  -- With nothing that waits and nothing that is changed, the target's bytes are those that are seen.
  seen_on_target :
      (s : SectorIo T) (a : ℕ)
      → Inv target Valid byte s
      → s.waiting ≡ []
      → ((k : ℕ) (w : Slot) → lookup k s.cache ≡ some w → w.dirty ≡ false)
      → view byte s a ≡ byte s.inner a
  seen_on_target s a inv e all_clean =
      let bare : under byte s a ≡ byte s.inner a =
        written_nil (byte s.inner) s.waiting_at s.waiting a e in
      elim (Option-cases (lookup (a / s.sector) s.cache)) [
        | inl gone ↦ rw gone bare
        | inr (w, here) ↦ rw here (
            sym (
              current_under target Valid byte at device s a w inv here
                (all_clean (a / s.sector) w here))
            ∙ bare)
      ]

  -- Over a device, from a state that keeps the invariant, `flush` answers; after it the target itself
  -- holds each byte that a reader saw before it, and no reader can tell.
  pub flush-OnTarget : (s : SectorIo T) → Inv target Valid byte s → OnTarget s (flush target s)
  unfolding flush
  flush-OnTarget s inv =
      let u = send_waiting-Sent target Valid byte at device s inv in
      let w = write_back-WrittenBack target Valid byte at device u.after u.keeps.inv in
      let f = device.flush_all w.after.inner w.keeps.inv.valid in
      let seen = Keeps-trans target Valid byte at device u.keeps w.keeps in
      record {
        after = record (w.after) { inner = f.next };
        returns = rw u.returns (rw w.returns (rw f.returns));
        keeps = Keeps-trans target Valid byte at device seen (on_inner-Keeps w.after w.keeps.inv f);
        bytes = λ a.
            f.bytes a
            ∙ sym (seen_on_target w.after a w.keeps.inv (w.waiting ∙ u.empty) w.none_dirty)
            ∙ seen.views a;
      }

  -- `Synced` says of a state of the target that all it took is on the medium. Over a device whose own `sync`
  -- answers with such a state, from a state that keeps the invariant, `sync` answers; after it the target
  -- itself holds each byte that a reader saw before it, all it took is on the medium, and no reader can tell.
  pub sync-OnMedium :
      (Synced : T → Type 0)
      → ((t : T) → Valid t → Synced (target.sync t).1)
      → (s : SectorIo T) → Inv target Valid byte s
      → (o : OnTarget s (sync target s)) × Synced o.after.inner
  unfolding sync
  sync-OnMedium Synced syncs s inv =
      let g = flush-OnTarget s inv in
      let f = device.sync_all g.after.inner g.keeps.inv.valid in
      (
        record {
          after = record (g.after) { inner = f.next };
          returns = rw g.returns (rw f.returns);
          keeps =
              Keeps-trans target Valid byte at device g.keeps
                (on_inner-Keeps g.after g.keeps.inv f);
          bytes = λ a. f.bytes a ∙ g.bytes a;
        },
        subst Synced (λ i. (f.returns i).1) (syncs g.after.inner g.keeps.inv.valid),
      )

  -- Over a device in a valid state, a fresh `SectorIo` of any cache size keeps the invariant, and a reader
  -- sees the bytes of the device.
  pub with_cache-Inv :
      (t : T) (sectors : ℕ)
      → Valid t
      → Inv target Valid byte (with_cache target t sectors)
        × ((a : ℕ) → view byte (with_cache target t sectors) a ≡ byte t a)
  unfolding with_cache lookup
  with_cache-Inv t sectors v = (
    record {
      valid = v;
      sector = refl;
      slots = λ k w e. cc;
      waiting_start = zero-mod (target.logical_sector_size t);
      waiting_whole = zero-mod (target.logical_sector_size t);
      waiting_fits = omega arith;
    },
    λ a. ground arith,
  )
