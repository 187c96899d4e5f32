-- ===== src/Core/SectorIo/Read.antt =====
-- `read` of crates/burnout-core/src/sector_io.rs gives the bytes that a reader should see.
use native.Mathlib.Nat.{div-mul-le_self}
use native.Mathlib.Decide.{dec_lt}
use burnout.Prelude.{
  ℕ, zero, suc, ◌+◌, ◌-◌, ◌*◌, ◌/◌, ◌%◌, ◌≤◌, ◌<◌, ◌≡◌, refl, ap, ◌∙◌, sym, inl, inr, true, none,
  min, List, [], ◌++◌, length, get_or, slice, drop, arith, ltb, Bool-cases, lt→ltb, ltb→lt,
  length-append, length-take, length-drop, get_or-take, get_or-drop, block_lem, block_fits,
  block_step, block_range, mul_whole, mul_mono, whole_quotient,
}
use burnout.Core.Error.{Result, ok}
use burnout.Core.Target.{Target}
use burnout.Core.Target.Device.{given_join, written_ext, written_away, IsDevice}
use burnout.Core.SectorIo.Cache.{lookup, uncached_run}
use burnout.Core.SectorIo.State.{SectorIo}
use burnout.Core.SectorIo.Access.{
  advance, direct, read_run, read_cached, read_step, read_loop, read,
}
use burnout.Core.SectorIo.Lookup.{uncached_run-le, uncached_run-none}
use burnout.Core.SectorIo.View.{through_cache, view, cached_view, uncached_view, Inv, Keeps, Moves}
use burnout.Core.SectorIo.Send.{Fetched, get_at-Fetched, send_waiting_under-SentUnder}
use burnout.Core.SectorIo.Load.{load-Loaded, sector_pos}

part_of :
    (bytes : List ℕ) (offset count i : ℕ)
    → i < count
    → get_or (slice offset count bytes) i 0 ≡ get_or bytes (offset + i) 0
part_of bytes offset count i h =
    get_or-take count (drop offset bytes) i 0 ∙ rw (lt→ltb i count h) (get_or-drop offset bytes i 0)

-- Sectors are taken from the target only at a boundary, and where one fits.
direct_cases :
    {T : Type 0} (s : SectorIo T) (left : ℕ)
    → ltb 0 (direct s left) ≡ true
    → (s.position % s.sector ≡ 0)
      × (s.sector ≤ left)
      × (direct s left ≡ uncached_run s.cache (s.position / s.sector) (left / s.sector))
direct_cases s left h = ground arith

run_le :
    {T : Type 0} (s : SectorIo T) (left run : ℕ) → run ≤ left / s.sector → run * s.sector ≤ left
run_le s left run h =
    omega (arith, mul_mono run (left / s.sector) s.sector h, div-mul-le_self left s.sector)

module _ {T : Type 0} (target : Target T) (Valid : T → Type 0) (byte : T → ℕ → ℕ) (at : T → ℕ)
    (device : IsDevice target Valid byte at) where
  pub size_whole : (s : SectorIo T) → Inv target Valid byte s → target.size s.inner % s.sector ≡ 0
  size_whole s inv = rw inv.sector (device.size_whole s.inner inv.valid)

  -- A state that only its position tells from another.
  pub advance-Inv :
      (n : ℕ) (s : SectorIo T) → Inv target Valid byte s → Inv target Valid byte (advance n s)
  advance-Inv n s inv = record {
    valid = inv.valid;
    sector = inv.sector;
    slots = λ k w e.
        let good = inv.slots k w e in
        record { size = good.size; fits = good.fits; apart = good.apart; current = good.current };
    waiting_start = inv.waiting_start;
    waiting_whole = inv.waiting_whole;
    waiting_fits = inv.waiting_fits;
  }

  -- A read of the target, which keeps its bytes, cannot be told.
  read_inner-Keeps :
      (s : SectorIo T) (from count : ℕ)
      → Inv target Valid byte s
      → (g : Fetched target Valid byte at device from count s)
      → Keeps target Valid byte s (record s { inner = g.next })
  read_inner-Keeps s from count inv g = record {
    inv = record {
      valid = g.same.valid;
      sector = inv.sector ∙ sym g.same.sector;
      slots = λ k w e.
          let good = inv.slots k w e in
          record {
            size = good.size;
            fits = rw g.same.size good.fits;
            apart = good.apart;
            current = λ d i q. good.current d i q ∙ sym (g.bytes (k * s.sector + i));
          };
      waiting_start = inv.waiting_start;
      waiting_whole = inv.waiting_whole;
      waiting_fits = rw g.same.size inv.waiting_fits;
    };
    views = λ a.
        ap (through_cache (lookup (a / s.sector) s.cache) (a % s.sector))
          (written_ext (byte g.next) (byte s.inner) s.waiting_at s.waiting a (g.bytes a));
    position = refl;
    sector = refl;
    size = g.same.size;
  }

  -- Some bytes of what a reader sees from the position on, at most `left`, came; each byte stays as it
  -- is seen.
  pub record Gives (left : ℕ) (s : SectorIo T) (r : Result (List ℕ) × SectorIo T) : Type 0 where
    pub after : SectorIo T
    pub got : List ℕ
    pub returns : r ≡ (ok got, after)
    pub moves : Moves target Valid byte (length got) s after
    pub views : (a : ℕ) → view byte after a ≡ view byte s a
    pub some_bytes : 0 < length got
    pub at_most : length got ≤ left
    pub given : (i : ℕ) → i < length got → get_or got i 0 ≡ view byte s (s.position + i)

  read_cached-Gives :
      (s : SectorIo T) (left count : ℕ)
      → Inv target Valid byte s
      → s.position + left ≤ target.size s.inner
      → 0 < count
      → count ≤ left
      → s.position % s.sector + count ≤ s.sector
      → Gives left s (read_cached target (s.position / s.sector) (s.position % s.sector) count s)
  unfolding read_cached
  read_cached-Gives s left count inv fits pos most block =
      let index = s.position / s.sector in
      let offset = s.position % s.sector in
      let l = load-Loaded target Valid byte at device index s inv (
        block_fits s.position (target.size s.inner) s.sector
          (sector_pos target Valid byte at device s inv) (size_whole s inv) (omega arith)) in
      let (w, e) = l.holds in
      let size : length w.bytes ≡ s.sector = (l.keeps.inv.slots index w e).size ∙ l.keeps.sector in
      let chunk = slice offset count w.bytes in
      let chunk_size : length chunk ≡ count = omega (
        arith,
        length-take {0} count (drop offset w.bytes),
        length-drop {0} offset w.bytes,
        size,
      ) in
      record {
        after = advance count l.after;
        got = chunk;
        returns = rw l.returns (rw e);
        moves = record {
          inv = advance-Inv count l.after l.keeps.inv;
          position = omega (arith, l.keeps.position, chunk_size);
          sector = l.keeps.sector;
          size = l.keeps.size;
        };
        views = l.keeps.views;
        some_bytes = omega (arith, chunk_size);
        at_most = omega (arith, chunk_size);
        given = λ i h.
            let a = s.position + i in
            let b =
              block_step s.position i s.sector (sector_pos target Valid byte at device s inv)
                (omega (arith, chunk_size)) in
            part_of w.bytes offset count i (omega (arith, chunk_size))
            ∙ sym (
                cached_view byte l.after a index (offset + i) w
                  (ap (λ n. a / n) l.keeps.sector ∙ b.0) (ap (λ n. a % n) l.keeps.sector ∙ b.1) e)
            ∙ l.keeps.views a;
      }

  -- A run of sectors that are not cached, from the target.
  read_run-Gives :
      (s : SectorIo T) (left run most : ℕ)
      → Inv target Valid byte s
      → s.position + left ≤ target.size s.inner
      → s.position % s.sector ≡ 0
      → run ≡ uncached_run s.cache (s.position / s.sector) most
      → 0 < run
      → run * s.sector ≤ left
      → Gives left s (read_run target (s.position / s.sector * s.sector) (run * s.sector) s)
  unfolding read_run
  read_run-Gives s left run most inv fits whole e pos le =
      let index = s.position / s.sector in
      let S = s.sector in
      let s_pos = sector_pos target Valid byte at device s inv in
      let start_at : index * S ≡ s.position = whole_quotient s.position S whole in
      let u =
        send_waiting_under-SentUnder target Valid byte at device (index * S) (run * S) s inv in
      let g =
        get_at-Fetched target Valid byte at device (index * S) (run * S) u.after u.keeps.inv
          (rw u.keeps.sector (mul_whole index S)) (rw u.keeps.sector (mul_whole run S))
          (omega (arith, u.keeps.size, start_at)) in
      let after = advance (run * S) (record (u.after) { inner = g.next }) in
      let kept = read_inner-Keeps u.after (index * S) (run * S) u.keeps.inv g in
      record {
        after = after;
        got = g.got;
        returns = rw u.returns (rw g.returns);
        moves = record {
          inv = advance-Inv (run * S) (record (u.after) { inner = g.next }) kept.inv;
          position = omega (arith, u.keeps.position, g.size);
          sector = u.keeps.sector;
          size = g.same.size ∙ u.keeps.size;
        };
        views = λ a. kept.views a ∙ u.keeps.views a;
        some_bytes = omega (arith, g.size, mul_mono 1 run S pos);
        at_most = omega (arith, g.size);
        given = λ i h.
            let a = s.position + i in
            let here : index * S + i ≡ a = omega (arith, start_at) in
            let block =
              (block_range a index run S s_pos).0 (omega (arith, here))
                (omega (arith, here, g.size)) in
            let gone : lookup (a / u.after.sector) u.after.cache ≡ none =
              ap (λ n. lookup (a / n) u.after.cache) u.keeps.sector
              ∙ ap (lookup (a / S)) u.cache
              ∙ uncached_run-none s.cache index most (a / S) block.0 (omega (arith, block.1, e)) in
            g.given i (omega (arith, g.size))
            ∙ ap (byte u.after.inner) here
            ∙ sym (
                written_away (byte u.after.inner) u.after.waiting_at u.after.waiting a
                  (u.apart a (omega (arith, here)) (omega (arith, here, g.size))))
            ∙ sym (uncached_view byte u.after a gone)
            ∙ u.keeps.views a;
      }

  read_step-Gives :
      (s : SectorIo T) (left : ℕ)
      → Inv target Valid byte s
      → s.position + left ≤ target.size s.inner
      → 0 < left
      → Gives left s (read_step target left s)
  unfolding read_step
  read_step-Gives s left inv fits pos = elim (Bool-cases (ltb 0 (direct s left))) [
    | inl go ↦
        let d = direct_cases s left go in
        rw go (
          rw d.2 (
            read_run-Gives s left (uncached_run s.cache (s.position / s.sector) (left / s.sector))
              (left / s.sector) inv fits d.0 refl (rw (← d.2) (ltb→lt 0 (direct s left) go))
              (run_le s left (uncached_run s.cache (s.position / s.sector) (left / s.sector))
                (uncached_run-le s.cache (s.position / s.sector) (left / s.sector)))))
    | inr stop ↦
        let b = block_lem s.position s.sector (sector_pos target Valid byte at device s inv) in
        rw stop (
          read_cached-Gives s left (min (s.sector - s.position % s.sector) left) inv fits
            (omega (arith, b.1)) (omega arith) (omega (arith, b.1)))
  ]

  -- Exactly `count` bytes of what a reader sees came.
  pub record GivesAll (count : ℕ) (s : SectorIo T) (r : Result (List ℕ) × SectorIo T) : Type 0 where
    pub after : SectorIo T
    pub got : List ℕ
    pub returns : r ≡ (ok got, after)
    pub size : length got ≡ count
    pub moves : Moves target Valid byte count s after
    pub views : (a : ℕ) → view byte after a ≡ view byte s a
    pub given : (i : ℕ) → i < count → get_or got i 0 ≡ view byte s (s.position + i)

  read_loop-GivesAll :
      (fuel left : ℕ) (s : SectorIo T)
      → Inv target Valid byte s
      → s.position + left ≤ target.size s.inner
      → left ≤ fuel
      → GivesAll left s (read_loop target fuel left s)
  unfolding read_loop
  read_loop-GivesAll fuel zero s inv fits f = record {
    after = s;
    got = [];
    returns = refl;
    size = refl;
    moves = record { inv = inv; position = omega arith; sector = refl; size = refl };
    views = λ a. refl;
    given = λ i h. absurd (omega arith);
  }
  read_loop-GivesAll zero (suc left) s inv fits f = absurd (omega arith)
  read_loop-GivesAll (suc fuel) (suc left) s inv fits f =
      let g = read_step-Gives s (suc left) inv fits (omega arith) in
      let k = length g.got in
      let rest =
        read_loop-GivesAll fuel (suc left - k) g.after g.moves.inv
          (omega (arith, g.moves.position, g.moves.size, g.at_most))
          (omega (arith, g.some_bytes)) in
      record {
        after = rest.after;
        got = g.got ++ rest.got;
        returns = rw g.returns (rw rest.returns);
        size = omega (arith, length-append {0} g.got rest.got, rest.size, g.at_most);
        moves = record {
          inv = rest.moves.inv;
          position = omega (arith, rest.moves.position, g.moves.position, g.at_most);
          sector = rest.moves.sector ∙ g.moves.sector;
          size = rest.moves.size ∙ g.moves.size;
        };
        views = λ a. rest.views a ∙ g.views a;
        given = λ i h.
            given_join (view byte s) (view byte g.after) s.position g.after.position g.got rest.got
              (suc left - k) g.given rest.given g.moves.position g.views i
              (omega (arith, g.at_most));
      }

  nothing_read :
      (want : ℕ) (s : SectorIo T)
      → Inv target Valid byte s
      → want ≡ 0
      → GivesAll want s (read_loop target want want s)
  unfolding read_loop
  nothing_read zero s inv e = record {
    after = s;
    got = [];
    returns = refl;
    size = refl;
    moves = record { inv = inv; position = omega arith; sector = refl; size = refl };
    views = λ a. refl;
    given = λ i h. absurd (omega arith);
  }
  nothing_read (suc want) s inv e = absurd (omega arith)

  -- Over a device, from a state that keeps the invariant, a read of at most `count` bytes answers with
  -- the bytes that the state shows from the position on, as many as the target has room for, and no
  -- more; the position goes on by as many, and each byte still shows as it did.
  pub read-GivesAll :
      (count : ℕ) (s : SectorIo T)
      → Inv target Valid byte s
      → GivesAll (min count (target.size s.inner - s.position)) s (read target count s)
  unfolding read
  read-GivesAll count s inv =
      let want = min count (target.size s.inner - s.position) in
      elim (dec_lt 0 want) [
        | yes some_room ↦ read_loop-GivesAll want want s inv (omega arith) (omega arith)
        | no none_left ↦ nothing_read want s inv (omega arith)
      ]
