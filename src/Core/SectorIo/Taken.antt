-- ===== src/Core/SectorIo/Taken.antt =====
-- One round of `write` of crates/burnout-core/src/sector_io.rs: whole sectors that go out, or a part of one
-- that goes into the cache.
use mathlib.Core.Bool.{true≢false}
use native.Mathlib.Nat.{div-mul-le_self}
use native.Mathlib.Decide.{ℕ_discrete}
use burnout.Prelude.{
  ℕ, ◌+◌, ◌-◌, ◌*◌, ◌/◌, ◌%◌, ◌≤◌, ◌<◌, ◌≡◌, refl, ap, ◌∙◌, sym, ◌⊎◌, inl, inr, Bool, true, false,
  ◌&&◌, Option, none, some, min, List, length, get_or, take, copy_at, arith, ltb, leb, ◌==◌,
  if◌then◌else◌, Bool-cases, length-take, length-copy_at, get_or-take, get_or-copy_at, ≡→==, ≢→==,
  block_lem, block_unique, block_fits, block_range, mul_whole, whole_quotient,
}
use burnout.Core.Error.{Result, ok}
use burnout.Core.Target.{Target}
use burnout.Core.Target.Device.{written, IsDevice}
use burnout.Core.SectorIo.Cache.{Slot, lookup, change, forget}
use burnout.Core.SectorIo.State.{SectorIo}
use burnout.Core.SectorIo.Access.{put_bytes, advance, write_direct, write_cached, write_step}
use burnout.Core.SectorIo.Lookup.{map_slot, lookup-change, lookup-forget}
use burnout.Core.SectorIo.View.{through_cache, under, view, cached_view, Inv, Moves}
use burnout.Core.SectorIo.SendRun.{send_run-SentRun}
use burnout.Core.SectorIo.Load.{load-Loaded, sector_pos}
use burnout.Core.SectorIo.Read.{advance-Inv, size_whole}

-- The first `count` bytes of `buf` over a device's bytes, from `from` on.
abbrev pub over : (ℕ → ℕ) → ℕ → ℕ → List ℕ → ℕ → ℕ
over f from count buf a =
    if leb from a && ltb a (from + count) then get_or buf (a - from) 0 else f a

written_take :
    (f : ℕ → ℕ) (from count : ℕ) (buf : List ℕ) (a : ℕ)
    → count ≤ length buf
    → written f from (take count buf) a ≡ over f from count buf a
written_take f from count buf a h =
    ground (arith, length-take count buf, get_or-take count buf (a - from) 0)

over_ext :
    (f g : ℕ → ℕ) (from count : ℕ) (buf : List ℕ) (a : ℕ)
    → ((leb from a && ltb a (from + count) ≡ false) → f a ≡ g a)
    → over f from count buf a ≡ over g from count buf a
over_ext f g from count buf a h = ground (arith, h)

slot_of :
    (b : Bool) (f : Slot → Slot) (o : Option Slot) (v : Slot)
    → (if b then map_slot f o else o) ≡ some v
    → (w : Slot) × (o ≡ some w) × ((v ≡ w) ⊎ (v ≡ f w))
slot_of b f none v e = absurd (some-none b e)
  where
    some-none : (b : Bool) → (if b then map_slot f none else none) ≡ some v → ⊥
    some-none true e = cc
    some-none false e = cc
slot_of true f (some w) v e = (w, refl, inr cc)
slot_of false f (some w) v e = (w, refl, inl cc)

-- A byte of a sector that a part was put into.
put_part :
    (bytes buf : List ℕ) (offset count o p a : ℕ)
    → offset + count ≤ length bytes
    → count ≤ length buf
    → a + offset ≡ p + o
    → o < length bytes
    → get_or (copy_at offset (take count buf) bytes) o 0
      ≡ (if leb p a && ltb a (p + count) then get_or buf (a - p) 0 else get_or bytes o 0)
put_part bytes buf offset count o p a fits most e h =
    let index : offset ≤ o → o - offset ≡ a - p = λ q. omega arith in
    let shift : offset ≤ o → get_or buf (o - offset) 0 ≡ get_or buf (a - p) 0 =
      λ q. ap (λ (n : ℕ). get_or buf n 0) (index q) in
    let size : length (take count buf) ≡ count = omega (arith, length-take {0} count buf) in
    get_or-copy_at offset (take count buf) bytes o 0 (omega (arith, size))
    ∙ ground (arith, size, get_or-take count buf (o - offset) 0, shift)

module _ {T : Type 0} (byte : T → ℕ → ℕ) where
  changed_view :
      (t : SectorIo T) (w : Slot) (index offset count p : ℕ) (buf : List ℕ) (a : ℕ)
      → lookup index t.cache ≡ some w
      → length w.bytes ≡ t.sector
      → 0 < t.sector
      → index * t.sector + offset ≡ p
      → offset + count ≤ t.sector
      → count ≤ length buf
      → view byte (record t { cache = change index (put_bytes offset (take count buf)) t.cache }) a
        ≡ over (view byte t) p count buf a
  changed_view t w index offset count p buf a e size s_pos place fits most =
      let f = put_bytes offset (take count buf) in
      let b = block_lem a t.sector s_pos in
      let k = a / t.sector in
      let o = a % t.sector in
      elim (ℕ_discrete index k) [
        | yes same ↦
            let at_k : index * t.sector + o ≡ a = ap (λ (n : ℕ). n * t.sector + o) same ∙ b.0 in
            let here : lookup k t.cache ≡ some w = ap (λ n. lookup n t.cache) (sym same) ∙ e in
            let now : lookup k (change index f t.cache) ≡ some (f w) =
              lookup-change index k f t.cache ∙ rw (≡→== index k same) (rw here) in
            ap (λ x. through_cache x o (under byte t a)) now
            ∙ put_part w.bytes buf offset count o p a (omega (arith, size)) most
                (omega (arith, at_k)) (omega (arith, size, b.1))
            ∙ ap (λ (n : ℕ). if leb p a && ltb a (p + count) then get_or buf (a - p) 0 else n)
                (sym (cached_view byte t a k o w refl refl here))
        | no other ↦
            let out : leb p a && ltb a (p + count) ≡ false =
              ground (arith, other, block_unique a index t.sector) in
            ap (λ x. through_cache x o (under byte t a))
              (lookup-change index k f t.cache
                ∙ except (index == k) (map_slot f (lookup k t.cache)) (lookup k t.cache)
                    (≢→== index k other))
            ∙ rw out
      ]
    where
      except : (b : Bool) (x y : Option Slot) → b ≡ false → (if b then x else y) ≡ y
      except b x y h = rw h

module _ {T : Type 0} (target : Target T) (Valid : T → Type 0) (byte : T → ℕ → ℕ) (at : T → ℕ)
    (device : IsDevice target Valid byte at) where
  -- A first part of the buffer, not empty, is what a reader sees from the position on.
  pub record Takes (buf : List ℕ) (s : SectorIo T) (r : Result ℕ × SectorIo T) : Type 0 where
    pub after : SectorIo T
    pub count : ℕ
    pub returns : r ≡ (ok count, after)
    pub moves : Moves target Valid byte count s after
    pub some_bytes : 0 < count
    pub at_most : count ≤ length buf
    pub views : (a : ℕ) → view byte after a ≡ over (view byte s) s.position count buf a

  -- Sectors that leave the cache.
  forget-Inv :
      (first n : ℕ) (s : SectorIo T)
      → Inv target Valid byte s
      → Inv target Valid byte (record s { cache = forget first n s.cache })
  forget-Inv first n s inv = record {
    valid = inv.valid;
    sector = inv.sector;
    slots = λ k w e.
        let good = inv.slots k w (ground (arith, lookup-forget first n k s.cache, e)) in
        record { size = good.size; fits = good.fits; apart = good.apart; current = good.current };
    waiting_start = inv.waiting_start;
    waiting_whole = inv.waiting_whole;
    waiting_fits = inv.waiting_fits;
  }

  write_direct-Takes :
      (buf : List ℕ) (s : SectorIo T)
      → Inv target Valid byte s
      → s.position + length buf ≤ target.size s.inner
      → s.position % s.sector ≡ 0
      → s.sector ≤ length buf
      → Takes buf s (write_direct target (s.position / s.sector) (length buf / s.sector) buf s)
  unfolding write_direct
  write_direct-Takes buf s inv fits whole le =
      let S = s.sector in
      let index = s.position / S in
      let run = length buf / S in
      let s_pos = sector_pos target Valid byte at device s inv in
      let start_at : index * S ≡ s.position = whole_quotient s.position S whole in
      let within : run * S ≤ length buf = div-mul-le_self (length buf) S in
      let size : length (take (run * S) buf) ≡ run * S =
        omega (arith, length-take {0} (run * S) buf, within) in
      let left = record s { cache = forget index run s.cache } in
      let g =
        send_run-SentRun target Valid byte at device (index * S) (take (run * S) buf) left
          (forget-Inv index run s inv) (mul_whole index S) (rw size (mul_whole run S))
          (omega (arith, size, start_at, within))
          (λ a x y. ground (
            arith,
            lookup-forget index run (a / S) s.cache,
            (block_range a index run S s_pos).0 x (omega (arith, size)),
          )) in
      record {
        after = advance (run * S) g.after;
        count = run * S;
        returns = rw g.returns;
        moves = record {
          inv = advance-Inv target Valid byte at device (run * S) g.after g.inv;
          position = omega (arith, g.position);
          sector = g.sector;
          size = g.size;
        };
        some_bytes = omega (arith, block_lem (length buf) S s_pos);
        at_most = within;
        views = λ a.
            g.views a
            ∙ written_take (view byte left) (index * S) (run * S) buf a within
            ∙ ap (λ (n : ℕ). over (view byte left) n (run * S) buf a) start_at
            ∙ over_ext (view byte left) (view byte s) s.position (run * S) buf a (λ out.
              ap (λ o. through_cache o (a % S) (under byte s a))
                (lookup-forget index run (a / S) s.cache
                  ∙ rw (no_block a index run out (block_range a index run S s_pos).1 start_at)
                      refl));
      }
    where
      no_block :
          (a index run : ℕ)
          → (leb s.position a && ltb a (s.position + run * s.sector) ≡ false)
          → (index ≤ a / s.sector
              → a / s.sector < index + run
              → (index * s.sector ≤ a) × (a < (index + run) * s.sector))
          → index * s.sector ≡ s.position
          → leb index (a / s.sector) && ltb (a / s.sector) (index + run) ≡ false
      no_block a index run out range e = ground (arith, range)

  -- A cached sector with a part of it replaced.
  changed-Inv :
      (index : ℕ) (f : Slot → Slot) (s : SectorIo T)
      → ((w : Slot) → length (f w).bytes ≡ length w.bytes)
      → ((w : Slot) → (f w).dirty ≡ true)
      → Inv target Valid byte s
      → Inv target Valid byte (record s { cache = change index f s.cache })
  changed-Inv index f s size dirty inv = record {
    valid = inv.valid;
    sector = inv.sector;
    slots = λ k v e.
        let (w, was, which) =
          slot_of (index == k) f (lookup k s.cache) v (sym (lookup-change index k f s.cache) ∙ e) in
        let good = inv.slots k w was in
        record {
          size = elim which [
            | inl same ↦ ap (λ x. length x.bytes) same ∙ good.size
            | inr new ↦ ap (λ x. length x.bytes) new ∙ size w ∙ good.size
          ];
          fits = good.fits;
          apart = good.apart;
          current = λ d i h. elim which [
            | inl same ↦
                ap (λ x. get_or x.bytes i 0) same
                ∙ good.current (ap (λ x. x.dirty) (sym same) ∙ d) i h
            | inr new ↦ absurd (true≢false (sym (dirty w) ∙ ap (λ x. x.dirty) (sym new) ∙ d))
          ];
        };
    waiting_start = inv.waiting_start;
    waiting_whole = inv.waiting_whole;
    waiting_fits = inv.waiting_fits;
  }

  write_cached-Takes :
      (buf : List ℕ) (count : ℕ) (s : SectorIo T)
      → Inv target Valid byte s
      → s.position + length buf ≤ target.size s.inner
      → 0 < count
      → count ≤ length buf
      → s.position % s.sector + count ≤ s.sector
      → Takes buf s
          (write_cached target (s.position / s.sector) (s.position % s.sector) count buf s)
  unfolding write_cached
  write_cached-Takes buf count s inv fits pos most block =
      let index = s.position / s.sector in
      let offset = s.position % s.sector in
      let s_pos = sector_pos target Valid byte at device s inv in
      let l = load-Loaded target Valid byte at device index s inv (
        block_fits s.position (target.size s.inner) s.sector s_pos
          (size_whole target Valid byte at device s inv) (omega arith)) in
      let (w, e) = l.holds in
      let good = l.keeps.inv.slots index w e in
      let f = put_bytes offset (take count buf) in
      let changed = record (l.after) { cache = change index f l.after.cache } in
      record {
        after = advance count changed;
        count = count;
        returns = rw l.returns;
        moves = record {
          inv = advance-Inv target Valid byte at device count changed (
              changed-Inv index f l.after (λ w. length-copy_at offset (take count buf) w.bytes)
                (λ w. refl) l.keeps.inv);
          position = omega (arith, l.keeps.position);
          sector = l.keeps.sector;
          size = l.keeps.size;
        };
        some_bytes = pos;
        at_most = most;
        views = λ a.
            changed_view byte l.after w index offset count s.position buf a e (good.size)
              (sector_pos target Valid byte at device l.after l.keeps.inv)
              (ap (λ (n : ℕ). index * n + offset) l.keeps.sector
                ∙ (block_lem s.position s.sector s_pos).0)
              (rw l.keeps.sector block) most
            ∙ over_ext (view byte l.after) (view byte s) s.position count buf a
                (λ out. l.keeps.views a);
      }

  pub write_step-Takes :
      (buf : List ℕ) (s : SectorIo T)
      → Inv target Valid byte s
      → s.position + length buf ≤ target.size s.inner
      → 0 < length buf
      → Takes buf s (write_step target buf s)
  unfolding write_step
  write_step-Takes buf s inv fits pos =
      elim (Bool-cases (s.position % s.sector == 0 && leb s.sector (length buf))) [
        | inl go ↦
            rw go (write_direct-Takes buf s inv fits (ground (arith, go)) (ground (arith, go)))
        | inr stop ↦
            let b = block_lem s.position s.sector (sector_pos target Valid byte at device s inv) in
            rw stop (
              write_cached-Takes buf (min (s.sector - s.position % s.sector) (length buf)) s inv
                fits (omega (arith, b.1)) (omega arith) (omega (arith, b.1)))
      ]
