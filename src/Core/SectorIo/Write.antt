-- ===== src/Core/SectorIo/Write.antt =====
-- `write` of crates/burnout-core/src/sector_io.rs: a reader sees the bytes where they were written.
use burnout.Prelude.{
  ℕ, zero, suc, ◌+◌, ◌-◌, ◌≤◌, ◌<◌, ◌≡◌, refl, ap, ◌∙◌, ◌⊎◌, inl, inr, min, List, [], ◌∷◌, length,
  take, drop, arith, ◌==◌, Bool-cases, length-take, length-drop,
}
use burnout.Core.Error.{Result, ok, err, io, write_zero}
use burnout.Core.Target.{Target}
use burnout.Core.Target.Device.{written, written_split, IsDevice}
use burnout.Core.SectorIo.State.{SectorIo}
use burnout.Core.SectorIo.Access.{write_loop, write}
use burnout.Core.SectorIo.View.{view, Inv, Moves}
use burnout.Core.SectorIo.Taken.{write_step-Takes}

module _ {T : Type 0} (target : Target T) (Valid : T → Type 0) (byte : T → ℕ → ℕ) (at : T → ℕ)
    (device : IsDevice target Valid byte at) where
  -- The whole buffer is what a reader sees from the position on, and all else is as before.
  pub record Writes (buf : List ℕ) (s : SectorIo T) (r : Result ℕ × SectorIo T) : Type 0 where
    pub after : SectorIo T
    pub returns : r ≡ (ok (length buf), after)
    pub moves : Moves target Valid byte (length buf) s after
    pub views : (a : ℕ) → view byte after a ≡ written (view byte s) s.position buf a

  write_loop-Writes :
      (fuel : ℕ) (buf : List ℕ) (s : SectorIo T)
      → Inv target Valid byte s
      → s.position + length buf ≤ target.size s.inner
      → length buf ≤ fuel
      → Writes buf s (write_loop target fuel buf s)
  unfolding write_loop
  write_loop-Writes fuel [] s inv fits f = record {
    after = s;
    returns = refl;
    moves = record { inv = inv; position = omega arith; sector = refl; size = refl };
    views = λ a. ground arith;
  }
  write_loop-Writes zero (b ∷ bs) s inv fits f = absurd (omega arith)
  write_loop-Writes (suc fuel) (b ∷ bs) s inv fits f =
      let g = write_step-Takes target Valid byte at device (b ∷ bs) s inv fits (omega arith) in
      let left = drop g.count (b ∷ bs) in
      let left_size : length left ≡ length (b ∷ bs) - g.count = length-drop g.count (b ∷ bs) in
      let rest =
        write_loop-Writes fuel left g.after g.moves.inv
          (omega (arith, g.moves.position, g.moves.size, g.at_most, left_size))
          (omega (arith, g.some_bytes, left_size)) in
      let total : g.count + length left ≡ length (b ∷ bs) = omega (arith, left_size, g.at_most) in
      record {
        after = rest.after;
        returns = rw g.returns (rw rest.returns (ap (λ (n : ℕ). (ok n, rest.after)) total));
        moves = record {
          inv = rest.moves.inv;
          position = omega (arith, rest.moves.position, g.moves.position, total);
          sector = rest.moves.sector ∙ g.moves.sector;
          size = rest.moves.size ∙ g.moves.size;
        };
        views = λ a.
            rest.views a
            ∙ ap (λ (n : ℕ). written (view byte g.after) n left a) g.moves.position
            ∙ written_split (view byte s) (view byte g.after) s.position g.count (b ∷ bs) a
                g.at_most (g.views a);
      }

  nothing_written : (s : SectorIo T) → Inv target Valid byte s → Writes [] s (ok 0, s)
  nothing_written s inv = record {
    after = s;
    returns = refl;
    moves = record { inv = inv; position = omega arith; sector = refl; size = refl };
    views = λ a. ground arith;
  }

  -- Over a device, from a state that keeps the invariant: `write` takes as much of the buffer as the
  -- target has room for from the position on, a reader then sees those bytes there and all else as
  -- before, and the position is past them. With no room for a buffer that is not empty it answers
  -- `WriteZero` and changes nothing.
  pub write-Writes :
      (buf : List ℕ) (s : SectorIo T)
      → Inv target Valid byte s
      → Writes
          (take (min (length buf) (target.size s.inner - s.position)) buf)
          s
          (write target buf s)
        ⊎ ((0 < length buf)
            × (target.size s.inner ≤ s.position)
            × (write target buf s ≡ (err (io write_zero), s)))
  unfolding write
  write-Writes [] s inv =
      inl (rw (take_nil (min 0 (target.size s.inner - s.position))) (nothing_written s inv))
    where
      take_nil : (n : ℕ) → take {A = ℕ} n [] ≡ []
      take_nil zero = refl
      take_nil (suc n) = refl
  write-Writes (b ∷ bs) s inv =
      let buf = b ∷ bs in
      let room = target.size s.inner - s.position in
      let want = min (length buf) room in
      let size : length (take want buf) ≡ want = omega (arith, length-take {0} want buf) in
      elim (Bool-cases (room == 0)) [
        | inl full ↦ inr (omega arith, ground (arith, full), rw full)
        | inr some_room ↦ inl (
            rw some_room (
              write_loop-Writes want (take want buf) s inv (ground (arith, some_room, size))
                (omega (arith, size))))
      ]
