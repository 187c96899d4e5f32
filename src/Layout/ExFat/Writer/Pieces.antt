-- ===== src/Layout/ExFat/Writer/Pieces.antt =====
-- The pieces of a file that crates/burnout-layout/src/exfat/write.rs writes into its run, as
-- crates/burnout-layout/src/stream.rs gives them.
use native.Mathlib.Nat.{mod_self}
use native.Mathlib.Decide.{dec_le}
use burnout.Prelude.{
  ℕ, zero, suc, ◌+◌, ◌-◌, ◌*◌, ◌/◌, ◌%◌, ◌≤◌, ◌<◌, ◌≡◌, refl, ◌∙◌, inl, inr, Bool-cases, List, ◌∷◌,
  ◌++◌, length, replicate, arith, ltb, ltb→le, ◌==◌, ==→≡, ==→≢, whole_quotient, mul_mono,
  mul_whole, add_whole, div_ceil, String, length-append, length-replicate,
}
use burnout.Core.Error.{Error, ok, Result-cases}
use burnout.Core.Alignment.Rounding.{div_ceil_bounds}
use burnout.Core.Target.{Io, Target, write_all}
use burnout.Core.Target.Device.{written_away, IsDevice, write_all-WroteAll}
use burnout.Core.Tree.{TreePath}
use burnout.Core.Write.{fill}
use burnout.Core.Sha256.{new, update}
use burnout.Layout.Plan.{align}
use burnout.Layout.Stream.Bounded.{Bounded, fill-Bounded}
use burnout.Layout.Stream.{chunk_bytes, Streams, stream_loop, stream_file}
use burnout.Layout.ExFat.Geometry.{Geometry, cluster_bytes}
use burnout.Layout.ExFat.Writer.{Copy, write_piece}
use burnout.Layout.ExFat.Writer.Spans.{Spans}
use burnout.Layout.ExFat.Writer.Kept.{Keeps, Keeps-refl, Keeps-trans}
use burnout.Layout.ExFat.Writer.Parts.{On, Keeps-On, whole_trans}

-- What goes to the end of a cluster after whole clusters.
ceil_after :
    (before n k c : ℕ)
    → 0 < c
    → before % c ≡ 0
    → before + n ≤ k * c
    → before + div_ceil n c * c ≤ k * c
ceil_after before n k c pos whole h =
    let d = before / c in
    let e : d * c ≡ before = whole_quotient before c whole in
    let b = div_ceil_bounds n c pos in
    elim (dec_le (d + div_ceil n c) k) [
      | yes few ↦ omega (arith, e, mul_mono (d + div_ceil n c) k c few)
      | no many ↦
          absurd
            (omega (arith, e, b, h, mul_mono (k + 1) (d + div_ceil n c) c (omega (arith, many))))
    ]

module _ {T : Type 0} (volume : Target T) (Valid : T → Type 0) (byte : T → ℕ → ℕ) (at : T → ℕ)
    (device : IsDevice volume Valid byte at) (vb : ℕ) (g : Geometry) (spans : Spans vb g)
    (base clusters : ℕ) (base_whole : base % g.sector_bytes ≡ 0) (base_after : align ≤ base)
    (room : base + clusters * cluster_bytes g ≤ vb) where
  -- Whole clusters go behind the `before` bytes of the run.
  record Went (buf : List ℕ) (before : ℕ) (t : T) : Type 0 where
    next : T
    returns : write_all volume buf t ≡ (ok tt, next)
    keeps : Keeps volume Valid byte at device t next
    position : at next ≡ base + before + length buf

  write_all-Went :
      (buf : List ℕ) (before : ℕ) (t : T)
      → On volume Valid byte at device vb g spans t
      → at t ≡ base + before
      → before % cluster_bytes g ≡ 0
      → length buf % cluster_bytes g ≡ 0
      → before + length buf ≤ clusters * cluster_bytes g
      → Went buf before t
  write_all-Went buf before t o here p q fits =
      let s = g.sector_bytes in
      let w =
        write_all-WroteAll volume Valid byte at device buf t o.valid
          (rw (o.sector, here)
            (add_whole base before s base_whole
              (whole_trans before (cluster_bytes g) s p spans.cluster_whole)))
          (rw o.sector (whole_trans (length buf) (cluster_bytes g) s q spans.cluster_whole))
          (omega (arith, here, o.size, fits, room)) in
      record {
        next = w.next;
        returns = w.returns;
        keeps = record {
          same = w.same;
          kept = λ a h.
              w.bytes a
              ∙ written_away (byte t) (at t) buf a (inl (omega (arith, h, here, base_after)));
        };
        position = omega (arith, w.position, here);
      }

  -- A piece of a file, and where a whole chunk leaves the volume.
  record Took (piece : List ℕ) (before : ℕ) (c : Copy T) : Type 0 where
    next : T
    returns :
        write_piece volume (cluster_bytes g) piece c
        ≡ (ok tt, record c { volume = next; told = length piece ∷ c.told })
    keeps : Keeps volume Valid byte at device c.volume next
    position : length piece ≡ chunk_bytes → at next ≡ base + before + chunk_bytes

  write_piece-Took :
      (piece : List ℕ) (before : ℕ) (c : Copy T)
      → On volume Valid byte at device vb g spans c.volume
      → at c.volume ≡ base + before
      → before % cluster_bytes g ≡ 0
      → before + length piece ≤ clusters * cluster_bytes g
      → Took piece before c
  unfolding write_piece
  write_piece-Took piece before c o here p fits =
      let cb = cluster_bytes g in
      let n = length piece in
      let pad = replicate (div_ceil n cb * cb - n) 0 in
      let size : length (piece ++ pad) ≡ div_ceil n cb * cb =
        length-append piece pad
        ∙ omega (
          arith,
          length-replicate {A = ℕ} (div_ceil n cb * cb - n) 0,
          div_ceil_bounds n cb spans.cluster_some,
        ) in
      elim (Bool-cases (n == chunk_bytes)) [
        | inl e ↦
            let all = ==→≡ n chunk_bytes e in
            let w = write_all-Went piece before c.volume o here p (rw all spans.chunk_whole) fits in
            record {
              next = w.next;
              returns = rw e (rw w.returns refl);
              keeps = w.keeps;
              position = λ q. omega (arith, w.position, all);
            }
        | inr e ↦
            let w =
              write_all-Went (piece ++ pad) before c.volume o here p
                (rw size (mul_whole (div_ceil n cb) cb))
                (rw size (ceil_after before n clusters cb spans.cluster_some p fits)) in
            record {
              next = w.next;
              returns = rw e (rw w.returns refl);
              keeps = w.keeps;
              position = λ q. absurd (==→≢ n chunk_bytes e q);
            }
      ]

  module _ {R : Type 0} (text_of : Error → String) (read : ℕ → Io R (List ℕ))
      (bounded : Bounded read) (path : TreePath) (bytes : ℕ)
      (fits : bytes ≤ clusters * cluster_bytes g) where
    -- The volume after the stream of a file, whatever its reader gives.
    stream_loop-Keeps :
        (fuel before : ℕ) (s : Streams R (Copy T))
        → On volume Valid byte at device vb g spans s.sink.volume
        → before % chunk_bytes ≡ 0
        → (0 < bytes → at s.sink.volume ≡ base + before)
        → Keeps volume Valid byte at device s.sink.volume (
            (stream_loop text_of read
              (write_piece volume (cluster_bytes g))
              path
              fuel
              bytes
              chunk_bytes
              before
              s).1.sink.volume)
    unfolding stream_loop
    stream_loop-Keeps zero before s o p here =
        Keeps-refl volume Valid byte at device s.sink.volume o.valid
    stream_loop-Keeps (suc fuel) before s o p here =
        let stay = Keeps-refl volume Valid byte at device s.sink.volume o.valid in
        let f = fill read chunk_bytes s.reader in
        elim (Result-cases f.0) [
          | inr (e, failed) ↦ rw failed stay
          | inl (got, came_in) ↦
              let n = length got in
              let most = fill-Bounded read bounded chunk_bytes s.reader got came_in in
              elim (Bool-cases (n == 0)) [
                | inl ended ↦ rw came_in (rw ended stay)
                | inr some_came ↦ elim (Bool-cases (ltb bytes (before + n))) [
                  | inl over ↦ rw came_in (rw some_came (rw over stay))
                  | inr under ↦
                      let within = ltb→le bytes (before + n) under in
                      let some_bytes = ==→≢ n 0 some_came in
                      let there = here (omega (arith, some_bytes, within)) in
                      let w =
                        write_piece-Took got before s.sink o there
                          (whole_trans before chunk_bytes (cluster_bytes g) p spans.chunk_whole)
                          (omega (arith, within, fits)) in
                      elim (Bool-cases (ltb n chunk_bytes)) [
                        | inl last ↦
                            rw came_in (rw some_came (rw under (rw w.returns (rw last w.keeps))))
                        | inr full ↦
                            let whole : n ≡ chunk_bytes =
                              omega (arith, most, ltb→le n chunk_bytes full) in
                            let s' : Streams R (Copy T) = record {
                              reader = f.1;
                              sink = record s.sink { volume = w.next; told = n ∷ s.sink.told };
                              hash = update got s.hash;
                            } in
                            let k =
                              stream_loop-Keeps fuel (before + n) s'
                                (Keeps-On volume Valid byte at device vb g spans o w.keeps)
                                (add_whole before n chunk_bytes p (rw whole (mod_self chunk_bytes)))
                                (λ q. omega (arith, w.position whole, whole)) in
                            rw came_in (
                              rw some_came (
                                rw under (
                                  rw w.returns
                                    (rw full (Keeps-trans volume Valid byte at device w.keeps k)))))
                      ]
                ]
              ]
        ]

    pub stream_file-Keeps :
        (s : Streams R (Copy T))
        → On volume Valid byte at device vb g spans s.sink.volume
        → (0 < bytes → at s.sink.volume ≡ base)
        → Keeps volume Valid byte at device s.sink.volume (
            (stream_file text_of read
              (write_piece volume (cluster_bytes g))
              path
              bytes
              chunk_bytes
              s).1.sink.volume)
    unfolding stream_file
    stream_file-Keeps s o here =
        let s' : Streams R (Copy T) = record s { hash = new } in
        let sink = write_piece volume (cluster_bytes g) in
        let loop = stream_loop text_of read sink path (suc bytes) bytes chunk_bytes 0 s' in
        let k = stream_loop-Keeps (suc bytes) 0 s' o refl (λ q. omega (arith, here q)) in
        elim (Result-cases loop.0) [
          | inr (e, failed) ↦ rw failed k
          | inl (done, came) ↦ elim (Bool-cases (done == bytes)) [
            | inl all ↦ rw came (rw all k)
            | inr short ↦ rw came (rw short k)
          ]
        ]
