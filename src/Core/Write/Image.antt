-- ===== src/Core/Write/Image.antt =====
-- `write_image` of crates/burnout-core/src/write.rs from the checks to the report.
use native.Mathlib.Nat.{zero-mod}
use mathlib.Core.Path.{subst}
use burnout.Prelude.{
  ℕ, suc, ◌+◌, ◌-◌, ◌%◌, ◌^◌, ◌≤◌, ◌<◌, ◌≡◌, refl, ap, ◌∙◌, sym, ◌⊎◌, inl, inr, min, none, some,
  List, [], ◌∷◌, ◌++◌, length, get_or, drop, arith, le→ltb, length-append, get_or-append, take-drop,
}
use burnout.Core.Error.{Result, ok}
use burnout.Core.Alignment.{check_sector_size, check_aligned}
use burnout.Core.Alignment.Rounding.{check_aligned_iff}
use burnout.Core.Safety.{check_fits}
use burnout.Core.Target.{Target, start, write_all}
use burnout.Core.Target.Device.{
  written, written_ext, written_start, SameDevice, SameDevice-trans, IsDevice,
}
use burnout.Core.Write.{
  Source, Hasher, Job, ProgressEvent, started, advanced, done, write_stage, flush_stage,
  WriteReport, block_bytes, padded, length_of, next_block, write_blocks, finish_write, copy_image,
  write_image,
}
use burnout.Core.Write.Blocks.{IsSource}
use burnout.Core.Write.Copy.{
  IsHasher, next_block-BlockCame, part, part_size, part_bytes, block-WroteAll,
  write_blocks-WroteRest,
}

-- A write behind another one, and then the other one.
written_swap :
    (f : ℕ → ℕ) (xs ys : List ℕ) (a : ℕ)
    → written (written f (length xs) ys) 0 xs a ≡ written f 0 (xs ++ ys) a
written_swap f xs ys a =
    let index : a - 0 ≡ a = omega arith in
    ground (
      arith,
      length-append xs ys,
      get_or-append xs ys (a - 0) 0,
      ap (λ (n : ℕ). get_or ys (n - length xs) 0) index,
    )

pub check_sector_size-ok : (n : ℕ) → (n ≡ 512) ⊎ (n ≡ 4096) → check_sector_size n ≡ ok n
unfolding check_sector_size
check_sector_size-ok n (inl e) = rw e refl
check_sector_size-ok n (inr e) = rw e refl

pub room_for : (n m : ℕ) → n ≤ m → check_fits n m ≡ ok tt
unfolding check_fits
room_for n m h = rw (le→ltb m n h) refl

pub block_bytes_lem :
    (sector : ℕ)
    → (sector ≡ 512) ⊎ (sector ≡ 4096)
    → (block_bytes sector % sector ≡ 0) × (0 < block_bytes sector)
unfolding block_bytes
block_bytes_lem sector (inl e) = rw e (refl, omega arith)
block_bytes_lem sector (inr e) = rw e (refl, omega arith)

module _ {S T H : Type 0} (source : Source S) (target : Target T) (hasher : Hasher H) where
  -- The steps of `copy_image`, one after the other.
  copy_eq :
      (n sector : ℕ) (j k1 k3 : Job S T H) (s0 : S) (t2 t4 t5 t6 : T) (first first_out : List ℕ)
      (d w : ℕ) {x y z : ℕ}
      → source.seek (start 0) j.source ≡ (ok x, s0)
      → next_block source target hasher
          (block_bytes sector)
          0
          n
          sector
          (record j { source = s0; events = started write_stage (some n) ∷ j.events })
        ≡ (ok (first, first_out), k1)
      → target.seek (start (length first_out)) k1.target ≡ (ok y, t2)
      → write_blocks source target hasher
          (suc n)
          (block_bytes sector)
          n
          sector
          (length first)
          0
          0
          (record k1 { target = t2 })
        ≡ (ok (d, w), k3)
      → target.seek (start 0) k3.target ≡ (ok z, t4)
      → write_all target first_out t4 ≡ (ok tt, t5)
      → target.sync t5 ≡ (ok tt, t6)
      → copy_image source target hasher n sector j ≡ (
        ok (record {
          image_bytes = n;
          written_bytes = w + length first_out;
          digest = hasher.finish k3.hash;
        }),
        record k3 {
          target = t6;
          events =
              done write_stage (d + length first)
              ∷ done flush_stage (w + length first_out)
              ∷ started flush_stage none
              ∷ advanced write_stage (d + length first)
              ∷ k3.events;
        },
      )
  unfolding copy_image finish_write
  copy_eq n sector j k1 k3 s0 t2 t4 t5 t6 first first_out d w e0 e1 e2 e3 e4 e5 e6 =
      rw e0 (rw e1 (rw e2 (rw e3 (rw e4 (rw e5 (rw e6 refl))))))

module _ {S T H : Type 0} (source : Source S) (V : S → Type 0) (image : List ℕ) (at_source : S → ℕ)
    (laws : IsSource source V image at_source) (target : Target T) (Valid : T → Type 0)
    (byte : T → ℕ → ℕ) (at : T → ℕ) (device : IsDevice target Valid byte at) (hasher : Hasher H)
    (Holds : H → List ℕ → Type 0) (hash_of : List ℕ → List ℕ)
    (hashing : IsHasher hasher Holds hash_of) where
  -- The image is on the target from byte 0 on, with zeros up to a whole sector, every other byte is
  -- as it was, and the last events are the flush and then the write.
  pub record ImageWritten (j : Job S T H) (r : Result WriteReport × Job S T H) : Type 0 where
    pub after : Job S T H
    pub returns : r ≡ (
      ok (record {
        image_bytes = length image;
        written_bytes = length (padded (target.logical_sector_size j.target) image);
        digest = hash_of image;
      }),
      after,
    )
    pub same : SameDevice target Valid j.target after.target
    pub bytes :
        (a : ℕ)
        → byte after.target a
          ≡ written (byte j.target) 0 (padded (target.logical_sector_size j.target) image) a
    pub earlier : List ProgressEvent
    pub events :
        after.events
        ≡ done write_stage (length image)
          ∷ done flush_stage (length (padded (target.logical_sector_size j.target) image))
          ∷ started flush_stage none
          ∷ earlier

  abbrev report_of : ℕ → List ℕ → WriteReport
  report_of written digest = record {
    image_bytes = length image;
    written_bytes = written;
    digest = digest;
  }

  -- What the parts of a copy come to.
  conclude :
      (sector : ℕ) (j k3 : Job S T H) (t6 : T) (first out tail : List ℕ) (d w : ℕ)
      {r : Result WriteReport × Job S T H}
      → target.logical_sector_size j.target ≡ sector
      → r ≡ (
        ok (record {
          image_bytes = length image;
          written_bytes = w + length out;
          digest = hasher.finish k3.hash;
        }),
        record k3 {
          target = t6;
          events =
              done write_stage (d + length first)
              ∷ done flush_stage (w + length out)
              ∷ started flush_stage none
              ∷ advanced write_stage (d + length first)
              ∷ k3.events;
        },
      )
      → d + length first ≡ length image
      → w ≡ length tail
      → out ++ tail ≡ padded sector image
      → SameDevice target Valid j.target t6
      → ((a : ℕ) → byte t6 a ≡ written (byte k3.target) 0 out a)
      → ((a : ℕ) → byte k3.target a ≡ written (byte j.target) (length first) tail a)
      → (length first ≡ length out) ⊎ (tail ≡ [])
      → Holds k3.hash image
      → ImageWritten j r
  conclude sector j k3 t6 first out tail d w {r} e returns total tails joined same bytes before ends
        hash =
      let wrote : w + length out ≡ length (padded (target.logical_sector_size j.target) image) =
        omega (
          arith,
          tails,
          length-append {0} out tail,
          ap length joined,
          ap (λ n. length (padded n image)) e,
        ) in
      record {
        after = record k3 {
          target = t6;
          events =
              done write_stage (d + length first)
              ∷ done flush_stage (w + length out)
              ∷ started flush_stage none
              ∷ advanced write_stage (d + length first)
              ∷ k3.events;
        };
        returns = returns ∙ ap (λ x. (ok x, after)) (report_eq wrote);
        same = same;
        bytes = λ a.
            bytes a
            ∙ written_ext (byte k3.target) (written (byte j.target) (length out) tail) 0 out a
                (before a ∙ written_start (byte j.target) (length first) (length out) tail a ends)
            ∙ written_swap (byte j.target) out tail a
            ∙ ap (λ bs. written (byte j.target) 0 bs a) (joined ∙ ap (λ n. padded n image) (sym e));
        earlier = advanced write_stage (d + length first) ∷ k3.events;
        events = events_eq wrote;
      }
    where
      after : Job S T H
      after = record k3 {
        target = t6;
        events =
            done write_stage (d + length first)
            ∷ done flush_stage (w + length out)
            ∷ started flush_stage none
            ∷ advanced write_stage (d + length first)
            ∷ k3.events;
      }

      digest_eq : hasher.finish k3.hash ≡ hash_of image
      digest_eq = hashing.finish k3.hash image hash

      report_eq :
          w + length out ≡ length (padded (target.logical_sector_size j.target) image)
          → report_of (w + length out) (hasher.finish k3.hash)
            ≡ report_of
                (length (padded (target.logical_sector_size j.target) image))
                (hash_of image)
      report_eq wrote = rw (wrote, digest_eq) refl

      events_eq :
          w + length out ≡ length (padded (target.logical_sector_size j.target) image)
          → after.events
            ≡ done write_stage (length image)
              ∷ done flush_stage (length (padded (target.logical_sector_size j.target) image))
              ∷ started flush_stage none
              ∷ advanced write_stage (d + length first)
              ∷ k3.events
      events_eq wrote = rw (total, wrote) refl

  copy_image-ImageWritten :
      (sector : ℕ) (j : Job S T H)
      → V j.source
      → Holds j.hash []
      → Valid j.target
      → target.logical_sector_size j.target ≡ sector
      → (sector ≡ 512) ⊎ (sector ≡ 4096)
      → length image ≤ target.size j.target
      → length image + sector ≤ 2 ^ 64
      → ImageWritten j (copy_image source target hasher (length image) sector j)
  copy_image-ImageWritten sector j v empty valid e kind fits room =
      let pos : 0 < sector = omega (arith, kind) in
      let size = block_bytes sector in
      let ok_size = block_bytes_lem sector kind in
      let (k0, at_start) = laws.seek_start 0 j.source v in
      let j0 : Job S T H = record j {
        source = k0.next;
        events = started write_stage (some (length image)) ∷ j.events;
      } in
      let b =
        next_block-BlockCame source V image at_source laws target Valid byte at device hasher Holds
          hash_of hashing sector pos room size 0 j0 k0.valid at_start (omega arith) in
      let k =
        part source V image at_source laws target Valid byte at device hasher Holds hash_of hashing
          sector pos room size 0 ok_size.0 (omega arith) in
      let first =
        part_bytes source V image at_source laws target Valid byte at device hasher Holds hash_of
          hashing sector pos room size 0 in
      let out = padded sector first in
      let q = device.seek_start (length out) j.target valid in
      let l =
        write_blocks-WroteRest source V image at_source laws target Valid byte at device hasher
          Holds hash_of hashing sector pos room (suc (length image)) size (length first) 0 0
          (record j0 { source = b.next; target = q.next; hash = hasher.update first j.hash })
          b.valid (omega (arith, b.position, k.got_size)) (omega (arith, k.got_size)) ok_size.0
          ok_size.1 q.same.valid (q.same.sector ∙ e) (rw q.same.size fits)
          (λ left. elim k.kind [
            | inl (x, same) ↦
                (rw k.got_size x, omega (arith, q.position, k.got_size, k.out_size, same))
            | inr (x, none_left) ↦ absurd (omega (arith, k.got_size))
          ])
          (omega arith) in
      let seen = SameDevice-trans target Valid q.same l.same in
      let q2 = device.seek_start 0 l.after.target l.same.valid in
      let wr =
        block-WroteAll source V image at_source laws target Valid byte at device hasher Holds
          hash_of hashing sector pos room size 0 q2.next ok_size.0 (omega arith)
          (rw (q2.same.size, seen.size) fits) q2.same.valid (q2.same.sector ∙ seen.sector ∙ e)
          (zero-mod sector) q2.position in
      let f = device.sync_all wr.next wr.same.valid in
      let tail = padded sector (drop (length first) image) in
      let after_first : drop (length first) image
          ≡ drop
              (0
                + part_size source V image at_source laws target Valid byte at device hasher Holds
                    hash_of hashing sector pos room size 0)
              image =
        ap (λ (n : ℕ). drop n image) (omega (arith, k.got_size)) in
      let joined : out ++ tail ≡ padded sector image =
        ap (λ ys. out ++ padded sector ys) after_first ∙ k.joined in
      conclude sector j l.after f.next first out tail (0 + (length image - length first))
        (0 + length tail) e
        (copy_eq source target hasher (length image) sector j
          (record j0 { source = b.next; hash = hasher.update first j.hash }) l.after k0.next q.next
          q2.next wr.next f.next first out (0 + (length image - length first)) (0 + length tail)
          k0.returns b.returns q.returns l.returns q2.returns wr.returns f.returns)
        (omega (arith, k.got_size)) (omega arith) joined
        (SameDevice-trans target Valid seen
          (SameDevice-trans target Valid q2.same (SameDevice-trans target Valid wr.same f.same)))
        (λ a.
          f.bytes a
          ∙ wr.bytes a
          ∙ ap (λ (n : ℕ). written (byte q2.next) n out a) q2.position
          ∙ written_ext (byte q2.next) (byte l.after.target) 0 out a (q2.bytes a))
        (λ a.
          l.bytes a ∙ written_ext (byte q.next) (byte j.target) (length first) tail a (q.bytes a))
        (elim k.kind [
          | inl (x, same) ↦ inl (omega (arith, k.got_size, k.out_size, same))
          | inr (x, none_left) ↦ inr (ap (padded sector) after_first ∙ none_left)
        ])
        (subst (Holds l.after.hash)
          (ap (λ (n : ℕ). first ++ drop n image) k.got_size
            ∙ take-drop (min (length image - 0) size) image)
          (l.hash first (hashing.update j.hash [] first empty)))

  -- With a device of 512 or 4096 byte sectors that has room for the image, and an image that leaves
  -- room for one more sector in 64 bits, `write_image` answers: it reports the image's length, the
  -- padded length and the image's hash, the target holds the padded image from byte 0 on and every
  -- other byte as before, and the flush was reported before the write.
  pub write_image-ImageWritten :
      (j : Job S T H)
      → V j.source
      → Valid j.target
      → (target.logical_sector_size j.target ≡ 512) ⊎ (target.logical_sector_size j.target ≡ 4096)
      → length image ≤ target.size j.target
      → length image + target.logical_sector_size j.target ≤ 2 ^ 64
      → ImageWritten j (write_image source target hasher j)
  unfolding write_image length_of
  write_image-ImageWritten j v valid kind fits room =
      let sector = target.logical_sector_size j.target in
      let k = laws.seek_end j.source v in
      let (k0, at_start) = laws.seek_start 0 k.next k.valid in
      let j0 : Job S T H = record j { source = k0.next; hash = hasher.fresh } in
      let c = copy_image-ImageWritten sector j0 k0.valid hashing.fresh valid refl kind fits room in
      record {
        after = c.after;
        returns = rw (check_sector_size-ok sector kind) (
            rw (aligned sector valid refl) (
              rw k.returns (
                rw k0.returns
                  (rw (room_for (length image) (target.size j.target) fits) c.returns))));
        same = c.same;
        bytes = c.bytes;
        earlier = c.earlier;
        events = c.events;
      }
    where
      aligned :
          (n : ℕ)
          → Valid j.target
          → n ≡ target.logical_sector_size j.target
          → check_aligned (target.size j.target) n ≡ ok tt
      aligned n valid e =
          (check_aligned_iff (target.size j.target) n).1
            (rw e (device.sector_pos j.target valid), rw e (device.size_whole j.target valid))
