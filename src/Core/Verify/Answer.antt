-- ===== src/Core/Verify/Answer.antt =====
-- The answer of `verify_image` of crates/burnout-core/src/write.rs.
use mathlib.Core.Bool.{true≢false}
use native.Mathlib.Nat.{zero-mod}
use burnout.Prelude.{
  ℕ, suc, ◌+◌, ◌^◌, ◌≤◌, ◌<◌, ◌≡◌, ◌≢◌, refl, ap, ◌∙◌, sym, ◌⊎◌, inl, inr, true, false, Option,
  none, some, List, [], ◌∷◌, length, get_or, arith, Bool-cases, ≡→==,
}
use burnout.Core.Error.{Result, ok, err, verify_failed}
use burnout.Core.Alignment.Rounding.{check_aligned_iff}
use burnout.Core.Target.{Target}
use burnout.Core.Target.Device.{IsDevice}
use burnout.Core.Write.{Source, Hasher, Job, started, done, verify_stage, block_bytes, length_of}
use burnout.Core.Write.Blocks.{IsSource}
use burnout.Core.Write.Copy.{IsHasher}
use burnout.Core.Write.Image.{check_sector_size-ok, room_for, block_bytes_lem}
use burnout.Core.Verify.{
  Verification, Compared, shift, differs_at, note_difference, same_bytes, judge, verify_image,
}
use burnout.Core.Verify.Rounds.{compare_blocks-ComparedRest}

same_bytes→≡ : (xs ys : List ℕ) → same_bytes xs ys ≡ true → xs ≡ ys
unfolding same_bytes
same_bytes→≡ [] [] h = refl
same_bytes→≡ [] (y ∷ ys) h = cc
same_bytes→≡ (x ∷ xs) [] h = cc
same_bytes→≡ (x ∷ xs) (y ∷ ys) h = ground (arith, same_bytes→≡ xs ys)

same_bytes_refl : (xs : List ℕ) → same_bytes xs xs ≡ true
unfolding same_bytes
same_bytes_refl [] = refl
same_bytes_refl (x ∷ xs) = rw (≡→== x x refl) (same_bytes_refl xs)

from_start : (xs ys : List ℕ) → note_difference none 0 xs ys ≡ differs_at xs ys
unfolding note_difference
from_start xs ys = shift_zero (differs_at xs ys)
  where
    shift_zero : (o : Option ℕ) → shift 0 o ≡ o
    shift_zero none = refl
    shift_zero (some n) = ap some (omega arith)

module _ {S T H : Type 0} (source : Source S) (V : S → Type 0) (image : List ℕ) (at_source : S → ℕ)
    (laws : IsSource source V image at_source) (target : Target T) (Valid : T → Type 0)
    (byte : T → ℕ → ℕ) (at : T → ℕ) (device : IsDevice target Valid byte at) (hasher : Hasher H)
    (Holds : H → List ℕ → Type 0) (hash_of : List ℕ → List ℕ)
    (hashing : IsHasher hasher Holds hash_of) (held : List ℕ) where
  -- The two digests agree and the answer is the image's, or they do not and the answer names both and
  -- the first byte that differs.
  pub record Answered (r : Result Verification × Job S T H) : Type 0 where
    pub after : Job S T H
    pub answer :
        ((hash_of image ≡ hash_of held)
          × (r ≡ (ok (record { bytes = length image; digest = hash_of image }), after)))
        ⊎ ((hash_of image ≢ hash_of held)
            × (r ≡ (
              err (verify_failed (hash_of image) (hash_of held) (differs_at image held)),
              after,
            )))

  abbrev beginning : H → Compared H
  beginning fresh = record { so_far = 0; difference = none; drive_hash = fresh }

  judge-Answered :
      (difference : Option ℕ) (drive_hash : H) (j : Job S T H) {r : Result Verification × Job S T H}
      → difference ≡ differs_at image held
      → Holds drive_hash held
      → Holds j.hash image
      → r
        ≡ judge source target hasher
            (record { so_far = length image; difference = difference; drive_hash = drive_hash })
            j
      → Answered r
  unfolding judge
  judge-Answered difference drive_hash j d g e eq =
      let expected : hasher.finish j.hash ≡ hash_of image = hashing.finish j.hash image e in
      let got : hasher.finish drive_hash ≡ hash_of held = hashing.finish drive_hash held g in
      elim (Bool-cases (same_bytes (hash_of image) (hash_of held))) [
        | inl same ↦ record {
          after = record j { events = done verify_stage (length image) ∷ j.events };
          answer = inl (
            same_bytes→≡ (hash_of image) (hash_of held) same,
            eq ∙ rw (expected, got) (rw same refl),
          );
        }
        | inr other ↦ record {
          after = j;
          answer = inr (
            λ same. differ (hash_of image) (hash_of held) same other,
            eq ∙ rw (expected, got, d) (rw other refl),
          );
        }
      ]
    where
      differ : (xs ys : List ℕ) → xs ≡ ys → same_bytes xs ys ≡ false → ⊥
      differ xs ys same other =
          true≢false (sym (ap (same_bytes xs) (sym same) ∙ same_bytes_refl xs) ∙ other)

  -- With a device of 512 or 4096 byte sectors that holds `held` where the image would be, `verify_image`
  -- answers: where the digests of the two agree, with the image's length and digest; where they do not,
  -- with an error that names both digests and the first byte at which the two differ.
  pub verify_image-Answered :
      (j : Job S T H)
      → V j.source
      → Valid j.target
      → (target.logical_sector_size j.target ≡ 512) ⊎ (target.logical_sector_size j.target ≡ 4096)
      → length image ≤ target.size j.target
      → length image + target.logical_sector_size j.target ≤ 2 ^ 64
      → length held ≡ length image
      → ((i : ℕ) → i < length image → byte j.target i ≡ get_or held i 0)
      → Answered (verify_image source target hasher j)
  unfolding verify_image length_of
  verify_image-Answered j v valid kind fits room as_long holds =
      let sector = target.logical_sector_size j.target in
      let pos : 0 < sector = omega (arith, kind) in
      let k = laws.seek_end j.source v in
      let (k0, at0) = laws.seek_start 0 k.next k.valid in
      let (k1, at1) = laws.seek_start 0 k0.next k0.valid in
      let q = device.seek_start 0 j.target valid in
      let size = block_bytes_lem sector kind in
      let j0 : Job S T H = record {
        source = k1.next;
        target = q.next;
        hash = hasher.fresh;
        events = started verify_stage (some (length image)) ∷ j.events;
      } in
      let rest =
        compare_blocks-ComparedRest source V image at_source laws target Valid byte at device hasher
          Holds hash_of hashing sector pos room held as_long (suc (length image))
          (block_bytes sector) (beginning hasher.fresh) j0 k1.valid at1 (omega arith) size.0 size.1
          q.same.valid q.same.sector (rw q.same.size fits) (λ i h. q.bytes i ∙ holds i h)
          (λ left. (zero-mod sector, q.position)) (omega arith) in
      judge-Answered (note_difference none 0 image held) rest.drive_hash rest.after
        (from_start image held) (rest.drive [] hashing.fresh) (rest.hash [] hashing.fresh)
        (rw (check_sector_size-ok sector kind) (
          rw
            ((check_aligned_iff (target.size j.target) sector).1
              (pos, device.size_whole j.target valid))
            (rw k.returns (
              rw k0.returns (
                rw (room_for (length image) (target.size j.target) fits)
                  (rw k1.returns (rw q.returns (rw rest.returns refl))))))))
