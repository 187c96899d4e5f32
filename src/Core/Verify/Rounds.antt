-- ===== src/Core/Verify/Rounds.antt =====
-- The loop of `verify_image` of crates/burnout-core/src/write.rs over a drive that holds given bytes.
use mathlib.Core.Path.{ap₂, subst}
use native.Mathlib.Decide.{dec_lt}
use burnout.Prelude.{
  ℕ, zero, suc, ◌+◌, ◌-◌, ◌*◌, ◌%◌, ◌^◌, ◌≤◌, ◌<◌, ◌≡◌, refl, ap, ◌∙◌, sym, min, Option, List, [],
  ◌∷◌, ◌++◌, length, get_or, take, drop, slice, arith, ≢→==, ≡→==, lt→ltb, le→ltb, length-take,
  length-slice, take-drop, drop-drop, drop_all, append_nil, append_assoc, get_or-take, get_or-drop,
  add_whole, sub_whole, mul_whole, div_ceil,
}
use burnout.Core.Error.{Result, ok}
use burnout.Core.Alignment.{round_up}
use burnout.Core.Alignment.Rounding.{round_up-eq, round_up-aligned, div_ceil_bounds, div_ceil-least}
use burnout.Core.Target.{Target}
use burnout.Core.Target.Device.{SameDevice, SameDevice-trans, IsDevice}
use burnout.Core.Write.{Source, Hasher, Job, advanced, verify_stage, fill}
use burnout.Core.Write.Blocks.{IsSource, fill-Filled}
use burnout.Core.Write.Copy.{IsHasher}
use burnout.Core.Verify.{Compared, note_difference, fill_exact, compare_blocks}
use burnout.Core.Verify.Reading.{list_ext, note_nil, note_join, fill-ReadAll}

-- A part and what follows it.
part_rest : (p k : ℕ) (xs : List ℕ) → slice p k xs ++ drop (p + k) xs ≡ drop p xs
part_rest p k xs = ap (λ ys. slice p k xs ++ ys) (sym (drop-drop p k xs)) ∙ take-drop k (drop p xs)

held_join :
    (m : List ℕ) (p k : ℕ) (xs : List ℕ) → (m ++ slice p k xs) ++ drop (p + k) xs ≡ m ++ drop p xs
held_join m p k xs =
    append_assoc m (slice p k xs) (drop (p + k) xs) ∙ ap (λ ys. m ++ ys) (part_rest p k xs)

all_held : (m xs : List ℕ) → xs ≡ [] → m ≡ m ++ xs
all_held m xs none_left = sym (append_nil m) ∙ ap (λ ys. m ++ ys) (sym none_left)

-- A round of the loop.
compare_step :
    {S T H : Type 0} (source : Source S) (target : Target T) (hasher : Hasher H)
    (fuel size n sector : ℕ) (c : Compared H) (j : Job S T H) (k : ℕ) (got drive : List ℕ) (s : S)
    (t : T) {r : Result (Compared H) × Job S T H}
    → c.so_far < n
    → fill source.read (min (n - c.so_far) size) j.source ≡ (ok got, s)
    → length got ≡ k
    → 0 < k
    → fill target.read (round_up k sector) j.target ≡ (ok drive, t)
    → length drive ≡ round_up k sector
    → compare_blocks source target hasher fuel size n sector
        (record {
          so_far = c.so_far + k;
          difference = note_difference c.difference c.so_far got (take k drive);
          drive_hash = hasher.update (take k drive) c.drive_hash;
        })
        (record {
          source = s;
          target = t;
          hash = hasher.update got j.hash;
          events = advanced verify_stage (c.so_far + k) ∷ j.events;
        })
      ≡ r
    → compare_blocks source target hasher (suc fuel) size n sector c j ≡ r
unfolding compare_blocks fill_exact
compare_step source target hasher fuel size n sector c j k got drive s t lt e as_long pos f size_of
      g =
    rw (lt→ltb c.so_far n lt) (
      rw e (
        rw as_long (
          rw (≢→== k 0 (omega arith))
            (rw f (rw (≡→== (length drive) (round_up k sector) size_of) g)))))

module _ {S T H : Type 0} (source : Source S) (V : S → Type 0) (image : List ℕ) (at_source : S → ℕ)
    (laws : IsSource source V image at_source) (target : Target T) (Valid : T → Type 0)
    (byte : T → ℕ → ℕ) (at : T → ℕ) (device : IsDevice target Valid byte at) (hasher : Hasher H)
    (Holds : H → List ℕ → Type 0) (hash_of : List ℕ → List ℕ)
    (hashing : IsHasher hasher Holds hash_of) (sector : ℕ) (pos : 0 < sector)
    (room : length image + sector ≤ 2 ^ 64) (held : List ℕ)
    (as_long : length held ≡ length image) where
  -- The drive holds `held` from byte 0 on.
  abbrev pub Held : T → Type 0
  Held t = (i : ℕ) → i < length image → byte t i ≡ get_or held i 0

  -- A block of the drive.
  record DriveBlock (want p : ℕ) (t : T) : Type 0 where
    next : T
    drive : List ℕ
    returns : fill target.read (round_up want sector) t ≡ (ok drive, next)
    size : length drive ≡ round_up want sector
    part : take want drive ≡ slice p want held
    same : SameDevice target Valid t next
    held_after : Held next
    position : at next ≡ p + round_up want sector

  drive_block :
      (want p : ℕ) (t : T)
      → Valid t
      → target.logical_sector_size t ≡ sector
      → Held t
      → p % sector ≡ 0
      → at t ≡ p
      → p + want ≤ length image
      → length image ≤ target.size t
      → DriveBlock want p t
  drive_block want p t v e holds q here inside fits =
      let rounded : round_up want sector ≡ div_ceil want sector * sector =
        round_up-eq want sector pos (omega arith) in
      let size_whole : target.size t % sector ≡ 0 =
        ap (λ n. target.size t % n) (sym e) ∙ device.size_whole t v in
      let most =
        div_ceil-least want (target.size t - p) sector pos (omega arith)
          (sub_whole (target.size t) p sector size_whole q (omega arith)) in
      let g =
        fill-ReadAll target Valid byte at device (round_up want sector) t v (rw (e, here) q)
          (rw (e, rounded) (mul_whole (div_ceil want sector) sector))
          (omega (arith, here, rounded, most)) in
      let enough = (div_ceil_bounds want sector pos).0 in
      let part_size : length (take want g.got) ≡ want =
        omega (arith, length-take {0} want g.got, g.size, rounded, enough) in
      record {
        next = g.next;
        drive = g.got;
        returns = g.returns;
        size = g.size;
        part =
            list_ext (take want g.got) (slice p want held)
              (part_size ∙ sym (length-slice p want held (omega (arith, as_long))))
              (λ i h.
                get_or-take want g.got i 0
                ∙ rw (lt→ltb i want (omega (arith, part_size))) (
                    g.given i (omega (arith, part_size, rounded, enough))
                    ∙ ap (byte t) {y = p + i} (omega (arith, here))
                    ∙ holds (p + i) (omega (arith, part_size))
                    ∙ sym (
                        get_or-take want (drop p held) i 0
                        ∙ rw (lt→ltb i want (omega (arith, part_size))) (get_or-drop p held i 0))));
        same = g.same;
        held_after = λ i h. g.bytes i ∙ holds i h;
        position = omega (arith, g.position, here);
      }

  -- From the place of `c` on, all was compared.
  pub record ComparedRest (c : Compared H) (j : Job S T H) (r : Result (Compared H) × Job S T H)
      : Type 0 where
    pub after : Job S T H
    pub drive_hash : H
    pub returns : r ≡ (
      ok (record {
        so_far = length image;
        difference =
            note_difference c.difference c.so_far (drop c.so_far image) (drop c.so_far held);
        drive_hash = drive_hash;
      }),
      after,
    )
    pub hash : (m : List ℕ) → Holds j.hash m → Holds after.hash (m ++ drop c.so_far image)
    pub drive : (m : List ℕ) → Holds c.drive_hash m → Holds drive_hash (m ++ drop c.so_far held)
    pub same : SameDevice target Valid j.target after.target

  abbrev whole_image : Option ℕ → H → Compared H
  whole_image difference drive_hash = record {
    so_far = length image;
    difference = difference;
    drive_hash = drive_hash;
  }

  none_left :
      (fuel size : ℕ) (c : Compared H) (j : Job S T H)
      → Valid j.target
      → c.so_far ≡ length image
      → ComparedRest c j
          (compare_blocks source target hasher (suc fuel) size (length image) sector c j)
  unfolding compare_blocks
  none_left fuel size c j valid all =
      let p = c.so_far in
      let image_done : drop p image ≡ [] = drop_all p image (omega arith) in
      let held_done : drop p held ≡ [] = drop_all p held (omega (arith, as_long)) in
      record {
        after = j;
        drive_hash = c.drive_hash;
        returns = rw (le→ltb p (length image) (omega arith)) (
            ap (λ x. (ok x, j))
              (ap (λ (n : ℕ). at_place n) all
                ∙ ap₂ whole_image
                    (sym (
                      ap (λ xs. note_difference c.difference p xs (drop p held)) image_done
                      ∙ note_nil c.difference p (drop p held)))
                    refl));
        hash = λ m h. subst (Holds j.hash) (all_held m (drop p image) image_done) h;
        drive = λ m h. subst (Holds c.drive_hash) (all_held m (drop p held) held_done) h;
        same = record { valid = valid; sector = refl; size = refl };
      }
    where
      at_place : ℕ → Compared H
      at_place n = record { so_far = n; difference = c.difference; drive_hash = c.drive_hash }

  -- A block and then the rest.
  block_then :
      (c : Compared H) (j k : Job S T H) (n : ℕ) (drive : List ℕ)
      {r q : Result (Compared H) × Job S T H}
      → c.so_far + n ≤ length image
      → take n drive ≡ slice c.so_far n held
      → SameDevice target Valid j.target k.target
      → k.hash ≡ hasher.update (slice c.so_far n image) j.hash
      → q ≡ r
      → ComparedRest
          (record {
            so_far = c.so_far + n;
            difference =
                note_difference c.difference c.so_far (slice c.so_far n image) (take n drive);
            drive_hash = hasher.update (take n drive) c.drive_hash;
          })
          k
          r
      → ComparedRest c j q
  block_then c j k n drive {r} {q} inside part same hash eq rest =
      let p = c.so_far in
      let image_size : length (slice p n image) ≡ n = length-slice p n image inside in
      let held_size : length (slice p n held) ≡ n =
        length-slice p n held (omega (arith, as_long)) in
      record {
        after = rest.after;
        drive_hash = rest.drive_hash;
        returns =
            eq
            ∙ rest.returns
            ∙ ap (λ x. (ok x, rest.after))
                (ap₂ whole_image
                  (ap
                      (λ xs.
                        note_difference (note_difference c.difference p (slice p n image) xs)
                          (p + n) (drop (p + n) image) (drop (p + n) held))
                      part
                    ∙ ap
                        (λ (m : ℕ).
                          note_difference
                            (note_difference c.difference p (slice p n image) (slice p n held))
                            (p + m) (drop (p + n) image) (drop (p + n) held))
                        (sym image_size)
                    ∙ note_join c.difference p (slice p n image) (slice p n held)
                        (drop (p + n) image) (drop (p + n) held)
                        (omega (arith, image_size, held_size))
                    ∙ ap₂ (note_difference c.difference p) (part_rest p n image)
                        (part_rest p n held))
                  refl);
        hash = λ m h. subst (Holds rest.after.hash) (held_join m p n image) (
            rest.hash (m ++ slice p n image) (
              subst (λ k. Holds k (m ++ slice p n image)) (sym hash)
                (hashing.update j.hash m (slice p n image) h)));
        drive = λ m h. subst (Holds rest.drive_hash) (held_join m p n held) (
            rest.drive (m ++ slice p n held) (
              subst (λ xs. Holds (hasher.update (take n drive) c.drive_hash) (m ++ xs)) part
                (hashing.update c.drive_hash m (take n drive) h)));
        same = SameDevice-trans target Valid same rest.same;
      }

  pub compare_blocks-ComparedRest :
      (fuel size : ℕ) (c : Compared H) (j : Job S T H)
      → V j.source
      → at_source j.source ≡ c.so_far
      → c.so_far ≤ length image
      → size % sector ≡ 0
      → 0 < size
      → Valid j.target
      → target.logical_sector_size j.target ≡ sector
      → length image ≤ target.size j.target
      → Held j.target
      → (c.so_far < length image → (c.so_far % sector ≡ 0) × (at j.target ≡ c.so_far))
      → length image - c.so_far < fuel
      → ComparedRest c j (compare_blocks source target hasher fuel size (length image) sector c j)
  compare_blocks-ComparedRest zero size c j v here le whole some_size valid e fits holds ready f =
      absurd (omega arith)
  compare_blocks-ComparedRest (suc fuel) size c j v here le whole some_size valid e fits holds ready
        f =
      elim (dec_lt c.so_far (length image)) [
        | no all ↦ none_left fuel size c j valid (omega arith)
        | yes more ↦
            let p = c.so_far in
            let want = min (length image - p) size in
            let g =
              fill-Filled source V image at_source laws want j.source v (omega (arith, here)) in
            let got = slice p want image in
            let got_size : length got ≡ want = length-slice p want image (omega arith) in
            let came : fill source.read want j.source ≡ (ok got, g.next) =
              g.returns ∙ ap (λ (n : ℕ). (ok (slice n want image), g.next)) here in
            let b =
              drive_block want p j.target valid e holds (ready more).0 (ready more).1 (omega arith)
                fits in
            let next_c : Compared H = record {
              so_far = p + want;
              difference = note_difference c.difference p got (take want b.drive);
              drive_hash = hasher.update (take want b.drive) c.drive_hash;
            } in
            let next : Job S T H = record {
              source = g.next;
              target = b.next;
              hash = hasher.update got j.hash;
              events = advanced verify_stage (p + want) ∷ j.events;
            } in
            block_then c j next want b.drive (omega arith) b.part b.same refl
              (compare_step source target hasher fuel size (length image) sector c j want got
                b.drive g.next b.next more came got_size (omega arith) b.returns b.size refl)
              (compare_blocks-ComparedRest fuel size next_c next g.valid
                (omega (arith, g.position, here)) (omega arith) whole some_size b.same.valid
                (b.same.sector ∙ e) (rw b.same.size fits) b.held_after
                (λ left.
                  let all_of : want ≡ size = omega arith in
                  let q : want % sector ≡ 0 = ap (λ (n : ℕ). n % sector) all_of ∙ whole in
                  (
                    add_whole p want sector (ready more).0 q,
                    omega (arith, b.position, round_up-aligned want sector pos (omega arith) q),
                  ))
                (omega arith))
      ]
