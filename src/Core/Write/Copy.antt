-- ===== src/Core/Write/Copy.antt =====
-- `write_image` of crates/burnout-core/src/write.rs puts the image on the drive, with zeros up to a
-- whole sector, and nothing else.
use native.Mathlib.Nat.{zero-mod}
use native.Mathlib.Decide.{dec_lt}
use mathlib.Core.Path.{subst}
use burnout.Prelude.{
  ℕ, zero, suc, ◌+◌, ◌-◌, ◌*◌, ◌%◌, ◌^◌, ◌≤◌, ◌<◌, ◌≡◌, refl, ap, ◌∙◌, sym, ◌⊎◌, inl, inr, false,
  min, List, [], ◌∷◌, ◌++◌, length, take, drop, slice, arith, ltb, ◌==◌, ◌&&◌, lt→ltb, le→ltb,
  length-append, length-take, length-drop, length-slice, take-drop, take_all, drop-drop, drop_all,
  append_nil, append_assoc, mul_whole, add_whole, sub_whole, div_ceil,
}
use burnout.Core.Error.{Result, ok}
use burnout.Core.Alignment.Rounding.{div_ceil_bounds, div_ceil-least}
use burnout.Core.Target.{Target, write_all}
use burnout.Core.Target.Device.{
  written, written_ext, written_nil, written_join, written_start, SameDevice, IsDevice, WroteAll,
  write_all-WroteAll,
}
use burnout.Core.Write.{
  Source, Hasher, Job, advanced, write_stage, fill, padded, next_block, write_blocks,
}
use burnout.Core.Write.Blocks.{IsSource, fill-Filled, length-padded, padded-whole, padded-append}

-- A running hash holds the bytes that it was given in order, and ends in their digest.
pub record IsHasher {H : Type 0} (hasher : Hasher H) (Holds : H → List ℕ → Type 0)
    (hash_of : List ℕ → List ℕ) : Type 0 where
  pub fresh : Holds hasher.fresh []
  pub update : (h : H) (xs ys : List ℕ) → Holds h xs → Holds (hasher.update ys h) (xs ++ ys)
  pub finish : (h : H) (xs : List ℕ) → Holds h xs → hasher.finish h ≡ hash_of xs

module _ {S T H : Type 0} (source : Source S) (V : S → Type 0) (image : List ℕ) (at_source : S → ℕ)
    (laws : IsSource source V image at_source) (target : Target T) (Valid : T → Type 0)
    (byte : T → ℕ → ℕ) (at : T → ℕ) (device : IsDevice target Valid byte at) (hasher : Hasher H)
    (Holds : H → List ℕ → Type 0) (hash_of : List ℕ → List ℕ)
    (hashing : IsHasher hasher Holds hash_of) (sector : ℕ) (pos : 0 < sector)
    (room : length image + sector ≤ 2 ^ 64) where
  -- The next block of the image.
  pub record BlockCame (size p : ℕ) (j : Job S T H) : Type 0 where
    pub next : S
    pub returns : next_block source target hasher size p (length image) sector j ≡ (
      ok (
        slice p (min (length image - p) size) image,
        padded sector (slice p (min (length image - p) size) image),
      ),
      record j {
        source = next;
        hash = hasher.update (slice p (min (length image - p) size) image) j.hash;
      },
    )
    pub valid : V next
    pub position : at_source next ≡ p + min (length image - p) size

  pub next_block-BlockCame :
      (size p : ℕ) (j : Job S T H)
      → V j.source
      → at_source j.source ≡ p
      → p ≤ length image
      → BlockCame size p j
  unfolding next_block
  next_block-BlockCame size p j v here le =
      let want = min (length image - p) size in
      let f = fill-Filled source V image at_source laws want j.source v (omega (arith, here)) in
      let got = slice p want image in
      let came : fill source.read want j.source ≡ (ok got, f.next) =
        f.returns ∙ ap (λ (n : ℕ). (ok (slice n want image), f.next)) here in
      let size_of : length got ≡ want = length-slice p want image (omega arith) in
      let go : (length got == 0 && ltb 0 want) ≡ false = ground (arith, size_of) in
      record {
        next = f.next;
        returns = rw came (rw go refl);
        valid = f.valid;
        position = omega (arith, f.position, here);
      }

  -- A round of the loop.
  blocks_step :
      (fuel size p d w : ℕ) (j k : Job S T H) (got : List ℕ) (t : T)
      {r : Result (ℕ × ℕ) × Job S T H}
      → p < length image
      → next_block source target hasher size p (length image) sector j
        ≡ (ok (got, padded sector got), k)
      → write_all target (padded sector got) k.target ≡ (ok tt, t)
      → write_blocks source target hasher fuel size
          (length image)
          sector
          (p + length got)
          (d + length got)
          (w + length (padded sector got))
          (record k { target = t; events = advanced write_stage (d + length got) ∷ k.events })
        ≡ r
      → write_blocks source target hasher (suc fuel) size (length image) sector p d w j ≡ r
  unfolding write_blocks
  blocks_step fuel size p d w j k got t lt e f g = rw (lt→ltb p (length image) lt) (rw e (rw f g))

  -- The image from `p` on is on the drive, padded, and nothing else changed.
  pub record WroteRest (p d w : ℕ) (j : Job S T H) (r : Result (ℕ × ℕ) × Job S T H) : Type 0 where
    pub after : Job S T H
    pub returns :
        r ≡ (ok (d + (length image - p), w + length (padded sector (drop p image))), after)
    pub same : SameDevice target Valid j.target after.target
    pub bytes :
        (a : ℕ) → byte after.target a ≡ written (byte j.target) p (padded sector (drop p image)) a
    pub hash : (m : List ℕ) → Holds j.hash m → Holds after.hash (m ++ drop p image)

  -- The padded parts of a list are the padded list where the first part is whole sectors, or all.
  split_all :
      (n : ℕ) (xs : List ℕ)
      → length xs ≤ n
      → padded sector (take n xs) ++ padded sector (drop n xs) ≡ padded sector xs
  split_all n xs all =
      ap (λ ys. padded sector (take n xs) ++ ys)
        (ap (padded sector) (drop_all n xs all)
          ∙ padded-whole sector [] pos (omega arith) (zero-mod sector))
      ∙ append_nil (padded sector (take n xs))
      ∙ ap (padded sector) (take_all n xs all)

  split_whole :
      (n : ℕ) (xs : List ℕ)
      → length xs + sector ≤ 2 ^ 64
      → n % sector ≡ 0
      → n ≤ length xs
      → padded sector (take n xs) ++ padded sector (drop n xs) ≡ padded sector xs
  split_whole n xs fits whole more =
      let size : length (take n xs) ≡ n = omega (arith, length-take {0} n xs) in
      ap (λ ys. ys ++ padded sector (drop n xs))
        (padded-whole sector (take n xs) pos (omega (arith, size)) (rw size whole))
      ∙ sym (
          padded-append sector (take n xs) (drop n xs) pos
            (omega (arith, size, length-drop {0} n xs)) (rw size whole))
      ∙ ap (padded sector) (take-drop n xs)

  -- The block at `p`: it is whole sectors, or the rest of the image.
  abbrev pub part_size : ℕ → ℕ → ℕ
  part_size size p = min (length image - p) size

  abbrev pub part_bytes : ℕ → ℕ → List ℕ
  part_bytes size p = slice p (part_size size p) image

  pub record Part (size p : ℕ) : Type 0 where
    pub got_size : length (part_bytes size p) ≡ part_size size p
    pub out_size :
        length (padded sector (part_bytes size p)) ≡ div_ceil (part_size size p) sector * sector
    pub joined :
        padded sector (part_bytes size p) ++ padded sector (drop (p + part_size size p) image)
        ≡ padded sector (drop p image)
    pub kind :
        ((part_size size p % sector ≡ 0)
          × (div_ceil (part_size size p) sector * sector ≡ part_size size p))
        ⊎ ((p + part_size size p ≡ length image)
            × (padded sector (drop (p + part_size size p) image) ≡ []))

  pub part : (size p : ℕ) → size % sector ≡ 0 → p ≤ length image → Part size p
  part size p whole le =
      let want = min (length image - p) size in
      let got_size : length (slice p want image) ≡ want = length-slice p want image (omega arith) in
      let rest_size = length-drop {0} p image in
      let rest : padded sector (drop want (drop p image)) ≡ padded sector (drop (p + want) image) =
        ap (padded sector) (drop-drop p want image) in
      record {
        got_size = got_size;
        out_size =
            length-padded sector (slice p want image) pos (omega (arith, got_size))
            ∙ ap (λ (n : ℕ). div_ceil n sector * sector) got_size;
        joined = elim (dec_lt size (length image - p)) [
          | yes more ↦
              ap (λ ys. padded sector (slice p want image) ++ ys) (sym rest)
              ∙ split_whole want (drop p image) (omega (arith, rest_size))
                  (ap (λ (n : ℕ). n % sector) {x = want} {y = size} (omega arith) ∙ whole)
                  (omega (arith, rest_size))
          | no few ↦
              ap (λ ys. padded sector (slice p want image) ++ ys) (sym rest)
              ∙ split_all want (drop p image) (omega (arith, rest_size))
        ];
        kind = elim (dec_lt size (length image - p)) [
          | yes more ↦
              let w : want % sector ≡ 0 =
                ap (λ (n : ℕ). n % sector) {x = want} {y = size} (omega arith) ∙ whole in
              inl (w, div_ceil-whole want w)
          | no few ↦ inr (
            omega arith,
            ap (padded sector) (drop_all (p + want) image (omega arith))
                ∙ padded-whole sector [] pos (omega arith) (zero-mod sector),
          )
        ];
      }
    where
      div_ceil-whole : (n : ℕ) → n % sector ≡ 0 → div_ceil n sector * sector ≡ n
      div_ceil-whole n w =
          omega
            (arith, div_ceil-least n n sector pos (omega arith) w, (div_ceil_bounds n sector pos).0)

  -- A write of a block that is padded stays on the target.
  pub block-WroteAll :
      (size p : ℕ) (t : T)
      → size % sector ≡ 0
      → p ≤ length image
      → length image ≤ target.size t
      → Valid t
      → target.logical_sector_size t ≡ sector
      → p % sector ≡ 0
      → at t ≡ p
      → WroteAll target Valid byte at
          (padded sector (part_bytes size p))
          t
          (write_all target (padded sector (part_bytes size p)) t)
  block-WroteAll size p t whole le fits v e q here =
      let k = part size p whole le in
      let size_whole : target.size t % sector ≡ 0 =
        ap (λ n. target.size t % n) (sym e) ∙ device.size_whole t v in
      let most =
        div_ceil-least (part_size size p) (target.size t - p) sector pos (omega arith)
          (sub_whole (target.size t) p sector size_whole q (omega arith)) in
      write_all-WroteAll target Valid byte at device (padded sector (part_bytes size p)) t v
        (rw (e, here) q)
        (rw (e, k.out_size) (mul_whole (div_ceil (part_size size p) sector) sector))
        (omega (arith, here, k.out_size, most))

  -- A round and then the rest.
  round_rest :
      (fuel size p d w : ℕ) (j : Job S T H)
      → p < length image
      → (k : Part size p) → (b : BlockCame size p j) → at j.target ≡ p
      → (wr : WroteAll target Valid byte at
          (padded sector (part_bytes size p))
          j.target
          (write_all target (padded sector (part_bytes size p)) j.target))
      → WroteRest
          (p + length (part_bytes size p))
          (d + length (part_bytes size p))
          (w + length (padded sector (part_bytes size p)))
          (record {
            source = b.next;
            target = wr.next;
            hash = hasher.update (part_bytes size p) j.hash;
            events = advanced write_stage (d + length (part_bytes size p)) ∷ j.events;
          })
          (write_blocks source target hasher fuel size
            (length image)
            sector
            (p + length (part_bytes size p))
            (d + length (part_bytes size p))
            (w + length (padded sector (part_bytes size p)))
            (record {
              source = b.next;
              target = wr.next;
              hash = hasher.update (part_bytes size p) j.hash;
              events = advanced write_stage (d + length (part_bytes size p)) ∷ j.events;
            }))
      → WroteRest p d w j
          (write_blocks source target hasher (suc fuel) size (length image) sector p d w j)
  round_rest fuel size p d w j more k b here wr rest =
      let got = part_bytes size p in
      let out = padded sector got in
      let tail = padded sector (drop (p + length got) image) in
      let after_got : drop (p + length got) image ≡ drop (p + part_size size p) image =
        ap (λ (n : ℕ). drop (p + n) image) k.got_size in
      let joined : out ++ tail ≡ padded sector (drop p image) =
        ap (λ ys. out ++ padded sector ys) after_got ∙ k.joined in
      let total : length out + length tail ≡ length (padded sector (drop p image)) =
        sym (length-append {0} out tail) ∙ ap length joined in
      record {
        after = rest.after;
        returns =
            blocks_step fuel size p d w j
              (record j { source = b.next; hash = hasher.update got j.hash }) got wr.next more
              b.returns wr.returns rest.returns
            ∙ ap (λ (n : ℕ). (ok (n, w + length out + length tail), rest.after))
                {y = d + (length image - p)} (omega (arith, k.got_size))
            ∙ ap (λ (n : ℕ). (ok (d + (length image - p), n), rest.after))
                {y = w + length (padded sector (drop p image))} (omega (arith, total));
        same = record {
          valid = rest.same.valid;
          sector = rest.same.sector ∙ wr.same.sector;
          size = rest.same.size ∙ wr.same.size;
        };
        bytes = λ a.
            rest.bytes a
            ∙ written_start (byte wr.next) (p + length got) (p + length out) tail a (elim k.kind [
              | inl (x, whole) ↦ inl (omega (arith, k.got_size, k.out_size, whole))
              | inr (x, none_left) ↦ inr (ap (padded sector) after_got ∙ none_left)
            ])
            ∙ written_ext (byte wr.next) (written (byte j.target) p out) (p + length out) tail a
                (wr.bytes a ∙ ap (λ (n : ℕ). written (byte j.target) n out a) here)
            ∙ sym (written_join (byte j.target) p out tail a)
            ∙ ap (λ bs. written (byte j.target) p bs a) joined;
        hash = λ m h.
            subst (Holds rest.after.hash)
              (append_assoc m got (drop (p + length got) image)
                ∙ ap (λ xs. m ++ xs)
                    (ap (λ xs. got ++ xs) (after_got ∙ sym (drop-drop p (part_size size p) image))
                      ∙ take-drop (part_size size p) (drop p image)))
              (rest.hash (m ++ got) (hashing.update j.hash m got h));
      }

  no_rest :
      (fuel size p d w : ℕ) (j : Job S T H)
      → Valid j.target
      → length image ≤ p
      → WroteRest p d w j
          (write_blocks source target hasher (suc fuel) size (length image) sector p d w j)
  unfolding write_blocks
  no_rest fuel size p d w j valid all =
      let none_left : drop p image ≡ [] = drop_all p image all in
      let bare : padded sector (drop p image) ≡ [] =
        ap (padded sector) none_left ∙ padded-whole sector [] pos (omega arith) (zero-mod sector) in
      record {
        after = j;
        returns = rw (le→ltb p (length image) all) (
            ap (λ (n : ℕ). (ok (n, w), j)) {x = d} {y = d + (length image - p)} (omega arith)
            ∙ ap (λ (n : ℕ). (ok (d + (length image - p), n), j)) {x = w}
                {y = w + length (padded sector (drop p image))} (omega (arith, ap length bare)));
        same = record { valid = valid; sector = refl; size = refl };
        bytes = λ a. sym (written_nil (byte j.target) p (padded sector (drop p image)) a bare);
        hash =
            λ m h. subst (Holds j.hash) (sym (append_nil m) ∙ ap (λ xs. m ++ xs) (sym none_left)) h;
      }

  pub write_blocks-WroteRest :
      (fuel size p d w : ℕ) (j : Job S T H)
      → V j.source
      → at_source j.source ≡ p
      → p ≤ length image
      → size % sector ≡ 0
      → 0 < size
      → Valid j.target
      → target.logical_sector_size j.target ≡ sector
      → length image ≤ target.size j.target
      → (p < length image → (p % sector ≡ 0) × (at j.target ≡ p))
      → length image - p < fuel
      → WroteRest p d w j
          (write_blocks source target hasher fuel size (length image) sector p d w j)
  write_blocks-WroteRest zero size p d w j v here le whole some_size valid e fits ready f =
      absurd (omega arith)
  write_blocks-WroteRest (suc fuel) size p d w j v here le whole some_size valid e fits ready f =
      elim (dec_lt p (length image)) [
        | no all ↦ no_rest fuel size p d w j valid (omega arith)
        | yes more ↦
            let k = part size p whole le in
            let b = next_block-BlockCame size p j v here le in
            let wr =
              block-WroteAll size p j.target whole le fits valid e (ready more).0 (ready more).1 in
            let got = part_bytes size p in
            round_rest fuel size p d w j more k b (ready more).1 wr (
              write_blocks-WroteRest fuel size (p + length got) (d + length got)
                (w + length (padded sector got))
                (record {
                  source = b.next;
                  target = wr.next;
                  hash = hasher.update got j.hash;
                  events = advanced write_stage (d + length got) ∷ j.events;
                })
                b.valid (omega (arith, b.position, k.got_size)) (omega (arith, k.got_size)) whole
                some_size wr.same.valid (wr.same.sector ∙ e) (rw wr.same.size fits)
                (λ left. elim k.kind [
                  | inl (x, same) ↦ (
                    add_whole p (length got) sector (ready more).0 (rw k.got_size x),
                    omega (arith, wr.position, (ready more).1, k.got_size, k.out_size, same),
                  )
                  | inr (x, none_left) ↦ absurd (omega (arith, k.got_size))
                ])
                (omega (arith, k.got_size)))
      ]
