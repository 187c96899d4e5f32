-- ===== src/Layout/ExFat/Reader/Signed.antt =====
-- The sectors of the boot region of crates/burnout-layout/src/exfat/boot.rs that end in the boot signature, as
-- crates/burnout-layout/src/exfat/read.rs checks them.
use burnout.Prelude.{
  ℕ, zero, suc, ◌+◌, ◌-◌, ◌*◌, ◌^◌, ◌≤◌, ◌<◌, ◌≡◌, refl, ap, ◌∙◌, sym, true, List, [], ◌∷◌, ◌++◌,
  length, replicate, take, slice, arith, ≡→==, le_bytes, le_value, le_value-le_bytes, same_list,
  length-append, length-replicate, take-append_whole, drop-append_whole, append_assoc,
}
use burnout.Layout.ExFat.Boot.{extended_sector, repeat}
use burnout.Layout.ExFat.Reader.Region.{all_signed, all_record}

pub length-repeat :
    (n : ℕ) (part : List ℕ) (k : ℕ) → length part ≡ k → length (repeat n part) ≡ n * k
unfolding repeat
length-repeat zero part k e = omega arith
length-repeat (suc n) part k e =
    omega (arith, length-append part (repeat n part), e, length-repeat n part k e)

pub all_record-repeat :
    (n sum : ℕ) → sum < 2 ^ 32 → all_record n sum (repeat n (le_bytes 4 sum)) ≡ true
unfolding all_record repeat
all_record-repeat zero sum h = refl
all_record-repeat (suc n) sum h =
    rw (≡→== (le_value (le_bytes 4 sum)) sum (le_value-le_bytes 4 sum h))
      (all_record-repeat n sum h)

pub length-extended : (s : ℕ) → 512 ≤ s → length (extended_sector s) ≡ s
unfolding extended_sector
length-extended s h = omega (
  arith,
  length-append (replicate {A = ℕ} (s - 4) 0) (0x00 ∷ 0x00 ∷ 0x55 ∷ 0xAA ∷ []),
  length-replicate {A = ℕ} (s - 4) 0,
)

slice_behind :
    (p n : ℕ) (before part after : List ℕ)
    → length before ≡ p
    → length part ≡ n
    → slice p n (before ++ (part ++ after)) ≡ part
slice_behind p n before part after e f =
    ap (take n) (drop-append_whole p before (part ++ after) e) ∙ take-append_whole n part after f

abbrev signature : List ℕ
signature = 0x00 ∷ 0x00 ∷ 0x55 ∷ 0xAA ∷ []

signed_step :
    (n number s : ℕ) (region : List ℕ)
    → slice ((number + 1) * s - 4) 4 region ≡ signature
    → all_signed n (number + 1) s region ≡ true
    → all_signed (suc n) number s region ≡ true
unfolding all_signed same_list
signed_step n number s region e h = rw (e, h) refl

signed_none : (number s : ℕ) (region : List ℕ) → all_signed zero number s region ≡ true
unfolding all_signed
signed_none number s region = refl

-- The last four bytes of an extended sector behind `before`.
signed_end :
    (number s : ℕ) (before more after region : List ℕ)
    → 512 ≤ s
    → length before ≡ number * s
    → region ≡ before ++ ((extended_sector s ++ more) ++ after)
    → slice ((number + 1) * s - 4) 4 region ≡ signature
unfolding extended_sector
signed_end number s before more after region le size e =
    let zeros : List ℕ = replicate (s - 4) 0 in
    let parts : region ≡ (before ++ zeros) ++ (signature ++ (more ++ after)) =
      e
      ∙ ap (λ xs. before ++ xs)
          (append_assoc (zeros ++ signature) more after
            ∙ append_assoc zeros signature (more ++ after))
      ∙ sym (append_assoc before zeros (signature ++ (more ++ after))) in
    ap (slice ((number + 1) * s - 4) 4) parts
    ∙ slice_behind ((number + 1) * s - 4) 4 (before ++ zeros) signature (more ++ after)
        (omega (arith, length-append before zeros, size, length-replicate {A = ℕ} (s - 4) 0)) refl

pub all_signed-repeat :
    (n number s : ℕ) (before after region : List ℕ)
    → 512 ≤ s
    → length before ≡ number * s
    → region ≡ before ++ (repeat n (extended_sector s) ++ after)
    → all_signed n number s region ≡ true
unfolding repeat
all_signed-repeat zero number s before after region le size e = signed_none number s region
all_signed-repeat (suc n) number s before after region le size e =
    signed_step n number s region
      (signed_end number s before (repeat n (extended_sector s)) after region le size e)
      (all_signed-repeat n (number + 1) s (before ++ extended_sector s) after region le
        (omega (arith, length-append before (extended_sector s), size, length-extended s le))
        (e
          ∙ ap (λ xs. before ++ xs)
              (append_assoc (extended_sector s) (repeat n (extended_sector s)) after)
          ∙ sym (append_assoc before (extended_sector s) (repeat n (extended_sector s) ++ after))))
