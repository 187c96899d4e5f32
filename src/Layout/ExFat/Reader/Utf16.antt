-- ===== src/Layout/ExFat/Reader/Utf16.antt =====
-- `String::from_utf16`, which crates/burnout-layout/src/exfat/read.rs reads a name with, beside the
-- `char::encode_utf16` of crates/burnout-layout/src/exfat/entries.rs.
use burnout.Prelude.{
  ℕ, ◌+◌, ◌-◌, ◌*◌, ◌/◌, ◌%◌, ◌≤◌, ◌<◌, ◌≡◌, refl, ◌∙◌, true, false, ap, Bool, ◌&&◌, Option, none,
  some, List, [], ◌∷◌, ◌⊎◌, inl, inr, Bool-cases, arith, ltb, leb, if◌then◌else◌, ltb→lt, ltb→le,
}
use burnout.Layout.ExFat.UpCase.Expanded.{AreUnits}
use burnout.Layout.ExFat.Entries.{encode_utf16}

abbrev is_high : ℕ → Bool
is_high u = leb 0xD800 u && ltb u 0xDC00

abbrev is_low : ℕ → Bool
is_low u = leb 0xDC00 u && ltb u 0xE000

-- A code point before the others.
abbrev before : ℕ → Option (List ℕ) → Option (List ℕ)
before c none = none
before c (some cs) = some (c ∷ cs)

-- The rest of a text, after the first unit of a pair where there is one.
unfoldable pub decode : Option ℕ → List ℕ → Option (List ℕ)
decode none [] = some []
decode (some high) [] = none
decode none (u ∷ us) =
    let rest = decode (if is_high u then some u else none) us in
    if is_high u then rest else if is_low u then none else before u rest
decode (some high) (u ∷ us) =
    let rest = decode none us in
    if is_low u then before (0x10000 + (high - 0xD800) * 0x400 + (u - 0xDC00)) rest else none

abbrev pub from_utf16 : List ℕ → Option (List ℕ)
from_utf16 units = decode none units

-- The code points that a text can hold.
abbrev pub AreScalars : List ℕ → Type 0
AreScalars [] = Unit
AreScalars (c ∷ cs) = ((c < 0xD800) ⊎ ((0xE000 ≤ c) × (c < 0x110000))) × AreScalars cs

decode_low :
    (c : ℕ) (units : List ℕ)
    → (c < 0xD800) ⊎ ((0xE000 ≤ c) × (c < 0x110000))
    → c < 0x10000
    → decode none (c ∷ units) ≡ before c (decode none units)
unfolding decode
decode_low c units h small =
    let high : is_high c ≡ false = ground (arith, h) in
    let low : is_low c ≡ false = ground (arith, h) in rw (high, low) refl

decode_pair :
    (c : ℕ) (units : List ℕ)
    → 0x10000 ≤ c
    → c < 0x110000
    → decode none ((0xD800 + (c - 0x10000) / 0x400) ∷ (0xDC00 + (c - 0x10000) % 0x400) ∷ units)
      ≡ before c (decode none units)
unfolding decode
decode_pair c units big small =
    let high : is_high (0xD800 + (c - 0x10000) / 0x400) ≡ true = ground arith in
    let low : is_low (0xDC00 + (c - 0x10000) % 0x400) ≡ true = ground arith in
    let joined : 0x10000
          + (0xD800 + (c - 0x10000) / 0x400 - 0xD800) * 0x400
          + (0xDC00 + (c - 0x10000) % 0x400 - 0xDC00)
        ≡ c =
      omega arith in
    rw (high, low) (ap (λ (n : ℕ). before n (decode none units)) joined)

pub from_utf16-encode_utf16 : (cs : List ℕ) → AreScalars cs → from_utf16 (encode_utf16 cs) ≡ some cs
unfolding decode
from_utf16-encode_utf16 [] h = refl
from_utf16-encode_utf16 (c ∷ cs) h =
    let rest = ap (before c) (from_utf16-encode_utf16 cs h.1) in
    elim (Bool-cases (ltb c 0x10000)) [
      | inl small ↦ rw small (decode_low c (encode_utf16 cs) h.0 (ltb→lt c 0x10000 small) ∙ rest)
      | inr big ↦
          rw big
            (decode_pair c (encode_utf16 cs) (ltb→le c 0x10000 big) (omega (arith, h.0)) ∙ rest)
    ]

pub encode_utf16-AreUnits : (cs : List ℕ) → AreScalars cs → AreUnits (encode_utf16 cs)
encode_utf16-AreUnits [] h = tt
encode_utf16-AreUnits (c ∷ cs) h = elim (Bool-cases (ltb c 0x10000)) [
  | inl small ↦ rw small (ltb→lt c 0x10000 small, encode_utf16-AreUnits cs h.1)
  | inr big ↦ rw big (omega (arith, h.0), (omega (arith, h.0), encode_utf16-AreUnits cs h.1))
]
