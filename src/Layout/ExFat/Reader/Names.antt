-- ===== src/Layout/ExFat/Reader/Names.antt =====
-- The name entries that crates/burnout-layout/src/exfat/entries.rs makes, as
-- crates/burnout-layout/src/exfat/read.rs reads them.
use mathlib.Core.Path.{ap₂}
use native.Mathlib.Decide.{dec_lt}
use burnout.Prelude.{
  ℕ, zero, suc, ◌+◌, ◌-◌, ◌*◌, ◌/◌, ◌%◌, ◌≤◌, ◌≡◌, refl, ap, ◌∙◌, List, [], ◌∷◌, ◌++◌, length,
  replicate, take, drop, overlay, copy_at, get_or, arith, length-append, length-take, length-drop,
  length-copy_at, take_all, take-append_whole, drop-append_whole, take-append_more, append_nil,
  append_assoc, take-drop,
}
use burnout.Core.Error.{ok}
use burnout.Core.Tree.{TreePath}
use burnout.Layout.ExFat.Sums.{unit_bytes}
use burnout.Layout.ExFat.UpCase.{table_units}
use burnout.Layout.ExFat.UpCase.Expanded.{AreUnits}
use burnout.Layout.ExFat.Entries.{name_entry, name_entries, blank}
use burnout.Layout.ExFat.Reader.Sets.{read_names}

-- Two zeros for each of `k` units.
abbrev pairs : ℕ → List ℕ
pairs zero = []
pairs (suc k) = 0 ∷ 0 ∷ pairs k

pairs_units : (k : ℕ) → table_units (pairs k) ≡ replicate k 0
unfolding table_units
pairs_units zero = refl
pairs_units (suc k) = ap (λ us. 0 ∷ us) (pairs_units k)

-- The units of a name entry, and zeros up to 15.
units_overlay :
    (k : ℕ) (part : List ℕ)
    → AreUnits part
    → length part ≤ k
    → table_units (overlay (unit_bytes part) (pairs k)) ≡ part ++ replicate (k - length part) 0
unfolding table_units unit_bytes
units_overlay k [] all h =
    pairs_units k ∙ ap (λ (n : ℕ). replicate n 0) {x = k} {y = k - 0} (omega arith)
units_overlay zero (u ∷ part) all h = absurd (omega arith)
units_overlay (suc k) (u ∷ part) all h =
    ap₂ (λ (v : ℕ) vs. v ∷ vs) {x = u % 256 + 256 * (u / 256 % 256)} {y = u} (omega arith)
      (units_overlay k part all.1 (omega arith)
        ∙ ap (λ (n : ℕ). part ++ replicate n 0) {x = k - length part}
            {y = suc k - suc (length part)} (omega arith))

pub padded_part : List ℕ → List ℕ
padded_part part = part ++ replicate (15 - length part) 0

abbrev pub padded_names : ℕ → List ℕ → List ℕ
padded_names zero name = []
padded_names (suc n) name = padded_part (take 15 name) ++ padded_names n (drop 15 name)

name_entry-units :
    (part : List ℕ)
    → AreUnits part
    → length part ≤ 15
    → table_units (drop 2 (name_entry part)) ≡ padded_part part
unfolding name_entry padded_part
name_entry-units part all h = units_overlay 15 part all h

length-name_entry : (part : List ℕ) → length (name_entry part) ≡ 32
unfolding name_entry
length-name_entry part = length-copy_at 2 (unit_bytes part) (copy_at 0 (0xC1 ∷ []) blank)

name_entry_head : (part : List ℕ) → get_or (name_entry part) 0 0 ≡ 0xC1
unfolding name_entry
name_entry_head part = refl

pub length-name_entries : (n : ℕ) (name : List ℕ) → length (name_entries n name) ≡ n * 32
unfolding name_entries
length-name_entries zero name = refl
length-name_entries (suc n) name = omega (
  arith,
  length-append (name_entry (take 15 name)) (name_entries n (drop 15 name)),
  length-name_entry (take 15 name),
  length-name_entries n (drop 15 name),
)

AreUnits-take : (n : ℕ) (xs : List ℕ) → AreUnits xs → AreUnits (take n xs)
AreUnits-take zero xs h = tt
AreUnits-take (suc n) [] h = tt
AreUnits-take (suc n) (x ∷ xs) h = (h.0, AreUnits-take n xs h.1)

AreUnits-drop : (n : ℕ) (xs : List ℕ) → AreUnits xs → AreUnits (drop n xs)
AreUnits-drop zero xs h = h
AreUnits-drop (suc n) [] h = tt
AreUnits-drop (suc n) (x ∷ xs) h = AreUnits-drop n xs h.1

read_names_step :
    (place : TreePath) (n : ℕ) (entry more us units : List ℕ)
    → length entry ≡ 32
    → get_or entry 0 0 ≡ 0xC1
    → table_units (drop 2 entry) ≡ us
    → read_names place n more ≡ ok units
    → read_names place (suc n) (entry ++ more) ≡ ok (us ++ units)
unfolding read_names
read_names_step place n entry more us units size head here later =
    rw
      (
        take-append_whole 32 entry more size,
        drop-append_whole 32 entry more size,
        head,
        later,
        here,
      )
      refl

read_names_none : (place : TreePath) → read_names place zero [] ≡ ok []
unfolding read_names
read_names_none place = refl

pub read_names-name_entries :
    (place : TreePath) (n : ℕ) (name : List ℕ)
    → AreUnits name
    → read_names place n (name_entries n name) ≡ ok (padded_names n name)
unfolding name_entries
read_names-name_entries place zero name all = read_names_none place
read_names-name_entries place (suc n) name all =
    read_names_step place n (name_entry (take 15 name)) (name_entries n (drop 15 name))
      (padded_part (take 15 name)) (padded_names n (drop 15 name))
      (length-name_entry (take 15 name)) (name_entry_head (take 15 name))
      (name_entry-units (take 15 name) (AreUnits-take 15 name all)
        (omega (arith, length-take 15 name)))
      (read_names-name_entries place n (drop 15 name) (AreUnits-drop 15 name all))

padded_whole : (part : List ℕ) → length part ≡ 15 → padded_part part ≡ part
unfolding padded_part
padded_whole part e =
    ap (λ (n : ℕ). part ++ replicate n 0) {x = 15 - length part} {y = 0} (omega (arith, e))
    ∙ append_nil part

padded_short : (name more : List ℕ) → take (length name) (padded_part name ++ more) ≡ name
unfolding padded_part
padded_short name more =
    ap (take (length name)) (append_assoc name (replicate (15 - length name) 0) more)
    ∙ take-append_whole (length name) name (replicate (15 - length name) 0 ++ more) refl

padded_long :
    (name part more rest : List ℕ)
    → length part ≡ 15
    → 15 ≤ length name
    → part ++ rest ≡ name
    → take (length rest) more ≡ rest
    → take (length name) (padded_part part ++ more) ≡ name
padded_long name part more rest size le parts later =
    let whole = padded_whole part size in
    let left : length name - length part ≡ length rest =
      omega (arith, ap length parts, length-append part rest) in
    ap (λ xs. take (length name) (xs ++ more)) whole
    ∙ take-append_more (length name) part more (omega (arith, size))
    ∙ ap (λ xs. part ++ xs) (ap (λ (n : ℕ). take n more) left ∙ later)
    ∙ parts

pub take-padded_names :
    (n : ℕ) (name : List ℕ) → length name ≤ n * 15 → take (length name) (padded_names n name) ≡ name
take-padded_names zero [] h = refl
take-padded_names zero (x ∷ name) h = absurd (omega arith)
take-padded_names (suc n) name h = elim (dec_lt 15 (length name)) [
  | no few ↦
      ap (λ xs. take (length name) (padded_part xs ++ padded_names n (drop 15 name)))
        (take_all 15 name (omega arith))
      ∙ padded_short name (padded_names n (drop 15 name))
  | yes many ↦
      padded_long name (take 15 name) (padded_names n (drop 15 name)) (drop 15 name)
        (omega (arith, length-take 15 name)) (omega arith) (take-drop 15 name)
        (take-padded_names n (drop 15 name) (omega (arith, length-drop 15 name)))
]
