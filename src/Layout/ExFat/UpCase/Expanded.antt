-- ===== src/Layout/ExFat/UpCase/Expanded.antt =====
-- What `expand` of crates/burnout-layout/src/exfat/upcase.rs gives is a map of every unit to a unit.
use native.Mathlib.Decide.{dec_lt}
use burnout.Prelude.{
  ℕ, zero, suc, ◌+◌, ◌-◌, ◌≤◌, ◌<◌, ◌≡◌, refl, ap, Bool, Bool-cases, true, not, ◌&&◌, ◌||◌, inl,
  inr, Option, none, some, List, [], ◌∷◌, ◌++◌, length, get_or, arith, ltb, ◌==◌, ltb→le, ==→≡,
  ==→≢, length-append,
}
use burnout.Layout.ExFat.UpCase.{
  units, run, own, before, expand_from, expand, ascii_upper, mandatory, checked, from_table, unit,
}

-- Every number of the list is a unit.
abbrev pub AreUnits : List ℕ → Type 0
AreUnits [] = Unit
AreUnits (u ∷ us) = (u < units) × AreUnits us

AreUnits-append : (xs ys : List ℕ) → AreUnits xs → AreUnits ys → AreUnits (xs ++ ys)
AreUnits-append [] ys h k = k
AreUnits-append (x ∷ xs) ys h k = (h.0, AreUnits-append xs ys h.1 k)

length-own : (from n : ℕ) → length (own from n) ≡ n
unfolding own
length-own from zero = refl
length-own from (suc n) = ap suc (length-own (from + 1) n)

own-AreUnits : (from n : ℕ) → from + n ≤ units → AreUnits (own from n)
unfolding own
own-AreUnits from zero h = tt
own-AreUnits from (suc n) h = (omega arith, own-AreUnits (from + 1) n (omega arith))

-- A map of the units from `at` on.
pub record IsMap (at : ℕ) (map : List ℕ) : Type 0 where
  pub size : at + length map ≡ units
  pub are_units : AreUnits map

some-injective : {x y : List ℕ} → some x ≡ some y → x ≡ y
some-injective p = cc

before-IsMap :
    (at n : ℕ) (us : List ℕ) (rest : Option (List ℕ)) (map : List ℕ)
    → length us ≡ n
    → AreUnits us
    → ((later : List ℕ) → rest ≡ some later → IsMap (at + n) later)
    → before us rest ≡ some map
    → IsMap at map
before-IsMap at n us none map size all step h = cc
before-IsMap at n us (some rest) map size all step h =
    let later = step rest refl in
    let e : us ++ rest ≡ map = some-injective h in
    rw (← e) (record {
      size = omega (arith, length-append us rest, size, later.size);
      are_units = AreUnits-append us rest all later.are_units;
    })

the_rest :
    (at : ℕ) (us map : List ℕ)
    → at + length us ≡ units
    → AreUnits us
    → some us ≡ some map
    → IsMap at map
the_rest at us map size all h = rw (← some-injective h) (record { size = size; are_units = all })

expand_from-IsMap :
    (at : ℕ) (table map : List ℕ)
    → AreUnits table
    → at ≤ units
    → expand_from at table ≡ some map
    → IsMap at map
unfolding expand_from
expand_from-IsMap at [] map all le h =
    the_rest at (own at (units - at)) map (omega (arith, length-own at (units - at)))
      (own-AreUnits at (units - at) (omega arith)) h
expand_from-IsMap at (entry ∷ []) map all le h = elim (Bool-cases (at == units)) [
  | inl full ↦ cc (rw full at h)
  | inr more ↦ elim (Bool-cases (entry == at || not (entry == run))) [
    | inl single ↦
        the_rest at (entry ∷ own (at + 1) (units - (at + 1))) map
          (omega (arith, length-own (at + 1) (units - (at + 1)), ==→≢ at units more))
          (all.0, own-AreUnits (at + 1) (units - (at + 1)) (omega (arith, ==→≢ at units more)))
          (rw single at rw more at h)
    | inr starts ↦ cc (rw starts at rw more at h)
  ]
]
expand_from-IsMap at (entry ∷ count ∷ table) map all le h = elim (Bool-cases (at == units)) [
  | inl full ↦ cc (rw full at h)
  | inr more ↦
      let below : at < units = omega (arith, ==→≢ at units more) in
      elim (Bool-cases (entry == at || not (entry == run))) [
        | inl single ↦
            before-IsMap at 1 (entry ∷ []) (expand_from (at + 1) (count ∷ table)) map refl
              (all.0, tt)
              (λ later e. expand_from-IsMap (at + 1) (count ∷ table) later all.1 (omega arith) e)
              (rw single at rw more at h)
        | inr starts ↦ elim (Bool-cases (ltb units (at + count))) [
          | inl past ↦ cc (rw past at rw starts at rw more at h)
          | inr inside ↦
              let fits : at + count ≤ units = ltb→le units (at + count) inside in
              before-IsMap at count (own at count) (expand_from (at + count) table) map
                (length-own at count) (own-AreUnits at count fits)
                (λ later e. expand_from-IsMap (at + count) table later all.1.1 fits e)
                (rw inside at rw starts at rw more at h)
        ]
      ]
]

mandatory_lem :
    (n at : ℕ) (map : List ℕ)
    → mandatory n at map ≡ true
    → (u : ℕ) → at ≤ u
    → u < at + n
    → unit map u ≡ ascii_upper u
unfolding mandatory unit
mandatory_lem zero at map h u le lt = absurd (omega arith)
mandatory_lem (suc n) at map h u le lt = elim (dec_lt at u) [
  | yes later ↦
      mandatory_lem n (at + 1) map (both (get_or map at 0 == ascii_upper at) _ h).1 u (omega arith)
        (omega arith)
  | no here ↦
      let e : u ≡ at = omega arith in
      rw e
        (==→≡ (get_or map at 0) (ascii_upper at) (both (get_or map at 0 == ascii_upper at) _ h).0)
]
  where
    both : (a b : Bool) → (a && b) ≡ true → (a ≡ true) × (b ≡ true)
    both a b q = ground arith

checked-IsMap :
    (expanded : Option (List ℕ)) (map : List ℕ)
    → ((m : List ℕ) → expanded ≡ some m → IsMap 0 m)
    → checked expanded ≡ some map
    → (length map ≡ units) × AreUnits map × ((u : ℕ) → u < 128 → unit map u ≡ ascii_upper u)
unfolding checked
checked-IsMap none map is_map h = cc
checked-IsMap (some m) map is_map h = elim (Bool-cases (mandatory 128 0 m)) [
  | inr other ↦ cc (rw other at h)
  | inl passed ↦
      let same : m ≡ map = some-injective (rw passed at h) in
      let k = is_map m refl in
      rw (← same) (
        omega (arith, k.size),
        k.are_units,
        λ u lt. mandatory_lem 128 0 m passed u (omega arith) (omega arith),
      )
]

-- A table that is taken maps each of the 65,536 units to a unit, and each of the first 128 to its upper
-- case in ASCII.
pub from_table-IsMap :
    (table map : List ℕ)
    → AreUnits table
    → from_table table ≡ some map
    → (length map ≡ units) × AreUnits map × ((u : ℕ) → u < 128 → unit map u ≡ ascii_upper u)
unfolding from_table expand
from_table-IsMap table map all h =
    checked-IsMap (expand_from 0 table) map (λ m e. expand_from-IsMap 0 table m all (omega arith) e)
      h
