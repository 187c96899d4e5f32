-- ===== src/Layout/ExFat/UpCase.antt =====
-- crates/burnout-layout/src/exfat/upcase.rs: the up-case table of exFAT.
pub mod Table
pub mod Expanded
mod Tests
use burnout.Prelude.{
  ℕ, zero, suc, ◌+◌, ◌-◌, ◌*◌, ◌%◌, ◌^◌, Bool, true, false, not, ◌&&◌, ◌||◌, Option, none, some,
  List, [], ◌∷◌, ◌++◌, length, get_or, ltb, leb, ◌==◌, if◌then◌else◌,
}
use burnout.Layout.ExFat.Sums.{unit_bytes}
use burnout.Layout.ExFat.UpCase.Table.{recommended_table}

abbrev pub recommended_checksum : ℕ
recommended_checksum = 0xE619D30D

-- The number of UTF-16 units, and the entry that starts a run.
abbrev pub units : ℕ
units = 65536

abbrev pub run : ℕ
run = 65535

unfoldable pub recommended_bytes : List ℕ
recommended_bytes = unit_bytes recommended_table

-- `(from..from + n)` as units, each its own upper case.
unfoldable pub own : ℕ → ℕ → List ℕ
own from zero = []
own from (suc n) = from ∷ own (from + 1) n

-- These units, and then what the rest of the table gives.
abbrev pub before : List ℕ → Option (List ℕ) → Option (List ℕ)
before us none = none
before us (some rest) = some (us ++ rest)

-- The rest of the map, from its unit `at` on. What `expand` pushes is put in front of what the rest of
-- the table gives.
unfoldable pub expand_from : ℕ → List ℕ → Option (List ℕ)
unfolding own
expand_from at [] = some (own at (units - at))
expand_from at (entry ∷ []) =
    if at == units
    then none
    else if entry == at || not (entry == run)
    then some (entry ∷ own (at + 1) (units - (at + 1)))
    else none
expand_from at (entry ∷ count ∷ table) =
    let single = expand_from (at + 1) (count ∷ table) in
    let many = expand_from (at + count) table in
    if at == units
    then none
    else if entry == at || not (entry == run)
    then before (entry ∷ []) single
    else if ltb units (at + count)
    then none
    else before (own at count) many

unfoldable pub expand : List ℕ → Option (List ℕ)
unfolding expand_from
expand table = expand_from 0 table

unfoldable pub ascii_upper : ℕ → ℕ
ascii_upper unit = if leb 0x61 unit && leb unit 0x7A then unit - 0x20 else unit

-- The first units, from `at` on, map as the specification requires.
unfoldable pub mandatory : ℕ → ℕ → List ℕ → Bool
unfolding ascii_upper
mandatory zero at map = true
mandatory (suc n) at map = get_or map at 0 == ascii_upper at && mandatory n (at + 1) map

-- A map whose first 128 units are as they must be.
unfoldable pub checked : Option (List ℕ) → Option (List ℕ)
unfolding mandatory
checked none = none
checked (some map) = if mandatory 128 0 map then some map else none

unfoldable pub from_table : List ℕ → Option (List ℕ)
unfolding expand checked
from_table table = checked (expand table)

-- `chunks_exact(2)` as units.
unfoldable pub table_units : List ℕ → List ℕ
table_units [] = []
table_units (b ∷ []) = []
table_units (lo ∷ hi ∷ bytes) = (lo + 256 * hi) ∷ table_units bytes

unfoldable pub from_bytes : List ℕ → Option (List ℕ)
unfolding from_table table_units
from_bytes bytes = if length bytes % 2 == 0 then from_table (table_units bytes) else none

-- `UpCase::unit` and `UpCase::name` of a full map.
unfoldable pub unit : List ℕ → ℕ → ℕ
unit map u = get_or map u 0

unfoldable pub upcase_name : List ℕ → List ℕ → List ℕ
unfolding unit
upcase_name map [] = []
upcase_name map (u ∷ name) = unit map u ∷ upcase_name map name
