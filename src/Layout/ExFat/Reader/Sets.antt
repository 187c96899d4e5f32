-- ===== src/Layout/ExFat/Reader/Sets.antt =====
-- What one entry set says, from `Volume::read_set` of crates/burnout-layout/src/exfat/read.rs.
use Prim.Native.String.{String}
use burnout.Prelude.{
  ℕ, zero, suc, ◌+◌, ◌*◌, ◌/◌, ◌%◌, Bool, true, false, not, ◌&&◌, ◌||◌, List, [], ◌++◌, length,
  take, drop, slice, get_or, ltb, ◌==◌, div_ceil, le_value,
}
use burnout.Core.Error.{Result, ok, err, ◌>>=◌, ◌>>◌, volume_differs}
use burnout.Core.Tree.{TreePath}
use burnout.Layout.ExFat.Sums.{set_checksum}
use burnout.Layout.ExFat.UpCase.{table_units}

pub record Data : Type 0 where
  pub first : ℕ
  pub length : ℕ
  pub valid : ℕ
  pub contiguous : Bool

-- `x & 2^n != 0`.
abbrev pub has_bit : ℕ → ℕ → Bool
has_bit x unit = x / unit % 2 == 1

-- A check, with the error of a place and what differs there.
abbrev pub must : Bool → TreePath → String → Result (Unit {0})
must true place detail = ok tt
must false place detail = err (volume_differs place detail)

-- The units of `n` name entries.
unfoldable pub read_names : TreePath → ℕ → List ℕ → Result (List ℕ)
unfolding table_units
read_names place zero entries = ok []
read_names place (suc n) entries =
    let entry = take 32 entries in
    let rest = read_names place n (drop 32 entries) in
    must (get_or entry 0 0 == 0xC1) place "an entry set has too few name entries for its name"
    >> (rest >>= λ units. ok (table_units (drop 2 entry) ++ units))

-- The entries after the name, which a reader may skip. The fuel is their number.
unfoldable pub all_benign : ℕ → List ℕ → Bool
all_benign zero entries = true
all_benign (suc n) entries = has_bit (get_or entries 0 0) 0x20 && all_benign n (drop 32 entries)

-- The units of the name of a set, from its checksum on. `place` is the directory.
unfoldable pub read_units : TreePath → List ℕ → Result (List ℕ)
unfolding read_names all_benign set_checksum
read_units place set =
    let stream = slice 32 32 set in
    let name_length = get_or stream 3 0 in
    let name_entries = div_ceil name_length 15 in
    let after = drop ((2 + name_entries) * 32) set in
    must (set_checksum set == le_value (slice 2 2 set)) place
      "an entry set does not have the checksum it records"
    >> (must (get_or stream 0 0 == 0xC0 && has_bit (get_or stream 1 0) 1) place
          "an entry set has no stream extension after its file entry"
        >> (must (not (name_length == 0 || ltb (length set) ((2 + name_entries) * 32))) place
              "an entry set has too few name entries for its name"
            >> (read_names place name_entries (drop 64 set) >>= λ units.
                must (all_benign (length after / 32) after) place
                  "an entry set holds a critical entry that exFAT 1.00 does not name"
                >> ok (take name_length units))))

unfoldable pub read_hash : List ℕ → ℕ
read_hash set = le_value (slice 4 2 (slice 32 32 set))

unfoldable pub read_data : List ℕ → Data
read_data set =
    let stream = slice 32 32 set in
    record {
      first = le_value (slice 20 4 stream);
      length = le_value (slice 24 8 stream);
      valid = le_value (slice 8 8 stream);
      contiguous = has_bit (get_or stream 1 0) 2;
    }

unfoldable pub read_is_dir : List ℕ → Bool
read_is_dir set = has_bit (le_value (slice 4 2 set)) 0x10
