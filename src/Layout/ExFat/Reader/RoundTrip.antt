-- ===== src/Layout/ExFat/Reader/RoundTrip.antt =====
-- The reader of crates/burnout-layout/src/exfat/read.rs finds in an entry set what the writer of
-- crates/burnout-layout/src/exfat/entries.rs put there.
use native.Mathlib.Nat.{mod-eq_of_lt}
use burnout.Prelude.{
  ℕ, ◌+◌, ◌*◌, ◌/◌, ◌%◌, ◌^◌, ◌≤◌, ◌<◌, ◌≡◌, refl, ap, ◌∙◌, sym, Bool, Bool-cases, true, false, not,
  inl, inr, List, [], ◌++◌, length, take, drop, slice, get_or, set, arith, ◌==◌, ≡→==, ≢→==, le→ltb,
  div_ceil, le_value, le_value-le_bytes, drop_all,
}
use burnout.Core.Alignment.Rounding.{div_ceil_bounds}
use burnout.Core.Error.{ok}
use burnout.Core.Tree.{TreePath}
use burnout.Layout.ExFat.Sums.{set_checksum}
use burnout.Layout.ExFat.Sums.Skips.{checksums-stored, checksums_fit}
use burnout.Layout.ExFat.UpCase.Expanded.{AreUnits}
use burnout.Layout.ExFat.Entries.{
  Kind, dir_kind, file_kind, set_entries, file_entry, stream_entry, name_entries, file_set,
}
use burnout.Layout.ExFat.Reader.Sets.{
  has_bit, read_names, all_benign, read_units, read_hash, read_data, read_is_dir,
}
use burnout.Layout.ExFat.Reader.Names.{
  padded_names, read_names-name_entries, take-padded_names, length-name_entries,
}

abbrev pub is_dir : Kind → Bool
is_dir dir_kind = true
is_dir file_kind = false

-- The set before its checksum is put into it.
abbrev unsummed : List ℕ → ℕ → Kind → ℕ → ℕ → List ℕ
unsummed name hash kind first len =
    file_entry (div_ceil (length name) 15) kind
    ++ (stream_entry (length name) hash first len ++ name_entries (div_ceil (length name) 15) name)

module _ (name : List ℕ) (hash : ℕ) (kind : Kind) (first len : ℕ) where
  summed :
      set_checksum (file_set name hash kind first len)
      ≡ set_checksum (unsummed name hash kind first len)
  unfolding file_set file_entry stream_entry
  summed =
      let sum = set_checksum (unsummed name hash kind first len) in
      (checksums-stored (unsummed name hash kind first len) (sum % 256) (sum / 256 % 256) 0).0

  stored :
      le_value (slice 2 2 (file_set name hash kind first len))
      ≡ set_checksum (unsummed name hash kind first len)
  unfolding file_set file_entry stream_entry
  stored =
      le_value-le_bytes 2 (set_checksum (unsummed name hash kind first len))
        (checksums_fit (unsummed name hash kind first len)).1

  stream_part :
      slice 32 32 (file_set name hash kind first len) ≡ stream_entry (length name) hash first len
  unfolding file_set file_entry stream_entry
  stream_part = refl

  name_part :
      drop 64 (file_set name hash kind first len) ≡ name_entries (div_ceil (length name) 15) name
  unfolding file_set file_entry stream_entry
  name_part = refl

  length-file_set : length (file_set name hash kind first len) ≡ set_entries (length name) * 32
  unfolding file_set file_entry stream_entry set_entries
  length-file_set = omega (arith, length-name_entries (div_ceil (length name) 15) name)

none_after : (xs : List ℕ) → xs ≡ [] → all_benign (length xs / 32) xs ≡ true
unfolding all_benign
none_after xs e = rw e refl

read_units_step :
    (place : TreePath) (set stream units : List ℕ) (size : ℕ)
    → slice 32 32 set ≡ stream
    → get_or stream 3 0 ≡ size
    → set_checksum set ≡ le_value (slice 2 2 set)
    → get_or stream 0 0 ≡ 0xC0
    → has_bit (get_or stream 1 0) 1 ≡ true
    → 0 < size
    → length set ≡ (2 + div_ceil size 15) * 32
    → read_names place (div_ceil size 15) (drop 64 set) ≡ ok units
    → read_units place set ≡ ok (take size units)
unfolding read_units
read_units_step place set stream units size part named sum head flags pos all names =
    let benign =
      none_after (drop ((2 + div_ceil size 15) * 32) set)
        (drop_all ((2 + div_ceil size 15) * 32) set (omega (arith, all))) in
    rw part (
      rw named (
        rw (≡→== (set_checksum set) (le_value (slice 2 2 set)) sum) (
          rw head (
            rw flags (
              rw (≢→== size 0 (omega arith)) (
                rw (le→ltb (length set) ((2 + div_ceil size 15) * 32) (omega (arith, all)))
                  (rw names (rw benign refl))))))))

module _ (n hash first len : ℕ) where
  stream_head : get_or (stream_entry n hash first len) 0 0 ≡ 0xC0
  unfolding stream_entry
  stream_head = refl

  stream_size : n < 256 → get_or (stream_entry n hash first len) 3 0 ≡ n
  unfolding stream_entry
  stream_size h = mod-eq_of_lt h

  stream_bits :
      (has_bit (get_or (stream_entry n hash first len) 1 0) 1 ≡ true)
      × (has_bit (get_or (stream_entry n hash first len) 1 0) 2 ≡ not (first == 0))
  unfolding stream_entry
  stream_bits = elim (Bool-cases (first == 0)) [
    | inl e ↦ rw e (refl, refl)
    | inr e ↦ rw e (refl, refl)
  ]

-- The fields of an entry set that the writer makes.
pub file_set-fields :
    (place : TreePath) (name : List ℕ) (hash : ℕ) (kind : Kind) (first len : ℕ)
    → AreUnits name
    → 0 < length name
    → length name ≤ 255
    → hash < 2 ^ 16
    → first < 2 ^ 32
    → len < 2 ^ 64
    → (read_units place (file_set name hash kind first len) ≡ ok name)
      × (read_hash (file_set name hash kind first len) ≡ hash)
      × (read_data (file_set name hash kind first len)
          ≡ record { first = first; length = len; valid = len; contiguous = not (first == 0) })
      × (read_is_dir (file_set name hash kind first len) ≡ is_dir kind)
unfolding read_hash read_is_dir read_data set_entries file_set file_entry stream_entry
file_set-fields place name hash kind first len all some_name short h f l = (
  read_units_step place (file_set name hash kind first len)
        (stream_entry (length name) hash first len) (padded_names (div_ceil (length name) 15) name)
        (length name) (stream_part name hash kind first len)
        (stream_size (length name) hash first len (omega arith))
        (summed name hash kind first len ∙ sym (stored name hash kind first len))
        (stream_head (length name) hash first len) (stream_bits (length name) hash first len).0
        some_name (length-file_set name hash kind first len ∙ set_size)
        (ap (read_names place (div_ceil (length name) 15)) (name_part name hash kind first len)
          ∙ read_names-name_entries place (div_ceil (length name) 15) name all)
      ∙ ap ok (
          take-padded_names (div_ceil (length name) 15) name
            (div_ceil_bounds (length name) 15 (omega arith)).0),
  hash_eq,
  data_eq,
  kind_eq kind,
)
  where
    set_size : set_entries (length name) * 32 ≡ (2 + div_ceil (length name) 15) * 32
    set_size = refl

    hash_eq : read_hash (file_set name hash kind first len) ≡ hash
    hash_eq = le_value-le_bytes 2 hash h

    data_eq :
        read_data (file_set name hash kind first len)
        ≡ record { first = first; length = len; valid = len; contiguous = not (first == 0) }
    data_eq =
        let at_first = le_value-le_bytes 4 first f in
        let long = le_value-le_bytes 8 len l in
        let one_run = (stream_bits (length name) hash first len).1 in
        λ i. record { first = at_first i; length = long i; valid = long i; contiguous = one_run i }

    kind_eq : (k : Kind) → read_is_dir (file_set name hash k first len) ≡ is_dir k
    kind_eq dir_kind = refl
    kind_eq file_kind = refl
