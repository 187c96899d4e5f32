-- ===== src/Layout/ExFat/Entries.antt =====
-- crates/burnout-layout/src/exfat/entries.rs: the directory entries of exFAT, and the rules for a name. A
-- text is the list of its code points.
mod Tests
use burnout.Prelude.{
  ℕ, zero, suc, ◌+◌, ◌-◌, ◌*◌, ◌/◌, ◌%◌, ◌^◌, Bool, true, false, not, ◌&&◌, ◌||◌, Option, none,
  some, List, [], ◌∷◌, ◌++◌, length, replicate, take, drop, copy_at, ltb, leb, ◌==◌, if◌then◌else◌,
  div_ceil, le_bytes, u8,
}
use burnout.Core.Error.{Detail, bad_character, name_length}
use burnout.Layout.ExFat.Sums.{set_checksum, unit_bytes}

abbrev pub entry_bytes : ℕ
entry_bytes = 32

abbrev pub bitmap_type : ℕ
bitmap_type = 0x81

abbrev pub upcase_type : ℕ
upcase_type = 0x82

abbrev pub label_type : ℕ
label_type = 0x83

abbrev pub file_type : ℕ
file_type = 0x85

abbrev pub stream_type : ℕ
stream_type = 0xC0

abbrev pub name_type : ℕ
name_type = 0xC1

abbrev pub directory_attribute : ℕ
directory_attribute = 0x10

abbrev pub archive_attribute : ℕ
archive_attribute = 0x20

abbrev pub units_per_entry : ℕ
units_per_entry = 15

abbrev pub max_name_units : ℕ
max_name_units = 255

abbrev pub max_label_units : ℕ
max_label_units = 11

-- `(1 << 21) | (1 << 16)`.
abbrev pub fat_epoch : ℕ
fat_epoch = 2 ^ 21 + 2 ^ 16

pub data Kind : Type 0 where
  dir_kind file_kind : Kind

abbrev pub blank : List ℕ
blank = replicate 32 0

unfoldable pub bitmap_entry : ℕ → ℕ → List ℕ
bitmap_entry first_cluster bytes =
    copy_at 24 (le_bytes 8 bytes)
      (copy_at 20 (le_bytes 4 first_cluster) (copy_at 0 (bitmap_type ∷ []) blank))

unfoldable pub upcase_entry : ℕ → ℕ → ℕ → List ℕ
upcase_entry checksum first_cluster bytes = copy_at 24 (le_bytes 8 bytes) (
    copy_at 20 (le_bytes 4 first_cluster)
      (copy_at 4 (le_bytes 4 checksum) (copy_at 0 (upcase_type ∷ []) blank)))

-- Whether a name of exFAT can hold this character.
unfoldable pub fits_a_name : ℕ → Bool
fits_a_name c = not (
    ltb c b' '
    || (c == b'"'
        || (c == b'*'
            || (c == b'/'
                || (c == b':'
                    || (c == b'<' || (c == b'>' || (c == b'?' || (c == 92 || c == b'|')))))))))

-- `char::encode_utf16`.
abbrev pub encode : ℕ → List ℕ
encode c =
    if ltb c 0x10000
    then c ∷ []
    else (0xD800 + (c - 0x10000) / 0x400) ∷ (0xDC00 + (c - 0x10000) % 0x400) ∷ []

abbrev pub encode_utf16 : List ℕ → List ℕ
encode_utf16 [] = []
encode_utf16 (c ∷ cs) = encode c ++ encode_utf16 cs

-- The first character that a name cannot hold.
unfoldable pub find_bad : List ℕ → Option ℕ
unfolding fits_a_name
find_bad [] = none
find_bad (c ∷ cs) = if fits_a_name c then find_bad cs else some c

pub data Named : Type 0 where
  named : List ℕ → Named
  refused : Detail → Named

unfoldable pub name_units : List ℕ → Named
unfolding find_bad
name_units name =
    let units = encode_utf16 name in
    elim (find_bad name) [
      | some bad ↦ refused (bad_character bad)
      | none ↦
          if length units == 0 || ltb max_name_units (length units)
          then refused (name_length (length units))
          else named units
    ]

-- The units of a label from its characters: those that fit, `_` for a character that a name cannot hold.
unfoldable pub label_units_from : ℕ → List ℕ → List ℕ
unfolding fits_a_name
label_units_from taken [] = []
label_units_from taken (c ∷ cs) =
    let put = encode (if fits_a_name c then c else b'_') in
    let rest = label_units_from (taken + length put) cs in
    if ltb max_label_units (taken + length put) then [] else put ++ rest

-- The label is trimmed before it comes here: `str::trim` is the host's.
unfoldable pub label_entry : List ℕ → Option (List ℕ)
unfolding label_units_from
label_entry trimmed =
    let units = label_units_from 0 trimmed in
    if length units == 0
    then none
    else some (
        copy_at 2 (unit_bytes units)
          (copy_at 1 (u8 (length units) ∷ []) (copy_at 0 (label_type ∷ []) blank)))

unfoldable pub set_entries : ℕ → ℕ
set_entries name_units = 2 + div_ceil name_units units_per_entry

abbrev pub attributes : Kind → ℕ
attributes dir_kind = directory_attribute
attributes file_kind = archive_attribute

-- The first entry of a set, with the number of the entries that follow it.
unfoldable pub file_entry : ℕ → Kind → List ℕ
file_entry names kind = copy_at 16 (le_bytes 4 fat_epoch) (
    copy_at 12 (le_bytes 4 fat_epoch) (
      copy_at 8 (le_bytes 4 fat_epoch) (
        copy_at 4 (le_bytes 2 (attributes kind))
          (copy_at 1 (u8 (1 + names) ∷ []) (copy_at 0 (file_type ∷ []) blank)))))

-- `ALLOCATION_POSSIBLE`, with `NO_FAT_CHAIN` where there is a cluster.
abbrev pub stream_flags : ℕ → ℕ
stream_flags first_cluster = if first_cluster == 0 then 1 else 3

unfoldable pub stream_entry : ℕ → ℕ → ℕ → ℕ → List ℕ
stream_entry name_units hash first_cluster data_length = copy_at 24 (le_bytes 8 data_length) (
    copy_at 20 (le_bytes 4 first_cluster) (
      copy_at 8 (le_bytes 8 data_length) (
        copy_at 4 (le_bytes 2 hash) (
          copy_at 3 (u8 name_units ∷ [])
            (copy_at 1 (stream_flags first_cluster ∷ []) (copy_at 0 (stream_type ∷ []) blank))))))

unfoldable pub name_entry : List ℕ → List ℕ
unfolding unit_bytes
name_entry part = copy_at 2 (unit_bytes part) (copy_at 0 (name_type ∷ []) blank)

-- An entry for each `units_per_entry` units of the name.
unfoldable pub name_entries : ℕ → List ℕ → List ℕ
unfolding name_entry
name_entries zero name = []
name_entries (suc n) name = name_entry (take 15 name) ++ name_entries n (drop 15 name)

unfoldable pub file_set : List ℕ → ℕ → Kind → ℕ → ℕ → List ℕ
unfolding file_entry stream_entry name_entries
file_set name hash kind first_cluster data_length =
    let names = div_ceil (length name) units_per_entry in
    let set =
      file_entry names kind
      ++ (stream_entry (length name) hash first_cluster data_length ++ name_entries names name) in
    copy_at 2 (le_bytes 2 (set_checksum set)) set
