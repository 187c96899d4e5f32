-- ===== src/Layout/ExFat/Reader/Taken.antt =====
-- The reader of crates/burnout-layout/src/exfat/read.rs takes the entry sets that the writer of
-- crates/burnout-layout/src/exfat/entries.rs makes.
use native.Mathlib.Nat.{div-eq_of_lt}
use burnout.Prelude.{
  ℕ, zero, suc, ◌+◌, ◌-◌, ◌≤◌, ◌<◌, ◌^◌, ◌≡◌, refl, ap, ◌∙◌, sym, ◌⊎◌, ◌||◌, inl, inr, true, false,
  not, Option, some, List, [], ◌∷◌, length, arith, ltb, ◌==◌, ≡→==, ≢→==, div_ceil, le→ltb,
}
use burnout.Core.Error.{Result, ok, err}
use burnout.Core.Target.{Target}
use burnout.Core.Tree.{TreePath}
use burnout.Layout.ExFat.Sums.{name_hash}
use burnout.Layout.ExFat.Sums.Skips.{checksums_fit}
use burnout.Layout.ExFat.UpCase.{upcase_name}
use burnout.Layout.ExFat.Entries.{Kind, dir_kind, file_kind, encode_utf16, file_set}
use burnout.Layout.ExFat.Reader.Sets.{Data, read_units, read_hash, read_data, read_is_dir}
use burnout.Layout.ExFat.Reader.Chains.{ClusterRun, VolumeShape, fat_entry, runs_of, claim_run}
use burnout.Layout.ExFat.Reader.Utf16.{
  AreScalars, from_utf16, from_utf16-encode_utf16, encode_utf16-AreUnits,
}
use burnout.Layout.ExFat.Reader.ReadSet.{
  text_of_units, Reading, at_dir, node_path, holds_name, claim, take_name, take_data, read_set,
  valid_length,
}
use burnout.Layout.ExFat.Reader.RoundTrip.{is_dir, file_set-fields}

-- The data that the writer records of a run: none, or clusters inside the heap.
abbrev pub InVolume : VolumeShape → ℕ → ℕ → Type 0
InVolume v first len =
    ((first ≡ 0) × (len ≡ 0))
    ⊎ ((2 ≤ first) × (0 < div_ceil len v.cluster) × (first + div_ceil len v.cluster ≤ v.count + 2))

abbrev pub written_data : ℕ → ℕ → Data
written_data first len = record {
  first = first;
  length = len;
  valid = len;
  contiguous = not (first == 0);
}

text-from_utf16 :
    (place : TreePath) (units name : List ℕ)
    → from_utf16 units ≡ some name
    → text_of_units place units ≡ ok name
text-from_utf16 place units name e = rw (text_of_units, e) refl

valid_written : (k : Kind) (a b : ℕ) → valid_length (is_dir k) (written_data a b) ≡ true
valid_written dir_kind a b = ground arith
valid_written file_kind a b = ground arith

no_clusters : (c : ℕ) → div_ceil 0 c ≡ 0
no_clusters zero = refl
no_clusters (suc c) = div-eq_of_lt (omega arith)

nothing_claimed :
    (path : TreePath) (c first len : ℕ) (before after : List ℕ)
    → len ≡ 0
    → claim_run path (div_ceil len c) first before ≡ ok after
    → before ≡ after
unfolding claim_run
nothing_claimed path c first len before after empty e =
    ap (λ (r : Result (List ℕ)). elim r [ err x ↦ before | ok xs ↦ xs ])
      (ap (λ (n : ℕ). claim_run path n first before)
          (sym (ap (λ (n : ℕ). div_ceil n c) empty ∙ no_clusters c))
        ∙ e)

module _ {T : Type 0} (target : Target T) (v : VolumeShape) (path : TreePath) (first len : ℕ)
    (t : T) where
  abbrev runs_written : Result (List ClusterRun) × T
  runs_written = runs_of (fat_entry target v) v.count v.cluster path (written_data first len) t

  no_runs : first ≡ 0 → len ≡ 0 → runs_written ≡ (ok [], t)
  unfolding runs_of
  no_runs f l = rw (≡→== first 0 f) (rw (≡→== len 0 l) refl)

  one_run :
      2 ≤ first
      → 0 < div_ceil len v.cluster
      → first + div_ceil len v.cluster ≤ v.count + 2
      → runs_written ≡ (ok ((first, div_ceil len v.cluster) ∷ []), t)
  unfolding runs_of
  one_run low pos high =
      let inside : ((div_ceil len v.cluster == 0)
            || (ltb first 2 || ltb (v.count + 1) (first + div_ceil len v.cluster - 1)))
          ≡ false =
        rw (≢→== (div_ceil len v.cluster) 0 (omega (arith, pos))) (
          rw (le→ltb first 2 low)
            (le→ltb (v.count + 1) (first + div_ceil len v.cluster - 1) (omega (arith, high)))) in
      rw (≢→== first 0 (omega (arith, low))) (rw inside refl)

module _ {T : Type 0} (target : Target T) (v : VolumeShape) (up : List ℕ) where
  pub take_name-new :
      (path : TreePath) (upcased : List ℕ) (hash : ℕ) (s : Reading T)
      → name_hash upcased ≡ hash
      → holds_name upcased s.names ≡ false
      → take_name target v up path upcased hash s ≡ (ok tt, record s { names = upcased ∷ s.names })
  unfolding take_name
  take_name-new path upcased hash s h new = rw (≡→== (name_hash upcased) hash h) (rw new refl)

  -- The clusters of the set were claimed by nothing before.
  take_data-claimed :
      (path : TreePath) (kind : Kind) (first len : ℕ) (claimed : List ℕ) (s : Reading T)
      → InVolume v first len
      → claim_run path (div_ceil len v.cluster) first s.claimed ≡ ok claimed
      → take_data target v up path (is_dir kind) (written_data first len) s
        ≡ (ok tt, record s { claimed = claimed })
  unfolding take_data runs_of claim
  take_data-claimed path kind first len claimed s (inl (none_there, empty)) free =
      let runs = no_runs target v path first len s.target none_there empty in
      rw (valid_written kind first len) (
        rw (runs_written, runs)
          (λ i. (
            ok tt,
            record s {
              claimed = nothing_claimed path v.cluster first len s.claimed claimed empty free i;
            },
          )))
  take_data-claimed path kind first len claimed s (inr (low, some_there, high)) free =
      let runs = one_run target v path first len s.target low some_there high in
      rw (valid_written kind first len) (rw (runs_written, runs) (rw (claim, free) refl))

  pub take_read_set :
      (above : Option TreePath) (set units name : List ℕ) (path : TreePath) (s s1 s2 : Reading T)
      → read_units (at_dir above) set ≡ ok units
      → from_utf16 units ≡ some name
      → node_path above name ≡ ok path
      → take_name target v up path (upcase_name up units) (read_hash set) s ≡ (ok tt, s1)
      → take_data target v up path (read_is_dir set) (read_data set) s1 ≡ (ok tt, s2)
      → read_set target v up above set s
        ≡ (ok (record { path = path; is_dir = read_is_dir set; stream = read_data set }), s2)
  unfolding read_set
  take_read_set above set units name path s s1 s2 a b c d e =
      let text = text-from_utf16 (at_dir above) units name b in
      rw a (rw text (rw c (rw d (rw e refl))))

-- An entry set that the writer makes of a name of text, of its hash, and of data in clusters of the volume or
-- none, is taken by `read_set`, where the name makes a path there, the directory has no such name yet, and
-- nothing claimed the clusters before: the node has that path, that data and the kind that was written, the name
-- counts as one of the directory, and the clusters are claimed. The name has 1 to 255 units, and each number
-- fits its field.
pub file_set-read :
    {T : Type 0} (target : Target T) (v : VolumeShape) (up : List ℕ) (above : Option TreePath)
    (name : List ℕ) (path : TreePath) (kind : Kind) (first len : ℕ) (claimed : List ℕ)
    (s : Reading T)
    → AreScalars name
    → 0 < length (encode_utf16 name)
    → length (encode_utf16 name) ≤ 255
    → first < 2 ^ 32
    → len < 2 ^ 64
    → node_path above name ≡ ok path
    → holds_name (upcase_name up (encode_utf16 name)) s.names ≡ false
    → InVolume v first len
    → claim_run path (div_ceil len v.cluster) first s.claimed ≡ ok claimed
    → read_set target v up above
        (file_set
          (encode_utf16 name)
          (name_hash (upcase_name up (encode_utf16 name)))
          kind
          first
          len)
        s
      ≡ (
        ok (record { path = path; is_dir = is_dir kind; stream = written_data first len }),
        record s { claimed = claimed; names = upcase_name up (encode_utf16 name) ∷ s.names },
      )
file_set-read target v up above name path kind first len claimed s text pos short f l there new
      inside free =
    let units = encode_utf16 name in
    let upcased = upcase_name up units in
    let hash = name_hash upcased in
    let set = file_set units hash kind first len in
    let (read, hashed, stream, dir) =
      file_set-fields (at_dir above) units hash kind first len (encode_utf16-AreUnits name text) pos
        short (checksums_fit upcased).2 f l in
    let s1 = record s { names = upcased ∷ s.names } in
    let s2 = record s1 { claimed = claimed } in
    take_read_set target v up above set units name path s s1 s2 read
      (from_utf16-encode_utf16 name text) there
      (take_name-new target v up path upcased (read_hash set) s (sym hashed) new)
      (rw (dir, stream) (take_data-claimed target v up path kind first len claimed s1 inside free))
    ∙ (λ i. (ok (record { path = path; is_dir = dir i; stream = stream i }), s2))
