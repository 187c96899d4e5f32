-- ===== src/Layout/ExFat/Reader/ReadSet.antt =====
-- `Volume::read_set` of crates/burnout-layout/src/exfat/read.rs: an entry set becomes a file or a directory of
-- the tree, and its clusters are claimed. The state is the drive, the claimed clusters, and the names of the
-- directory so far. A claim that fails ends the check, so what it claimed before it failed is not kept.
use mathlib.Core.List.{reverse}
use burnout.Prelude.{
  ℕ, Bool, false, not, ◌&&◌, ◌||◌, Option, none, some, List, [], ◌∷◌, ltb, ◌==◌, same_list,
}
use burnout.Core.Error.{Result, ok, err, volume_differs}
use burnout.Core.Target.{Io, Target, ◌>>=◌, ◌>>◌, pure, modify}
use burnout.Core.Tree.{TreePath, new_path, join}
use burnout.Layout.ExFat.Sums.{name_hash}
use burnout.Layout.ExFat.UpCase.{upcase_name}
use burnout.Layout.ExFat.Reader.Sets.{Data, must, read_units, read_hash, read_data, read_is_dir}
use burnout.Layout.ExFat.Reader.Chains.{ClusterRun, VolumeShape, fat_entry, runs_of, claim_run}
use burnout.Layout.ExFat.Reader.Utf16.{from_utf16}

pub record Node : Type 0 where
  pub path : TreePath
  pub is_dir : Bool
  pub stream : Data

pub record Reading (T : Type 0) : Type 0 where
  pub target : T
  pub claimed : List ℕ
  pub names : List (List ℕ)

-- "the root directory".
abbrev root_words : TreePath
root_words =
    b't' ∷ b'h' ∷ b'e' ∷ b' ' ∷ b'r' ∷ b'o' ∷ b'o' ∷ b't' ∷ b' ' ∷ b'd' ∷ b'i' ∷ b'r' ∷ b'e' ∷ b'c'
    ∷ b't' ∷ b'o' ∷ b'r' ∷ b'y' ∷ []

abbrev pub at_dir : Option TreePath → TreePath
at_dir none = root_words
at_dir (some above) = above

abbrev pub text_of_units : TreePath → List ℕ → Result (List ℕ)
text_of_units place units = elim (from_utf16 units) [
  | none ↦ err (volume_differs place "a name is not valid UTF-16")
  | some name ↦ ok name
]

abbrev pub node_path : Option TreePath → List ℕ → Result TreePath
node_path none name = new_path name
node_path (some above) name = join above name

unfoldable pub holds_name : List ℕ → List (List ℕ) → Bool
holds_name name [] = false
holds_name name (n ∷ names) = same_list name n || holds_name name names

-- `claim`, over all runs.
unfoldable pub claim : TreePath → List ClusterRun → List ℕ → Result (List ℕ)
unfolding claim_run
claim what [] claimed = ok claimed
claim what ((first, n) ∷ runs) claimed = elim (claim_run what n first claimed) [
  | err e ↦ err e
  | ok more ↦ claim what runs more
]

-- A valid length that the length allows.
abbrev pub valid_length : Bool → Data → Bool
valid_length is_dir d = not (ltb d.length d.valid || (is_dir && not (d.valid == d.length)))

module _ {T : Type 0} (target : Target T) (v : VolumeShape) (up : List ℕ) where
  abbrev check_that : {A : Type 0} → Result A → Io (Reading T) A
  check_that r s = (r, s)

  abbrev on_drive : {A : Type 0} → Io T A → Io (Reading T) A
  on_drive m s = ((m s.target).0, record s { target = (m s.target).1 })

  abbrev pub keep_claims : Result (List ℕ) → Io (Reading T) (Unit {0})
  keep_claims (err e) s = (err e, s)
  keep_claims (ok claimed) s = (ok tt, record s { claimed = claimed })

  abbrev claim_all : TreePath → List ClusterRun → Io (Reading T) (Unit {0})
  claim_all path runs s = keep_claims (claim path runs s.claimed) s

  -- Its name is checked, and put with the names of the directory.
  unfoldable pub take_name : TreePath → List ℕ → ℕ → Io (Reading T) (Unit {0})
  unfolding holds_name
  take_name path upcased hash s =
      (do
        check_that (
            must (name_hash upcased == hash) path
              "the name does not have the hash its entry records")
        check_that
            (must (not (holds_name upcased s.names)) path "the directory holds this name twice")
        modify (λ z. record z { names = upcased ∷ z.names }))
        s

  -- The data of the set is checked, and its clusters are claimed.
  unfoldable pub take_data : TreePath → Bool → Data → Io (Reading T) (Unit {0})
  unfolding claim
  take_data path is_dir d = do
    check_that
        (must (valid_length is_dir d) path "its valid length is not one that its length allows")
    runs ← on_drive (runs_of (fat_entry target v) v.count v.cluster path d)
    claim_all path (reverse runs)

  unfoldable pub read_set : Option TreePath → List ℕ → Io (Reading T) Node
  unfolding take_name take_data
  read_set above set = do
    units ← check_that (read_units (at_dir above) set)
    name ← check_that (text_of_units (at_dir above) units)
    path ← check_that (node_path above name)
    take_name path (upcase_name up units) (read_hash set)
    take_data path (read_is_dir set) (read_data set)
    pure (record { path = path; is_dir = read_is_dir set; stream = read_data set })
