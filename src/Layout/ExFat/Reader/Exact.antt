-- ===== src/Layout/ExFat/Reader/Exact.antt =====
-- The entry sets that `read_set` of crates/burnout-layout/src/exfat/read.rs takes.
use mathlib.Core.List.{reverse}
use burnout.Prelude.{ℕ, ◌≤◌, ◌≡◌, ◌⊎◌, false, Option, some, List, ◌∷◌}
use burnout.Core.Error.{ok}
use burnout.Core.Target.{Target}
use burnout.Core.Tree.{TreePath}
use burnout.Layout.ExFat.Sums.{name_hash}
use burnout.Layout.ExFat.UpCase.{upcase_name}
use burnout.Layout.ExFat.Reader.Sets.{read_units, read_hash, read_data, read_is_dir}
use burnout.Layout.ExFat.Reader.Chains.{ClusterRun, VolumeShape, fat_entry, runs_of}
use burnout.Layout.ExFat.Reader.Utf16.{from_utf16}
use burnout.Layout.ExFat.Reader.ReadSet.{Node, Reading, at_dir, node_path, holds_name, claim}

module _ {T : Type 0} (target : Target T) (v : VolumeShape) (up : List ℕ) where
  -- What a set that is taken has said: its name, the hash of it, its data and its clusters.
  pub record Checked (above : Option TreePath) (set : List ℕ) (s s' : Reading T) (node : Node)
      : Type 0 where
    units : List ℕ
    name : List ℕ
    runs : List ClusterRun
    named : read_units (at_dir above) set ≡ ok units
    text : from_utf16 units ≡ some name
    path : node_path above name ≡ ok node.path
    hashed : name_hash (upcase_name up units) ≡ read_hash set
    new : holds_name (upcase_name up units) s.names ≡ false
    kind : node.is_dir ≡ read_is_dir set
    stream : node.stream ≡ read_data set
    valid : node.stream.valid ≤ node.stream.length
    whole_dir : (node.is_dir ≡ false) ⊎ (node.stream.valid ≡ node.stream.length)
    found :
        (runs_of (fat_entry target v) v.count v.cluster node.path node.stream s.target)
        ≡ (ok runs, s'.target)
    claimed : claim node.path (reverse runs) s.claimed ≡ ok s'.claimed
    names : s'.names ≡ upcase_name up units ∷ s.names
