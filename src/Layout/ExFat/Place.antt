-- ===== src/Layout/ExFat/Place.antt =====
-- crates/burnout-layout/src/exfat/place.rs: where each part of a tree goes on an exFAT volume. The two hash
-- maps are association lists, the newest entry first.
pub mod Runs
pub mod Allocated
pub mod Tests
use burnout.Prelude.{
  ℕ, zero, suc, ◌+◌, ◌-◌, ◌*◌, ◌/◌, ◌%◌, ◌^◌, max, Bool, true, false, not, ◌&&◌, ◌||◌, Option, none,
  some, List, [], ◌∷◌, ◌++◌, length, replicate, take, get_elem?, set, ltb, leb, ◌==◌, if◌then◌else◌,
  same_list, u64,
}
use burnout.Core.Error.{
  Error, Result, ok, err, ◌>>=◌, cannot_copy, volume_full, same_name_as, no_directory,
  directory_bytes, FileSystem, exfat,
}
use burnout.Core.Tree.{TreePath, Entry, dir, file, entry_path, parent, name}
use burnout.Layout.ExFat.Geometry.{
  Geometry, first_cluster, cluster_bytes, clusters_for, bitmap_bytes,
}
use burnout.Layout.ExFat.Sums.{name_hash}
use burnout.Layout.ExFat.UpCase.{upcase_name, recommended_bytes, recommended_checksum}
use burnout.Layout.ExFat.Entries.{
  Kind, dir_kind, file_kind, Named, named, refused, name_units, set_entries, entry_bytes,
  bitmap_entry, upcase_entry, file_set,
}

abbrev pub max_directory_bytes : ℕ
max_directory_bytes = 256 * 1024 * 1024

pub record Run : Type 0 where
  pub first : ℕ
  pub clusters : ℕ

abbrev pub no_run : Run
no_run = record { first = 0; clusters = 0 }

unfoldable pub run_end : Run → ℕ
run_end r = r.first + r.clusters

pub record Item : Type 0 where
  pub path : TreePath
  pub kind : Kind
  pub name : List ℕ
  pub hash : ℕ
  pub run : Run
  pub data_length : ℕ
  pub children : List ℕ

pub record Placement : Type 0 where
  pub geometry : Geometry
  pub label : Option (List ℕ)
  pub bitmap : Run
  pub upcase : Run
  pub root : Run
  pub root_children : List ℕ
  pub items : List Item

-- The items so far, the directories by path, and the names that are taken.
pub record Listed : Type 0 where
  pub items : List Item
  pub root_children : List ℕ
  pub dirs : List (TreePath × ℕ)
  pub taken : List ((Option ℕ × List ℕ) × TreePath)

unfoldable pub find_dir : TreePath → List (TreePath × ℕ) → Option ℕ
find_dir p [] = none
find_dir p ((q, at) ∷ dirs) = if same_list p q then some at else find_dir p dirs

abbrev pub same_parent : Option ℕ → Option ℕ → Bool
same_parent none none = true
same_parent none (some b) = false
same_parent (some a) none = false
same_parent (some a) (some b) = a == b

unfoldable pub find_taken :
    Option ℕ → List ℕ → List ((Option ℕ × List ℕ) × TreePath) → Option TreePath
find_taken p n [] = none
find_taken p n (((q, m), first) ∷ taken) =
    if same_parent p q && same_list n m then some first else find_taken p n taken

-- The item that holds this path, or none at the top.
unfoldable pub find_parent : TreePath → Listed → Result (Option ℕ)
unfolding find_dir
find_parent p s = elim (parent p) [
  | none ↦ ok none
  | some above ↦ elim (find_dir above s.dirs) [
    | none ↦ err (cannot_copy p (no_directory above))
    | some at ↦ ok (some at)
  ]
]

-- `items[dir].children.push(at)`.
unfoldable pub push_child : ℕ → ℕ → List Item → List Item
push_child zero at [] = []
push_child (suc d) at [] = []
push_child zero at (i ∷ items) = record i { children = i.children ++ at ∷ [] } ∷ items
push_child (suc d) at (i ∷ items) = i ∷ push_child d at items

abbrev pub kind_of : Entry → Kind
kind_of (dir p) = dir_kind
kind_of (file p bytes) = file_kind

abbrev pub entry_length : Entry → ℕ
entry_length (dir p) = 0
entry_length (file p bytes) = bytes

abbrev pub with_dir : Entry → ℕ → List (TreePath × ℕ) → List (TreePath × ℕ)
with_dir (dir p) at dirs = (p, at) ∷ dirs
with_dir (file p bytes) at dirs = dirs

-- An entry that passed the checks.
unfoldable pub put_entry : Entry → List ℕ → List ℕ → Option ℕ → Listed → Listed
unfolding push_child
put_entry e units upcased above s =
    let at = length s.items in
    let item : Item = record {
      path = entry_path e;
      kind = kind_of e;
      name = units;
      hash = name_hash upcased;
      run = no_run;
      data_length = entry_length e;
      children = [];
    } in
    let dirs = with_dir e at s.dirs in
    let taken = ((above, upcased), entry_path e) ∷ s.taken in
    elim above [
      | none ↦ record {
        items = s.items ++ item ∷ [];
        root_children = s.root_children ++ at ∷ [];
        dirs = dirs;
        taken = taken;
      }
      | some d ↦ record {
        items = push_child d at s.items ++ item ∷ [];
        root_children = s.root_children;
        dirs = dirs;
        taken = taken;
      }
    ]

-- A round of the loop over the entries.
unfoldable pub list_entry : List ℕ → Entry → Listed → Result Listed
unfolding find_parent find_taken put_entry
list_entry up e s = elim (name_units (name (entry_path e))) [
  | refused detail ↦ err (cannot_copy (entry_path e) detail)
  | named units ↦
      let upcased = upcase_name up units in
      find_parent (entry_path e) s >>= λ above. elim (find_taken above upcased s.taken) [
        | some first ↦ err (cannot_copy (entry_path e) (same_name_as first))
        | none ↦ ok (put_entry e units upcased above s)
      ]
]

unfoldable pub list_entries : List ℕ → List Entry → Listed → Result Listed
unfolding list_entry
list_entries up [] s = ok s
list_entries up (e ∷ entries) s = list_entry up e s >>= λ s'. list_entries up entries s'

-- The bytes of the entry set of an item of the list.
abbrev pub set_bytes : Option Item → ℕ
set_bytes none = 0
set_bytes (some i) = set_entries (length i.name) * entry_bytes

unfoldable pub children_bytes : List Item → List ℕ → ℕ
children_bytes items [] = 0
children_bytes items (at ∷ children) =
    set_bytes (get_elem? items at) + children_bytes items children

abbrev pub own_entries : Option (List ℕ) → ℕ
own_entries none = 2
own_entries (some label) = 3

unfoldable pub root_entry_bytes : Placement → ℕ
unfolding children_bytes
root_entry_bytes p = own_entries p.label * entry_bytes + children_bytes p.items p.root_children

-- The clusters of one item.
unfoldable pub kind_clusters : Kind → Geometry → List Item → Item → Result ℕ
kind_clusters file_kind g items i = ok (clusters_for g i.data_length)
kind_clusters dir_kind g items i =
    let bytes = children_bytes items i.children in
    if ltb max_directory_bytes bytes
    then err (cannot_copy i.path (directory_bytes bytes))
    else ok (max (clusters_for g bytes) 1)

unfoldable pub item_clusters : Geometry → List Item → Item → Result ℕ
unfolding kind_clusters
item_clusters g items i = kind_clusters i.kind g items i

unfoldable pub all_clusters : Geometry → List Item → List Item → Result (List ℕ)
unfolding item_clusters
all_clusters g items [] = ok []
all_clusters g items (i ∷ rest) =
    item_clusters g items i >>= λ n. all_clusters g items rest >>= λ ns. ok (n ∷ ns)

unfoldable pub total : List ℕ → ℕ
total [] = 0
total (n ∷ ns) = n + total ns

-- `take` of `allocate`: a run at the next free cluster.
unfoldable pub run_at : ℕ → ℕ → Run
run_at next count = record { first = if count == 0 then 0 else next; clusters = count }

abbrev pub recorded_length : Geometry → Kind → ℕ → ℕ → ℕ
recorded_length g dir_kind count data_length = count * cluster_bytes g
recorded_length g file_kind count data_length = data_length

-- The runs of the items, one after the other.
unfoldable pub place_items : Geometry → ℕ → List Item → List ℕ → List Item
unfolding run_at
place_items g next [] counts = []
place_items g next (i ∷ items) [] = i ∷ items
place_items g next (i ∷ items) (n ∷ counts) =
    record i { run = run_at next n; data_length = recorded_length g i.kind n i.data_length }
    ∷ place_items g (next + n) items counts

-- The runs of the bitmap, the table and the root, and then of the items.
unfoldable pub place_all : Placement → ℕ → ℕ → ℕ → List ℕ → Placement
unfolding run_at place_items
place_all p bitmap upcase root counts = record p {
  bitmap = run_at first_cluster bitmap;
  upcase = run_at (first_cluster + bitmap) upcase;
  root = run_at (first_cluster + bitmap + upcase) root;
  items = place_items p.geometry (first_cluster + bitmap + upcase + root) p.items counts;
}

unfoldable pub allocate : Placement → Result Placement
unfolding all_clusters total root_entry_bytes place_all
allocate p =
    let g = p.geometry in
    all_clusters g p.items p.items >>= λ counts.
    let bitmap = clusters_for g (bitmap_bytes g) in
    let upcase = clusters_for g (length recommended_bytes) in
    let root = max (clusters_for g (root_entry_bytes p)) 1 in
    let needed = bitmap + upcase + root + total counts in
    if ltb g.cluster_count needed
    then err
        (volume_full exfat (u64 (needed * cluster_bytes g)) (g.cluster_count * cluster_bytes g))
    else ok (place_all p bitmap upcase root counts)

-- `Placement::new`.
unfoldable pub new : Geometry → Option (List ℕ) → List Entry → List ℕ → Result Placement
unfolding list_entries allocate
new g label entries up =
    list_entries up entries (record { items = []; root_children = []; dirs = []; taken = [] })
    >>= λ s. allocate (record {
      geometry = g;
      label = label;
      bitmap = no_run;
      upcase = no_run;
      root = no_run;
      root_children = s.root_children;
      items = s.items;
    })

unfoldable pub last_end : ℕ → List Item → ℕ
unfolding run_end
last_end most [] = most
last_end most (i ∷ items) = last_end (max most (run_end i.run)) items

unfoldable pub used_clusters : Placement → ℕ
unfolding last_end run_end
used_clusters p = last_end (run_end p.root) p.items - first_cluster

unfoldable pub percent_in_use : Placement → ℕ
unfolding used_clusters
percent_in_use p = used_clusters p * 100 / p.geometry.cluster_count

-- The entry sets of these items.
unfoldable pub sets : List Item → List ℕ → List ℕ
sets items [] = []
sets items (at ∷ children) = elim (get_elem? items at) [
  | none ↦ sets items children
  | some i ↦ file_set i.name i.hash i.kind i.run.first i.data_length ++ sets items children
]

-- `Vec::resize` with zeros.
abbrev pub resize : List ℕ → ℕ → List ℕ
resize bytes n = take n bytes ++ replicate (n - length bytes) 0

abbrev pub label_bytes : Option (List ℕ) → List ℕ
label_bytes none = []
label_bytes (some label) = label

unfoldable pub root_directory : Placement → List ℕ
unfolding sets
root_directory p =
    resize
      (label_bytes p.label
        ++ (bitmap_entry p.bitmap.first (bitmap_bytes p.geometry)
            ++ (upcase_entry recommended_checksum p.upcase.first (length recommended_bytes)
                ++ sets p.items p.root_children)))
      (p.root.clusters * cluster_bytes p.geometry)

unfoldable pub directory : Placement → Item → List ℕ
unfolding sets
directory p i = resize (sets p.items i.children) i.data_length
