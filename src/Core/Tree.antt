-- ===== src/Core/Tree.antt =====
-- crates/burnout-core/src/tree.rs: a path of a tree and its parts. A path is the list of its code points.
pub mod Paths
mod Tests
use burnout.Prelude.{
  ℕ, ◌+◌, Bool, true, false, not, ◌&&◌, Option, none, some, List, [], ◌∷◌, ◌++◌, String, ◌==◌,
  if◌then◌else◌, same_list,
}
use burnout.Core.Error.{Result, ok, err, source, text}
use burnout.Core.Target.{Io}

abbrev pub TreePath : Type 0
TreePath = List ℕ

abbrev pub slash : ℕ
slash = b'/'

-- `rsplit_once('/')`: what stands before the last slash, and what after it.
unfoldable pub rsplit_once : List ℕ → Option (List ℕ × List ℕ)
rsplit_once [] = none
rsplit_once (c ∷ rest) = elim (rsplit_once rest) [
  | some (before, after) ↦ some (c ∷ before, after)
  | none ↦ if c == slash then some ([], rest) else none
]

abbrev pub before_last : Option (List ℕ × List ℕ) → Option TreePath
before_last none = none
before_last (some (before, after)) = some before

abbrev pub after_last : List ℕ → Option (List ℕ × List ℕ) → List ℕ
after_last path none = path
after_last path (some (before, after)) = after

unfoldable pub parent : TreePath → Option TreePath
unfolding rsplit_once
parent path = before_last (rsplit_once path)

unfoldable pub name : TreePath → List ℕ
unfolding rsplit_once
name path = after_last path (rsplit_once path)

-- A letter more at the front of the first name.
abbrev pub onto_first : ℕ → List (List ℕ) → List (List ℕ)
onto_first c [] = (c ∷ []) ∷ []
onto_first c (n ∷ ns) = (c ∷ n) ∷ ns

-- `split('/')`: one name more than there are slashes.
unfoldable pub names : List ℕ → List (List ℕ)
names [] = [] ∷ []
names (c ∷ rest) = let more = names rest in if c == slash then [] ∷ more else onto_first c more

abbrev pub dot : List ℕ
dot = b'.' ∷ []

abbrev pub dot_dot : List ℕ
dot_dot = b'.' ∷ b'.' ∷ []

unfoldable pub good : List ℕ → Bool
unfolding same_list
good n = not (same_list n []) && (not (same_list n dot) && not (same_list n dot_dot))

unfoldable pub all_good : List (List ℕ) → Bool
unfolding good
all_good [] = true
all_good (n ∷ ns) = good n && all_good ns

-- `TreePath::new`.
unfoldable pub new_path : List ℕ → Result TreePath
unfolding names all_good
new_path path =
    if all_good (names path)
    then ok path
    else err (
        source path
          (text "a path of a tree has a name between each two `/`, and no name is `.` or `..`"))

unfoldable pub join : TreePath → List ℕ → Result TreePath
unfolding new_path
join above n = new_path (above ++ (slash ∷ n))

pub data Entry : Type 0 where
  dir : TreePath → Entry
  file : TreePath → ℕ → Entry

abbrev pub entry_path : Entry → TreePath
entry_path (dir p) = p
entry_path (file p bytes) = p

-- A tree of files: its entries, and how a file of it opens and reads.
pub record FileSource (R : Type 0) : Type 0 where
  pub entries : Result (List Entry)
  pub open_file : TreePath → Result R
  pub read : ℕ → Io R (List ℕ)
