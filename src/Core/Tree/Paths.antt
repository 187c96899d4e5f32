-- ===== src/Core/Tree/Paths.antt =====
-- The parts of a path of crates/burnout-core/src/tree.rs fit together.
use burnout.Prelude.{
  ℕ, ◌≡◌, ◌≢◌, refl, ap, ◌∙◌, Bool-cases, true, ◌&&◌, inl, inr, none, some, List, [], ◌∷◌, ◌++◌,
  arith, ◌==◌, ≢→==,
}
use burnout.Core.Error.{ok}
use burnout.Core.Tree.{
  TreePath, slash, rsplit_once, before_last, after_last, parent, name, onto_first, names, good,
  all_good, new_path, join,
}

-- Nothing in the name is a slash.
abbrev pub HasNoSlash : List ℕ → Type 0
HasNoSlash [] = Unit
HasNoSlash (c ∷ n) = (c ≢ slash) × HasNoSlash n

rsplit_once-none : (n : List ℕ) → HasNoSlash n → rsplit_once n ≡ none
unfolding rsplit_once
rsplit_once-none [] h = refl
rsplit_once-none (c ∷ n) (h, hs) = rw (rsplit_once-none n hs, ≢→== c slash h) refl

rsplit_once-append :
    (above n : List ℕ) → HasNoSlash n → rsplit_once (above ++ (slash ∷ n)) ≡ some (above, n)
unfolding rsplit_once
rsplit_once-append [] n h = rw (rsplit_once-none n h) refl
rsplit_once-append (c ∷ above) n h = rw (rsplit_once-append above n h) refl

names_one : (n : List ℕ) → HasNoSlash n → names n ≡ n ∷ []
unfolding names
names_one [] h = refl
names_one (c ∷ n) (h, hs) = rw (names_one n hs, ≢→== c slash h) refl

onto_first-append :
    (c : ℕ) (xs ys : List (List ℕ)) → xs ≢ [] → onto_first c (xs ++ ys) ≡ onto_first c xs ++ ys
onto_first-append c [] ys h = absurd (h refl)
onto_first-append c (x ∷ xs) ys h = refl

names-ne-nil : (p : List ℕ) → names p ≢ []
unfolding names
names-ne-nil [] h = cc
names-ne-nil (c ∷ p) h = elim (Bool-cases (c == slash)) [
  | inl yes_slash ↦ cc (rw yes_slash at h)
  | inr no_slash ↦ onto_first-ne-nil (names p) (rw no_slash at h)
]
  where
    onto_first-ne-nil : (xs : List (List ℕ)) → onto_first c xs ≡ [] → ⊥
    onto_first-ne-nil [] e = cc
    onto_first-ne-nil (x ∷ xs) e = cc

pub names-append :
    (above n : List ℕ) → HasNoSlash n → names (above ++ (slash ∷ n)) ≡ names above ++ n ∷ []
unfolding names
names-append [] n h = rw (names_one n h) refl
names-append (c ∷ above) n h = elim (Bool-cases (c == slash)) [
  | inl yes_slash ↦ rw yes_slash (ap (λ xs. [] ∷ xs) (names-append above n h))
  | inr no_slash ↦ rw no_slash (
      ap (onto_first c) (names-append above n h)
      ∙ onto_first-append c (names above) (n ∷ []) (names-ne-nil above))
]

all_good-append :
    (xs : List (List ℕ)) (n : List ℕ) → all_good (xs ++ n ∷ []) ≡ (all_good xs && good n)
unfolding all_good
all_good-append [] n = ground arith
all_good-append (x ∷ xs) n = ground (arith, all_good-append xs n)

pub all_good-names : (p q : TreePath) → new_path p ≡ ok q → (all_good (names p) ≡ true) × (p ≡ q)
unfolding new_path
all_good-names p q h = ground arith

-- A good name without a slash joins a path of the tree: the path that comes out has this directory and
-- this name, and its names are those of the directory and then this one.
pub join_lem :
    (above n : List ℕ)
    → HasNoSlash n
    → new_path above ≡ ok above
    → good n ≡ true
    → (join above n ≡ ok (above ++ (slash ∷ n)))
      × (parent (above ++ (slash ∷ n)) ≡ some above)
      × (name (above ++ (slash ∷ n)) ≡ n)
      × (names (above ++ (slash ∷ n)) ≡ names above ++ n ∷ [])
unfolding join new_path parent name
join_lem above n h a g = (
  rw (names-append above n h, all_good-append (names above) n, (all_good-names above above a).0, g)
      refl,
  ap before_last (rsplit_once-append above n h),
  ap (after_last (above ++ (slash ∷ n))) (rsplit_once-append above n h),
  names-append above n h,
)
