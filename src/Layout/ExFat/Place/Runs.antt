-- ===== src/Layout/ExFat/Place/Runs.antt =====
-- The runs that `allocate` of crates/burnout-layout/src/exfat/place.rs gives the items of a tree.
use mathlib.Core.Path.{subst}
use native.Mathlib.Nat.{le_trans}
use burnout.Prelude.{
  ℕ, zero, suc, ◌+◌, ◌*◌, ◌≤◌, ◌<◌, ◌≡◌, refl, ap, ◌∙◌, sym, Bool-cases, inl, inr, max, some, List,
  [], ◌∷◌, get_elem?, arith, ltb, ltb→le, mul_mono,
}
use burnout.Core.Alignment.Rounding.{div_ceil_bounds}
use burnout.Core.Error.{ok, bind-eq-ok, ok-injective}
use burnout.Layout.ExFat.Geometry.{Geometry, cluster_bytes, clusters_for}
use burnout.Layout.ExFat.Entries.{Kind, dir_kind, file_kind}
use burnout.Layout.ExFat.Place.{
  Run, run_end, Item, kind_clusters, item_clusters, all_clusters, children_bytes, total, run_at,
  recorded_length, place_items, last_end, max_directory_bytes,
}

-- A file has the clusters that its bytes need, and a directory has one at least, which its entry sets fit
-- into and which it counts as its length.
abbrev pub HasRoom : Kind → Geometry → List Item → Item → Item → Type 0
HasRoom file_kind g items i j =
    (j.data_length ≡ i.data_length) × (j.data_length ≤ j.run.clusters * cluster_bytes g)
HasRoom dir_kind g items i j =
    (j.data_length ≡ j.run.clusters * cluster_bytes g)
    × (0 < j.run.clusters)
    × (children_bytes items i.children ≤ j.data_length)
    × (children_bytes items i.children ≤ max_directory_bytes)

-- `j` is the item `i`, placed from the cluster `next` on.
pub record IsPlaced (g : Geometry) (items : List Item) (next : ℕ) (i j : Item) : Type 0 where
  pub same : j ≡ record i { run = j.run; data_length = j.data_length }
  pub run : j.run ≡ run_at next j.run.clusters
  pub room : HasRoom i.kind g items i j

abbrev pub AllPlaced : Geometry → List Item → ℕ → List Item → List Item → ℕ → Type 0
AllPlaced g items next [] [] e = next ≡ e
AllPlaced g items next [] (j ∷ js) e = ⊥
AllPlaced g items next (i ∷ is) [] e = ⊥
AllPlaced g items next (i ∷ is) (j ∷ js) e =
    IsPlaced g items next i j × AllPlaced g items (next + j.run.clusters) is js e

module _ (g : Geometry) (items : List Item) (pos : 0 < cluster_bytes g) where
  pub clusters_for_room : (bytes : ℕ) → bytes ≤ clusters_for g bytes * cluster_bytes g
  unfolding clusters_for
  clusters_for_room bytes = (div_ceil_bounds bytes (cluster_bytes g) pos).0

  room_lem :
      (k : Kind) (next n : ℕ) (i : Item)
      → kind_clusters k g items i ≡ ok n
      → HasRoom k g items i
          (record i { run = run_at next n; data_length = recorded_length g k n i.data_length })
  unfolding kind_clusters run_at
  room_lem file_kind next n i h =
      let e : clusters_for g i.data_length ≡ n = ok-injective h in
      (refl, rw (← e) (clusters_for_room i.data_length))
  room_lem dir_kind next n i h =
      let bytes = children_bytes items i.children in
      elim (Bool-cases (ltb max_directory_bytes bytes)) [
        | inl more ↦ cc (rw more at h)
        | inr few ↦
            let e : max (clusters_for g bytes) 1 ≡ n = ok-injective (rw few at h) in
            (
              refl,
              omega (arith, e),
              le_trans (clusters_for_room bytes)
                  (mul_mono (clusters_for g bytes) n (cluster_bytes g) (omega (arith, e))),
              ltb→le max_directory_bytes bytes few,
            )
      ]

  pub place_items-AllPlaced :
      (next : ℕ) (is : List Item) (ns : List ℕ)
      → all_clusters g items is ≡ ok ns
      → AllPlaced g items next is (place_items g next is ns) (next + total ns)
  unfolding all_clusters item_clusters place_items total run_at
  place_items-AllPlaced next [] ns h = rw (← ok-injective h) (omega arith)
  place_items-AllPlaced next (i ∷ is) ns h =
      let (n, first, more) = bind-eq-ok (kind_clusters i.kind g items i) h in
      let (rest, others, same) = bind-eq-ok (all_clusters g items is) more in
      rw (← ok-injective same) (
        record { same = refl; run = refl; room = room_lem i.kind next n i first },
        subst (λ e. AllPlaced g items (next + n) is (place_items g (next + n) is rest) e)
            (omega arith) (place_items-AllPlaced (next + n) is rest others),
      )

ended_lem : (next n : ℕ) → max next (run_end (run_at next n)) ≡ next + n
unfolding run_end run_at
ended_lem next n = ground arith

-- Nothing of the list ends after `e`, and something ends there.
pub last_end-AllPlaced :
    (g : Geometry) (items : List Item) (next : ℕ) (is js : List Item) (e : ℕ)
    → AllPlaced g items next is js e
    → last_end next js ≡ e
unfolding last_end
last_end-AllPlaced g items next [] [] e h = h
last_end-AllPlaced g items next [] (j ∷ js) e h = elim h [ ]
last_end-AllPlaced g items next (i ∷ is) [] e h = elim h [ ]
last_end-AllPlaced g items next (i ∷ is) (j ∷ js) e (p, ps) =
    let ended : max next (run_end j.run) ≡ next + j.run.clusters =
      ap (λ r. max next (run_end r)) p.run ∙ ended_lem next j.run.clusters in
    ap (λ (n : ℕ). last_end n js) ended
    ∙ last_end-AllPlaced g items (next + j.run.clusters) is js e ps

-- A cluster of a run.
pub record InRun (r : Run) (cluster : ℕ) : Type 0 where
  pub from : r.first ≤ cluster
  pub before : cluster < run_end r

run_at-InRun :
    (next n cluster : ℕ) → InRun (run_at next n) cluster → (next ≤ cluster) × (cluster < next + n)
unfolding run_at run_end
run_at-InRun next n cluster h = ground arith

pub AllPlaced-le :
    (g : Geometry) (items : List Item) (next : ℕ) (is js : List Item) (e : ℕ)
    → AllPlaced g items next is js e
    → next ≤ e
AllPlaced-le g items next [] [] e h = omega (arith, h)
AllPlaced-le g items next [] (j ∷ js) e h = elim h [ ]
AllPlaced-le g items next (i ∷ is) [] e h = elim h [ ]
AllPlaced-le g items next (i ∷ is) (j ∷ js) e (p, ps) =
    omega (arith, AllPlaced-le g items (next + j.run.clusters) is js e ps)

pub placed_between :
    (g : Geometry) (items : List Item) (next : ℕ) (is js : List Item) (e k : ℕ) (a : Item)
    (cluster : ℕ)
    → AllPlaced g items next is js e
    → get_elem? js k ≡ some a
    → InRun a.run cluster
    → (next ≤ cluster) × (cluster < e)
placed_between g items next [] [] e k a cluster h f r = cc
placed_between g items next [] (j ∷ js) e k a cluster h f r = elim h [ ]
placed_between g items next (i ∷ is) [] e k a cluster h f r = elim h [ ]
placed_between g items next (i ∷ is) (j ∷ js) e zero a cluster (p, ps) f r =
    let b = run_at-InRun next j.run.clusters cluster (
      subst (λ x. InRun x cluster) (ap (λ (x : Item). x.run) (sym (some-injective f)) ∙ p.run) r) in
    let ends = AllPlaced-le g items (next + j.run.clusters) is js e ps in omega (arith, b, ends)
  where
    some-injective : {x y : Item} → some x ≡ some y → x ≡ y
    some-injective q = cc
placed_between g items next (i ∷ is) (j ∷ js) e (suc k) a cluster (p, ps) f r =
    omega (arith, placed_between g items (next + j.run.clusters) is js e k a cluster ps f r)

-- No cluster belongs to two items.
pub placed_apart :
    (g : Geometry) (items : List Item) (next : ℕ) (is js : List Item) (e k m : ℕ) (a b : Item)
    (cluster : ℕ)
    → AllPlaced g items next is js e
    → k < m
    → get_elem? js k ≡ some a
    → get_elem? js m ≡ some b
    → InRun a.run cluster
    → InRun b.run cluster
    → ⊥
placed_apart g items next [] [] e k m a b cluster h lt f f' r r' = cc
placed_apart g items next [] (j ∷ js) e k m a b cluster h lt f f' r r' = elim h [ ]
placed_apart g items next (i ∷ is) [] e k m a b cluster h lt f f' r r' = elim h [ ]
placed_apart g items next (i ∷ is) (j ∷ js) e k zero a b cluster h lt f f' r r' =
    absurd (omega arith)
placed_apart g items next (i ∷ is) (j ∷ js) e zero (suc m) a b cluster (p, ps) lt f f' r r' =
    let here = run_at-InRun next j.run.clusters cluster (
      subst (λ x. InRun x cluster) (ap (λ (x : Item). x.run) (sym (some-injective f)) ∙ p.run) r) in
    let later = placed_between g items (next + j.run.clusters) is js e m b cluster ps f' r' in
    absurd (omega (arith, here, later))
  where
    some-injective : {x y : Item} → some x ≡ some y → x ≡ y
    some-injective q = cc
placed_apart g items next (i ∷ is) (j ∷ js) e (suc k) (suc m) a b cluster (p, ps) lt f f' r r' =
    placed_apart g items (next + j.run.clusters) is js e k m a b cluster ps (omega arith) f f' r r'

pub run_end-run_at : (next n : ℕ) → 0 < n → run_end (run_at next n) ≡ next + n
unfolding run_end run_at
run_end-run_at next n pos = ground arith

pub run_at_first : (next n : ℕ) → 0 < n → (run_at next n).first ≡ next
unfolding run_at
run_at_first next n pos = ground arith

pub run_at_clusters : (next n : ℕ) → (run_at next n).clusters ≡ n
unfolding run_at
run_at_clusters next n = refl
