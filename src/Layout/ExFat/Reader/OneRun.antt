-- ===== src/Layout/ExFat/Reader/OneRun.antt =====
-- A run that the FAT links is one run for the reader of crates/burnout-layout/src/exfat/read.rs.
use burnout.Prelude.{
  ℕ, zero, suc, ◌+◌, ◌-◌, ◌≤◌, ◌<◌, ◌≡◌, refl, ap, ◌∙◌, sym, false, ◌||◌, ◌⊎◌, inl, inr, some, List,
  [], ◌∷◌, length, get_or, arith, ltb, ◌==◌, ≡→==, ≢→==, le→ltb, if◌then◌else◌, div_ceil,
}
use burnout.Core.Error.{ok}
use burnout.Core.Target.{Io}
use burnout.Layout.ExFat.Reader.Chains.{ClusterRun, add_cluster, chain_loop, right_length, chain}
use burnout.Layout.ExFat.Geometry.{first_cluster}
use burnout.Layout.ExFat.Place.{Run, run_end, Placement, run_at, used_clusters}
use burnout.Layout.ExFat.Place.Runs.{AllPlaced-le, run_end-run_at, run_at_first, run_at_clusters}
use burnout.Layout.ExFat.Place.Allocated.{IsAllocated}
use burnout.Layout.ExFat.Write.{end_of_chain, fat_entries}
use burnout.Layout.ExFat.Write.Fat.{Linked, fat_entries-Linked}

module _ {X : Type 0} (fat_entry : ℕ → Io X ℕ) (V : X → Type 0) (entries : List ℕ) where
  -- The FAT of the volume holds these entries, and a read of it gives them.
  pub record ReadsFat : Type 0 where
    pub next : ℕ → X → X
    pub returns :
        (c : ℕ) (x : X)
        → V x
        → c < length entries
        → fat_entry c x ≡ (ok (get_or entries c 0), next c x)
    pub valid : (c : ℕ) (x : X) → V x → V (next c x)

  module _ (reads : ReadsFat) (count first n : ℕ) (linked : Linked entries first n)
      (low : 2 ≤ first) (high : first + n ≤ count + 2) (small : count + 2 < end_of_chain) where
    in_heap : (c : ℕ) → 2 ≤ c → c ≤ count + 1 → (ltb c 2 || ltb (count + 1) c) ≡ false
    in_heap c l h = ground arith

    short : (k : ℕ) → k < n → ltb count (k + 1) ≡ false
    short k h = le→ltb count (k + 1) (omega arith)

    -- What the FAT gives of the cluster `k` of the run.
    came :
        (k v : ℕ) (x : X)
        → V x
        → k < n
        → (if first + k + 1 == first + n then end_of_chain else first + k + 1) ≡ v
        → fat_entry (first + k) x ≡ (ok v, reads.next (first + k) x)
    came k v x valid lt e =
        reads.returns (first + k) x valid (omega (arith, linked.inside))
        ∙ ap (λ (w : ℕ). (ok w, reads.next (first + k) x))
            (linked.next (first + k) (omega arith) (omega arith) ∙ e)

    walk_last :
        (left k : ℕ) (runs : List ClusterRun) (x : X)
        → V x
        → k + 1 ≡ n
        → add_cluster (first + k) runs ≡ (first, k + 1) ∷ []
        → chain_loop fat_entry count (suc left) (first + k) k runs x
          ≡ (ok (n, (first, n) ∷ []), reads.next (first + k) x)
    unfolding chain_loop
    walk_last left k runs x v last added =
        rw (in_heap (first + k) (omega arith) (omega (arith, last)), short k (omega (arith, last)))
          (rw (came k end_of_chain x v (omega (arith, last)) (ground (arith, last)))
            (rw added (ap (λ (m : ℕ). (ok (m, (first, m) ∷ []), reads.next (first + k) x)) last)))

    walk_on :
        (left k : ℕ) (runs : List ClusterRun) (x : X)
        → V x
        → k + 1 < n
        → add_cluster (first + k) runs ≡ (first, k + 1) ∷ []
        → chain_loop fat_entry count (suc left) (first + k) k runs x
          ≡ chain_loop fat_entry count left
              (first + (k + 1))
              (k + 1)
              ((first, k + 1) ∷ [])
              (reads.next (first + k) x)
    unfolding chain_loop
    walk_on left k runs x v more added =
        rw (in_heap (first + k) (omega arith) (omega arith), short k (omega arith))
          (rw (came k (first + (k + 1)) x v (omega arith) (ground arith))
            (rw (≢→== (first + (k + 1)) end_of_chain (omega arith)) (rw added refl)))

    add_next :
        (k : ℕ) → add_cluster (first + (k + 1)) ((first, k + 1) ∷ []) ≡ (first, k + 1 + 1) ∷ []
    unfolding add_cluster
    add_next k = rw (≡→== (first + (k + 1)) (first + (k + 1)) refl) refl

    walk :
        (m left k : ℕ) (runs : List ClusterRun) (x : X)
        → V x
        → k + suc m ≡ n
        → suc m ≤ left
        → add_cluster (first + k) runs ≡ (first, k + 1) ∷ []
        → (x' : X) × (chain_loop fat_entry count left (first + k) k runs x
            ≡ (ok (n, (first, n) ∷ []), x'))
          × V x'
    walk m zero k runs x v e le added = absurd (omega arith)
    walk zero (suc left) k runs x v e le added = (
      reads.next (first + k) x,
      walk_last left k runs x v (omega (arith, e)) added,
      reads.valid (first + k) x v,
    )
    walk (suc m) (suc left) k runs x v e le added =
        let rest =
          walk m left (k + 1) ((first, k + 1) ∷ []) (reads.next (first + k) x)
            (reads.valid (first + k) x v) (omega (arith, e)) (omega arith) (add_next k) in
        (rest.0, walk_on left k runs x v (omega (arith, e)) added ∙ rest.1, rest.2)

    walk_all :
        (x : X)
        → V x
        → 0 < n
        → (x' : X) × (chain_loop fat_entry count (suc count) first 0 [] x
            ≡ (ok (n, (first, n) ∷ []), x'))
          × V x'
    unfolding add_cluster
    walk_all x v pos =
        let start : first + 0 ≡ first = omega arith in
        let w =
          walk (n - 1) (suc count) 0 [] x v (omega arith) (omega arith)
            (ap (λ (c : ℕ). (c, 1) ∷ []) start) in
        (
          w.0,
          ap (λ (c : ℕ). chain_loop fat_entry count (suc count) c 0 [] x) (sym start) ∙ w.1,
          w.2,
        )

    -- The chain of a run that the FAT links is this one run, for bytes that need its clusters.
    pub chain-OneRun :
        (cluster_bytes length : ℕ) (x : X)
        → V x
        → 0 < n
        → div_ceil length cluster_bytes ≡ n
        → (x' : X) × (chain fat_entry count cluster_bytes first (some length) x
            ≡ (ok ((first, n) ∷ []), x'))
          × V x'
    unfolding chain right_length
    chain-OneRun cluster_bytes length x v pos e =
        let w = walk_all x v pos in
        (w.0, rw (w.1, ≡→== n (div_ceil length cluster_bytes) (sym e)) refl, w.2)

-- On a volume whose FAT is the one that the writer makes of a placement, and that it gives on every read, the
-- reader finds the bitmap, the up-case table and the root directory each in the one run where they were placed,
-- where each has a cluster and bytes that need its clusters.
pub chains-placed :
    {X : Type 0} (fat_entry : ℕ → Io X ℕ) (V : X → Type 0) (p q : Placement) (cluster_bytes : ℕ)
    (x : X)
    → IsAllocated p q
    → ReadsFat fat_entry V (fat_entries q)
    → p.geometry.cluster_count + 2 < end_of_chain
    → V x
    → (r : Run) (k : ℕ) → (r ≡ q.bitmap) ⊎ ((r ≡ q.upcase) ⊎ (r ≡ q.root))
    → 0 < r.clusters
    → div_ceil k cluster_bytes ≡ r.clusters
    → (x' : X) × (chain fat_entry p.geometry.cluster_count cluster_bytes r.first (some k) x
        ≡ (ok ((r.first, r.clusters) ∷ []), x'))
      × V x'
chains-placed {X} fat_entry V p q cluster_bytes x a reads small v r k which pos e =
    let b = q.bitmap.clusters in
    let u = q.upcase.clusters in
    let linked = fat_entries-Linked p q a in
    let root_end : 2 + b + u + q.root.clusters ≡ run_end q.root =
      sym (ap run_end a.root ∙ run_end-run_at (2 + b + u) q.root.clusters a.some_root) in
    let inside : 2 + b + u + q.root.clusters ≤ p.geometry.cluster_count + 2 = omega (
      arith,
      root_end,
      a.inside,
      AllPlaced-le p.geometry p.items (run_end q.root) p.items q.items
          (first_cluster + used_clusters q) a.items,
    ) in
    elim which [
      | inl same ↦ one 2 b (same ∙ a.bitmap) linked.0 (omega arith) (omega arith)
      | inr (inl same) ↦ one (2 + b) u (same ∙ a.upcase) linked.1 (omega arith) (omega arith)
      | inr (inr same) ↦
          one (2 + b + u) q.root.clusters (same ∙ a.root) linked.2 (omega arith) (omega arith)
    ]
  where
    one :
        (next n : ℕ)
        → r ≡ run_at next n
        → Linked (fat_entries q) next n
        → 2 ≤ next
        → next + n ≤ p.geometry.cluster_count + 2
        → (x' : X) × (chain fat_entry p.geometry.cluster_count cluster_bytes r.first (some k) x
            ≡ (ok ((r.first, r.clusters) ∷ []), x'))
          × V x'
    one next n same l low high =
        let count : r.clusters ≡ n = ap (λ (y : Run). y.clusters) same ∙ run_at_clusters next n in
        let first : r.first ≡ next =
          ap (λ (y : Run). y.first) same ∙ run_at_first next n (omega (arith, count)) in
        let w =
          chain-OneRun fat_entry V (fat_entries q) reads p.geometry.cluster_count next n l low high
            small cluster_bytes k x v (omega (arith, count)) (e ∙ count) in
        (
          w.0,
          ap (λ (c : ℕ). chain fat_entry p.geometry.cluster_count cluster_bytes c (some k) x) first
              ∙ w.1
              ∙ sym (λ i. (ok ((first i, count i) ∷ []), w.0)),
          w.2,
        )
