-- ===== src/Layout/ExFat/Write/Fat.antt =====
-- The chains that `write_fat` of crates/burnout-layout/src/exfat/write.rs puts into the FAT.
use mathlib.Core.Path.{subst}
use burnout.Prelude.{
  get_or-set, ℕ, zero, suc, ◌+◌, ◌≤◌, ◌<◌, ◌≡◌, refl, ap, ◌∙◌, sym, Bool-cases, inl, inr, List,
  length, replicate, set, get_or, arith, ◌==◌, ==→≡, ==→≢, if◌then◌else◌, length-set,
  length-replicate,
}
use burnout.Layout.ExFat.Place.{Run, run_end, Placement, run_at}
use burnout.Layout.ExFat.Place.Runs.{run_end-run_at}
use burnout.Layout.ExFat.Place.Allocated.{IsAllocated}
use burnout.Layout.ExFat.Write.{media, end_of_chain, link_run, fat_entries}

-- Each cluster of the run but the last names the next one, and the last one ends the chain.
pub record Linked (entries : List ℕ) (first n : ℕ) : Type 0 where
  pub inside : first + n ≤ length entries
  pub next :
      (c : ℕ)
      → first ≤ c
      → c < first + n
      → get_or entries c 0 ≡ (if c + 1 == first + n then end_of_chain else c + 1)

pub length-link_run :
    (n cluster : ℕ) (entries : List ℕ) → length (link_run n cluster entries) ≡ length entries
unfolding link_run
length-link_run zero cluster entries = refl
length-link_run (suc n) cluster entries =
    length-link_run n (cluster + 1) _ ∙ length-set entries cluster _

-- The entries outside of the run stay.
link_run-before :
    (n cluster : ℕ) (entries : List ℕ) (c : ℕ)
    → cluster + n ≤ length entries
    → c < cluster
    → get_or (link_run n cluster entries) c 0 ≡ get_or entries c 0
unfolding link_run
link_run-before zero cluster entries c fits lt = refl
link_run-before (suc n) cluster entries c fits lt =
    let v = if n == 0 then end_of_chain else cluster + 1 in
    link_run-before n (cluster + 1) (set entries cluster v) c
      (omega (arith, length-set entries cluster v)) (omega arith)
    ∙ get_or-set entries cluster v c 0 (omega arith)
    ∙ ground arith

link_run_next :
    (n cluster : ℕ) (entries : List ℕ) (c : ℕ)
    → cluster + n ≤ length entries
    → cluster ≤ c
    → c < cluster + n
    → get_or (link_run n cluster entries) c 0
      ≡ (if c + 1 == cluster + n then end_of_chain else c + 1)
unfolding link_run
link_run_next zero cluster entries c fits le lt = absurd (omega arith)
link_run_next (suc n) cluster entries c fits le lt =
    let v = if n == 0 then end_of_chain else cluster + 1 in
    let size = length-set entries cluster v in
    elim (Bool-cases (cluster == c)) [
      | inl here ↦
          link_run-before n (cluster + 1) (set entries cluster v) c (omega (arith, size))
            (omega (arith, ==→≡ cluster c here))
          ∙ get_or-set entries cluster v c 0 (omega arith)
          ∙ ground (arith, here)
      | inr later ↦
          link_run_next n (cluster + 1) (set entries cluster v) c (omega (arith, size))
            (omega (arith, ==→≢ cluster c later)) (omega arith)
          ∙ ground arith
    ]

-- A run that is linked now, and a later one.
link_run-Linked :
    (n first : ℕ) (entries : List ℕ)
    → first + n ≤ length entries
    → Linked (link_run n first entries) first n
link_run-Linked n first entries fits = record {
  inside = omega (arith, length-link_run n first entries);
  next = λ c le lt. link_run_next n first entries c fits le lt;
}

Linked-kept :
    (n first m later : ℕ) (entries : List ℕ)
    → Linked entries first n
    → first + n ≤ later
    → later + m ≤ length entries
    → Linked (link_run m later entries) first n
Linked-kept n first m later entries k apart fits = record {
  inside = omega (arith, length-link_run m later entries, k.inside);
  next = λ c le lt. link_run-before m later entries c fits (omega arith) ∙ k.next c le lt;
}

-- The three runs in a row, from cluster 2 on.
three_runs :
    (blank : List ℕ) (b u r : ℕ)
    → 2 + b + u + r ≤ length blank
    → Linked (link_run r (2 + b + u) (link_run u (2 + b) (link_run b 2 blank))) 2 b
      × Linked (link_run r (2 + b + u) (link_run u (2 + b) (link_run b 2 blank))) (2 + b) u
      × Linked (link_run r (2 + b + u) (link_run u (2 + b) (link_run b 2 blank))) (2 + b + u) r
three_runs blank b u r fits =
    let one = link_run b 2 blank in
    let two = link_run u (2 + b) one in
    let one_size = length-link_run b 2 blank in
    let two_size = length-link_run u (2 + b) one in
    (
      Linked-kept b 2 r (2 + b + u) two
          (Linked-kept b 2 u (2 + b) one (link_run-Linked b 2 blank (omega arith)) (omega arith)
            (omega (arith, one_size)))
          (omega arith) (omega (arith, one_size, two_size)),
      Linked-kept u (2 + b) r (2 + b + u) two
          (link_run-Linked u (2 + b) one (omega (arith, one_size))) (omega arith)
          (omega (arith, one_size, two_size)),
      link_run-Linked r (2 + b + u) two (omega (arith, one_size, two_size)),
    )

-- A run of no clusters is not there, wherever it starts.
link_run_at :
    (n next : ℕ) (entries : List ℕ)
    → link_run n (run_at next n).first entries ≡ link_run n next entries
unfolding link_run run_at
link_run_at zero next entries = refl
link_run_at (suc n) next entries = ap (λ (c : ℕ). link_run (suc n) c entries) (first_of next n)
  where
    first_of : (next n : ℕ) → (if suc n == 0 then 0 else next) ≡ next
    first_of next n = ground arith

abbrev heads : Run → List ℕ
heads root = set (set (replicate (run_end root) 0) 0 media) 1 end_of_chain

length-heads : (root : Run) → length (heads root) ≡ run_end root
length-heads root =
    length-set (set (replicate (run_end root) 0) 0 media) 1 end_of_chain
    ∙ length-set (replicate (run_end root) 0) 0 media
    ∙ length-replicate (run_end root) 0

abbrev fat_of : Run → Run → Run → List ℕ
fat_of bitmap upcase root =
    link_run root.clusters root.first
      (link_run upcase.clusters upcase.first (link_run bitmap.clusters bitmap.first (heads root)))

fat_of_runs :
    (b u r : ℕ)
    → fat_of (run_at 2 b) (run_at (2 + b) u) (run_at (2 + b + u) r)
      ≡ link_run r (2 + b + u) (link_run u (2 + b) (link_run b 2 (heads (run_at (2 + b + u) r))))
unfolding run_at
fat_of_runs b u r =
    ap (λ xs. link_run r (run_at (2 + b + u) r).first (link_run u (run_at (2 + b) u).first xs))
      (link_run_at b 2 (heads (run_at (2 + b + u) r)))
    ∙ ap (link_run r (run_at (2 + b + u) r).first)
        (link_run_at u (2 + b) (link_run b 2 (heads (run_at (2 + b + u) r))))
    ∙ link_run_at r (2 + b + u) (link_run u (2 + b) (link_run b 2 (heads (run_at (2 + b + u) r))))

-- The FAT links the clusters of the bitmap, of the up-case table and of the root directory.
pub fat_entries-Linked :
    (p q : Placement)
    → IsAllocated p q
    → Linked (fat_entries q) 2 q.bitmap.clusters
      × Linked (fat_entries q) (2 + q.bitmap.clusters) q.upcase.clusters
      × Linked (fat_entries q) (2 + q.bitmap.clusters + q.upcase.clusters) q.root.clusters
unfolding fat_entries
fat_entries-Linked p q a =
    let b = q.bitmap.clusters in
    let u = q.upcase.clusters in
    let r = q.root.clusters in
    let runs : fat_of q.bitmap q.upcase q.root
        ≡ link_run r (2 + b + u)
            (link_run u (2 + b) (link_run b 2 (heads (run_at (2 + b + u) r)))) =
      (λ i. fat_of (a.bitmap i) (a.upcase i) (a.root i)) ∙ fat_of_runs b u r in
    subst (λ xs. Linked xs 2 b × Linked xs (2 + b) u × Linked xs (2 + b + u) r) (sym runs)
      (three_runs (heads (run_at (2 + b + u) r)) b u r (
        omega
          (arith, length-heads (run_at (2 + b + u) r), run_end-run_at (2 + b + u) r a.some_root)))
