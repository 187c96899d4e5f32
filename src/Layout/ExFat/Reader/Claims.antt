-- ===== src/Layout/ExFat/Reader/Claims.antt =====
-- The clusters that `Volume::claim` of crates/burnout-layout/src/exfat/read.rs claims.
use mathlib.Core.Path.{subst}
use native.Mathlib.Nat.{div-div-eq-div-mul, pow-succ'}
use burnout.Prelude.{
  ℕ, zero, suc, ◌+◌, ◌-◌, ◌*◌, ◌/◌, ◌%◌, ◌^◌, ◌≤◌, ◌<◌, ◌≡◌, ◌≢◌, refl, ap, ◌∙◌, sym, Bool,
  Bool-cases, true, false, ◌&&◌, ◌||◌, inl, inr, List, [], ◌∷◌, length, get_or, set, arith, leb,
  ltb, ◌==◌, get_or-set, length-set, ≡→==, ==→≡, ==→≢, if◌then◌else◌,
}
use burnout.Core.Error.{Error, Result, ok, err}
use burnout.Core.Tree.{TreePath}
use burnout.Layout.ExFat.Reader.Chains.{ClusterRun, is_claimed, claim_run}
use burnout.Layout.ExFat.Reader.ReadSet.{claim}

abbrev bit : ℕ → ℕ → ℕ
bit b k = b / 2 ^ k % 2

halved : (b m : ℕ) → bit b (suc m) ≡ bit (b / 2) m
halved b m =
    let p = pow-succ' 2 m in
    ap (λ (n : ℕ). b / n % 2) p ∙ ap (λ (n : ℕ). n % 2) (sym (div-div-eq-div-mul b 2 (2 ^ m)))

more_halved : (b k : ℕ) → (b + 2 ^ suc k) / 2 ≡ b / 2 + 2 ^ k
more_halved b k = omega (arith, pow-succ' 2 k)

-- A bit more in a byte that does not have it.
bit_set : (k b : ℕ) → bit b k ≡ 0 → bit (b + 2 ^ k) k ≡ 1
bit_set zero b h = omega (arith, h)
bit_set (suc k) b h =
    halved (b + 2 ^ suc k) k
    ∙ ap (λ (n : ℕ). bit n k) (more_halved b k)
    ∙ bit_set k (b / 2) (sym (halved b k) ∙ h)

bit_kept : (k m b : ℕ) → bit b k ≡ 0 → k ≢ m → bit (b + 2 ^ k) m ≡ bit b m
bit_kept zero zero b h apart = absurd (apart refl)
bit_kept zero (suc m) b h apart =
    let same : (b + 2 ^ 0) / 2 ≡ b / 2 = omega (arith, h) in
    halved (b + 2 ^ 0) m ∙ ap (λ (n : ℕ). bit n m) same ∙ sym (halved b m)
bit_kept (suc k) zero b h apart = omega (arith, pow-succ' 2 k)
bit_kept (suc k) (suc m) b h apart =
    halved (b + 2 ^ suc k) m
    ∙ ap (λ (n : ℕ). bit n m) (more_halved b k)
    ∙ bit_kept k m (b / 2) (sym (halved b k) ∙ h) (λ e. apart (ap suc e))
    ∙ sym (halved b m)

-- The state after a cluster is claimed.
abbrev marked : List ℕ → ℕ → List ℕ
marked claimed c = set claimed ((c - 2) / 8) (get_or claimed ((c - 2) / 8) 0 + 2 ^ ((c - 2) % 8))

abbrev Free : List ℕ → ℕ → Type 0
Free claimed c = is_claimed claimed c ≡ false

-- The bit of each cluster of the heap is there.
abbrev Room : List ℕ → ℕ → Type 0
Room claimed c = (2 ≤ c) × (c < 8 * length claimed + 2)

unclaimed_bit :
    (claimed : List ℕ) (c : ℕ)
    → Free claimed c
    → bit (get_or claimed ((c - 2) / 8) 0) ((c - 2) % 8) ≡ 0
unfolding is_claimed
unclaimed_bit claimed c h = ground (arith, h)

marked_set :
    (claimed : List ℕ) (c : ℕ)
    → Room claimed c
    → Free claimed c
    → is_claimed (marked claimed c) c ≡ true
unfolding is_claimed
marked_set claimed c room free =
    let at = (c - 2) / 8 in
    let more = get_or claimed at 0 + 2 ^ ((c - 2) % 8) in
    let there : get_or (marked claimed c) at 0 ≡ more =
      rw (get_or-set claimed at more at 0 (omega (arith, room.0, room.1)))
        (rw (≡→== at at refl) refl) in
    ≡→== (bit (get_or (marked claimed c) at 0) ((c - 2) % 8)) 1 (
      ap (λ (n : ℕ). bit n ((c - 2) % 8)) there
      ∙ bit_set ((c - 2) % 8) (get_or claimed at 0) (unclaimed_bit claimed c free))

marked_kept :
    (claimed : List ℕ) (c j : ℕ)
    → Room claimed c
    → Free claimed c
    → 2 ≤ j
    → c ≢ j
    → is_claimed (marked claimed c) j ≡ is_claimed claimed j
unfolding is_claimed
marked_kept claimed c j room free low apart =
    let at = (c - 2) / 8 in
    let more = get_or claimed at 0 + 2 ^ ((c - 2) % 8) in
    let there = get_or-set claimed at more ((j - 2) / 8) 0 (omega (arith, room.0, room.1)) in
    elim (Bool-cases (at == (j - 2) / 8)) [
      | inl e ↦
          let same = ==→≡ at ((j - 2) / 8) e in
          let other : (c - 2) % 8 ≢ (j - 2) % 8 =
            λ q. apart (omega (arith, same, q, room.0, low)) in
          ap (λ (n : ℕ). n == 1)
            (ap (λ (n : ℕ). bit n ((j - 2) % 8)) (there ∙ rw e refl)
              ∙ bit_kept ((c - 2) % 8) ((j - 2) % 8) (get_or claimed at 0)
                  (unclaimed_bit claimed c free) other
              ∙ ap (λ (n : ℕ). bit (get_or claimed n 0) ((j - 2) % 8)) same)
      | inr e ↦ ap (λ (n : ℕ). bit n ((j - 2) % 8) == 1) (there ∙ rw e refl)
    ]

abbrev pub in_run : ClusterRun → ℕ → Bool
in_run (first, n) c = leb first c && ltb c (first + n)

abbrev pub in_runs : List ClusterRun → ℕ → Bool
in_runs [] c = false
in_runs (run ∷ runs) c = in_run run c || in_runs runs c

-- The clusters of a run are claimed, which were free, and no others.
record ClaimedRun (run : ClusterRun) (before after : List ℕ) : Type 0 where
  free : (c : ℕ) → in_run run c ≡ true → Free before c
  marks : (c : ℕ) → 2 ≤ c → is_claimed after c ≡ (in_run run c || is_claimed before c)
  size : length after ≡ length before

claim_step :
    (b : Bool) {A : Type 0} (x : A) (r : Result A) (e : Error)
    → (if b then err e else r) ≡ ok x
    → (b ≡ false) × (r ≡ ok x)
claim_step false x r e q = (refl, q)
claim_step true x r e q = absurd (clash q)
  where
    clash : (err e ≡ ok x) → ⊥
    clash p = cc

in_no_run : (first c : ℕ) → in_run (first, 0) c ≡ false
in_no_run first c = ground arith

in_longer_run :
    (first n c : ℕ) → in_run (first, suc n) c ≡ ((first == c) || in_run (first + 1, n) c)
in_longer_run first n c = ground arith

in_run_low : (first n c : ℕ) → in_run (first, n) c ≡ true → first ≤ c
in_run_low first n c h = ground (arith, h)

or_true : (b : Bool) → (b || true) ≡ true
or_true true = refl
or_true false = refl

-- One cluster, and the rest of its run.
module _ (first n : ℕ) (before after : List ℕ) (room : Room before first) (here : Free before first)
    (rest : ClaimedRun (first + 1, n) (marked before first) after) where
  unclaimed_with : (c : ℕ) → in_run (first, suc n) c ≡ true → Free before c
  unclaimed_with c h = elim (Bool-cases (first == c)) [
    | inl e ↦ subst (Free before) (==→≡ first c e) here
    | inr e ↦
        let later : in_run (first + 1, n) c ≡ true =
          sym (in_longer_run first n c ∙ ap (λ b. b || in_run (first + 1, n) c) e) ∙ h in
        let low = in_run_low (first + 1) n c later in
        sym (
          marked_kept before first c room here (omega (arith, low, room.0))
            (λ q. absurd (omega (arith, q, low))))
        ∙ rest.free c later
  ]

  marks_with :
      (c : ℕ) → 2 ≤ c → is_claimed after c ≡ (in_run (first, suc n) c || is_claimed before c)
  marks_with c low = elim (Bool-cases (first == c)) [
    | inl e ↦
        let set : is_claimed (marked before first) c ≡ true =
          ap (is_claimed (marked before first)) (sym (==→≡ first c e))
          ∙ marked_set before first room here in
        rest.marks c low
        ∙ ap (λ b. in_run (first + 1, n) c || b) set
        ∙ or_true (in_run (first + 1, n) c)
        ∙ ap (λ b. b || is_claimed before c)
            (sym (in_longer_run first n c ∙ ap (λ b. b || in_run (first + 1, n) c) e))
    | inr e ↦
        let kept = marked_kept before first c room here low (==→≢ first c e) in
        rest.marks c low
        ∙ ap (λ b. in_run (first + 1, n) c || b) kept
        ∙ ap (λ b. b || is_claimed before c)
            (sym (in_longer_run first n c ∙ ap (λ b. b || in_run (first + 1, n) c) e))
  ]

claim_run-ClaimedRun :
    (what : TreePath) (n first : ℕ) (before after : List ℕ)
    → 2 ≤ first
    → first + n ≤ 8 * length before + 2
    → claim_run what n first before ≡ ok after
    → ClaimedRun (first, n) before after
unfolding claim_run
claim_run-ClaimedRun what zero first before after low high e =
    let same : before ≡ after =
      ap (λ (r : Result (List ℕ)). elim r [ ok x ↦ x | err x ↦ before ]) e in
    record {
      free = λ c h. absurd (clash (sym (in_no_run first c) ∙ h));
      marks = λ c l.
          ap (λ xs. is_claimed xs c) (sym same)
          ∙ ap (λ b. b || is_claimed before c) (sym (in_no_run first c));
      size = ap length (sym same);
    }
  where
    clash : (false ≡ true) → ⊥
    clash q = cc
claim_run-ClaimedRun what (suc n) first before after low high e =
    let (here, rest) = claim_step (is_claimed before first) after _ _ e in
    let at = (first - 2) / 8 in
    let size = length-set before at (get_or before at 0 + 2 ^ ((first - 2) % 8)) in
    let room : Room before first = (low, omega (arith, high)) in
    let later =
      claim_run-ClaimedRun what n (first + 1) (marked before first) after (omega arith)
        (omega (arith, high, size)) rest in
    record {
      free = unclaimed_with first n before after room here later;
      marks = marks_with first n before after room here later;
      size = later.size ∙ size;
    }

-- The runs are where the bits of this many bytes are.
abbrev pub InRoom : ℕ → List ClusterRun → Type 0
InRoom bytes [] = Unit
InRoom bytes ((first, n) ∷ runs) = (2 ≤ first) × (first + n ≤ 8 * bytes + 2) × InRoom bytes runs

-- No cluster is in two of the runs.
abbrev pub Apart : List ClusterRun → Type 0
Apart [] = Unit
Apart (run ∷ runs) = ((c : ℕ) → (in_run run c && in_runs runs c) ≡ false) × Apart runs

record ClaimedRuns (runs : List ClusterRun) (before after : List ℕ) : Type 0 where
  free : (c : ℕ) → 2 ≤ c → in_runs runs c ≡ true → is_claimed before c ≡ false
  marks : (c : ℕ) → 2 ≤ c → is_claimed after c ≡ (in_runs runs c || is_claimed before c)
  apart : Apart runs
  size : length after ≡ length before

claim_both :
    (what : TreePath) (runs : List ClusterRun) (after : List ℕ) (r : Result (List ℕ))
    → (elim r [ err e ↦ err e | ok more ↦ claim what runs more ]) ≡ ok after
    → (more : List ℕ) × (r ≡ ok more) × (claim what runs more ≡ ok after)
claim_both what runs after (ok more) e = (more, refl, e)
claim_both what runs after (err x) e = absurd (clash e)
  where
    clash : (err x ≡ ok after) → ⊥
    clash q = cc

or_swap : (a b c : Bool) → (a || (b || c)) ≡ ((b || a) || c)
or_swap true true c = refl
or_swap true false c = refl
or_swap false true c = refl
or_swap false false c = refl

no_both : (b : Bool) → b ≡ true → b ≡ false → ⊥
no_both b t f = cc

not_both : (a b : Bool) → (a ≡ true → b ≡ false) → (a && b) ≡ false
not_both true b h = h refl
not_both false b h = refl

-- One run, and the runs after it.
module _ (run : ClusterRun) (runs : List ClusterRun) (before more after : List ℕ)
    (one : ClaimedRun run before more) (rest : ClaimedRuns runs more after) where
  unclaimed_of : (c : ℕ) → 2 ≤ c → in_runs (run ∷ runs) c ≡ true → is_claimed before c ≡ false
  unclaimed_of c low h = elim (Bool-cases (in_run run c)) [
    | inl e ↦ one.free c e
    | inr e ↦
        sym (one.marks c low ∙ ap (λ b. b || is_claimed before c) e)
        ∙ rest.free c low (sym (ap (λ b. b || in_runs runs c) e) ∙ h)
  ]

  marks_of : (c : ℕ) → 2 ≤ c → is_claimed after c ≡ (in_runs (run ∷ runs) c || is_claimed before c)
  marks_of c low =
      rest.marks c low
      ∙ ap (λ b. in_runs runs c || b) (one.marks c low)
      ∙ or_swap (in_runs runs c) (in_run run c) (is_claimed before c)

  apart_of : (c : ℕ) → 2 ≤ c → in_run run c ≡ true → in_runs runs c ≡ false
  apart_of c low h = elim (Bool-cases (in_runs runs c)) [
    | inl e ↦ absurd (
        no_both (is_claimed more c) (one.marks c low ∙ ap (λ b. b || is_claimed before c) h)
          (rest.free c low e))
    | inr e ↦ e
  ]

claim-ClaimedRuns :
    (what : TreePath) (runs : List ClusterRun) (before after : List ℕ)
    → InRoom (length before) runs
    → claim what runs before ≡ ok after
    → ClaimedRuns runs before after
unfolding claim
claim-ClaimedRuns what [] before after room e =
    let same : before ≡ after =
      ap (λ (r : Result (List ℕ)). elim r [ ok x ↦ x | err x ↦ before ]) e in
    record {
      free = λ c l h. absurd (no_both false h refl);
      marks = λ c l. ap (λ xs. is_claimed xs c) (sym same);
      apart = tt;
      size = ap length (sym same);
    }
claim-ClaimedRuns what ((first, n) ∷ runs) before after (low, high, room) e =
    let (more, taken, others) = claim_both what runs after (claim_run what n first before) e in
    let one = claim_run-ClaimedRun what n first before more low high taken in
    let rest =
      claim-ClaimedRuns what runs more after (subst (λ (k : ℕ). InRoom k runs) (sym one.size) room)
        others in
    record {
      free = unclaimed_of (first, n) runs before more after one rest;
      marks = marks_of (first, n) runs before more after one rest;
      apart = (
        λ c. not_both (in_run (first, n) c) (in_runs runs c) (λ h.
            apart_of (first, n) runs before more after one rest c
              (omega (arith, low, in_run_low first n c h)) h),
        rest.apart,
      );
      size = rest.size ∙ one.size;
    }

-- What a claim of runs does to the bits, with `k` for the cluster `k + 2`.
pub record Claimed (runs : List ClusterRun) (before after : List ℕ) : Type 0 where
  free : (k : ℕ) → (in_runs runs (k + 2) && is_claimed before (k + 2)) ≡ false
  marks : (k : ℕ) → is_claimed after (k + 2) ≡ (in_runs runs (k + 2) || is_claimed before (k + 2))
  apart : Apart runs
  size : length after ≡ length before

-- Where `claim` answers, for runs from cluster 2 on that end inside the bits: none of their clusters was claimed
-- before, no cluster is in two of the runs, and after it exactly their clusters are claimed besides those that
-- were.
pub claim-Claimed :
    (what : TreePath) (runs : List ClusterRun) (before after : List ℕ)
    → InRoom (length before) runs
    → claim what runs before ≡ ok after
    → Claimed runs before after
claim-Claimed what runs before after room e =
    let all = claim-ClaimedRuns what runs before after room e in
    record {
      free = λ k.
          not_both (in_runs runs (k + 2)) (is_claimed before (k + 2))
            (all.free (k + 2) (omega arith));
      marks = λ k. all.marks (k + 2) (omega arith);
      apart = all.apart;
      size = all.size;
    }
