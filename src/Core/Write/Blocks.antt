-- ===== src/Core/Write/Blocks.antt =====
-- The blocks that crates/burnout-core/src/write.rs reads of an image, and pads.
use burnout.Prelude.{
  pos as pos_int, ℕ, zero, suc, ◌+◌, ◌-◌, ◌*◌, ◌%◌, ◌^◌, ◌≤◌, ◌<◌, ◌≡◌, refl, ap, ◌∙◌, sym, List,
  ◌++◌, length, take, drop, slice, replicate, arith, ≢→==, length-append, length-replicate,
  length-slice, take_join, drop-drop, append_nil, append_assoc, div_ceil,
}
use burnout.Core.Error.{Result, ok}
use burnout.Core.Alignment.{round_up}
use burnout.Core.Alignment.Rounding.{round_up-eq, div_ceil_bounds, div_ceil-add, round_up-aligned}
use burnout.Core.Target.{Io, start, end}
use burnout.Core.Write.{Source, fill_loop, fill, padded}

-- A round of `fill` that got some bytes.
pub fill_step :
    {X : Type 0} (read : ℕ → Io X (List ℕ)) (fuel n : ℕ) (s t u : X) (got more : List ℕ)
    → read (suc n) s ≡ (ok got, t)
    → 0 < length got
    → fill_loop read fuel (suc n - length got) t ≡ (ok more, u)
    → fill_loop read (suc fuel) (suc n) s ≡ (ok (got ++ more), u)
unfolding fill_loop
fill_step read fuel n s t u got more e pos f = rw e (rw (≢→== (length got) 0 (omega arith)) (rw f))

module _ {S : Type 0} (source : Source S) (V : S → Type 0) (image : List ℕ) (at : S → ℕ) where
  pub record SoughtTo (n : ℕ) (r : Result ℕ × S) : Type 0 where
    pub next : S
    pub returns : r ≡ (ok n, next)
    pub valid : V next

  -- A read of an image gives a byte at least where one is left.
  pub record Came (n : ℕ) (s : S) : Type 0 where
    pub next : S
    pub count : ℕ
    pub returns : source.read n s ≡ (ok (slice (at s) count image), next)
    pub some_bytes : 0 < count
    pub at_most : count ≤ n
    pub inside : at s + count ≤ length image
    pub valid : V next
    pub position : at next ≡ at s + count

  -- What the code relies on of an image that does not change: it is `image`, and a read may be short.
  pub record IsSource : Type 0 where
    pub seek_start :
        (n : ℕ) (s : S) → V s → (k : SoughtTo n (source.seek (start n) s)) × (at k.next ≡ n)
    pub seek_end : (s : S) → V s → SoughtTo (length image) (source.seek (end (pos_int 0)) s)
    pub read_some : (n : ℕ) (s : S) → V s → 0 < n → at s + n ≤ length image → Came n s

  -- The next `n` bytes of the image.
  pub record Filled (n : ℕ) (s : S) (r : Result (List ℕ) × S) : Type 0 where
    pub next : S
    pub returns : r ≡ (ok (slice (at s) n image), next)
    pub valid : V next
    pub position : at next ≡ at s + n

  module _ (laws : IsSource) where
    fill_loop-Filled :
        (fuel n : ℕ) (s : S)
        → V s
        → n ≤ fuel
        → at s + n ≤ length image
        → Filled n s (fill_loop source.read fuel n s)
    unfolding fill_loop
    fill_loop-Filled fuel zero s v f h = record {
      next = s;
      returns = refl;
      valid = v;
      position = omega arith;
    }
    fill_loop-Filled zero (suc n) s v f h = absurd (omega arith)
    fill_loop-Filled (suc fuel) (suc n) s v f h =
        let c = laws.read_some (suc n) s v (omega arith) h in
        let size : length (slice (at s) c.count image) ≡ c.count =
          length-slice (at s) c.count image c.inside in
        let rest =
          fill_loop-Filled fuel (suc n - c.count) c.next c.valid (omega (arith, c.some_bytes))
            (omega (arith, c.position, c.at_most)) in
        record {
          next = rest.next;
          returns =
              fill_step source.read fuel n s c.next rest.next (slice (at s) c.count image)
                (slice (at c.next) (suc n - c.count) image) c.returns
                (omega (arith, size, c.some_bytes))
                (ap (λ (m : ℕ). fill_loop source.read fuel (suc n - m) c.next) size ∙ rest.returns)
              ∙ ap (λ bytes. (ok bytes, rest.next)) (joined c);
          valid = rest.valid;
          position = omega (arith, rest.position, c.position, c.at_most);
        }
      where
        joined :
            (c : Came (suc n) s)
            → slice (at s) c.count image ++ slice (at c.next) (suc n - c.count) image
              ≡ slice (at s) (suc n) image
        joined c =
            ap (λ xs. slice (at s) c.count image ++ take (suc n - c.count) xs)
              (ap (λ (m : ℕ). drop m image) c.position ∙ sym (drop-drop (at s) c.count image))
            ∙ take_join c.count (suc n) (drop (at s) image) c.at_most

    pub fill-Filled :
        (n : ℕ) (s : S) → V s → at s + n ≤ length image → Filled n s (fill source.read n s)
    unfolding fill
    fill-Filled n s v h = fill_loop-Filled n n s v (omega arith) h

-- How long a padded block is.
pub length-padded :
    (s : ℕ) (xs : List ℕ)
    → 0 < s
    → length xs + s ≤ 2 ^ 64
    → length (padded s xs) ≡ div_ceil (length xs) s * s
unfolding padded
length-padded s xs pos fits = omega (
  arith,
  length-append {0} xs (replicate (round_up (length xs) s - length xs) 0),
  length-replicate {A = ℕ} (round_up (length xs) s - length xs) 0,
  round_up-eq (length xs) s pos fits,
  (div_ceil_bounds (length xs) s pos).0,
)

-- Whole sectors need no zeros.
pub padded-whole :
    (s : ℕ) (xs : List ℕ) → 0 < s → length xs + s ≤ 2 ^ 64 → length xs % s ≡ 0 → padded s xs ≡ xs
unfolding padded
padded-whole s xs pos fits whole =
    ap (λ (n : ℕ). xs ++ replicate n 0) {y = 0}
      (omega (arith, round_up-aligned (length xs) s pos fits whole))
    ∙ append_nil xs

-- Whole sectors and then the rest are padded as one.
pub padded-append :
    (s : ℕ) (xs ys : List ℕ)
    → 0 < s
    → length xs + length ys + s ≤ 2 ^ 64
    → length xs % s ≡ 0
    → padded s (xs ++ ys) ≡ xs ++ padded s ys
unfolding padded
padded-append s xs ys pos fits whole =
    let size = length-append {0} xs ys in
    append_assoc xs ys (replicate (round_up (length (xs ++ ys)) s - length (xs ++ ys)) 0)
    ∙ ap (λ (n : ℕ). xs ++ (ys ++ replicate n 0))
        (omega (
          arith,
          size,
          round_up-eq (length (xs ++ ys)) s pos (omega (arith, size)),
          round_up-eq (length ys) s pos (omega arith),
          div_ceil-add (length ys) (length xs) s pos whole,
          ap (λ (n : ℕ). div_ceil n s * s) size,
        ))
