-- ===== src/Prelude/Parts.antt =====
-- Parts of joined lists: what `take` and `drop` give of `xs ++ ys`, and of a buffer after a copy.
use Prim.Native.Nat.{ℕ, zero, suc, ◌+◌, ◌-◌, ◌≤◌, ◌<◌}
use mathlib.Core.Path.{◌≡◌, ◌∙◌, refl, ap}
use mathlib.Core.List.{List, [], ◌∷◌, ◌++◌}
use mathlib.Core.Bool.{Bool, true, false, ◌&&◌}
use native.Mathlib.Omega.{arith}
use burnout.Prelude.Tests.{ltb, ◌==◌, ≡→==, if◌then◌else◌}
use burnout.Prelude.Lists.{length, get_or, set, take, drop, overlay, copy_at, replicate}

module _ {A : Type 0} where
  pub drop_all : (n : ℕ) (xs : List A) → length xs ≤ n → drop n xs ≡ []
  drop_all zero [] h = refl
  drop_all zero (x ∷ xs) h = absurd (omega arith)
  drop_all (suc n) [] h = refl
  drop_all (suc n) (x ∷ xs) h = drop_all n xs (omega arith)

  pub take-append : (n : ℕ) (xs ys : List A) → n ≤ length xs → take n (xs ++ ys) ≡ take n xs
  take-append zero xs ys h = refl
  take-append (suc n) [] ys h = absurd (omega arith)
  take-append (suc n) (x ∷ xs) ys h = ap (λ zs. x ∷ zs) (take-append n xs ys (omega arith))

  pub drop-append : (n : ℕ) (xs ys : List A) → n ≤ length xs → drop n (xs ++ ys) ≡ drop n xs ++ ys
  drop-append zero xs ys h = refl
  drop-append (suc n) [] ys h = absurd (omega arith)
  drop-append (suc n) (x ∷ xs) ys h = drop-append n xs ys (omega arith)

  pub take-append_whole : (n : ℕ) (xs ys : List A) → length xs ≡ n → take n (xs ++ ys) ≡ xs
  take-append_whole zero [] ys h = refl
  take-append_whole zero (x ∷ xs) ys h = absurd (omega (arith, h))
  take-append_whole (suc n) [] ys h = absurd (omega (arith, h))
  take-append_whole (suc n) (x ∷ xs) ys h =
      ap (λ zs. x ∷ zs) (take-append_whole n xs ys (omega (arith, h)))

  pub drop-append_whole : (n : ℕ) (xs ys : List A) → length xs ≡ n → drop n (xs ++ ys) ≡ ys
  drop-append_whole zero [] ys h = refl
  drop-append_whole zero (x ∷ xs) ys h = absurd (omega (arith, h))
  drop-append_whole (suc n) [] ys h = absurd (omega (arith, h))
  drop-append_whole (suc n) (x ∷ xs) ys h = drop-append_whole n xs ys (omega (arith, h))

  pub take-append_more :
      (n : ℕ) (xs ys : List A) → length xs ≤ n → take n (xs ++ ys) ≡ xs ++ take (n - length xs) ys
  take-append_more n [] ys h = ap (λ (m : ℕ). take m ys) {x = n} {y = n - 0} (omega arith)
  take-append_more zero (x ∷ xs) ys h = absurd (omega arith)
  take-append_more (suc n) (x ∷ xs) ys h =
      ap (λ zs. x ∷ zs)
        (take-append_more n xs ys (omega arith)
          ∙ ap (λ (m : ℕ). xs ++ take m ys) {x = n - length xs} {y = suc n - suc (length xs)}
              (omega arith))

  pub overlay-append :
      (xs bs : List A) → length xs ≤ length bs → overlay xs bs ≡ xs ++ drop (length xs) bs
  overlay-append [] bs h = refl
  overlay-append (x ∷ xs) [] h = absurd (omega arith)
  overlay-append (x ∷ xs) (b ∷ bs) h = ap (λ zs. x ∷ zs) (overlay-append xs bs (omega arith))

  -- A copy into a buffer leaves what was before it and puts the part behind.
  pub take-copy_at :
      (n k : ℕ) (part buf : List A)
      → n + length part ≤ length buf
      → n + length part ≡ k
      → take k (copy_at n part buf) ≡ take n buf ++ part
  take-copy_at zero k part buf h e =
      ap (take k) (overlay-append part buf (omega arith))
      ∙ take-append_whole k part (drop (length part) buf) (omega (arith, e))
  take-copy_at (suc n) k part [] h e = absurd (omega arith)
  take-copy_at (suc n) zero part (b ∷ buf) h e = absurd (omega (arith, e))
  take-copy_at (suc n) (suc k) part (b ∷ buf) h e =
      ap (λ zs. b ∷ zs) (take-copy_at n k part buf (omega arith) (omega (arith, e)))

  pub get_or-set :
      (xs : List A) (i : ℕ) (v : A) (j : ℕ) (d : A)
      → i < length xs
      → get_or (set xs i v) j d ≡ (if i == j then v else get_or xs j d)
  get_or-set [] i v j d h = absurd (omega arith)
  get_or-set (x ∷ xs) zero v zero d h = refl
  get_or-set (x ∷ xs) zero v (suc j) d h = ground arith
  get_or-set (x ∷ xs) (suc i) v zero d h = ground arith
  get_or-set (x ∷ xs) (suc i) v (suc j) d h = ground (arith, get_or-set xs i v j d)

  pub get_or-replicate :
      (n : ℕ) (v : A) (i : ℕ) (d : A) → get_or (replicate n v) i d ≡ (if ltb i n then v else d)
  get_or-replicate zero v i d = ground arith
  get_or-replicate (suc n) v zero d = ground arith
  get_or-replicate (suc n) v (suc i) d = ground (arith, get_or-replicate n v i d)

  pub get_or-replicate_self : (n : ℕ) (v : A) (i : ℕ) → get_or (replicate n v) i v ≡ v
  get_or-replicate_self zero v i = refl
  get_or-replicate_self (suc n) v zero = refl
  get_or-replicate_self (suc n) v (suc i) = get_or-replicate_self n v i

  pub replicate_snoc : (n : ℕ) (a : A) → replicate n a ++ a ∷ [] ≡ a ∷ replicate n a
  replicate_snoc zero a = refl
  replicate_snoc (suc n) a = ap (λ zs. a ∷ zs) (replicate_snoc n a)

-- `==` of two lists of numbers.
unfoldable pub same_list : List ℕ → List ℕ → Bool
same_list [] [] = true
same_list [] (b ∷ bs) = false
same_list (x ∷ xs) [] = false
same_list (x ∷ xs) (b ∷ bs) = x == b && same_list xs bs

pub same_list→≡ : (xs ys : List ℕ) → same_list xs ys ≡ true → xs ≡ ys
unfolding same_list
same_list→≡ [] [] h = refl
same_list→≡ [] (y ∷ ys) h = cc
same_list→≡ (x ∷ xs) [] h = cc
same_list→≡ (x ∷ xs) (y ∷ ys) h = ground (arith, same_list→≡ xs ys)

pub same_list_refl : (xs : List ℕ) → same_list xs xs ≡ true
unfolding same_list
same_list_refl [] = refl
same_list_refl (x ∷ xs) = rw (≡→== x x refl) (same_list_refl xs)
