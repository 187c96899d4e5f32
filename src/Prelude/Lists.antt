-- ===== src/Prelude/Lists.antt =====
-- Byte buffers and vectors as lists, measured and indexed by native numbers.
use Prim.Native.Nat.{ℕ, zero, suc, ◌+◌, ◌-◌, ◌≤◌, min}
use mathlib.Core.Path.{◌≡◌, ◌∙◌, sym, refl, ap}
use mathlib.Core.Bool.{◌&&◌}
use mathlib.Core.List.{List, [], ◌∷◌, ◌++◌}
use mathlib.Core.Option.{Option, none, some}
use native.Mathlib.Omega.{arith}
use burnout.Prelude.Tests.{ltb, leb, if◌then◌else◌}

module _ {ℓ} {A : Type ℓ} where
  abbrev pub length : List A → ℕ
  length [] = 0
  length (x ∷ xs) = suc (length xs)

  abbrev pub get_elem? : List A → ℕ → Option A
  get_elem? [] i = none
  get_elem? (x ∷ xs) zero = some x
  get_elem? (x ∷ xs) (suc i) = get_elem? xs i

  abbrev pub get_or : List A → ℕ → A → A
  get_or [] i d = d
  get_or (x ∷ xs) zero d = x
  get_or (x ∷ xs) (suc i) d = get_or xs i d

  abbrev pub set : List A → ℕ → A → List A
  set [] i v = []
  set (x ∷ xs) zero v = v ∷ xs
  set (x ∷ xs) (suc i) v = x ∷ set xs i v

  abbrev pub take : ℕ → List A → List A
  take zero xs = []
  take (suc n) [] = []
  take (suc n) (x ∷ xs) = x ∷ take n xs

  abbrev pub drop : ℕ → List A → List A
  drop zero xs = xs
  drop (suc n) [] = []
  drop (suc n) (x ∷ xs) = drop n xs

  abbrev pub replicate : ℕ → A → List A
  replicate zero a = []
  replicate (suc n) a = a ∷ replicate n a

  -- `buf[at..at + n]`.
  abbrev pub slice : ℕ → ℕ → List A → List A
  slice start n xs = take n (drop start xs)

  abbrev pub overlay : List A → List A → List A
  overlay [] bs = bs
  overlay (x ∷ xs) [] = []
  overlay (x ∷ xs) (b ∷ bs) = x ∷ overlay xs bs

  -- `buf[at..at + part.len()].copy_from_slice(part)`. What would lie past the end is dropped, where
  -- the program panics.
  abbrev pub copy_at : ℕ → List A → List A → List A
  copy_at zero part buf = overlay part buf
  copy_at (suc n) part [] = []
  copy_at (suc n) part (b ∷ buf) = b ∷ copy_at n part buf

  pub length-append : (xs ys : List A) → length (xs ++ ys) ≡ length xs + length ys
  length-append [] ys = omega arith
  length-append (x ∷ xs) ys = omega (arith, length-append xs ys)

  pub length-replicate : (n : ℕ) (a : A) → length (replicate n a) ≡ n
  length-replicate zero a = refl
  length-replicate (suc n) a = ap suc (length-replicate n a)

  pub length-overlay : (xs bs : List A) → length (overlay xs bs) ≡ length bs
  length-overlay [] bs = refl
  length-overlay (x ∷ xs) [] = refl
  length-overlay (x ∷ xs) (b ∷ bs) = ap suc (length-overlay xs bs)

  pub length-copy_at : (n : ℕ) (part buf : List A) → length (copy_at n part buf) ≡ length buf
  length-copy_at zero part buf = length-overlay part buf
  length-copy_at (suc n) part [] = refl
  length-copy_at (suc n) part (b ∷ buf) = ap suc (length-copy_at n part buf)

  pub take_all : (n : ℕ) (xs : List A) → length xs ≤ n → take n xs ≡ xs
  take_all zero [] h = refl
  take_all zero (x ∷ xs) h = absurd (omega arith)
  take_all (suc n) [] h = refl
  take_all (suc n) (x ∷ xs) h = ap (λ ys. x ∷ ys) (take_all n xs (omega arith))

  pub append_nil : (xs : List A) → xs ++ [] ≡ xs
  append_nil [] = refl
  append_nil (x ∷ xs) = ap (λ ys. x ∷ ys) (append_nil xs)

  pub length-set : (xs : List A) (i : ℕ) (v : A) → length (set xs i v) ≡ length xs
  length-set [] i v = refl
  length-set (x ∷ xs) zero v = refl
  length-set (x ∷ xs) (suc i) v = ap suc (length-set xs i v)

  pub length-take : (n : ℕ) (xs : List A) → length (take n xs) ≡ min n (length xs)
  length-take zero xs = omega arith
  length-take (suc n) [] = omega arith
  length-take (suc n) (x ∷ xs) = omega (arith, length-take n xs)

  pub length-drop : (n : ℕ) (xs : List A) → length (drop n xs) ≡ length xs - n
  length-drop zero xs = omega arith
  length-drop (suc n) [] = omega arith
  length-drop (suc n) (x ∷ xs) = omega (arith, length-drop n xs)

  pub take-append-drop : (n : ℕ) (xs : List A) → take n xs ++ drop n xs ≡ xs
  take-append-drop zero xs = refl
  take-append-drop (suc n) [] = refl
  take-append-drop (suc n) (x ∷ xs) = ap (λ r. x ∷ r) (take-append-drop n xs)

  pub get_or-past : (xs : List A) (i : ℕ) (d : A) → length xs ≤ i → get_or xs i d ≡ d
  get_or-past [] i d h = refl
  get_or-past (x ∷ xs) zero d h = absurd (omega arith)
  get_or-past (x ∷ xs) (suc i) d h = get_or-past xs i d (omega arith)

  pub get_or-append :
      (xs ys : List A) (i : ℕ) (d : A)
      → get_or (xs ++ ys) i d
        ≡ (if ltb i (length xs) then get_or xs i d else get_or ys (i - length xs) d)
  get_or-append [] ys i d = ground (arith, ap (λ k. get_or ys k d) (sub-zero i))
    where
      sub-zero : (k : ℕ) → k ≡ k - 0
      sub-zero k = omega arith
  get_or-append (x ∷ xs) ys zero d = ground arith
  get_or-append (x ∷ xs) ys (suc i) d =
      ground (arith, get_or-append xs ys i d, ap (λ k. get_or ys k d) (sub-suc i (length xs)))
    where
      sub-suc : (a b : ℕ) → a - b ≡ suc a - suc b
      sub-suc a b = omega arith

  pub get_or-take :
      (n : ℕ) (xs : List A) (i : ℕ) (d : A)
      → get_or (take n xs) i d ≡ (if ltb i n then get_or xs i d else d)
  get_or-take zero xs i d = ground arith
  get_or-take (suc n) [] i d = ground arith
  get_or-take (suc n) (x ∷ xs) zero d = ground arith
  get_or-take (suc n) (x ∷ xs) (suc i) d = ground (arith, get_or-take n xs i d)

  pub get_or-drop :
      (n : ℕ) (xs : List A) (i : ℕ) (d : A) → get_or (drop n xs) i d ≡ get_or xs (n + i) d
  get_or-drop zero xs i d = ap (λ k. get_or xs k d) (zero-add' i)
    where
      zero-add' : (k : ℕ) → k ≡ 0 + k
      zero-add' k = omega arith
  get_or-drop (suc n) [] i d = refl
  get_or-drop (suc n) (x ∷ xs) i d =
      ground (arith, get_or-drop n xs i d, ap (λ k. get_or (x ∷ xs) k d) (suc-add' n i))
    where
      suc-add' : (a b : ℕ) → suc a + b ≡ suc (a + b)
      suc-add' a b = omega arith

  pub get_or-overlay :
      (xs bs : List A) (i : ℕ) (d : A)
      → get_or (overlay xs bs) i d
        ≡ (if ltb i (length xs) && ltb i (length bs) then get_or xs i d else get_or bs i d)
  get_or-overlay [] bs i d = ground arith
  get_or-overlay (x ∷ xs) [] i d = ground arith
  get_or-overlay (x ∷ xs) (b ∷ bs) zero d = ground arith
  get_or-overlay (x ∷ xs) (b ∷ bs) (suc i) d = ground (arith, get_or-overlay xs bs i d)

module _ {A : Type 0} where
  -- The bytes of the part, and those of the buffer on either side.
  pub get_or-copy_at :
      (n : ℕ) (part buf : List A) (i : ℕ) (d : A)
      → n + length part ≤ length buf
      → get_or (copy_at n part buf) i d
        ≡ (if leb n i && ltb i (n + length part) then get_or part (i - n) d else get_or buf i d)
  get_or-copy_at zero part buf i d h =
      ground (arith, get_or-overlay part buf i d, ap (λ k. get_or part k d) (sub-zero i))
    where
      sub-zero : (k : ℕ) → k ≡ k - 0
      sub-zero k = omega arith
  get_or-copy_at (suc n) part [] i d h = absurd (omega arith)
  get_or-copy_at (suc n) part (b ∷ buf) zero d h = ground arith
  get_or-copy_at (suc n) part (b ∷ buf) (suc i) d h =
      ground (
        arith,
        get_or-copy_at n part buf i d (omega arith),
        ap (λ k. get_or part k d) (sub-suc i n),
      )
    where
      sub-suc : (a b : ℕ) → a - b ≡ suc a - suc b
      sub-suc a b = omega arith

  pub take_nil : (m : ℕ) → take {A = A} m [] ≡ []
  take_nil zero = refl
  take_nil (suc m) = refl

  pub drop_nil : (m : ℕ) → drop {A = A} m [] ≡ []
  drop_nil zero = refl
  drop_nil (suc m) = refl

  pub take_join :
      (k n : ℕ) (xs : List A) → k ≤ n → take k xs ++ take (n - k) (drop k xs) ≡ take n xs
  take_join zero n xs h = ap (λ (m : ℕ). take m xs) {x = n - 0} {y = n} (omega arith)
  take_join (suc k) zero xs h = absurd (omega arith)
  take_join (suc k) (suc n) [] h = take_nil (suc n - suc k)
  take_join (suc k) (suc n) (x ∷ xs) h =
      ap (λ ys. x ∷ ys)
        (ap (λ (m : ℕ). take k xs ++ take m (drop k xs)) {x = suc n - suc k} {y = n - k}
            (omega arith)
          ∙ take_join k n xs (omega arith))

  pub drop-drop : (p k : ℕ) (xs : List A) → drop k (drop p xs) ≡ drop (p + k) xs
  drop-drop zero k xs = ap (λ (m : ℕ). drop m xs) {x = k} {y = 0 + k} (omega arith)
  drop-drop (suc p) k [] = drop_nil k ∙ sym (drop_nil (suc p + k))
  drop-drop (suc p) k (x ∷ xs) =
      drop-drop p k xs
      ∙ ap (λ (m : ℕ). drop m (x ∷ xs)) {x = suc (p + k)} {y = suc p + k} (omega arith)

  pub take-drop : (k : ℕ) (xs : List A) → take k xs ++ drop k xs ≡ xs
  take-drop zero xs = refl
  take-drop (suc k) [] = refl
  take-drop (suc k) (x ∷ xs) = ap (λ ys. x ∷ ys) (take-drop k xs)

  pub append_assoc : (xs ys zs : List A) → (xs ++ ys) ++ zs ≡ xs ++ (ys ++ zs)
  append_assoc [] ys zs = refl
  append_assoc (x ∷ xs) ys zs = ap (λ ws. x ∷ ws) (append_assoc xs ys zs)

  pub length-slice : (p n : ℕ) (xs : List A) → p + n ≤ length xs → length (slice p n xs) ≡ n
  length-slice p n xs h = omega (arith, length-take n (drop p xs), length-drop p xs)
