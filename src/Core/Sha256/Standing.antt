-- ===== src/Core/Sha256/Standing.antt =====
-- The compression of crates/burnout-core/src/sha256.rs is that of the standard.
use Prim.Native.Nat.{bit_xor}
use native.Mathlib.Nat.{
  mod-add-div', add-mul-mod_self_right, mod-eq_of_lt, mod-lt, mul-lt-mul_of_pos_right,
}
use burnout.Prelude.{
  ℕ, zero, suc, ◌+◌, ◌-◌, ◌*◌, ◌/◌, ◌%◌, ◌^◌, ◌≡◌, ◌<◌, refl, ap, ◌∙◌, sym, List, [], ◌∷◌, ◌++◌,
  length, replicate, get_or, set, arith, u32, length-append, append_nil, drop,
}
use burnout.Core.Sha256.{words_bytes}
use burnout.Core.Sha256.Compress.{
  Words, initial, round_constants, rotate_word, big_endian_words, next_word, schedule, round,
  rounds, add_words, compress,
}
use burnout.Core.Sha256.Standard.{
  ch, maj, big_sigma_0, big_sigma_1, sigma_0, sigma_1, constants, initial_hash, message_words,
  word_after, message_schedule, step, steps, next_hash, hash_block, word_bytes, hash_bytes,
}

pub initial_eq : initial ≡ initial_hash
unfolding initial_hash
initial_eq = refl

constants_eq : round_constants ≡ constants
unfolding constants
constants_eq = refl

-- A rotation to the right is the same with the bits that leave cut off before they move or after.
turned :
    (low high x : ℕ)
    → 0 < low
    → 0 < high
    → x / low + x % low * high ≡ x / low + x * high % (low * high)
turned low high x l h =
    let parts : x * high ≡ x % low * high + x / low * (low * high) =
      ap (λ (n : ℕ). n * high) (sym (mod-add-div' x low)) ∙ spread (x % low) (x / low) in
    let cut : x * high % (low * high) ≡ x % low * high =
      ap (λ (n : ℕ). n % (low * high)) parts
      ∙ add-mul-mod_self_right (x % low * high) (x / low) (low * high)
      ∙ mod-eq_of_lt (mul-lt-mul_of_pos_right (mod-lt x l) h) in
    ap (λ (n : ℕ). x / low + n) (sym cut)
  where
    spread : (a b : ℕ) → (a + b * low) * high ≡ a * high + b * (low * high)
    spread a b = omega arith

xor_of :
    {x y z p q r : ℕ} → x ≡ p → y ≡ q → z ≡ r → bit_xor (bit_xor x y) z ≡ bit_xor (bit_xor p q) r
xor_of a b c = λ i. bit_xor (bit_xor (a i) (b i)) (c i)

sum4 : (a b c d : ℕ) → u32 (u32 (u32 (a + b) + c) + d) ≡ (d + c + b + a) % 2 ^ 32
sum4 a b c d = omega arith

sum5 : (a b c d e : ℕ) → u32 (u32 (u32 (u32 (a + b) + c) + d) + e) ≡ (a + b + c + d + e) % 2 ^ 32
sum5 a b c d e = omega arith

round-step : (v : Words) (k w : ℕ) → round v k w ≡ step v k w
unfolding round step ch maj big_sigma_0 big_sigma_1
round-step v k w =
    let s1 =
      xor_of (turned (2 ^ 6) (2 ^ 26) v.e (omega arith) (omega arith))
        (turned (2 ^ 11) (2 ^ 21) v.e (omega arith) (omega arith))
        (turned (2 ^ 25) (2 ^ 7) v.e (omega arith) (omega arith)) in
    let s0 =
      xor_of (turned (2 ^ 2) (2 ^ 30) v.a (omega arith) (omega arith))
        (turned (2 ^ 13) (2 ^ 19) v.a (omega arith) (omega arith))
        (turned (2 ^ 22) (2 ^ 10) v.a (omega arith) (omega arith)) in
    let t1 =
      ap (λ (s : ℕ). u32 (u32 (u32 (u32 (v.h + s) + ch v.e v.f v.g) + k) + w)) s1
      ∙ sum5 v.h (big_sigma_1 v.e) (ch v.e v.f v.g) k w in
    λ i. record {
      a = (t1 i + (s0 i + maj v.a v.b v.c) % 2 ^ 32) % 2 ^ 32;
      b = v.a;
      c = v.b;
      d = v.c;
      e = (v.d + t1 i) % 2 ^ 32;
      f = v.e;
      g = v.f;
      h = v.g;
    }

rounds-steps : (v : Words) (ks ws : List ℕ) → rounds v ks ws ≡ steps v ks ws
unfolding rounds steps
rounds-steps v [] ws = refl
rounds-steps v (k ∷ ks) [] = refl
rounds-steps v (k ∷ ks) (w ∷ ws) =
    ap (λ x. rounds x ks ws) (round-step v k w) ∙ rounds-steps (step v k w) ks ws

add_words-next_hash : (hash v : Words) → add_words hash v ≡ next_hash hash v
unfolding add_words next_hash
add_words-next_hash hash v =
    let swap : (x y : ℕ) → u32 (x + y) ≡ (y + x) % 2 ^ 32 = λ x y. omega arith in
    λ i. record {
      a = swap hash.a v.a i;
      b = swap hash.b v.b i;
      c = swap hash.c v.c i;
      d = swap hash.d v.d i;
      e = swap hash.e v.e i;
      f = swap hash.f v.f i;
      g = swap hash.g v.g i;
      h = swap hash.h v.h i;
    }

big_endian_words-message_words :
    (n : ℕ) (block : List ℕ) → length block ≡ 4 * n → big_endian_words block ≡ message_words n block
unfolding big_endian_words message_words
big_endian_words-message_words zero [] e = refl
big_endian_words-message_words (suc n) (p ∷ q ∷ r ∷ s ∷ rest) e =
    let word : ((p * 256 + q) * 256 + r) * 256 + s ≡ p * 2 ^ 24 + q * 2 ^ 16 + r * 2 ^ 8 + s =
      omega arith in
    λ i. word i ∷ big_endian_words-message_words n rest (omega (arith, e)) i
big_endian_words-message_words (suc n) [] e = absurd (omega (arith, e))
big_endian_words-message_words (suc n) (p ∷ []) e = absurd (omega (arith, e))
big_endian_words-message_words (suc n) (p ∷ q ∷ []) e = absurd (omega (arith, e))
big_endian_words-message_words (suc n) (p ∷ q ∷ r ∷ []) e = absurd (omega (arith, e))
big_endian_words-message_words zero (p ∷ rest) e = absurd (omega (arith, e))

get_or-zeros : (w : List ℕ) (n j : ℕ) → get_or (w ++ replicate n 0) j 0 ≡ get_or w j 0
get_or-zeros [] zero j = refl
get_or-zeros [] (suc n) zero = refl
get_or-zeros [] (suc n) (suc j) = get_or-zeros [] n j
get_or-zeros (x ∷ w) n zero = refl
get_or-zeros (x ∷ w) n (suc j) = get_or-zeros w n j

set-length : (w zs : List ℕ) (z v : ℕ) → set (w ++ (z ∷ zs)) (length w) v ≡ (w ++ (v ∷ [])) ++ zs
set-length [] zs z v = refl
set-length (x ∷ w) zs z v = ap (λ xs. x ∷ xs) (set-length w zs z v)

next_word-word_after :
    (w : List ℕ) (n : ℕ) → next_word (w ++ replicate n 0) (length w) ≡ word_after w
unfolding next_word word_after sigma_0 sigma_1
next_word-word_after w n =
    let at = λ (j : ℕ). get_or-zeros w n (length w - j) in
    let x = get_or w (length w - 15) 0 in
    let y = get_or w (length w - 2) 0 in
    (λ i. u32 (u32 (u32 (at 16 i + old_0 (at 15 i)) + at 7 i) + old_1 (at 2 i)))
    ∙ (λ i. u32 (
        u32 (u32 (get_or w (length w - 16) 0 + same_0 x i) + get_or w (length w - 7) 0)
        + same_1 y i))
    ∙ sum4 (get_or w (length w - 16) 0) (sigma_0 x) (get_or w (length w - 7) 0) (sigma_1 y)
  where
    old_0 : ℕ → ℕ
    old_0 z = bit_xor (bit_xor (rotate_word z 7) (rotate_word z 18)) (z / 2 ^ 3)

    old_1 : ℕ → ℕ
    old_1 z = bit_xor (bit_xor (rotate_word z 17) (rotate_word z 19)) (z / 2 ^ 10)

    same_0 : (z : ℕ) → old_0 z ≡ sigma_0 z
    same_0 z =
        xor_of (turned (2 ^ 7) (2 ^ 25) z (omega arith) (omega arith))
          (turned (2 ^ 18) (2 ^ 14) z (omega arith) (omega arith)) refl

    same_1 : (z : ℕ) → old_1 z ≡ sigma_1 z
    same_1 z =
        xor_of (turned (2 ^ 17) (2 ^ 15) z (omega arith) (omega arith))
          (turned (2 ^ 19) (2 ^ 13) z (omega arith) (omega arith)) refl

schedule-message_schedule :
    (n : ℕ) (w : List ℕ) → schedule n (length w) (w ++ replicate n 0) ≡ message_schedule n w
unfolding schedule message_schedule
schedule-message_schedule zero w = append_nil w
schedule-message_schedule (suc n) w =
    let v = word_after w in
    let longer : length w + 1 ≡ length (w ++ (v ∷ [])) = omega (arith, length-append w (v ∷ [])) in
    ap (λ (x : ℕ). schedule n (length w + 1) (set (w ++ replicate (suc n) 0) (length w) x))
      (next_word-word_after w (suc n))
    ∙ (λ i. schedule n (longer i) (set-length w (replicate n 0) 0 v i))
    ∙ schedule-message_schedule n (w ++ (v ∷ []))

length-message_words : (n : ℕ) (block : List ℕ) → length (message_words n block) ≡ n
unfolding message_words
length-message_words zero block = refl
length-message_words (suc n) block = ap suc (length-message_words n (drop 4 block))

pub compress-hash_block :
    (hash : Words) (block : List ℕ)
    → length block ≡ 64
    → compress hash block ≡ hash_block hash block
unfolding compress hash_block
compress-hash_block hash block e =
    let words = big_endian_words-message_words 16 block e in
    let w = message_words 16 block in
    let whole =
      ap (λ (n : ℕ). schedule 48 n (w ++ replicate 48 0)) (sym (length-message_words 16 block))
      ∙ schedule-message_schedule 48 w in
    ap (λ xs. add_words hash (rounds hash round_constants (schedule 48 16 (xs ++ replicate 48 0))))
      words
    ∙ ap (λ xs. add_words hash (rounds hash round_constants xs)) whole
    ∙ ap (λ ks. add_words hash (rounds hash ks (message_schedule 48 w))) constants_eq
    ∙ ap (add_words hash) (rounds-steps hash constants (message_schedule 48 w))
    ∙ add_words-next_hash hash (steps hash constants (message_schedule 48 w))

low_byte : (w : ℕ) → w / 2 ^ 0 % 256 ≡ w % 256
low_byte w = omega arith

pub words_bytes-hash_bytes : (v : Words) → words_bytes v ≡ hash_bytes v
unfolding words_bytes hash_bytes word_bytes
words_bytes-hash_bytes v = λ i.
    ends v.a
      (ends v.b (ends v.c (ends v.d (ends v.e (ends v.f (ends v.g (ends v.h [] i) i) i) i) i) i) i)
      i
  where
    ends :
        (w : ℕ) (rest : List ℕ)
        → w / 2 ^ 24 % 256 ∷ w / 2 ^ 16 % 256 ∷ w / 2 ^ 8 % 256 ∷ w / 2 ^ 0 % 256 ∷ rest
          ≡ word_bytes w rest
    ends w rest =
        ap (λ (b : ℕ). w / 2 ^ 24 % 256 ∷ w / 2 ^ 16 % 256 ∷ w / 2 ^ 8 % 256 ∷ b ∷ rest)
          (low_byte w)
