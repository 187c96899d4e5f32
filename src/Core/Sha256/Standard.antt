-- ===== src/Core/Sha256/Standard.antt =====
-- FIPS 180-4, the standard that crates/burnout-core/src/sha256.rs names: the compression of a block in the
-- words of its sections 4 to 6. None of it is taken from the code, only the record of eight words.
use Prim.Native.Nat.{bit_and, bit_xor}
use burnout.Prelude.{
  ℕ, zero, suc, ◌+◌, ◌-◌, ◌*◌, ◌/◌, ◌%◌, ◌^◌, List, [], ◌∷◌, ◌++◌, length, drop, get_or, leb,
  if◌then◌else◌,
}
use burnout.Core.Sha256.Compress.{Words}

-- Section 3.2: the rotation and the shift to the right of a word of 32 bits.
abbrev pub rotr : ℕ → ℕ → ℕ
rotr n x = x / 2 ^ n + x * 2 ^ (32 - n) % 2 ^ 32

abbrev pub shr : ℕ → ℕ → ℕ
shr n x = x / 2 ^ n

-- Section 4.1.2: the six functions.
unfoldable pub ch : ℕ → ℕ → ℕ → ℕ
ch x y z = bit_xor (bit_and x y) (bit_and (2 ^ 32 - 1 - x) z)

unfoldable pub maj : ℕ → ℕ → ℕ → ℕ
maj x y z = bit_xor (bit_xor (bit_and x y) (bit_and x z)) (bit_and y z)

unfoldable pub big_sigma_0 : ℕ → ℕ
big_sigma_0 x = bit_xor (bit_xor (rotr 2 x) (rotr 13 x)) (rotr 22 x)

unfoldable pub big_sigma_1 : ℕ → ℕ
big_sigma_1 x = bit_xor (bit_xor (rotr 6 x) (rotr 11 x)) (rotr 25 x)

unfoldable pub sigma_0 : ℕ → ℕ
sigma_0 x = bit_xor (bit_xor (rotr 7 x) (rotr 18 x)) (shr 3 x)

unfoldable pub sigma_1 : ℕ → ℕ
sigma_1 x = bit_xor (bit_xor (rotr 17 x) (rotr 19 x)) (shr 10 x)

-- The largest number of `n` bits behind `root` whose power is not more than this, a bit at a time.
unfoldable pub square_root : ℕ → ℕ → ℕ → ℕ
square_root zero square root = root
square_root (suc n) square root =
    let more = root + 2 ^ n in
    square_root n square (if leb (more * more) square then more else root)

unfoldable pub cube_root : ℕ → ℕ → ℕ → ℕ
cube_root zero cube root = root
cube_root (suc n) cube root =
    let more = root + 2 ^ n in
    cube_root n cube (if leb (more * more * more) cube then more else root)

abbrev primes : List ℕ
primes =
    2 ∷ 3 ∷ 5 ∷ 7 ∷ 11 ∷ 13 ∷ 17 ∷ 19 ∷ 23 ∷ 29 ∷ 31 ∷ 37 ∷ 41 ∷ 43 ∷ 47 ∷ 53 ∷ 59 ∷ 61 ∷ 67 ∷ 71
    ∷ 73 ∷ 79 ∷ 83 ∷ 89 ∷ 97 ∷ 101 ∷ 103 ∷ 107 ∷ 109 ∷ 113 ∷ 127 ∷ 131 ∷ 137 ∷ 139 ∷ 149 ∷ 151 ∷ 157
    ∷ 163 ∷ 167 ∷ 173 ∷ 179 ∷ 181 ∷ 191 ∷ 193 ∷ 197 ∷ 199 ∷ 211 ∷ 223 ∷ 227 ∷ 229 ∷ 233 ∷ 239 ∷ 241
    ∷ 251 ∷ 257 ∷ 263 ∷ 269 ∷ 271 ∷ 277 ∷ 281 ∷ 283 ∷ 293 ∷ 307 ∷ 311 ∷ []

-- Section 4.2.2: "the first thirty-two bits of the fractional parts of the cube roots".
unfoldable pub constants_of : List ℕ → List ℕ
unfolding cube_root
constants_of [] = []
constants_of (p ∷ ps) = cube_root 36 (p * 2 ^ 96) 0 % 2 ^ 32 ∷ constants_of ps

unfoldable pub constants : List ℕ
unfolding constants_of
constants = constants_of primes

-- Section 5.3.3: the same of the square roots of the first eight primes.
unfoldable pub square_bits : ℕ → ℕ
unfolding square_root
square_bits p = square_root 36 (p * 2 ^ 64) 0 % 2 ^ 32

unfoldable pub initial_hash : Words
unfolding square_bits
initial_hash = record {
  a = square_bits 2;
  b = square_bits 3;
  c = square_bits 5;
  d = square_bits 7;
  e = square_bits 11;
  f = square_bits 13;
  g = square_bits 17;
  h = square_bits 19;
}

-- Section 5.2.1: `n` words of a block.
unfoldable pub message_words : ℕ → List ℕ → List ℕ
message_words zero block = []
message_words (suc n) block =
    (get_or block 0 0 * 2 ^ 24
      + get_or block 1 0 * 2 ^ 16
      + get_or block 2 0 * 2 ^ 8
      + get_or block 3 0)
    ∷ message_words n (drop 4 block)

-- Section 6.2.2, step 1: W_t from the words before it.
unfoldable pub word_after : List ℕ → ℕ
unfolding sigma_0 sigma_1
word_after w =
    let t = length w in
    (sigma_1 (get_or w (t - 2) 0)
      + get_or w (t - 7) 0
      + sigma_0 (get_or w (t - 15) 0)
      + get_or w (t - 16) 0)
    % 2 ^ 32

unfoldable pub message_schedule : ℕ → List ℕ → List ℕ
unfolding word_after
message_schedule zero w = w
message_schedule (suc n) w = message_schedule n (w ++ (word_after w ∷ []))

-- Step 3, for one t.
unfoldable pub step : Words → ℕ → ℕ → Words
unfolding big_sigma_0 big_sigma_1 ch maj
step v k w =
    let t1 = (v.h + big_sigma_1 v.e + ch v.e v.f v.g + k + w) % 2 ^ 32 in
    let t2 = (big_sigma_0 v.a + maj v.a v.b v.c) % 2 ^ 32 in
    record {
      a = (t1 + t2) % 2 ^ 32;
      b = v.a;
      c = v.b;
      d = v.c;
      e = (v.d + t1) % 2 ^ 32;
      f = v.e;
      g = v.f;
      h = v.g;
    }

unfoldable pub steps : Words → List ℕ → List ℕ → Words
unfolding step
steps v (k ∷ ks) (w ∷ ws) = steps (step v k w) ks ws
steps v [] ws = v
steps v (k ∷ ks) [] = v

-- Step 4: the next hash value.
unfoldable pub next_hash : Words → Words → Words
next_hash hash v = record {
  a = (v.a + hash.a) % 2 ^ 32;
  b = (v.b + hash.b) % 2 ^ 32;
  c = (v.c + hash.c) % 2 ^ 32;
  d = (v.d + hash.d) % 2 ^ 32;
  e = (v.e + hash.e) % 2 ^ 32;
  f = (v.f + hash.f) % 2 ^ 32;
  g = (v.g + hash.g) % 2 ^ 32;
  h = (v.h + hash.h) % 2 ^ 32;
}

unfoldable pub hash_block : Words → List ℕ → Words
unfolding message_words message_schedule steps constants next_hash
hash_block hash block =
    next_hash hash (steps hash constants (message_schedule 48 (message_words 16 block)))

-- The bytes of a word, the high one first.
unfoldable pub word_bytes : ℕ → List ℕ → List ℕ
word_bytes w rest = w / 2 ^ 24 % 256 ∷ w / 2 ^ 16 % 256 ∷ w / 2 ^ 8 % 256 ∷ w % 256 ∷ rest

-- H0 to H7, one after the other.
unfoldable pub hash_bytes : Words → List ℕ
unfolding word_bytes
hash_bytes v = word_bytes v.a (
    word_bytes v.b (
      word_bytes v.c
        (word_bytes v.d (word_bytes v.e (word_bytes v.f (word_bytes v.g (word_bytes v.h [])))))))
