-- ===== src/Core/Sha256/Compress.antt =====
-- The compression of crates/burnout-core/src/sha256.rs: one block of 64 bytes into the eight words.
use Prim.Native.Nat.{bit_and, bit_xor}
use burnout.Prelude.{
  ℕ, zero, suc, ◌+◌, ◌-◌, ◌*◌, ◌/◌, ◌%◌, ◌^◌, List, [], ◌∷◌, ◌++◌, replicate, get_or, set, u32,
}

-- `[u32; 8]`.
pub record Words : Type 0 where
  pub a : ℕ
  pub b : ℕ
  pub c : ℕ
  pub d : ℕ
  pub e : ℕ
  pub f : ℕ
  pub g : ℕ
  pub h : ℕ

abbrev pub initial : Words
initial = record {
  a = 0x6a09e667;
  b = 0xbb67ae85;
  c = 0x3c6ef372;
  d = 0xa54ff53a;
  e = 0x510e527f;
  f = 0x9b05688c;
  g = 0x1f83d9ab;
  h = 0x5be0cd19;
}

-- The constants of the rounds.
abbrev pub round_constants : List ℕ
round_constants =
    0x428a2f98 ∷ 0x71374491 ∷ 0xb5c0fbcf ∷ 0xe9b5dba5 ∷ 0x3956c25b ∷ 0x59f111f1 ∷ 0x923f82a4
    ∷ 0xab1c5ed5 ∷ 0xd807aa98 ∷ 0x12835b01 ∷ 0x243185be ∷ 0x550c7dc3 ∷ 0x72be5d74 ∷ 0x80deb1fe
    ∷ 0x9bdc06a7 ∷ 0xc19bf174 ∷ 0xe49b69c1 ∷ 0xefbe4786 ∷ 0x0fc19dc6 ∷ 0x240ca1cc ∷ 0x2de92c6f
    ∷ 0x4a7484aa ∷ 0x5cb0a9dc ∷ 0x76f988da ∷ 0x983e5152 ∷ 0xa831c66d ∷ 0xb00327c8 ∷ 0xbf597fc7
    ∷ 0xc6e00bf3 ∷ 0xd5a79147 ∷ 0x06ca6351 ∷ 0x14292967 ∷ 0x27b70a85 ∷ 0x2e1b2138 ∷ 0x4d2c6dfc
    ∷ 0x53380d13 ∷ 0x650a7354 ∷ 0x766a0abb ∷ 0x81c2c92e ∷ 0x92722c85 ∷ 0xa2bfe8a1 ∷ 0xa81a664b
    ∷ 0xc24b8b70 ∷ 0xc76c51a3 ∷ 0xd192e819 ∷ 0xd6990624 ∷ 0xf40e3585 ∷ 0x106aa070 ∷ 0x19a4c116
    ∷ 0x1e376c08 ∷ 0x2748774c ∷ 0x34b0bcb5 ∷ 0x391c0cb3 ∷ 0x4ed8aa4a ∷ 0x5b9cca4f ∷ 0x682e6ff3
    ∷ 0x748f82ee ∷ 0x78a5636f ∷ 0x84c87814 ∷ 0x8cc70208 ∷ 0x90befffa ∷ 0xa4506ceb ∷ 0xbef9a3f7
    ∷ 0xc67178f2 ∷ []

-- `x.rotate_word(n)` and `x >> n` of a word of 32 bits. The two parts of a rotation do not overlap, so
-- their sum is their union.
abbrev pub rotate_word : ℕ → ℕ → ℕ
rotate_word x n = x / 2 ^ n + x % 2 ^ n * 2 ^ (32 - n)

abbrev shift_word : ℕ → ℕ → ℕ
shift_word x n = x / 2 ^ n

abbrev xor3 : ℕ → ℕ → ℕ → ℕ
xor3 x y z = bit_xor (bit_xor x y) z

-- `u32::from_be_bytes` of each four bytes.
unfoldable pub big_endian_words : List ℕ → List ℕ
big_endian_words (p ∷ q ∷ r ∷ s ∷ rest) =
    (((p * 256 + q) * 256 + r) * 256 + s) ∷ big_endian_words rest
big_endian_words short = []

-- `w[i]` from the words before it.
unfoldable pub next_word : List ℕ → ℕ → ℕ
next_word w i =
    let x = get_or w (i - 15) 0 in
    let y = get_or w (i - 2) 0 in
    let s0 = xor3 (rotate_word x 7) (rotate_word x 18) (shift_word x 3) in
    let s1 = xor3 (rotate_word y 17) (rotate_word y 19) (shift_word y 10) in
    u32 (u32 (u32 (get_or w (i - 16) 0 + s0) + get_or w (i - 7) 0) + s1)

-- The words from `i` on, `n` of them.
unfoldable pub schedule : ℕ → ℕ → List ℕ → List ℕ
unfolding next_word
schedule zero i w = w
schedule (suc n) i w = schedule n (i + 1) (set w i (next_word w i))

-- One round, with its constant and its word.
unfoldable pub round : Words → ℕ → ℕ → Words
round v k word =
    let s1 = xor3 (rotate_word v.e 6) (rotate_word v.e 11) (rotate_word v.e 25) in
    let choice = bit_xor (bit_and v.e v.f) (bit_and (2 ^ 32 - 1 - v.e) v.g) in
    let t1 = u32 (u32 (u32 (u32 (v.h + s1) + choice) + k) + word) in
    let s0 = xor3 (rotate_word v.a 2) (rotate_word v.a 13) (rotate_word v.a 22) in
    let majority = xor3 (bit_and v.a v.b) (bit_and v.a v.c) (bit_and v.b v.c) in
    let t2 = u32 (s0 + majority) in
    record {
      h = v.g;
      g = v.f;
      f = v.e;
      e = u32 (v.d + t1);
      d = v.c;
      c = v.b;
      b = v.a;
      a = u32 (t1 + t2);
    }

-- The rounds, as far as both lists go.
unfoldable pub rounds : Words → List ℕ → List ℕ → Words
unfolding round
rounds v [] ws = v
rounds v (k ∷ ks) [] = v
rounds v (k ∷ ks) (w ∷ ws) = rounds (round v k w) ks ws

-- Each word of the first, and that of the second.
unfoldable pub add_words : Words → Words → Words
add_words s v = record {
  a = u32 (s.a + v.a);
  b = u32 (s.b + v.b);
  c = u32 (s.c + v.c);
  d = u32 (s.d + v.d);
  e = u32 (s.e + v.e);
  f = u32 (s.f + v.f);
  g = u32 (s.g + v.g);
  h = u32 (s.h + v.h);
}

unfoldable pub compress : Words → List ℕ → Words
unfolding big_endian_words schedule rounds add_words
compress s block =
    let first = big_endian_words block in
    let w = schedule 48 16 (first ++ replicate 48 0) in add_words s (rounds s round_constants w)
