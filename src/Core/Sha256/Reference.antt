-- ===== src/Core/Sha256/Reference.antt =====
-- The digest of a message as FIPS 180-4 gives it, beside crates/burnout-core/src/sha256.rs: the message
-- is padded and cut into blocks, and each block goes into the hash.
use burnout.Prelude.{
  ℕ, zero, suc, ◌-◌, ◌*◌, ◌/◌, ◌%◌, ◌≡◌, ap, ◌∙◌, List, [], ◌∷◌, ◌++◌, length, replicate, take,
  drop, arith, u64, be_bytes, take_all, take-append, drop-append, length-drop,
}
use burnout.Core.Sha256.Compress.{Words}
use burnout.Core.Sha256.Standard.{initial_hash, hash_block, hash_bytes}

-- The zeros that make up the last block, eight bytes for the length counted.
abbrev pub zero_bytes : ℕ → ℕ
zero_bytes n = (119 - n % 64) % 64

abbrev pub padded_message : List ℕ → List ℕ
padded_message message =
    message
    ++ (0x80 ∷ (replicate (zero_bytes (length message)) 0 ++ be_bytes 8 (u64 (length message * 8))))

-- The state after `n` blocks.
unfoldable pub state_after : ℕ → Words → List ℕ → Words
state_after zero s bytes = s
state_after (suc n) s bytes = state_after n (hash_block s (take 64 bytes)) (drop 64 bytes)

unfoldable pub digest : List ℕ → List ℕ
digest message =
    hash_bytes
      (state_after (length (padded_message message) / 64) initial_hash (padded_message message))

-- One block more.
pub state_after_snoc :
    (n : ℕ) (s : Words) (whole block : List ℕ)
    → length whole ≡ 64 * n
    → length block ≡ 64
    → state_after (suc n) s (whole ++ block) ≡ hash_block (state_after n s whole) block
unfolding state_after
state_after_snoc zero s [] block w b = ap (hash_block s) (take_all 64 block (omega (arith, b)))
state_after_snoc zero s (x ∷ whole) block w b = absurd (omega (arith, w))
state_after_snoc (suc n) s whole block w b =
    ap (λ x. state_after (suc n) (hash_block s x) (drop 64 (whole ++ block)))
      (take-append 64 whole block (omega (arith, w)))
    ∙ ap (state_after (suc n) (hash_block s (take 64 whole)))
        (drop-append 64 whole block (omega (arith, w)))
    ∙ state_after_snoc n (hash_block s (take 64 whole)) (drop 64 whole) block
        (omega (arith, w, length-drop 64 whole)) b
