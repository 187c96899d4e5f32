-- ===== src/Core/Sha256.antt =====
-- crates/burnout-core/src/sha256.rs: the running hash. `Compress` is the compression of one block,
-- `Standard` that of FIPS 180-4 and `Reference` the digest of a whole message as that standard gives it,
-- `Standing` relates the two compressions, and `Absorbed` says what the running hash holds.
pub mod Compress
pub mod Standard
pub mod Standing
pub mod Reference
pub mod Absorbed
pub mod Digest
mod Tests
use burnout.Prelude.{
  ℕ, zero, suc, ◌+◌, ◌-◌, ◌*◌, ◌/◌, ◌%◌, ◌^◌, min, List, [], ◌∷◌, ◌++◌, length, replicate, take,
  drop, copy_at, ltb, leb, ◌==◌, if◌then◌else◌, u64, be_bytes,
}
use burnout.Core.Sha256.Compress.{Words, initial, compress}
use burnout.Core.Write.{Hasher}

pub record Sha256 : Type 0 where
  pub state : Words
  pub buffer : List ℕ
  pub buffered : ℕ
  pub length : ℕ

unfoldable pub new : Sha256
new = record { state = initial; buffer = replicate 64 0; buffered = 0; length = 0 }

-- The state and the buffer after what was left over from before is made up, and the bytes to come.
unfoldable pub top_up : Sha256 → List ℕ → Sha256 × List ℕ
top_up s bytes =
    let count = min (64 - s.buffered) (length bytes) in
    let filled = copy_at s.buffered (take count bytes) s.buffer in
    let full = s.buffered + count in
    let rest = drop count bytes in
    if ltb 0 s.buffered
    then (if full == 64
        then (record s { state = compress s.state filled; buffer = filled; buffered = 0 }, rest)
        else (record s { buffer = filled; buffered = full }, rest))
    else (s, bytes)

-- The whole blocks. The fuel is the number of the bytes.
unfoldable pub take_blocks : ℕ → Words → List ℕ → Words × List ℕ
take_blocks zero state bytes = (state, bytes)
take_blocks (suc fuel) state bytes =
    let next = take_blocks fuel (compress state (take 64 bytes)) (drop 64 bytes) in
    if leb 64 (length bytes) then next else (state, bytes)

-- The bytes that are left wait in the buffer.
unfoldable pub keep_rest : Sha256 → List ℕ → Sha256
keep_rest s [] = s
keep_rest s (b ∷ bytes) = record s {
  buffer = copy_at 0 (b ∷ bytes) s.buffer;
  buffered = length (b ∷ bytes);
}

unfoldable pub absorb : Sha256 → List ℕ → Sha256
unfolding top_up take_blocks keep_rest
absorb s bytes =
    let (topped, rest) = top_up s bytes in
    let (state, last) = take_blocks (length rest) topped.state rest in
    keep_rest (record topped { state = state }) last

unfoldable pub update : List ℕ → Sha256 → Sha256
unfolding absorb
update bytes s = absorb (record s { length = u64 (s.length + length bytes) }) bytes

-- `while self.buffered != 56`. 64 rounds reach it.
unfoldable pub pad : ℕ → Sha256 → Sha256
unfolding absorb
pad zero s = s
pad (suc fuel) s = let next = pad fuel (absorb s (0 ∷ [])) in if s.buffered == 56 then s else next

unfoldable pub words_bytes : Words → List ℕ
words_bytes v =
    be_bytes 4 v.a
    ++ (be_bytes 4 v.b
        ++ (be_bytes 4 v.c
            ++ (be_bytes 4 v.d
                ++ (be_bytes 4 v.e ++ (be_bytes 4 v.f ++ (be_bytes 4 v.g ++ be_bytes 4 v.h))))))

unfoldable pub finish : Sha256 → List ℕ
unfolding absorb pad words_bytes
finish s =
    let bits = u64 (s.length * 8) in
    words_bytes (absorb (pad 64 (absorb s (0x80 ∷ []))) (be_bytes 8 bits)).state

unfoldable pub sha256 : List ℕ → List ℕ
unfolding new update finish
sha256 bytes = finish (update bytes new)

-- The hash that the write and the check run.
abbrev pub hasher : Hasher Sha256
hasher = record { fresh = new; update = update; finish = finish }
