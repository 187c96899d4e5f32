-- ===== src/Core/Sha256/Absorbed.antt =====
-- What the running hash of crates/burnout-core/src/sha256.rs holds: the whole blocks of the message are
-- in the state, and what is left of it waits in the buffer.
use mathlib.Core.Path.{subst}
use native.Mathlib.Decide.{dec_lt}
use burnout.Prelude.{
  ℕ, zero, suc, ◌+◌, ◌-◌, ◌*◌, ◌≤◌, ◌<◌, ◌≡◌, refl, ap, ◌∙◌, sym, ◌⊎◌, inl, inr, false, min, List,
  [], ◌∷◌, ◌++◌, length, take, drop, copy_at, arith, leb, lt→ltb, le→ltb, le→leb, ≡→==, ≢→==,
  length-take, length-drop, length-append, length-copy_at, take_all, take-drop, drop_all,
  take-copy_at, append_nil, append_assoc,
}
use burnout.Core.Sha256.{Sha256, top_up, take_blocks, keep_rest, absorb}
use burnout.Core.Sha256.Compress.{Words, compress}
use burnout.Core.Sha256.Standard.{initial_hash, hash_block}
use burnout.Core.Sha256.Standing.{compress-hash_block}
use burnout.Core.Sha256.Reference.{state_after, state_after_snoc}

-- Whole blocks, all of them in the state.
pub record Fed (state : Words) (whole : List ℕ) : Type 0 where
  pub count : ℕ
  pub size : length whole ≡ 64 * count
  pub after : state ≡ state_after count initial_hash whole

pub feed :
    {state : Words} {whole : List ℕ} (block : List ℕ)
    → Fed state whole
    → length block ≡ 64
    → Fed (compress state block) (whole ++ block)
feed {state} {whole} block f b = record {
  count = suc f.count;
  size = omega (arith, length-append whole block, f.size, b);
  after =
      compress-hash_block state block b
      ∙ ap (λ s. hash_block s block) f.after
      ∙ sym (state_after_snoc f.count initial_hash whole block f.size b);
}

-- The message so far, but for its length.
pub record Absorbed (s : Sha256) (message : List ℕ) : Type 0 where
  pub whole : List ℕ
  pub tail : List ℕ
  pub fed : Fed s.state whole
  pub parts : message ≡ whole ++ tail
  pub buffered : s.buffered ≡ length tail
  pub short : length tail < 64
  pub buffer_size : length s.buffer ≡ 64
  pub waiting : take (length tail) s.buffer ≡ tail

record TookBlocks (whole bytes : List ℕ) (r : Words × List ℕ) : Type 0 where
  used : List ℕ
  parts : bytes ≡ used ++ r.1
  fed : Fed r.0 (whole ++ used)
  short : length r.1 < 64

take_blocks-TookBlocks :
    (fuel : ℕ) (state : Words) (whole bytes : List ℕ)
    → Fed state whole
    → length bytes ≤ fuel
    → TookBlocks whole bytes (take_blocks fuel state bytes)
unfolding take_blocks
take_blocks-TookBlocks zero state whole bytes f h = record {
  used = [];
  parts = refl;
  fed = subst (Fed state) (sym (append_nil whole)) f;
  short = omega arith;
}
take_blocks-TookBlocks (suc fuel) state whole bytes f h = elim (dec_lt (length bytes) 64) [
  | yes few ↦ rw (le→leb-false 64 (length bytes) few) (record {
    used = [];
    parts = refl;
    fed = subst (Fed state) (sym (append_nil whole)) f;
    short = few;
  })
  | no many ↦
      let block = take 64 bytes in
      let block_size : length block ≡ 64 = omega (arith, length-take 64 bytes) in
      let rest =
        take_blocks-TookBlocks fuel (compress state block) (whole ++ block) (drop 64 bytes)
          (feed block f block_size) (omega (arith, length-drop 64 bytes)) in
      rw (le→leb 64 (length bytes) (omega arith)) (record {
        used = block ++ rest.used;
        parts =
            sym (take-drop 64 bytes)
            ∙ ap (λ xs. block ++ xs) rest.parts
            ∙ sym (append_assoc block rest.used _);
        fed = subst (Fed _) (append_assoc whole block rest.used) rest.fed;
        short = rest.short;
      })
]
  where
    le→leb-false : (a b : ℕ) → b < a → leb a b ≡ false
    le→leb-false a b q = ground arith

-- What `top_up` leaves: either nothing waits, or nothing is left to come.
abbrev TopUp : List ℕ → List ℕ → Sha256 × List ℕ → Type 0
TopUp message bytes r =
    ((whole : List ℕ) × Fed r.0.state whole
      × (message ++ bytes ≡ whole ++ r.1)
      × (r.0.buffered ≡ 0)
      × (length r.0.buffer ≡ 64))
    ⊎ (Absorbed r.0 (message ++ bytes) × (r.1 ≡ []))

-- The tail of the message after some bytes more.
module _ (s : Sha256) (message bytes : List ℕ) (a : Absorbed s message) where
  abbrev count : ℕ
  count = min (64 - s.buffered) (length bytes)

  abbrev part : List ℕ
  part = take count bytes

  part_size : length part ≡ count
  part_size = omega (arith, length-take count bytes)

  filled_tail : take (s.buffered + count) (copy_at s.buffered part s.buffer) ≡ a.tail ++ part
  filled_tail =
      take-copy_at s.buffered (s.buffered + count) part s.buffer
        (omega (arith, part_size, a.buffer_size, a.short, a.buffered)) (omega (arith, part_size))
      ∙ ap (λ (n : ℕ). take n s.buffer ++ part) a.buffered
      ∙ ap (λ xs. xs ++ part) a.waiting

  filled_size : length (copy_at s.buffered part s.buffer) ≡ 64
  filled_size = length-copy_at s.buffered part s.buffer ∙ a.buffer_size

  joined_tail : message ++ bytes ≡ a.whole ++ ((a.tail ++ part) ++ drop count bytes)
  joined_tail =
      ap (λ xs. xs ++ bytes) a.parts
      ∙ append_assoc a.whole a.tail bytes
      ∙ ap (λ xs. a.whole ++ xs)
          (ap (λ xs. a.tail ++ xs) (sym (take-drop count bytes))
            ∙ sym (append_assoc a.tail part (drop count bytes)))

  top_up-TopUp : TopUp message bytes (top_up s bytes)
  unfolding top_up
  top_up-TopUp = elim (dec_lt 0 s.buffered) [
    | no none_left ↦ rw (le→ltb 0 s.buffered (omega arith)) (
        inl (
          a.whole,
          a.fed,
          ap (λ xs. xs ++ bytes)
              (a.parts
                ∙ ap (λ xs. a.whole ++ xs) (no_tail a.tail (omega (arith, a.buffered)))
                ∙ append_nil a.whole),
          omega arith,
          a.buffer_size,
        ))
    | yes some_left ↦ rw (lt→ltb 0 s.buffered some_left) (elim (dec_lt (s.buffered + count) 64) [
      | yes few ↦ rw (≢→== (s.buffered + count) 64 (omega arith)) (
          inr (
            record {
              whole = a.whole;
              tail = a.tail ++ part;
              fed = a.fed;
              parts =
                  joined_tail
                  ∙ ap (λ xs. a.whole ++ ((a.tail ++ part) ++ xs)) (all_taken few)
                  ∙ ap (λ xs. a.whole ++ xs) (append_nil (a.tail ++ part));
              buffered = omega (arith, tail_size);
              short = omega (arith, tail_size);
              buffer_size = filled_size;
              waiting =
                  ap (λ (n : ℕ). take n (copy_at s.buffered part s.buffer)) tail_size ∙ filled_tail;
            },
            all_taken few,
          ))
      | no many ↦
          let full : s.buffered + count ≡ 64 = omega (arith, a.short, a.buffered) in
          rw (≡→== (s.buffered + count) 64 full) (
            inl (
              a.whole ++ copy_at s.buffered part s.buffer,
              feed (copy_at s.buffered part s.buffer) a.fed filled_size,
              joined_tail
                  ∙ ap (λ xs. a.whole ++ (xs ++ drop count bytes)) (sym (block_eq full))
                  ∙ sym
                      (append_assoc a.whole (copy_at s.buffered part s.buffer) (drop count bytes)),
              refl,
              filled_size,
            ))
    ])
  ]
    where
      no_tail : (xs : List ℕ) → length xs ≡ 0 → xs ≡ []
      no_tail [] e = refl
      no_tail (x ∷ xs) e = absurd (omega (arith, e))

      tail_size : length (a.tail ++ part) ≡ s.buffered + count
      tail_size = omega (arith, length-append a.tail part, part_size, a.buffered)

      all_taken : s.buffered + count < 64 → drop count bytes ≡ []
      all_taken few = drop_all count bytes (omega (arith, a.buffered))

      block_eq : s.buffered + count ≡ 64 → copy_at s.buffered part s.buffer ≡ a.tail ++ part
      block_eq full =
          sym (
            take_all (s.buffered + count) (copy_at s.buffered part s.buffer)
              (omega (arith, filled_size, full)))
          ∙ filled_tail

keep_rest-Absorbed :
    (s : Sha256) (whole last message : List ℕ)
    → Fed s.state whole
    → message ≡ whole ++ last
    → s.buffered ≡ 0
    → length s.buffer ≡ 64
    → length last < 64
    → Absorbed (keep_rest s last) message
unfolding keep_rest
keep_rest-Absorbed s whole [] message f e b size short = record {
  whole = whole;
  tail = [];
  fed = f;
  parts = e;
  buffered = b;
  short = omega arith;
  buffer_size = size;
  waiting = refl;
}
keep_rest-Absorbed s whole (x ∷ last) message f e b size short = record {
  whole = whole;
  tail = x ∷ last;
  fed = f;
  parts = e;
  buffered = refl;
  short = short;
  buffer_size = length-copy_at 0 (x ∷ last) s.buffer ∙ size;
  waiting =
      take-copy_at 0 (length (x ∷ last)) (x ∷ last) s.buffer (omega (arith, size)) (omega arith);
}

finish_blocks :
    (s : Sha256) (message bytes rest : List ℕ)
    → TopUp message bytes (s, rest)
    → Absorbed
        (keep_rest
          (record s { state = (take_blocks (length rest) s.state rest).0 })
          (take_blocks (length rest) s.state rest).1)
        (message ++ bytes)
unfolding take_blocks keep_rest
finish_blocks s message bytes rest (inl (whole, f, parts, empty, size)) =
    let t = take_blocks-TookBlocks (length rest) s.state whole rest f (omega arith) in
    let r = take_blocks (length rest) s.state rest in
    keep_rest-Absorbed (record s { state = r.0 }) (whole ++ t.used) r.1 (message ++ bytes) t.fed
      (parts ∙ ap (λ xs. whole ++ xs) t.parts ∙ sym (append_assoc whole t.used r.1)) empty size
      t.short
finish_blocks s message bytes rest (inr (a, none_left)) =
    subst
      (λ xs.
        Absorbed
          (keep_rest (record s { state = (take_blocks (length xs) s.state xs).0 })
            (take_blocks (length xs) s.state xs).1)
          (message ++ bytes))
      (sym none_left) a

-- `absorb` adds its bytes to the message.
pub absorb-Absorbed :
    (s : Sha256) (message bytes : List ℕ)
    → Absorbed s message
    → Absorbed (absorb s bytes) (message ++ bytes)
unfolding absorb
absorb-Absorbed s message bytes a =
    finish_blocks (top_up s bytes).0 message bytes (top_up s bytes).1
      (top_up-TopUp s message bytes a)
