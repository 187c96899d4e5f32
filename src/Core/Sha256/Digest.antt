-- ===== src/Core/Sha256/Digest.antt =====
-- The digest that the running hash of crates/burnout-core/src/sha256.rs ends in, and the hash as the
-- interface that the write and the check of crates/burnout-core/src/write.rs use.
use mathlib.Core.Path.{subst}
use burnout.Prelude.{
  ℕ, zero, suc, ◌+◌, ◌*◌, ◌/◌, ◌%◌, ◌≤◌, ◌<◌, ◌≡◌, ◌≢◌, refl, ap, ◌∙◌, sym, List, [], ◌∷◌, ◌++◌,
  length, replicate, arith, ≡→==, ≢→==, u64, be_bytes, length-append, length-replicate,
  length-be_bytes, append_nil, append_assoc,
}
use burnout.Core.Sha256.{
  Sha256, new, top_up, take_blocks, keep_rest, absorb, update, pad, finish, sha256, hasher,
}
use burnout.Core.Sha256.Standard.{initial_hash, hash_bytes}
use burnout.Core.Sha256.Standing.{initial_eq, words_bytes-hash_bytes}
use burnout.Core.Sha256.Reference.{zero_bytes, padded_message, state_after, digest}
use burnout.Core.Sha256.Absorbed.{Absorbed, absorb-Absorbed}
use burnout.Core.Write.Copy.{IsHasher}

-- The running hash holds this message.
pub record Holds (s : Sha256) (message : List ℕ) : Type 0 where
  pub absorbed : Absorbed s message
  pub length_counted : s.length ≡ u64 (length message)

keep_rest-length : (s : Sha256) (last : List ℕ) → (keep_rest s last).length ≡ s.length
unfolding keep_rest
keep_rest-length s [] = refl
keep_rest-length s (x ∷ last) = refl

top_up-length : (s : Sha256) (bytes : List ℕ) → (top_up s bytes).0.length ≡ s.length
unfolding top_up
top_up-length s bytes = ground arith

absorb-length : (s : Sha256) (bytes : List ℕ) → (absorb s bytes).length ≡ s.length
unfolding absorb
absorb-length s bytes =
    let r = top_up s bytes in
    let t = take_blocks (length r.1) r.0.state r.1 in
    keep_rest-length (record r.0 { state = t.0 }) t.1 ∙ top_up-length s bytes

pub new-Holds : Holds new []
unfolding new state_after
new-Holds = record {
  absorbed = record {
    whole = [];
    tail = [];
    fed = record { count = 0; size = refl; after = initial_eq };
    parts = refl;
    buffered = refl;
    short = omega arith;
    buffer_size = refl;
    waiting = refl;
  };
  length_counted = refl;
}

pub update-Holds :
    (s : Sha256) (message bytes : List ℕ)
    → Holds s message
    → Holds (update bytes s) (message ++ bytes)
unfolding update
update-Holds s message bytes h =
    let counted : Sha256 = record s { length = u64 (s.length + length bytes) } in
    record {
      absorbed = absorb-Absorbed counted message bytes (record {
        whole = h.absorbed.whole;
        tail = h.absorbed.tail;
        fed = h.absorbed.fed;
        parts = h.absorbed.parts;
        buffered = h.absorbed.buffered;
        short = h.absorbed.short;
        buffer_size = h.absorbed.buffer_size;
        waiting = h.absorbed.waiting;
      });
      length_counted =
          absorb-length counted bytes
          ∙ omega (arith, h.length_counted, length-append message bytes);
    }

Absorbed-length :
    {s : Sha256} {message : List ℕ} (a : Absorbed s message)
    → length message ≡ 64 * a.fed.count + s.buffered
Absorbed-length a =
    omega (arith, ap length a.parts, length-append a.whole a.tail, a.fed.size, a.buffered)

pad-Absorbed :
    (fuel k : ℕ) (s : Sha256) (message : List ℕ)
    → Absorbed s message
    → k ≤ fuel
    → k < 64
    → (length message + k) % 64 ≡ 56
    → Absorbed (pad fuel s) (message ++ replicate k 0)
unfolding pad
pad-Absorbed zero zero s message a f lt e = subst (Absorbed s) (sym (append_nil message)) a
pad-Absorbed zero (suc k) s message a f lt e = absurd (omega arith)
pad-Absorbed (suc fuel) zero s message a f lt e =
    let here : s.buffered ≡ 56 = omega (arith, Absorbed-length a, a.short, a.buffered, e) in
    rw (≡→== s.buffered 56 here) (subst (Absorbed s) (sym (append_nil message)) a)
pad-Absorbed (suc fuel) (suc k) s message a f lt e =
    let elsewhere : s.buffered ≢ 56 =
      λ here. absurd (omega (arith, Absorbed-length a, a.short, a.buffered, e, here)) in
    rw (≢→== s.buffered 56 elsewhere) (
      subst (Absorbed (pad fuel (absorb s (0 ∷ []))))
        (append_assoc message (0 ∷ []) (replicate k 0))
        (pad-Absorbed fuel k (absorb s (0 ∷ [])) (message ++ 0 ∷ [])
          (absorb-Absorbed s message (0 ∷ []) a) (omega arith) (omega arith)
          (omega (arith, length-append message (0 ∷ []), e))))

-- The padded message is all of it in the state.
state_of :
    (s : Sha256) (message : List ℕ)
    → Absorbed s message
    → length message % 64 ≡ 0
    → s.state ≡ state_after (length message / 64) initial_hash message
state_of s message a e =
    let size = Absorbed-length a in
    let whole_blocks : a.fed.count ≡ length message / 64 =
      omega (arith, size, a.short, a.buffered, e) in
    let none_left : a.tail ≡ [] = no_tail a.tail (omega (arith, size, a.short, a.buffered, e)) in
    a.fed.after
    ∙ ap (λ (n : ℕ). state_after n initial_hash a.whole) whole_blocks
    ∙ ap (state_after (length message / 64) initial_hash)
        (sym (a.parts ∙ ap (λ xs. a.whole ++ xs) none_left ∙ append_nil a.whole))
  where
    no_tail : (xs : List ℕ) → length xs ≡ 0 → xs ≡ []
    no_tail [] h = refl
    no_tail (x ∷ xs) h = absurd (omega (arith, h))

-- The running hash ends in the digest of the message that it holds.
pub finish-digest : (s : Sha256) (message : List ℕ) → Holds s message → finish s ≡ digest message
unfolding finish digest
finish-digest s message h =
    let zeros = zero_bytes (length message) in
    let bits : u64 (s.length * 8) ≡ u64 (length message * 8) = omega (arith, h.length_counted) in
    let one = absorb-Absorbed s message (0x80 ∷ []) h.absorbed in
    let two =
      pad-Absorbed 64 zeros (absorb s (0x80 ∷ [])) (message ++ 0x80 ∷ []) one (omega arith)
        (omega arith) (omega (arith, length-append message (0x80 ∷ []))) in
    let three =
      absorb-Absorbed (pad 64 (absorb s (0x80 ∷ []))) ((message ++ 0x80 ∷ []) ++ replicate zeros 0)
        (be_bytes 8 (u64 (s.length * 8))) two in
    let whole : ((message ++ 0x80 ∷ []) ++ replicate zeros 0) ++ be_bytes 8 (u64 (s.length * 8))
        ≡ padded_message message =
      append_assoc (message ++ 0x80 ∷ []) (replicate zeros 0) (be_bytes 8 (u64 (s.length * 8)))
      ∙ append_assoc message (0x80 ∷ []) (replicate zeros 0 ++ be_bytes 8 (u64 (s.length * 8)))
      ∙ ap (λ (n : ℕ). message ++ (0x80 ∷ (replicate zeros 0 ++ be_bytes 8 n))) bits in
    words_bytes-hash_bytes _
    ∙ ap hash_bytes (
        state_of _ (padded_message message) (subst (Absorbed _) whole three) (
          omega (
            arith,
            length-append message
                (0x80 ∷ (replicate zeros 0 ++ be_bytes 8 (u64 (length message * 8)))),
            length-append (replicate zeros 0) (be_bytes 8 (u64 (length message * 8))),
            length-replicate {A = ℕ} zeros 0,
            length-be_bytes 8 (u64 (length message * 8)),
          )))

pub hasher-IsHasher : IsHasher hasher Holds digest
hasher-IsHasher = record { fresh = new-Holds; update = update-Holds; finish = finish-digest }

pub update_all : List (List ℕ) → Sha256 → Sha256
update_all [] s = s
update_all (bytes ∷ rest) s = update_all rest (update bytes s)

abbrev pub joined : List (List ℕ) → List ℕ
joined [] = []
joined (bytes ∷ rest) = bytes ++ joined rest

update_all-Holds :
    (pieces : List (List ℕ)) (s : Sha256) (message : List ℕ)
    → Holds s message
    → Holds (update_all pieces s) (message ++ joined pieces)
unfolding update_all
update_all-Holds [] s message h = subst (Holds s) (sym (append_nil message)) h
update_all-Holds (bytes ∷ rest) s message h =
    subst (Holds (update_all rest (update bytes s))) (append_assoc message bytes (joined rest))
      (update_all-Holds rest (update bytes s) (message ++ bytes) (update-Holds s message bytes h))

-- However a message is cut into the calls of `update`, `finish` gives the digest of FIPS 180-4 of the
-- whole message, whose padding, schedule, rounds and constants are written out on their own from that
-- standard. It is also what `sha256` gives of the message in one call.
pub pieces-digest :
    (pieces : List (List ℕ))
    → (finish (update_all pieces new) ≡ digest (joined pieces))
      × (sha256 (joined pieces) ≡ digest (joined pieces))
unfolding sha256
pieces-digest pieces = (
  finish-digest (update_all pieces new) (joined pieces) (update_all-Holds pieces new [] new-Holds),
  finish-digest (update (joined pieces) new) (joined pieces)
      (update-Holds new [] (joined pieces) new-Holds),
)
