-- ===== src/Layout/Stream/Given.antt =====
-- What `stream_file` of crates/burnout-layout/src/stream.rs gives for a reader that comes to an end.
use burnout.Prelude.{
  ℕ, zero, suc, ◌+◌, ◌<◌, ◌≡◌, refl, ap, ◌∙◌, sym, inl, inr, Bool-cases, List, [], ◌++◌, length,
  String, arith, ltb, ◌==◌, ltb→lt, ==→≡, ==→≢, ≡→==, length-append, append_nil, append_assoc, true,
  false, le→ltb,
}
use burnout.Core.Error.{Error, Result, ok}
use burnout.Core.Target.{Io}
use burnout.Core.Tree.{TreePath}
use burnout.Core.Write.{fill}
use burnout.Core.Sha256.{new, update}
use burnout.Core.Sha256.Reference.{digest}
use burnout.Core.Sha256.Digest.{Holds, new-Holds, update-Holds, finish-digest}
use burnout.Layout.Stream.{Streams, stream_loop, stream_file}
use burnout.Layout.Stream.Reader.{length_zero, Part, IsReader, fill-Part}

-- `Took v xs` says that `xs` is what a sink has taken.
module _ {R V : Type 0} (read : ℕ → Io R (List ℕ)) (Left : R → List ℕ → Type 0)
    (laws : IsReader read Left) (sink : List ℕ → Io V (Unit {0})) (Took : V → List ℕ → Type 0)
    (text_of : Error → String) (path : TreePath) where
  -- A piece that a sink takes behind what it has.
  pub record Taken (piece xs : List ℕ) (v : V) : Type 0 where
    pub next : V
    pub returns : sink piece v ≡ (ok tt, next)
    pub took : Took next (xs ++ piece)

  pub record IsSink : Type 0 where
    pub take_piece : (piece xs : List ℕ) (v : V) → Took v xs → Taken piece xs v

  -- The streams after the last of `xs`.
  record Ended (all : List ℕ) (answer : Result ℕ × Streams R V) : Type 0 where
    next : Streams R V
    returns : answer ≡ (ok (length all), next)
    took : Took next.sink all
    holds : Holds next.hash all

  module _ (takes : IsSink) where
    -- A round that gets nothing is the last one.
    nothing_came :
        (fuel bytes size : ℕ) (xs before : List ℕ) (s : Streams R V)
        (p : Part read Left size s.reader xs (fill read size s.reader))
        → 0 < size
        → (length p.got < size → p.rest ≡ [])
        → Took s.sink before
        → Holds s.hash before
        → (length p.got == 0) ≡ true
        → Ended
            (before ++ xs)
            (stream_loop text_of read sink path (suc fuel) bytes size (length before) s)
    unfolding stream_loop
    nothing_came fuel bytes size xs before s p some_size ends t h none_came =
        let none_got = ==→≡ (length p.got) 0 none_came in
        let nothing : xs ≡ [] =
          p.parts
          ∙ ap (λ ys. ys ++ p.rest) (length_zero p.got none_got)
          ∙ ends (omega (arith, none_got, some_size)) in
        let all : before ≡ before ++ xs =
          sym (append_nil before) ∙ ap (λ ys. before ++ ys) (sym nothing) in
        record {
          next = record s { reader = p.next };
          returns =
              rw p.returns
                (rw none_came (λ i. (ok (length (all i)), record s { reader = p.next })));
          took = rw (← all) t;
          holds = rw (← all) h;
        }

    -- The streams after a piece.
    abbrev piece_given : Streams R V → R → V → List ℕ → Streams R V
    piece_given s reader after piece = record {
      reader = reader;
      sink = after;
      hash = update piece s.hash;
    }

    -- A round that gets less than a chunk is the last one too.
    short_came :
        (fuel bytes size : ℕ) (xs before : List ℕ) (s : Streams R V)
        (p : Part read Left size s.reader xs (fill read size s.reader))
        (w : Taken p.got before s.sink)
        → (length p.got < size → p.rest ≡ [])
        → Holds (update p.got s.hash) (before ++ p.got)
        → (length p.got == 0) ≡ false
        → ltb bytes (length before + length p.got) ≡ false
        → ltb (length p.got) size ≡ true
        → Ended
            (before ++ xs)
            (stream_loop text_of read sink path (suc fuel) bytes size (length before) s)
    unfolding stream_loop
    short_came fuel bytes size xs before s p w ends held came under short =
        let s' = piece_given s p.next w.next p.got in
        let all : before ++ p.got ≡ before ++ xs =
          ap (λ ys. before ++ ys)
            (sym (append_nil p.got)
              ∙ ap (λ ys. p.got ++ ys) (sym (ends (ltb→lt (length p.got) size short)))
              ∙ sym p.parts) in
        record {
          next = s';
          returns = rw p.returns (
              rw came (
                rw under (
                  rw w.returns (
                    rw short
                      (λ i. (ok ((sym (length-append before p.got) ∙ ap length all) i), s'))))));
          took = rw (← all) w.took;
          holds = rw (← all) held;
        }

    stream_loop-Ended :
        (fuel bytes size : ℕ) (xs before : List ℕ) (s : Streams R V)
        → 0 < size
        → length before + length xs ≡ bytes
        → length xs < fuel
        → Left s.reader xs
        → Took s.sink before
        → Holds s.hash before
        → Ended
            (before ++ xs)
            (stream_loop text_of read sink path fuel bytes size (length before) s)
    unfolding stream_loop
    stream_loop-Ended zero bytes size xs before s some_size total f l t h =
        absurd (omega (arith, f))
    stream_loop-Ended (suc fuel) bytes size xs before s some_size total f l t h =
        let (p, ends) = fill-Part read Left laws size s.reader xs l in
        let n = length p.got in
        let parts = ap length p.parts ∙ length-append p.got p.rest in
        let w = takes.take_piece p.got before s.sink t in
        let held = update-Holds s.hash before p.got h in
        let size_now = length-append before p.got in
        let under = le→ltb bytes (length before + n) (omega (arith, total, parts)) in
        elim (Bool-cases (n == 0)) [
          | inl none_came ↦ nothing_came fuel bytes size xs before s p some_size ends t h none_came
          | inr came ↦ elim (Bool-cases (ltb n size)) [
            | inl short ↦ short_came fuel bytes size xs before s p w ends held came under short
            | inr full ↦
                let r =
                  stream_loop-Ended fuel bytes size p.rest (before ++ p.got)
                    (piece_given s p.next w.next p.got) some_size
                    (omega (arith, size_now, total, parts)) (omega (arith, parts, f, ==→≢ n 0 came))
                    p.left w.took held in
                let all : (before ++ p.got) ++ p.rest ≡ before ++ xs =
                  append_assoc before p.got p.rest ∙ ap (λ ys. before ++ ys) (sym p.parts) in
                record {
                  next = r.next;
                  returns = rw p.returns (
                      rw came (
                        rw under (
                          rw w.returns (
                            rw full (
                              rw (← size_now)
                                (r.returns ∙ (λ i. (ok (length (all i)), r.next))))))));
                  took = rw (← all) r.took;
                  holds = rw (← all) r.holds;
                }
          ]
        ]

    pub record Streamed (xs : List ℕ) (answer : Result (List ℕ) × Streams R V) : Type 0 where
      pub next : Streams R V
      pub returns : answer ≡ (ok (digest xs), next)
      pub took : Took next.sink xs

    -- A reader that has the bytes `xs` left and gives them in parts of any size, a sink that takes what it
    -- is given and has taken nothing yet, chunks of at least a byte, and a tree that gives the size of the
    -- file as that of `xs`: then `stream_file` answers with the digest of `xs`, and the pieces that the sink
    -- took are `xs` when they are put together.
    pub stream_file-Streamed :
        (size : ℕ) (xs : List ℕ) (s : Streams R V)
        → 0 < size
        → Left s.reader xs
        → Took s.sink []
        → Streamed xs (stream_file text_of read sink path (length xs) size s)
    unfolding stream_file
    stream_file-Streamed size xs s some_size l t =
        let r =
          stream_loop-Ended (suc (length xs)) (length xs) size xs [] (record s { hash = new })
            some_size (omega arith) (omega arith) l t new-Holds in
        record {
          next = r.next;
          returns = rw r.returns (
              rw (≡→== (length xs) (length xs) refl)
                (λ i. (ok ((finish-digest r.next.hash xs r.holds) i), r.next)));
          took = r.took;
        }
