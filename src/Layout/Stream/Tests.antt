-- ===== src/Layout/Stream/Tests.antt =====
-- A file of five bytes from a reader that gives one byte at a time, as
-- crates/burnout-layout/src/stream.rs reads it.
use mathlib.Core.Path.{subst}
use burnout.Prelude.{ℕ, ◌<◌, ◌≡◌, refl, ap, List, [], ◌∷◌, ◌++◌, length, arith, String}
use burnout.Core.Error.{Error, ok}
use burnout.Core.Target.{Io}
use burnout.Core.Sha256.{new}
use burnout.Layout.Stream.{Streams, stream_file}
use burnout.Layout.Stream.Reader.{Part, IsReader}
use burnout.Layout.Stream.Given.{IsSink, Streamed, stream_file-Streamed}

abbrev text_of : Error → String
text_of e = "it failed"

abbrev trickle : ℕ → Io (List ℕ) (List ℕ)
trickle n [] = (ok [], [])
trickle n (b ∷ left) = (ok (b ∷ []), left)

abbrev Has : List ℕ → List ℕ → Type 0
Has left xs = left ≡ xs

trickle_some :
    (n : ℕ) (r : List ℕ)
    → 0 < n
    → (p : Part trickle Has n r r (trickle n r)) × (length p.got ≡ 0 → r ≡ [])
trickle_some n [] pos = (
  record {
    next = [];
    got = [];
    rest = [];
    returns = refl;
    parts = refl;
    at_most = omega arith;
    left = refl;
  },
  λ h. refl,
)
trickle_some n (b ∷ left) pos = (
  record {
    next = left;
    got = b ∷ [];
    rest = left;
    returns = refl;
    parts = refl;
    at_most = omega (arith, pos);
    left = refl;
  },
  λ h. absurd (omega (arith, h)),
)

trickle-IsReader : IsReader trickle Has
trickle-IsReader = record {
  read_some = λ n r xs pos h.
      subst (λ ys. (p : Part trickle Has n r ys (trickle n r)) × (length p.got ≡ 0 → ys ≡ [])) h
        (trickle_some n r pos);
}

abbrev join : List ℕ → Io (List ℕ) (Unit {0})
join piece taken = (ok tt, taken ++ piece)

join-IsSink : IsSink trickle Has trickle-IsReader join Has text_of (b'a' ∷ [])
join-IsSink = record {
  take_piece =
      λ piece xs v h. record { next = v ++ piece; returns = refl; took = ap (λ ys. ys ++ piece) h };
}

abbrev five : List ℕ
five = 1 ∷ 2 ∷ 3 ∷ 4 ∷ 5 ∷ []

abbrev streams : Streams (List ℕ) (List ℕ)
streams = record { reader = five; sink = []; hash = new }

stream_file-Streamed_example :
    Streamed trickle Has trickle-IsReader join Has text_of
      (b'a' ∷ [])
      join-IsSink
      five
      (stream_file text_of trickle join (b'a' ∷ []) 5 2 streams)
stream_file-Streamed_example =
    stream_file-Streamed trickle Has trickle-IsReader join Has text_of (b'a' ∷ []) join-IsSink 2
      five streams (omega arith) refl refl
