-- ===== src/Layout/Stream.antt =====
-- crates/burnout-layout/src/stream.rs: a file of a tree is read in chunks, each of which goes to a sink and
-- into the digest. `text_of` is the text of an error, and no reader of this model answers `Interrupted`.
pub mod Reader
pub mod Given
pub mod Bounded
mod Tests
use burnout.Prelude.{
  ℕ, zero, suc, ◌+◌, ◌*◌, Option, none, some, List, length, String, ltb, ◌==◌, if◌then◌else◌,
}
use burnout.Core.Error.{
  Error, Result, ok, err, io, unexpected_eof, source, cannot_copy, text, wrong_size,
}
use burnout.Core.Target.{Io, ◌>>=◌, ◌>>◌, pure, raise, gets, modify}
use burnout.Core.Tree.{TreePath}
use burnout.Core.Write.{fill}
use burnout.Core.Sha256.{Sha256, new, update, finish}

abbrev pub chunk_bytes : ℕ
chunk_bytes = 1024 * 1024

-- A reader and what the sink changes, with the running hash.
pub record Streams (R V : Type 0) : Type 0 where
  pub reader : R
  pub sink : V
  pub hash : Sha256

abbrev pub map_err : {A : Type 0} → (Error → Error) → Result A → Result A
map_err f (err e) = err (f e)
map_err f (ok a) = ok a

abbrev pub wrong : TreePath → ℕ → Option ℕ → Error
wrong path bytes gave = source path (wrong_size bytes gave)

module _ {R V : Type 0} (text_of : Error → String) (read : ℕ → Io R (List ℕ))
    (sink : List ℕ → Io V (Unit {0})) (path : TreePath) where
  abbrev pub next_chunk : ℕ → Io (Streams R V) (List ℕ)
  next_chunk size s =
      let (got, reader) = fill read size s.reader in
      (map_err (λ e. source path (text (text_of e))) got, record s { reader = reader })

  abbrev pub give : List ℕ → Io (Streams R V) (Unit {0})
  give piece s =
      let (gave, after) = sink piece s.sink in
      (map_err (λ e. cannot_copy path (text (text_of e))) gave, record s { sink = after })

  -- `done` bytes went to the sink before. A round that goes on gives a byte at least.
  unfoldable pub stream_loop : ℕ → ℕ → ℕ → ℕ → Io (Streams R V) ℕ
  stream_loop zero bytes size done = raise (io unexpected_eof)
  stream_loop (suc fuel) bytes size done = next_chunk size >>= λ got.
      let n = length got in
      let last : Io (Streams R V) ℕ = pure (done + n) in
      let more : Io (Streams R V) ℕ = stream_loop fuel bytes size (done + n) in
      let round : Io (Streams R V) ℕ = (do
        modify (λ s. record s { hash = update got s.hash })
        give got
        if ltb n size then last else more) in
      if n == 0
      then pure done
      else if ltb bytes (done + n)
      then raise (wrong path bytes none)
      else round

  unfoldable pub stream_file : ℕ → ℕ → Io (Streams R V) (List ℕ)
  unfolding stream_loop
  stream_file bytes size = do
    modify (λ s. record s { hash = new })
    done ← stream_loop (suc bytes) bytes size 0
    if done == bytes then gets (λ s. finish s.hash) else raise (wrong path bytes (some done))
