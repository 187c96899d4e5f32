-- ===== src/Core/Target.antt =====
-- crates/burnout-core/src/target.rs: the handle that Burnout writes a drive image into, as the record
-- of its operations over a state `T`. A buffer to read into is its length, and the answer is the bytes
-- that came. The loops `write_all` and `read_exact` are those of the standard library; no target of
-- this model answers `Interrupted`, which they would retry.
pub mod Device
use burnout.Prelude.{
  ℕ, zero, suc, ◌-◌, ℤ, Bool, Option, none, some, List, [], ◌∷◌, ◌++◌, length, drop, ◌==◌,
  if◌then◌else◌,
}
use burnout.Core.Error.{Error, Result, ok, err, io, write_zero, unexpected_eof, invalid_input}

-- What was done to the state stays done beside an error.
abbrev pub Io : Type 0 → Type 0 → Type 0
Io S A = S → Result A × S

abbrev pub continue : {S A B : Type 0} → Result A → (A → Io S B) → Io S B
continue (ok a) f s = f a s
continue (err e) f s = (err e, s)

infixl 5 ◌>>=◌ ◌>>◌
abbrev pub ◌>>=◌ : {S A B : Type 0} → Io S A → (A → Io S B) → Io S B
◌>>=◌ m f s = continue (m s).0 f (m s).1

abbrev pub ◌>>◌ : {S B : Type 0} → Io S (Unit {0}) → Io S B → Io S B
m >> k = m >>= λ _. k

abbrev pub pure : {S A : Type 0} → A → Io S A
pure a s = (ok a, s)

abbrev pub raise : {S A : Type 0} → Error → Io S A
raise e s = (err e, s)

-- A call that reads the state, and one that changes it and cannot fail.
abbrev pub gets : {S A : Type 0} → (S → A) → Io S A
gets f s = (ok (f s), s)

abbrev pub modify : {S : Type 0} → (S → S) → Io S (Unit {0})
modify f s = (ok tt, f s)

pub data SeekFrom : Type 0 where
  start : ℕ → SeekFrom
  end : ℤ → SeekFrom
  current : ℤ → SeekFrom

pub record Target (T : Type 0) : Type 0 where
  pub logical_sector_size : T → ℕ
  pub size : T → ℕ
  pub seek : SeekFrom → Io T ℕ
  pub read : ℕ → Io T (List ℕ)
  pub write : List ℕ → Io T ℕ
  pub flush : Io T (Unit {0})
  pub sync : Io T (Unit {0})

module _ {T : Type 0} (target : Target T) where
  -- Each round that goes on has written a byte at least, so a round for each byte is enough.
  unfoldable pub write_all_loop : ℕ → List ℕ → Io T (Unit {0})
  write_all_loop fuel [] = pure tt
  write_all_loop zero (b ∷ bs) = raise (io write_zero)
  write_all_loop (suc fuel) (b ∷ bs) = target.write (b ∷ bs) >>= λ n.
      let rest = write_all_loop fuel (drop n (b ∷ bs)) in
      if n == 0 then raise (io write_zero) else rest

  unfoldable pub write_all : List ℕ → Io T (Unit {0})
  write_all buf = write_all_loop (length buf) buf

  -- `n` bytes to go.
  unfoldable pub read_exact_loop : ℕ → ℕ → Io T (List ℕ)
  read_exact_loop fuel zero = pure []
  read_exact_loop zero (suc n) = raise (io unexpected_eof)
  read_exact_loop (suc fuel) (suc n) = target.read (suc n) >>= λ bytes.
      let rest = read_exact_loop fuel (suc n - length bytes) in
      if length bytes == 0 then raise (io unexpected_eof) else rest >>= λ more. pure (bytes ++ more)

  unfoldable pub read_exact : ℕ → Io T (List ℕ)
  read_exact n = read_exact_loop n n
