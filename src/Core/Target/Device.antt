-- ===== src/Core/Target/Device.antt =====
-- What the code relies on of a target that keeps its bytes: it takes whole sectors at a sector
-- boundary inside its length, and it gives them back. The laws say nothing of any other access, so
-- what is proved from them holds of a raw device that refuses it.
use native.Mathlib.Decide.{dec_lt}
use burnout.Prelude.{
  ℕ, zero, suc, ◌+◌, ◌-◌, ◌%◌, ◌≤◌, ◌<◌, ◌≡◌, refl, ◌&&◌, List, [], ◌∷◌, ◌++◌, length, drop, get_or,
  arith, ltb, leb, if◌then◌else◌, length-append, length-drop, get_or-drop, get_or-append, add_whole,
  sub_whole, ≢→==, ◌∙◌, sym, ap, lt→ltb, le→ltb, ◌⊎◌, inl, inr,
}
use burnout.Core.Error.{Result, ok}
use burnout.Core.Target.{Target, start, write_all_loop, write_all, read_exact_loop, read_exact}

-- The bytes of a device after `buf` went to byte `at`.
abbrev pub written : (ℕ → ℕ) → ℕ → List ℕ → ℕ → ℕ
written bytes at buf a =
    if leb at a && ltb a (at + length buf) then get_or buf (a - at) 0 else bytes a

pub written_ext :
    (f g : ℕ → ℕ) (at : ℕ) (buf : List ℕ) (a : ℕ)
    → f a ≡ g a
    → written f at buf a ≡ written g at buf a
written_ext f g at buf a e =
    ap (λ (n : ℕ). if leb at a && ltb a (at + length buf) then get_or buf (a - at) 0 else n) e

-- Bytes that a write does not reach keep their value.
pub written_away :
    (f : ℕ → ℕ) (at : ℕ) (buf : List ℕ) (a : ℕ)
    → (a < at) ⊎ (at + length buf ≤ a)
    → written f at buf a ≡ f a
written_away f at buf a (inl h) = ground arith
written_away f at buf a (inr h) = ground arith

-- Bytes that a write reaches are its own.
pub written_in :
    (f : ℕ → ℕ) (at : ℕ) (buf : List ℕ) (a : ℕ)
    → at ≤ a
    → a < at + length buf
    → written f at buf a ≡ get_or buf (a - at) 0
written_in f at buf a p q = ground arith

pub written_nil : (f : ℕ → ℕ) (at : ℕ) (buf : List ℕ) (a : ℕ) → buf ≡ [] → written f at buf a ≡ f a
written_nil f at [] a e = ground arith
written_nil f at (b ∷ bs) a e = cc

-- Bytes that go after those of an earlier write are one write with them.
pub written_join :
    (f : ℕ → ℕ) (at : ℕ) (xs ys : List ℕ) (a : ℕ)
    → written f at (xs ++ ys) a ≡ written (written f at xs) (at + length xs) ys a
written_join f at xs ys a =
    let index : at + length xs ≤ a → a - at - length xs ≡ a - (at + length xs) = λ p. omega arith in
    let shift : at + length xs ≤ a
        → get_or ys (a - at - length xs) 0 ≡ get_or ys (a - (at + length xs)) 0 =
      λ p. ap (λ (n : ℕ). get_or ys n 0) (index p) in
    ground (arith, length-append xs ys, get_or-append xs ys (a - at) 0, shift)

-- A write of nothing can be anywhere.
pub written_start :
    (f : ℕ → ℕ) (x y : ℕ) (ws : List ℕ) (a : ℕ)
    → (x ≡ y) ⊎ (ws ≡ [])
    → written f x ws a ≡ written f y ws a
written_start f x y ws a (inl e) = ap (λ (n : ℕ). written f n ws a) e
written_start f x y ws a (inr e) = written_nil f x ws a e ∙ sym (written_nil f y ws a e)

-- A write in two parts.
pub written_split :
    (f g : ℕ → ℕ) (p k : ℕ) (buf : List ℕ) (a : ℕ)
    → k ≤ length buf
    → g a ≡ (if leb p a && ltb a (p + k) then get_or buf (a - p) 0 else f a)
    → written g (p + k) (drop k buf) a ≡ written f p buf a
written_split f g p k buf a h e =
    let index : p + k ≤ a → k + (a - (p + k)) ≡ a - p = λ q. omega arith in
    let shift : p + k ≤ a → get_or (drop k buf) (a - (p + k)) 0 ≡ get_or buf (a - p) 0 =
      λ q. get_or-drop k buf (a - (p + k)) 0 ∙ ap (λ (n : ℕ). get_or buf n 0) (index q) in
    ground (arith, length-drop k buf, shift)

-- A read in two parts.
pub given_join :
    (f g : ℕ → ℕ) (p q : ℕ) (xs ys : List ℕ) (m : ℕ)
    → ((i : ℕ) → i < length xs → get_or xs i 0 ≡ f (p + i))
    → ((i : ℕ) → i < m → get_or ys i 0 ≡ g (q + i))
    → q ≡ p + length xs
    → ((a : ℕ) → g a ≡ f a)
    → (i : ℕ) → i < length xs + m
    → get_or (xs ++ ys) i 0 ≡ f (p + i)
given_join f g p q xs ys m first second e same i h =
    rw (get_or-append xs ys i 0) (elim (dec_lt i (length xs)) [
      | yes below ↦ rw (lt→ltb _ _ below) (first i below)
      | no past ↦
          rw (le→ltb i (length xs) (omega arith))
            (second (i - length xs) (omega arith) ∙ same _ ∙ ap f (omega arith))
    ])

module _ {T : Type 0} (target : Target T) (Valid : T → Type 0) where
  -- The device that a state belongs to stays the same.
  pub record SameDevice (t t' : T) : Type 0 where
    pub valid : Valid t'
    pub sector : target.logical_sector_size t' ≡ target.logical_sector_size t
    pub size : target.size t' ≡ target.size t

  pub SameDevice-trans : {r s t : T} → SameDevice r s → SameDevice s t → SameDevice r t
  SameDevice-trans x y = record {
    valid = y.valid;
    sector = y.sector ∙ x.sector;
    size = y.size ∙ x.size;
  }

module _ {T : Type 0} (target : Target T) (Valid : T → Type 0) (byte : T → ℕ → ℕ) (at : T → ℕ) where
  pub record Sought (n : ℕ) (t : T) : Type 0 where
    pub next : T
    pub returns : target.seek (start n) t ≡ (ok n, next)
    pub same : SameDevice target Valid t next
    pub position : at next ≡ n
    pub bytes : (a : ℕ) → byte next a ≡ byte t a

  -- A write takes whole sectors, one at least, and maybe not all.
  pub record Wrote (buf : List ℕ) (t : T) : Type 0 where
    pub next : T
    pub count : ℕ
    pub returns : target.write buf t ≡ (ok count, next)
    pub same : SameDevice target Valid t next
    pub some_bytes : 0 < count
    pub at_most : count ≤ length buf
    pub whole : count % target.logical_sector_size t ≡ 0
    pub position : at next ≡ at t + count
    pub bytes :
        (a : ℕ)
        → byte next a
          ≡ (if leb (at t) a && ltb a (at t + count) then get_or buf (a - at t) 0 else byte t a)

  pub record HasRead (n : ℕ) (t : T) : Type 0 where
    pub next : T
    pub got : List ℕ
    pub returns : target.read n t ≡ (ok got, next)
    pub same : SameDevice target Valid t next
    pub some_bytes : 0 < length got
    pub at_most : length got ≤ n
    pub whole : length got % target.logical_sector_size t ≡ 0
    pub position : at next ≡ at t + length got
    pub given : (i : ℕ) → i < length got → get_or got i 0 ≡ byte t (at t + i)
    pub bytes : (a : ℕ) → byte next a ≡ byte t a

  -- A flush or a sync, which keep the bytes and the position.
  pub record Flushed (r : Result (Unit {0}) × T) (t : T) : Type 0 where
    pub next : T
    pub returns : r ≡ (ok tt, next)
    pub same : SameDevice target Valid t next
    pub position : at next ≡ at t
    pub bytes : (a : ℕ) → byte next a ≡ byte t a

  pub record IsDevice : Type 0 where
    pub sector_pos : (t : T) → Valid t → 0 < target.logical_sector_size t
    pub size_whole : (t : T) → Valid t → target.size t % target.logical_sector_size t ≡ 0
    pub seek_start : (n : ℕ) (t : T) → Valid t → Sought n t
    pub write_some :
        (buf : List ℕ) (t : T)
        → Valid t
        → 0 < length buf
        → at t % target.logical_sector_size t ≡ 0
        → length buf % target.logical_sector_size t ≡ 0
        → at t + length buf ≤ target.size t
        → Wrote buf t
    pub read_some :
        (n : ℕ) (t : T)
        → Valid t
        → 0 < n
        → at t % target.logical_sector_size t ≡ 0
        → n % target.logical_sector_size t ≡ 0
        → at t + n ≤ target.size t
        → HasRead n t
    pub flush_all : (t : T) → Valid t → Flushed (target.flush t) t
    pub sync_all : (t : T) → Valid t → Flushed (target.sync t) t

  pub record WroteAll (buf : List ℕ) (t : T) (r : Result (Unit {0}) × T) : Type 0 where
    pub next : T
    pub returns : r ≡ (ok tt, next)
    pub same : SameDevice target Valid t next
    pub position : at next ≡ at t + length buf
    pub bytes : (a : ℕ) → byte next a ≡ written (byte t) (at t) buf a

  pub record ReadAll (n : ℕ) (t : T) (r : Result (List ℕ) × T) : Type 0 where
    pub next : T
    pub got : List ℕ
    pub returns : r ≡ (ok got, next)
    pub same : SameDevice target Valid t next
    pub size : length got ≡ n
    pub position : at next ≡ at t + n
    pub given : (i : ℕ) → i < n → get_or got i 0 ≡ byte t (at t + i)
    pub bytes : (a : ℕ) → byte next a ≡ byte t a

  module _ (device : IsDevice) where
    write_all_loop-WroteAll :
        (fuel : ℕ) (buf : List ℕ) (t : T)
        → Valid t
        → length buf ≤ fuel
        → at t % target.logical_sector_size t ≡ 0
        → length buf % target.logical_sector_size t ≡ 0
        → at t + length buf ≤ target.size t
        → WroteAll buf t (write_all_loop target fuel buf t)
    unfolding write_all_loop
    write_all_loop-WroteAll fuel [] t v f p q r = record {
      next = t;
      returns = refl;
      same = record { valid = v; sector = refl; size = refl };
      position = omega arith;
      bytes = λ a. ground arith;
    }
    write_all_loop-WroteAll zero (b ∷ bs) t v f p q r = absurd (omega arith)
    write_all_loop-WroteAll (suc fuel) (b ∷ bs) t v f p q r =
        let w = device.write_some (b ∷ bs) t v (omega arith) p q r in
        let left = drop w.count (b ∷ bs) in
        let left_size : length left ≡ length (b ∷ bs) - w.count = length-drop w.count (b ∷ bs) in
        let rest =
          write_all_loop-WroteAll fuel left w.next w.same.valid (omega (arith, w.some_bytes))
            (rw w.same.sector
              (rw w.position (add_whole (at t) w.count (target.logical_sector_size t) p w.whole)))
            (rw w.same.sector (
              rw left_size (
                sub_whole (length (b ∷ bs)) w.count (target.logical_sector_size t) q w.whole
                  w.at_most)))
            (omega (arith, w.position, w.at_most, w.same.size)) in
        record {
          next = rest.next;
          returns = rw w.returns (rw (≢→== w.count 0 (omega (arith, w.some_bytes))) rest.returns);
          same = record {
            valid = rest.same.valid;
            sector = rest.same.sector ∙ w.same.sector;
            size = rest.same.size ∙ w.same.size;
          };
          position = omega (arith, rest.position, w.position, w.at_most);
          bytes = λ a.
              rest.bytes a
              ∙ ap (λ (n : ℕ). written (byte w.next) n left a) w.position
              ∙ written_split (byte t) (byte w.next) (at t) w.count (b ∷ bs) a w.at_most
                  (w.bytes a);
        }

    pub write_all-WroteAll :
        (buf : List ℕ) (t : T)
        → Valid t
        → at t % target.logical_sector_size t ≡ 0
        → length buf % target.logical_sector_size t ≡ 0
        → at t + length buf ≤ target.size t
        → WroteAll buf t (write_all target buf t)
    unfolding write_all
    write_all-WroteAll buf t v p q r =
        write_all_loop-WroteAll (length buf) buf t v (omega arith) p q r

    read_exact_loop-ReadAll :
        (fuel n : ℕ) (t : T)
        → Valid t
        → n ≤ fuel
        → at t % target.logical_sector_size t ≡ 0
        → n % target.logical_sector_size t ≡ 0
        → at t + n ≤ target.size t
        → ReadAll n t (read_exact_loop target fuel n t)
    unfolding read_exact_loop
    read_exact_loop-ReadAll fuel zero t v f p q r = record {
      next = t;
      got = [];
      returns = refl;
      same = record { valid = v; sector = refl; size = refl };
      size = refl;
      position = omega arith;
      given = λ i h. absurd (omega arith);
      bytes = λ a. refl;
    }
    read_exact_loop-ReadAll zero (suc n) t v f p q r = absurd (omega arith)
    read_exact_loop-ReadAll (suc fuel) (suc n) t v f p q r =
        let w = device.read_some (suc n) t v (omega arith) p q r in
        let k = length w.got in
        let s = target.logical_sector_size t in
        let rest =
          read_exact_loop-ReadAll fuel (suc n - k) w.next w.same.valid (omega (arith, w.some_bytes))
            (rw w.same.sector (rw w.position (add_whole (at t) k s p w.whole)))
            (rw w.same.sector (sub_whole (suc n) k s q w.whole w.at_most))
            (omega (arith, w.position, w.at_most, w.same.size)) in
        record {
          next = rest.next;
          got = w.got ++ rest.got;
          returns = rw w.returns (rw (≢→== k 0 (omega (arith, w.some_bytes))) (rw rest.returns));
          same = record {
            valid = rest.same.valid;
            sector = rest.same.sector ∙ w.same.sector;
            size = rest.same.size ∙ w.same.size;
          };
          size = omega (arith, length-append {0} w.got rest.got, rest.size, w.at_most);
          position = omega (arith, rest.position, w.position, w.at_most);
          given = λ i h.
              given_join (byte t) (byte w.next) (at t) (at w.next) w.got rest.got (suc n - k)
                w.given rest.given w.position w.bytes i (omega (arith, w.at_most));
          bytes = λ a. rest.bytes a ∙ w.bytes a;
        }

    pub read_exact-ReadAll :
        (n : ℕ) (t : T)
        → Valid t
        → at t % target.logical_sector_size t ≡ 0
        → n % target.logical_sector_size t ≡ 0
        → at t + n ≤ target.size t
        → ReadAll n t (read_exact target n t)
    unfolding read_exact
    read_exact-ReadAll n t v p q r = read_exact_loop-ReadAll n n t v (omega arith) p q r
