-- ===== src/Core/SectorIo/Send.antt =====
-- `send_waiting` of crates/burnout-core/src/sector_io.rs keeps what a reader sees.
use native.Mathlib.Nat.{zero-mod}
use burnout.Prelude.{
  ℕ, ◌+◌, ◌*◌, ◌/◌, ◌%◌, ◌≤◌, ◌<◌, ◌≡◌, refl, ap, ◌∙◌, sym, inl, inr, true, ◌&&◌, List, [], ◌∷◌,
  length, get_or, arith, ltb, Bool-cases,
}
use burnout.Core.Error.{Result, ok}
use burnout.Core.Target.{Target}
use burnout.Core.Target.Device.{
  written, written_ext, written_away, written_nil, SameDevice, IsDevice, write_all-WroteAll,
  read_exact-ReadAll,
}
use burnout.Core.SectorIo.Cache.{lookup}
use burnout.Core.SectorIo.State.{
  SectorIo, is_empty, put_at, get_at, send_waiting, send_waiting_under,
}
use burnout.Core.SectorIo.View.{through_cache, under, NotWaiting, Inv, Keeps}

pub is_empty→nil : (bs : List ℕ) → is_empty bs ≡ true → bs ≡ []
is_empty→nil [] e = refl
is_empty→nil (b ∷ bs) e = cc

module _ {T : Type 0} (target : Target T) (Valid : T → Type 0) (byte : T → ℕ → ℕ) (at : T → ℕ)
    (device : IsDevice target Valid byte at) where
  -- Whole sectors went to the target, and nothing else of the state changed.
  pub record Stored (to : ℕ) (bytes : List ℕ) (s : SectorIo T) : Type 0 where
    pub next : T
    pub returns : put_at target to bytes s ≡ (ok tt, record s { inner = next })
    pub same : SameDevice target Valid s.inner next
    pub bytes_at : (a : ℕ) → byte next a ≡ written (byte s.inner) to bytes a

  pub put_at-Stored :
      (to : ℕ) (bytes : List ℕ) (s : SectorIo T)
      → Inv target Valid byte s
      → to % s.sector ≡ 0
      → length bytes % s.sector ≡ 0
      → to + length bytes ≤ target.size s.inner
      → Stored to bytes s
  unfolding put_at
  put_at-Stored to bytes s inv p q r =
      let k = device.seek_start to s.inner inv.valid in
      let sector : target.logical_sector_size k.next ≡ s.sector = k.same.sector ∙ sym inv.sector in
      let w =
        write_all-WroteAll target Valid byte at device bytes k.next k.same.valid
          (rw (sector, k.position) p) (rw sector q) (rw (k.position, k.same.size) r) in
      record {
        next = w.next;
        returns = rw k.returns (rw w.returns);
        same = record {
          valid = w.same.valid;
          sector = w.same.sector ∙ k.same.sector;
          size = w.same.size ∙ k.same.size;
        };
        bytes_at = λ a.
            w.bytes a
            ∙ ap (λ (n : ℕ). written (byte k.next) n bytes a) k.position
            ∙ written_ext (byte k.next) (byte s.inner) to bytes a (k.bytes a);
      }

  -- Whole sectors came from the target, which keeps its bytes.
  pub record Fetched (from count : ℕ) (s : SectorIo T) : Type 0 where
    pub next : T
    pub got : List ℕ
    pub returns : get_at target from count s ≡ (ok got, record s { inner = next })
    pub same : SameDevice target Valid s.inner next
    pub size : length got ≡ count
    pub given : (i : ℕ) → i < count → get_or got i 0 ≡ byte s.inner (from + i)
    pub bytes : (a : ℕ) → byte next a ≡ byte s.inner a

  pub get_at-Fetched :
      (from count : ℕ) (s : SectorIo T)
      → Inv target Valid byte s
      → from % s.sector ≡ 0
      → count % s.sector ≡ 0
      → from + count ≤ target.size s.inner
      → Fetched from count s
  unfolding get_at
  get_at-Fetched from count s inv p q r =
      let k = device.seek_start from s.inner inv.valid in
      let sector : target.logical_sector_size k.next ≡ s.sector = k.same.sector ∙ sym inv.sector in
      let w =
        read_exact-ReadAll target Valid byte at device count k.next k.same.valid
          (rw (sector, k.position) p) (rw sector q) (rw (k.position, k.same.size) r) in
      record {
        next = w.next;
        got = w.got;
        returns = rw k.returns (rw w.returns);
        same = record {
          valid = w.same.valid;
          sector = w.same.sector ∙ k.same.sector;
          size = w.same.size ∙ k.same.size;
        };
        size = w.size;
        given = λ i h.
            w.given i h ∙ k.bytes (at k.next + i) ∙ ap (λ (n : ℕ). byte s.inner (n + i)) k.position;
        bytes = λ a. w.bytes a ∙ k.bytes a;
      }

  -- What waited is on the target.
  pub record Sent (s : SectorIo T) (r : Result (Unit {0}) × SectorIo T) : Type 0 where
    pub after : SectorIo T
    pub returns : r ≡ (ok tt, after)
    pub keeps : Keeps target Valid byte s after
    pub empty : after.waiting ≡ []
    pub cache : after.cache ≡ s.cache

  -- The same state with what waited sent to `t`.
  Sent-Keeps :
      (s : SectorIo T) (t : T)
      → Inv target Valid byte s
      → SameDevice target Valid s.inner t
      → ((a : ℕ) → byte t a ≡ under byte s a)
      → Keeps target Valid byte s (record s { inner = t; waiting = [] })
  Sent-Keeps s t inv same bytes = record {
    inv = record {
      valid = same.valid;
      sector = inv.sector ∙ sym same.sector;
      slots = λ k w h.
          let good = inv.slots k w h in
          record {
            size = good.size;
            fits = rw same.size good.fits;
            apart = λ i q. ground (arith, good.apart i q);
            current = λ d i q.
                good.current d i q
                ∙ sym (
                    bytes (k * s.sector + i)
                    ∙ written_away (byte s.inner) s.waiting_at s.waiting (k * s.sector + i)
                        (good.apart i q));
          };
      waiting_start = inv.waiting_start;
      waiting_whole = zero-mod s.sector;
      waiting_fits = omega (arith, same.size, inv.waiting_fits);
    };
    views = λ a.
        ap (through_cache (lookup (a / s.sector) s.cache) (a % s.sector))
          (written_nil (byte t) s.waiting_at [] a refl ∙ bytes a);
    position = refl;
    sector = refl;
    size = same.size;
  }

  pub Keeps-refl : (s : SectorIo T) → Inv target Valid byte s → Keeps target Valid byte s s
  Keeps-refl s inv = record {
    inv = inv;
    views = λ a. refl;
    position = refl;
    sector = refl;
    size = refl;
  }

  -- `send_waiting` answers, nothing waits after it, the cache is the same, and no reader can tell.
  pub send_waiting-Sent :
      (s : SectorIo T) → Inv target Valid byte s → Sent s (send_waiting target s)
  unfolding send_waiting
  send_waiting-Sent s inv = elim (Bool-cases (is_empty s.waiting)) [
    | inl e ↦ record {
      after = s;
      returns = rw e;
      keeps = Keeps-refl s inv;
      empty = is_empty→nil s.waiting e;
      cache = refl;
    }
    | inr e ↦
        let p =
          put_at-Stored s.waiting_at s.waiting s inv inv.waiting_start inv.waiting_whole
            inv.waiting_fits in
        record {
          after = record s { inner = p.next; waiting = [] };
          returns = rw e (rw p.returns);
          keeps = Sent-Keeps s p.next inv p.same p.bytes_at;
          empty = refl;
          cache = refl;
        }
  ]

  -- After `send_waiting_under` no byte of the range waits, and no reader can tell.
  pub record SentUnder (from count : ℕ) (s : SectorIo T) : Type 0 where
    pub after : SectorIo T
    pub returns : send_waiting_under target from count s ≡ (ok tt, after)
    pub keeps : Keeps target Valid byte s after
    pub cache : after.cache ≡ s.cache
    pub apart : (a : ℕ) → from ≤ a → a < from + count → NotWaiting after a

  pub send_waiting_under-SentUnder :
      (from count : ℕ) (s : SectorIo T) → Inv target Valid byte s → SentUnder from count s
  unfolding send_waiting_under
  send_waiting_under-SentUnder from count s inv =
      elim (Bool-cases
        (ltb from (s.waiting_at + length s.waiting) && ltb s.waiting_at (from + count))) [
          | inl e ↦
              let sent = send_waiting-Sent s inv in
              record {
                after = sent.after;
                returns = rw e sent.returns;
                keeps = sent.keeps;
                cache = sent.cache;
                apart = λ a x y. rw sent.empty (omega arith);
              }
          | inr e ↦ record {
            after = s;
            returns = rw e;
            keeps = Keeps-refl s inv;
            cache = refl;
            apart = λ a x y. ground (arith, e);
          }
        ]
