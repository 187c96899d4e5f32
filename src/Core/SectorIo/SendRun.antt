-- ===== src/Core/SectorIo/SendRun.antt =====
-- `send_run` of crates/burnout-core/src/sector_io.rs: whole sectors go out, at once or with what waits.
use mathlib.Core.Path.{subst}
use burnout.Prelude.{
  ℕ, ◌+◌, ◌*◌, ◌/◌, ◌%◌, ◌≤◌, ◌<◌, ◌≡◌, refl, ap, ◌∙◌, sym, ◌⊎◌, inl, inr, false, not, ◌&&◌, none,
  some, List, [], ◌∷◌, ◌++◌, length, arith, ltb, leb, ◌==◌, Bool-cases, ==→≡, length-append,
  add_whole, block_of,
}
use burnout.Core.Error.{Result, ok}
use burnout.Core.Target.{Target}
use burnout.Core.Target.Device.{
  written, written_ext, written_away, written_nil, written_join, written_start, IsDevice,
}
use burnout.Core.SectorIo.Cache.{Slot, lookup}
use burnout.Core.SectorIo.State.{
  SectorIo, is_empty, when, merge_bytes, wait_from, put_at, send_waiting, send_run,
}
use burnout.Core.SectorIo.View.{through_cache, under, view, Inv, Keeps}
use burnout.Core.SectorIo.Send.{put_at-Stored, is_empty→nil, send_waiting-Sent, Keeps-refl}

-- The bytes `from` to `from + n` are not cached.
abbrev pub Uncached : {T : Type 0} → SectorIo T → ℕ → ℕ → Type 0
Uncached s from n = (a : ℕ) → from ≤ a → a < from + n → lookup (a / s.sector) s.cache ≡ none

-- What is written under a cache that does not hold it is what a reader sees.
through_written :
    {T : Type 0} (byte : T → ℕ → ℕ) (s : SectorIo T) (to : ℕ) (bytes : List ℕ) (a u : ℕ)
    → Uncached s to (length bytes)
    → u ≡ written (under byte s) to bytes a
    → through_cache (lookup (a / s.sector) s.cache) (a % s.sector) u
      ≡ written (view byte s) to bytes a
through_written byte s to bytes a u free e =
    elim (Bool-cases (leb to a && ltb a (to + length bytes))) [
      | inl inside ↦
          rw inside (rw (free a (ground (arith, inside)) (ground (arith, inside))) (e ∙ rw inside))
      | inr outside ↦
          rw outside
            (ap (through_cache (lookup (a / s.sector) s.cache) (a % s.sector)) (e ∙ rw outside))
    ]

module _ {T : Type 0} (target : Target T) (Valid : T → Type 0) (byte : T → ℕ → ℕ) (at : T → ℕ)
    (device : IsDevice target Valid byte at) where
  -- A reader sees the bytes where they went, and all else as before. The cache is the same.
  pub record SentRun (to : ℕ) (bytes : List ℕ) (s : SectorIo T) (r : Result (Unit {0}) × SectorIo T)
      : Type 0 where
    pub after : SectorIo T
    pub returns : r ≡ (ok tt, after)
    pub inv : Inv target Valid byte after
    pub views : (a : ℕ) → view byte after a ≡ written (view byte s) to bytes a
    pub position : after.position ≡ s.position
    pub sector : after.sector ≡ s.sector
    pub size : target.size after.inner ≡ target.size s.inner

  -- A step that no reader can tell, after it.
  then_keeps :
      {to : ℕ} {bytes : List ℕ} {s u : SectorIo T} {q r : Result (Unit {0}) × SectorIo T}
      → (g : SentRun to bytes s q) → Keeps target Valid byte g.after u
      → r ≡ (ok tt, u)
      → SentRun to bytes s r
  then_keeps {to} {bytes} {s} {u} g k e = record {
    after = u;
    returns = e;
    inv = k.inv;
    views = λ a. k.views a ∙ g.views a;
    position = k.position ∙ g.position;
    sector = k.sector ∙ g.sector;
    size = k.size ∙ g.size;
  }

  -- And before it.
  keeps_then :
      {to : ℕ} {bytes : List ℕ} {s t : SectorIo T} {r : Result (Unit {0}) × SectorIo T}
      → Keeps target Valid byte s t
      → SentRun to bytes t r
      → SentRun to bytes s r
  keeps_then {to} {bytes} {s} {t} k g = record {
    after = g.after;
    returns = g.returns;
    inv = g.inv;
    views = λ a. g.views a ∙ written_ext (view byte t) (view byte s) to bytes a (k.views a);
    position = g.position ∙ k.position;
    sector = g.sector ∙ k.sector;
    size = g.size ∙ k.size;
  }

  -- No cached sector has a byte in the range.
  slot_away :
      (s : SectorIo T) (to n k i : ℕ) (w : Slot)
      → Uncached s to n
      → lookup k s.cache ≡ some w
      → i < s.sector
      → (k * s.sector + i < to) ⊎ (to + n ≤ k * s.sector + i)
  slot_away s to n k i w free e q =
      let a = k * s.sector + i in
      elim (Bool-cases (leb to a && ltb a (to + n))) [
        | inl inside ↦
            let gone = free a (ground (arith, inside)) (ground (arith, inside)) in
            let here : lookup (a / s.sector) s.cache ≡ some w =
              ap (λ j. lookup j s.cache) (block_of k i s.sector q).0 ∙ e in
            absurd (some_not_none w (sym here ∙ gone))
        | inr outside ↦ ground (arith, outside)
      ]
    where
      some_not_none : (v : Slot) → some v ≡ none → ⊥
      some_not_none v h = cc

  -- At once, while nothing waits.
  put_at-SentRun :
      (to : ℕ) (bytes : List ℕ) (s : SectorIo T)
      → Inv target Valid byte s
      → s.waiting ≡ []
      → to % s.sector ≡ 0
      → length bytes % s.sector ≡ 0
      → to + length bytes ≤ target.size s.inner
      → Uncached s to (length bytes)
      → SentRun to bytes s (put_at target to bytes s)
  put_at-SentRun to bytes s inv none_wait p q r free =
      let w = put_at-Stored target Valid byte at device to bytes s inv p q r in
      record {
        after = record s { inner = w.next };
        returns = w.returns;
        inv = record {
          valid = w.same.valid;
          sector = inv.sector ∙ sym w.same.sector;
          slots = λ k v e.
              let good = inv.slots k v e in
              record {
                size = good.size;
                fits = rw w.same.size good.fits;
                apart = good.apart;
                current = λ d i h.
                    good.current d i h
                    ∙ sym (
                        w.bytes_at (k * s.sector + i)
                        ∙ written_away (byte s.inner) to bytes (k * s.sector + i)
                            (slot_away s to (length bytes) k i v free e h));
              };
          waiting_start = inv.waiting_start;
          waiting_whole = inv.waiting_whole;
          waiting_fits = rw w.same.size inv.waiting_fits;
        };
        views = λ a.
            through_written byte s to bytes a (written (byte w.next) s.waiting_at s.waiting a) free
              (ap (λ ws. written (byte w.next) s.waiting_at ws a) none_wait
                ∙ written_nil (byte w.next) s.waiting_at [] a refl
                ∙ w.bytes_at a
                ∙ written_ext (byte s.inner) (under byte s) to bytes a
                    (sym (written_nil (byte s.inner) s.waiting_at s.waiting a none_wait)));
        position = refl;
        sector = refl;
        size = w.same.size;
      }

  -- The same state with `bytes` after what waits, which starts at `from`.
  joined-SentRun :
      (to from : ℕ) (bytes : List ℕ) (s : SectorIo T)
      → Inv target Valid byte s
      → (from ≡ s.waiting_at) ⊎ (s.waiting ≡ [])
      → from + length s.waiting ≡ to
      → from % s.sector ≡ 0
      → length bytes % s.sector ≡ 0
      → to + length bytes ≤ target.size s.inner
      → Uncached s to (length bytes)
      → SentRun to bytes s (ok tt, record s { waiting_at = from; waiting = s.waiting ++ bytes })
  joined-SentRun to from bytes s inv start ends p q r free =
      let size : length (s.waiting ++ bytes) ≡ length s.waiting + length bytes =
        length-append {0} s.waiting bytes in
      let before : (a : ℕ) → written (byte s.inner) from s.waiting a ≡ under byte s a =
        λ a. written_start (byte s.inner) from s.waiting_at s.waiting a start in
      record {
        after = record s { waiting_at = from; waiting = s.waiting ++ bytes };
        returns = refl;
        inv = record {
          valid = inv.valid;
          sector = inv.sector;
          slots = λ k v e.
              let good = inv.slots k v e in
              record {
                size = good.size;
                fits = good.fits;
                apart = λ i h.
                    apart_both (k * s.sector + i) from s.waiting_at to s.waiting bytes start ends
                      (good.apart i h) (slot_away s to (length bytes) k i v free e h);
                current = good.current;
              };
          waiting_start = p;
          waiting_whole =
              rw size (add_whole (length s.waiting) (length bytes) s.sector inv.waiting_whole q);
          waiting_fits = omega (arith, size);
        };
        views = λ a.
            through_written byte s to bytes a (written (byte s.inner) from (s.waiting ++ bytes) a)
              free
              (written_join (byte s.inner) from s.waiting bytes a
                ∙ written_ext (written (byte s.inner) from s.waiting) (under byte s)
                    (from + length s.waiting) bytes a (before a)
                ∙ ap (λ (n : ℕ). written (under byte s) n bytes a) ends);
        position = refl;
        sector = refl;
        size = refl;
      }
    where
      apart_both :
          (a x y z : ℕ) (ws bs : List ℕ)
          → (x ≡ y) ⊎ (ws ≡ [])
          → x + length ws ≡ z
          → (a < y) ⊎ (y + length ws ≤ a)
          → (a < z) ⊎ (z + length bs ≤ a)
          → (a < x) ⊎ (x + length (ws ++ bs) ≤ a)
      apart_both a x y z ws bs (inl e) h p q = ground (arith, length-append {0} ws bs)
      apart_both a x y z [] bs (inr e) h p q = ground arith
      apart_both a x y z (w ∷ ws) bs (inr e) h p q = cc

  -- With what waits, or as the first bytes that wait.
  wait_from-SentRun :
      (to : ℕ) (bytes : List ℕ) (s : SectorIo T)
      → Inv target Valid byte s
      → (s.waiting ≡ []) ⊎ (to ≡ s.waiting_at + length s.waiting)
      → to % s.sector ≡ 0
      → length bytes % s.sector ≡ 0
      → to + length bytes ≤ target.size s.inner
      → Uncached s to (length bytes)
      → SentRun to bytes s (ok tt, wait_from to bytes s)
  wait_from-SentRun to bytes s inv follows p q r free = elim (Bool-cases (is_empty s.waiting)) [
    | inl e ↦ rw e (
        joined-SentRun to to bytes s inv (inr (is_empty→nil s.waiting e))
          (rw (is_empty→nil s.waiting e) (omega arith)) p q r free)
    | inr e ↦ rw e (
        joined-SentRun to s.waiting_at bytes s inv (inl refl) (after_some s.waiting e follows)
          inv.waiting_start q r free)
  ]
    where
      after_some :
          (ws : List ℕ)
          → is_empty ws ≡ false
          → (ws ≡ []) ⊎ (to ≡ s.waiting_at + length ws)
          → s.waiting_at + length ws ≡ to
      after_some [] e h = cc
      after_some (w ∷ ws) e (inl h) = cc
      after_some (w ∷ ws) e (inr h) = sym h

  -- What waits stays where the new bytes follow it, and is sent where they do not.
  record Ready (to : ℕ) (s : SectorIo T) : Type 0 where
    after : SectorIo T
    returns :
        when
          (λ z. not (is_empty z.waiting) && not (to == z.waiting_at + length z.waiting))
          (send_waiting target)
          s
        ≡ (ok tt, after)
    keeps : Keeps target Valid byte s after
    cache : after.cache ≡ s.cache
    follows : (after.waiting ≡ []) ⊎ (to ≡ after.waiting_at + length after.waiting)

  ready : (to : ℕ) (s : SectorIo T) → Inv target Valid byte s → Ready to s
  ready to s inv =
      elim (Bool-cases (not (is_empty s.waiting) && not (to == s.waiting_at + length s.waiting))) [
        | inl e ↦
            let u = send_waiting-Sent target Valid byte at device s inv in
            record {
              after = u.after;
              returns = rw e u.returns;
              keeps = u.keeps;
              cache = u.cache;
              follows = inl u.empty;
            }
        | inr e ↦ record {
          after = s;
          returns = rw e;
          keeps = Keeps-refl target Valid byte at device s inv;
          cache = refl;
          follows = elim (Bool-cases (is_empty s.waiting)) [
            | inl empty ↦ inl (is_empty→nil s.waiting empty)
            | inr some_wait ↦
                inr (==→≡ to (s.waiting_at + length s.waiting) (ground (arith, e, some_wait)))
          ];
        }
      ]

  -- Much that waits is sent.
  finish :
      {to : ℕ} {bytes : List ℕ} {s : SectorIo T} {q : Result (Unit {0}) × SectorIo T}
      → (g : SentRun to bytes s q)
      → SentRun to bytes s
          (when (λ z. leb merge_bytes (length z.waiting)) (send_waiting target) g.after)
  finish {to} {bytes} {s} {q} g = elim (Bool-cases (leb merge_bytes (length g.after.waiting))) [
    | inl much ↦
        let u = send_waiting-Sent target Valid byte at device g.after g.inv in
        rw much (then_keeps g u.keeps u.returns)
    | inr little ↦
        rw little (then_keeps g (Keeps-refl target Valid byte at device g.after g.inv) refl)
  ]

  finish_at :
      {to : ℕ} {bytes : List ℕ} {s : SectorIo T}
      → (t : SectorIo T) → SentRun to bytes s (ok tt, t)
      → SentRun to bytes s (when (λ z. leb merge_bytes (length z.waiting)) (send_waiting target) t)
  finish_at {to} {bytes} {s} t g =
      subst
        (λ z.
          SentRun to bytes s
            (when (λ z. leb merge_bytes (length z.waiting)) (send_waiting target) z))
        (ap (λ r. r.1) (sym g.returns)) (finish g)

  -- Over a device, from a state that keeps the invariant: for whole sectors on the target of which none
  -- is cached, `send_run` answers, and a reader sees the run where it went and all else as before, whether
  -- it waits, joins what waits or is sent.
  pub send_run-SentRun :
      (to : ℕ) (bytes : List ℕ) (s : SectorIo T)
      → Inv target Valid byte s
      → to % s.sector ≡ 0
      → length bytes % s.sector ≡ 0
      → to + length bytes ≤ target.size s.inner
      → Uncached s to (length bytes)
      → SentRun to bytes s (send_run target to bytes s)
  unfolding send_run
  send_run-SentRun to bytes s inv p q r free =
      let z = ready to s inv in
      let sector = z.keeps.sector in
      let free' : (t : SectorIo T)
          → t.sector ≡ s.sector
          → t.cache ≡ s.cache
          → Uncached t to (length bytes) =
        λ t e c a x y.
          ap (λ n. lookup (a / n) t.cache) e ∙ ap (lookup (a / s.sector)) c ∙ free a x y in
      rw z.returns (elim (Bool-cases (leb merge_bytes (length bytes))) [
        | inl big ↦
            let u = send_waiting-Sent target Valid byte at device z.after z.keeps.inv in
            rw big (
              rw u.returns (
                keeps_then z.keeps (
                  keeps_then u.keeps (
                    put_at-SentRun to bytes u.after u.keeps.inv u.empty
                      (rw (u.keeps.sector, sector) p) (rw (u.keeps.sector, sector) q)
                      (rw (u.keeps.size, z.keeps.size) r)
                      (free' u.after (u.keeps.sector ∙ sector) (u.cache ∙ z.cache))))))
        | inr small ↦
            let g = keeps_then z.keeps (
              wait_from-SentRun to bytes z.after z.keeps.inv z.follows (rw sector p) (rw sector q)
                (rw z.keeps.size r) (free' z.after sector z.cache)) in
            rw small (finish_at (wait_from to bytes z.after) g)
      ])
