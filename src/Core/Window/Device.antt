-- ===== src/Core/Window/Device.antt =====
-- The window of crates/burnout-core/src/window.rs is a device inside a device, and no write leaves it.
use burnout.Prelude.{
  ℕ, ◌+◌, ◌-◌, ◌%◌, ◌≤◌, ◌<◌, ◌≡◌, refl, ap, ◌∙◌, sym, ◌⊎◌, inl, inr, min, List, length, get_or,
  take, arith, ltb, leb, ◌&&◌, ◌==◌, if◌then◌else◌, ≢→==, add_whole, sub_whole, min_whole,
  get_or-take, length-take, Bool-cases,
}
use burnout.Core.Error.{ok}
use burnout.Core.Target.{Target, start}
use burnout.Core.Target.Device.{SameDevice, IsDevice}
use burnout.Core.Window.{Window, remaining, place, read, write, seek, window_target}

module _ {T : Type 0} (target : Target T) (Valid : T → Type 0) (byte : T → ℕ → ℕ) (at : T → ℕ)
    (device : IsDevice target Valid byte at) where
  -- Whole sectors inside the target.
  pub record InPlace (w : Window T) : Type 0 where
    pub valid : Valid w.inner
    pub start_whole : w.start_at % target.logical_sector_size w.inner ≡ 0
    pub size_whole : w.size % target.logical_sector_size w.inner ≡ 0
    pub fits : w.start_at + w.size ≤ target.size w.inner

  abbrev pub window_byte : Window T → ℕ → ℕ
  window_byte w a = byte w.inner (w.start_at + a)

  -- The same window over another state of its target.
  moved-InPlace :
      (w : Window T) (t : T) (p : ℕ)
      → InPlace w
      → SameDevice target Valid w.inner t
      → InPlace (record w { inner = t; position = p })
  moved-InPlace w t p v same = record {
    valid = same.valid;
    start_whole = rw same.sector v.start_whole;
    size_whole = rw same.sector v.size_whole;
    fits = rw same.size v.fits;
  }

  -- A write of the window is one of the target, behind the window's start.
  record Landed (buf : List ℕ) (w : Window T) : Type 0 where
    next : T
    count : ℕ
    returns :
        write target buf w ≡ (ok count, record w { inner = next; position = w.position + count })
    same : SameDevice target Valid w.inner next
    some_bytes : 0 < count
    at_most : count ≤ length buf
    inside : w.position + count ≤ w.size
    whole : count % target.logical_sector_size w.inner ≡ 0
    bytes :
        (a : ℕ)
        → byte next a ≡ (
            if leb (w.start_at + w.position) a && ltb a (w.start_at + w.position + count)
            then get_or buf (a - (w.start_at + w.position)) 0
            else byte w.inner a)

  write-eq :
      (buf : List ℕ) (w : Window T) (t u : T) (n count : ℕ)
      → min (length buf) (remaining w) ≡ n
      → 0 < n
      → target.seek (start (w.start_at + w.position)) w.inner ≡ (ok (w.start_at + w.position), t)
      → target.write (take n buf) t ≡ (ok count, u)
      → write target buf w ≡ (ok count, record w { inner = u; position = w.position + count })
  unfolding write place
  write-eq buf w t u n count e pos p q =
      rw (≢→== (length buf) 0 (omega arith)) (rw e (rw (≢→== n 0 (omega arith)) (rw p (rw q))))

  write-Landed :
      (buf : List ℕ) (w : Window T)
      → InPlace w
      → 0 < length buf
      → w.position < w.size
      → w.position % target.logical_sector_size w.inner ≡ 0
      → length buf % target.logical_sector_size w.inner ≡ 0
      → Landed buf w
  write-Landed buf w v pos room p q =
      let z = target.logical_sector_size w.inner in
      let n = min (length buf) (remaining w) in
      let part = take n buf in
      let size : length part ≡ n = omega (arith, length-take {0} n buf) in
      let n_whole : n % z ≡ 0 =
        min_whole (length buf) (remaining w) z q
          (sub_whole w.size w.position z v.size_whole p (omega arith)) in
      let k = device.seek_start (w.start_at + w.position) w.inner v.valid in
      let here : at k.next % target.logical_sector_size k.next ≡ 0 =
        rw (k.position, k.same.sector) (add_whole w.start_at w.position z v.start_whole p) in
      let g =
        device.write_some part k.next k.same.valid (omega (arith, size)) here
          (rw (k.same.sector, size) n_whole)
          (omega (arith, size, k.position, k.same.size, v.fits)) in
      record {
        next = g.next;
        count = g.count;
        returns = write-eq buf w k.next g.next n g.count refl (omega arith) k.returns g.returns;
        same = record {
          valid = g.same.valid;
          sector = g.same.sector ∙ k.same.sector;
          size = g.same.size ∙ k.same.size;
        };
        some_bytes = g.some_bytes;
        at_most = omega (arith, g.at_most, size);
        inside = omega (arith, g.at_most, size);
        whole = ap (λ m. g.count % m) (sym k.same.sector) ∙ g.whole;
        bytes = λ a.
            let b = w.start_at + w.position in
            g.bytes a
            ∙ ap
                (λ (m : ℕ).
                  if leb m a && ltb a (m + g.count) then get_or part (a - m) 0 else byte k.next a)
                k.position
            ∙ ground (arith, get_or-take n buf (a - b) 0, k.bytes a, g.at_most, size);
      }

  read-eq :
      (n : ℕ) (w : Window T) (t u : T) (got : List ℕ)
      → min n (remaining w) ≡ n
      → 0 < n
      → target.seek (start (w.start_at + w.position)) w.inner ≡ (ok (w.start_at + w.position), t)
      → target.read n t ≡ (ok got, u)
      → read target n w ≡ (ok got, record w { inner = u; position = w.position + length got })
  unfolding read place
  read-eq n w t u got count pos p q = rw count (rw (≢→== n 0 (omega arith)) (rw p (rw q)))

  -- A window of whole sectors inside a device is a device itself, whose byte `a` is the byte `start + a`
  -- of the target.
  pub window-IsDevice : IsDevice (window_target target) InPlace window_byte (λ w. w.position)
  unfolding seek read write place
  window-IsDevice = record {
    sector_pos = λ w v. device.sector_pos w.inner v.valid;
    size_whole = λ w v. v.size_whole;
    seek_start = λ n w v. record {
      next = record w { position = n };
      returns = refl;
      same = record {
        valid = record {
          valid = v.valid;
          start_whole = v.start_whole;
          size_whole = v.size_whole;
          fits = v.fits;
        };
        sector = refl;
        size = refl;
      };
      position = refl;
      bytes = λ a. refl;
    };
    write_some = λ buf w v pos p q fits.
        let g = write-Landed buf w v pos (omega arith) p q in
        record {
          next = record w { inner = g.next; position = w.position + g.count };
          count = g.count;
          returns = g.returns;
          same = record {
            valid = moved-InPlace w g.next (w.position + g.count) v g.same;
            sector = g.same.sector;
            size = refl;
          };
          some_bytes = g.some_bytes;
          at_most = g.at_most;
          whole = g.whole;
          position = refl;
          bytes = λ a. g.bytes (w.start_at + a) ∙ shifted w a buf g.count;
        };
    read_some = λ n w v pos p q fits.
        let z = target.logical_sector_size w.inner in
        let count : min n (remaining w) ≡ n = omega arith in
        let k = device.seek_start (w.start_at + w.position) w.inner v.valid in
        let r =
          device.read_some n k.next k.same.valid pos
            (rw (k.position, k.same.sector) (add_whole w.start_at w.position z v.start_whole p))
            (rw k.same.sector q) (omega (arith, k.position, k.same.size, v.fits)) in
        record {
          next = record w { inner = r.next; position = w.position + length r.got };
          got = r.got;
          returns = read-eq n w k.next r.next r.got count pos k.returns r.returns;
          same = record {
            valid = moved-InPlace w r.next (w.position + length r.got) v (record {
              valid = r.same.valid;
              sector = r.same.sector ∙ k.same.sector;
              size = r.same.size ∙ k.same.size;
            });
            sector = r.same.sector ∙ k.same.sector;
            size = refl;
          };
          some_bytes = r.some_bytes;
          at_most = r.at_most;
          whole = ap (λ m. length r.got % m) (sym k.same.sector) ∙ r.whole;
          position = refl;
          given = λ i h.
              r.given i h ∙ k.bytes (at k.next + i) ∙ ap (byte w.inner) (omega (arith, k.position));
          bytes = λ a. r.bytes (w.start_at + a) ∙ k.bytes (w.start_at + a);
        };
    flush_all = λ w v.
        let f = device.flush_all w.inner v.valid in
        record {
          next = record w { inner = f.next };
          returns = rw f.returns;
          same = record {
            valid = moved-InPlace w f.next w.position v f.same;
            sector = f.same.sector;
            size = refl;
          };
          position = refl;
          bytes = λ a. f.bytes (w.start_at + a);
        };
    sync_all = λ w v.
        let f = device.sync_all w.inner v.valid in
        record {
          next = record w { inner = f.next };
          returns = rw f.returns;
          same = record {
            valid = moved-InPlace w f.next w.position v f.same;
            sector = f.same.sector;
            size = refl;
          };
          position = refl;
          bytes = λ a. f.bytes (w.start_at + a);
        };
  }
    where
      shifted :
          (w : Window T) (a : ℕ) (buf : List ℕ) (count : ℕ)
          → (if leb (w.start_at + w.position) (w.start_at + a)
                && ltb (w.start_at + a) (w.start_at + w.position + count)
              then get_or buf (w.start_at + a - (w.start_at + w.position)) 0
              else byte w.inner (w.start_at + a))
            ≡ (if leb w.position a && ltb a (w.position + count)
                then get_or buf (a - w.position) 0
                else byte w.inner (w.start_at + a))
      shifted w a buf count =
          let index : w.start_at + a - (w.start_at + w.position) ≡ a - w.position = omega arith in
          ground (arith, ap (λ (n : ℕ). get_or buf n 0) index)

  -- The window is where it was.
  pub record Confined (w after : Window T) : Type 0 where
    pub window : InPlace after
    pub start_at : after.start_at ≡ w.start_at
    pub size : after.size ≡ w.size
    pub outside :
        (a : ℕ) → (a < w.start_at) ⊎ (w.start_at + w.size ≤ a) → byte after.inner a ≡ byte w.inner a

  same-Confined : (w : Window T) → InPlace w → Confined w w
  same-Confined w v = record { window = v; start_at = refl; size = refl; outside = λ a h. refl }

  stays_inside :
      (buf : List ℕ) (w : Window T) → InPlace w → Landed buf w → Confined w (write target buf w).1
  stays_inside buf w v g = rw g.returns (record {
    window = moved-InPlace w g.next (w.position + g.count) v g.same;
    start_at = refl;
    size = refl;
    outside = λ a h. g.bytes a ∙ beyond a h;
  })
    where
      beyond :
          (a : ℕ)
          → (a < w.start_at) ⊎ (w.start_at + w.size ≤ a)
          → (if leb (w.start_at + w.position) a && ltb a (w.start_at + w.position + g.count)
              then get_or buf (a - (w.start_at + w.position)) 0
              else byte w.inner a)
            ≡ byte w.inner a
      beyond a h = ground (arith, g.inside)

  -- A write of whole sectors at a sector boundary, of any length and at any position, keeps the window
  -- where it is and changes no byte of the target outside it, whether it answers or refuses.
  pub write-Confined :
      (buf : List ℕ) (w : Window T)
      → InPlace w
      → w.position % target.logical_sector_size w.inner ≡ 0
      → length buf % target.logical_sector_size w.inner ≡ 0
      → Confined w (write target buf w).1
  unfolding write
  write-Confined buf w v p q = elim (Bool-cases (length buf == 0)) [
    | inl empty ↦ rw empty (same-Confined w v)
    | inr some_bytes ↦ elim (Bool-cases (min (length buf) (remaining w) == 0)) [
      | inl full ↦ rw (some_bytes, full) (same-Confined w v)
      | inr room ↦
          stays_inside buf w v
            (write-Landed buf w v (ground (arith, some_bytes)) (ground (arith, room)) p q)
    ]
  ]
