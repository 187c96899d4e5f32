-- ===== src/Core/StrictTarget/Device.antt =====
-- The wrapper of crates/burnout-core/src/strict_target.rs lets through what a device takes.
use burnout.Prelude.{ℕ, ◌+◌, ◌%◌, ◌≡◌, refl, ap, ◌∙◌, sym, length}
use burnout.Core.Error.{ok}
use burnout.Core.Target.{Target}
use burnout.Core.Target.Device.{IsDevice}
use burnout.Core.StrictTarget.{StrictTarget, check, read, write, seek, strict_target}

module _ {T : Type 0} (target : Target T) where
  whole-passes :
      (count : ℕ) (s : StrictTarget T)
      → s.position % target.logical_sector_size s.inner ≡ 0
      → count % target.logical_sector_size s.inner ≡ 0
      → check target count s ≡ (ok tt, s)
  unfolding check
  whole-passes count s p q = rw (p, q)

module _ {T : Type 0} (Valid : T → Type 0) (at : T → ℕ) where
  -- The wrapper knows where the target underneath stands.
  abbrev pub InStep : StrictTarget T → Type 0
  InStep s = Valid s.inner × (s.position ≡ at s.inner)

module _ {T : Type 0} (target : Target T) (Valid : T → Type 0) (byte : T → ℕ → ℕ) (at : T → ℕ)
    (device : IsDevice target Valid byte at) where
  -- The wrapper over a device is a device with the same bytes, so what is whole sectors goes through.
  pub strict-IsDevice :
      IsDevice (strict_target target) (InStep Valid at) (λ s. byte s.inner) (λ s. s.position)
  unfolding read write seek
  strict-IsDevice = record {
    sector_pos = λ s v. device.sector_pos s.inner v.0;
    size_whole = λ s v. device.size_whole s.inner v.0;
    seek_start = λ n s v.
        let k = device.seek_start n s.inner v.0 in
        record {
          next = record { inner = k.next; position = n };
          returns = rw k.returns;
          same = record {
            valid = (k.same.valid, sym k.position);
            sector = k.same.sector;
            size = k.same.size;
          };
          position = refl;
          bytes = k.bytes;
        };
    write_some = λ buf s v pos p q fits.
        let w = device.write_some buf s.inner v.0 pos (rw (← v.1) p) q (rw (← v.1) fits) in
        record {
          next = record { inner = w.next; position = s.position + w.count };
          count = w.count;
          returns = rw (whole-passes target (length buf) s p q) (rw w.returns);
          same = record {
            valid = (w.same.valid, ap (λ (n : ℕ). n + w.count) v.1 ∙ sym w.position);
            sector = w.same.sector;
            size = w.same.size;
          };
          some_bytes = w.some_bytes;
          at_most = w.at_most;
          whole = w.whole;
          position = refl;
          bytes = rw v.1 w.bytes;
        };
    read_some = λ n s v pos p q fits.
        let r = device.read_some n s.inner v.0 pos (rw (← v.1) p) q (rw (← v.1) fits) in
        record {
          next = record { inner = r.next; position = s.position + length r.got };
          got = r.got;
          returns = rw (whole-passes target n s p q) (rw r.returns);
          same = record {
            valid = (r.same.valid, ap (λ (n : ℕ). n + length r.got) v.1 ∙ sym r.position);
            sector = r.same.sector;
            size = r.same.size;
          };
          some_bytes = r.some_bytes;
          at_most = r.at_most;
          whole = r.whole;
          position = refl;
          given = rw v.1 r.given;
          bytes = r.bytes;
        };
    flush_all = λ s v.
        let f = device.flush_all s.inner v.0 in
        record {
          next = record s { inner = f.next };
          returns = rw f.returns;
          same = record {
            valid = (f.same.valid, v.1 ∙ sym f.position);
            sector = f.same.sector;
            size = f.same.size;
          };
          position = refl;
          bytes = f.bytes;
        };
    sync_all = λ s v.
        let f = device.sync_all s.inner v.0 in
        record {
          next = record s { inner = f.next };
          returns = rw f.returns;
          same = record {
            valid = (f.same.valid, v.1 ∙ sym f.position);
            sector = f.same.sector;
            size = f.same.size;
          };
          position = refl;
          bytes = f.bytes;
        };
  }
