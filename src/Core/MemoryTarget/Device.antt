-- ===== src/Core/MemoryTarget/Device.antt =====
-- The image in memory of crates/burnout-core/src/memory_target.rs keeps its bytes as a device does.
use mathlib.Core.Path.{subst}
use burnout.Prelude.{
  get_or-replicate_self, ℕ, ◌+◌, ◌-◌, ◌%◌, ◌≤◌, ◌<◌, ◌≡◌, refl, ap, ◌∙◌, min, false, ◌&&◌, List,
  ◌++◌, length, get_or, take, drop, slice, replicate, arith, ltb, leb, ◌==◌, if◌then◌else◌, u64,
  ≢→==, length-append, length-take, length-drop, length-replicate, get_or-append, get_or-take,
  get_or-drop, take_all, append_nil, lt→ltb,
}
use burnout.Core.Error.{Result, ok, err, ◌>>=◌, ok-injective}
use burnout.Core.Alignment.{check_sector_size, check_aligned}
use burnout.Core.Alignment.Rounding.{check_sector_size-eq-ok, check_aligned_iff}
use burnout.Core.Target.Device.{IsDevice}
use burnout.Core.MemoryTarget.{
  MemoryTarget, new, cursor_write, seek, read, write, sync, memory_target,
}

abbrev pub byte : MemoryTarget → ℕ → ℕ
byte t a = get_or t.bytes a 0

abbrev pub at : MemoryTarget → ℕ
at t = t.position

pub record IsImage (t : MemoryTarget) : Type 0 where
  pub bytes : length t.bytes ≡ t.size
  pub sector_pos : 0 < t.sector_size
  pub size_whole : t.size % t.sector_size ≡ 0

-- Inside the bytes, the cursor replaces a part of them.
no_padding :
    (at : ℕ) (bytes : List ℕ) → at ≤ length bytes → bytes ++ replicate (at - length bytes) 0 ≡ bytes
no_padding at bytes h =
    ap (λ (n : ℕ). bytes ++ replicate n 0) {y = 0} (omega arith) ∙ append_nil bytes

length-cursor_write :
    (at : ℕ) (buf bytes : List ℕ)
    → at + length buf ≤ length bytes
    → length (cursor_write at buf bytes) ≡ length bytes
length-cursor_write at buf bytes h = rw (no_padding at bytes (omega arith)) (
    omega (
      arith,
      length-append {0} (take at bytes) (buf ++ drop (at + length buf) bytes),
      length-append {0} buf (drop (at + length buf) bytes),
      length-take {0} at bytes,
      length-drop {0} (at + length buf) bytes,
    ))

get_or-cursor_write :
    (at : ℕ) (buf bytes : List ℕ) (a : ℕ)
    → at + length buf ≤ length bytes
    → get_or (cursor_write at buf bytes) a 0
      ≡ (if leb at a && ltb a (at + length buf) then get_or buf (a - at) 0 else get_or bytes a 0)
get_or-cursor_write at buf bytes a h =
    let back : at + length buf ≤ a → at + length buf + (a - at - length buf) ≡ a =
      λ p. omega arith in
    let shift : at + length buf ≤ a
        → get_or bytes (at + length buf + (a - at - length buf)) 0 ≡ get_or bytes a 0 =
      λ p. ap (λ (n : ℕ). get_or bytes n 0) (back p) in
    let size : length (take at bytes) ≡ at = omega (arith, length-take {0} at bytes) in
    rw (no_padding at bytes (omega arith)) (
      get_or-append (take at bytes) (buf ++ drop (at + length buf) bytes) a 0
      ∙ rw size (
          ground (
            arith,
            get_or-take at bytes a 0,
            get_or-append buf (drop (at + length buf) bytes) (a - at) 0,
            get_or-drop (at + length buf) bytes (a - at - length buf) 0,
            shift,
          )))

-- A write inside the image takes the whole buffer.
write-eq :
    (buf : List ℕ) (t : MemoryTarget)
    → 0 < length buf
    → t.position + length buf ≤ t.size
    → write buf t ≡ (
      ok (length buf),
      record t {
        bytes = cursor_write t.position buf t.bytes;
        position = t.position + length buf;
        written = u64 (t.written + length buf);
      },
    )
unfolding write
write-eq buf t pos fits =
    let count : min (length buf) (t.size - t.position) ≡ length buf = omega arith in
    let some_room : (t.size - t.position == 0) ≡ false =
      ≢→== (t.size - t.position) 0 (omega arith) in
    rw some_room (rw count (rw (take_all (length buf) buf (omega arith)) refl))

-- An image in memory keeps its bytes.
pub memory-IsDevice : IsDevice memory_target IsImage byte at
unfolding seek read write sync
memory-IsDevice = record {
  sector_pos = λ t v. v.sector_pos;
  size_whole = λ t v. v.size_whole;
  seek_start = λ n t v. record {
    next = record t { position = n };
    returns = refl;
    same = record {
      valid = record { bytes = v.bytes; sector_pos = v.sector_pos; size_whole = v.size_whole };
      sector = refl;
      size = refl;
    };
    position = refl;
    bytes = λ a. refl;
  };
  write_some = λ buf t v pos p q fits. record {
    next = record t {
      bytes = cursor_write t.position buf t.bytes;
      position = t.position + length buf;
      written = u64 (t.written + length buf);
    };
    count = length buf;
    returns = write-eq buf t pos fits;
    same = record {
      valid = record {
        bytes = length-cursor_write t.position buf t.bytes (omega (arith, v.bytes)) ∙ v.bytes;
        sector_pos = v.sector_pos;
        size_whole = v.size_whole;
      };
      sector = refl;
      size = refl;
    };
    some_bytes = pos;
    at_most = omega arith;
    whole = q;
    position = refl;
    bytes = λ a. get_or-cursor_write t.position buf t.bytes a (omega (arith, v.bytes));
  };
  read_some = λ n t v pos p q fits.
      let got = slice t.position n t.bytes in
      let size : length got ≡ n = omega (
        arith,
        length-take {0} n (drop t.position t.bytes),
        length-drop {0} t.position t.bytes,
        v.bytes,
      ) in
      record {
        next = record t { position = t.position + length got };
        got = got;
        returns = refl;
        same = record {
          valid = record { bytes = v.bytes; sector_pos = v.sector_pos; size_whole = v.size_whole };
          sector = refl;
          size = refl;
        };
        some_bytes = omega (arith, size);
        at_most = omega (arith, size);
        whole = rw size q;
        position = refl;
        given = λ i h.
            get_or-take n (drop t.position t.bytes) i 0
            ∙ rw (lt→ltb i n (omega (arith, size))) (get_or-drop t.position t.bytes i 0);
        bytes = λ a. refl;
      };
  flush_all = λ t v. record {
    next = t;
    returns = refl;
    same = record { valid = v; sector = refl; size = refl };
    position = refl;
    bytes = λ a. refl;
  };
  sync_all = λ t v. record {
    next = (sync t).1;
    returns = refl;
    same = record {
      valid = record { bytes = v.bytes; sector_pos = v.sector_pos; size_whole = v.size_whole };
      sector = refl;
      size = refl;
    };
    position = refl;
    bytes = λ a. refl;
  };
}

-- Where `new` answers with an image, it has the asked length, keeps its invariant and is all zeros.
pub new-IsImage :
    (size sector : ℕ) (t : MemoryTarget)
    → new size sector ≡ ok t
    → IsImage t × (t.size ≡ size) × ((a : ℕ) → byte t a ≡ 0)
unfolding new
new-IsImage size sector t h = by_sector (check_sector_size sector) refl h
  where
    blank : ℕ → MemoryTarget
    blank s = record {
      bytes = replicate size 0;
      position = 0;
      sector_size = s;
      size = size;
      sync_count = 0;
      written = 0;
      bytes_at_last_sync = 0;
    }

    by_aligned :
        (s : ℕ) (r : Result (Unit {0}))
        → 0 < s
        → check_aligned size s ≡ r
        → (r >>= λ u. ok (blank s)) ≡ ok t
        → IsImage t × (t.size ≡ size) × ((a : ℕ) → byte t a ≡ 0)
    by_aligned s (err x) pos e h = cc
    by_aligned s (ok tt) pos e h =
        subst (λ t. IsImage t × (t.size ≡ size) × ((a : ℕ) → byte t a ≡ 0)) (ok-injective h)
          (
            record {
              bytes = length-replicate size 0;
              sector_pos = pos;
              size_whole = ((check_aligned_iff size s).0 e).1;
            },
            refl,
            λ a. get_or-replicate_self {A = ℕ} size 0 a,
          )

    by_sector :
        (r : Result ℕ)
        → check_sector_size sector ≡ r
        → (r >>= λ s. check_aligned size s >>= λ u. ok (blank s)) ≡ ok t
        → IsImage t × (t.size ≡ size) × ((a : ℕ) → byte t a ≡ 0)
    by_sector (err x) e h = cc
    by_sector (ok s) e h =
        by_aligned s (check_aligned size s) (omega (arith, check_sector_size-eq-ok sector e)) refl h
