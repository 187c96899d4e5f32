-- ===== src/Core/SectorIo/State.antt =====
-- The state of crates/burnout-core/src/sector_io.rs, and what moves sectors between its cache, its
-- waiting bytes and the target. Every sum and product here stays at or below the length of the target,
-- so none wraps around.
use burnout.Prelude.{
  ℕ, zero, suc, ◌+◌, ◌*◌, max, Bool, true, false, not, ◌&&◌, List, [], ◌∷◌, ◌++◌, length, drop, ltb,
  leb, ◌==◌, if◌then◌else◌,
}
use burnout.Core.Error.{ok, io, write_zero}
use burnout.Core.Target.{
  Io, Target, start, ◌>>=◌, ◌>>◌, pure, raise, gets, modify, write_all, read_exact,
}
use burnout.Core.SectorIo.Cache.{
  Cache, contains, insert, dirty_keys, run_length, run_bytes, mark_clean,
}

abbrev pub default_cache_sectors : ℕ
default_cache_sectors = 1024

-- `MERGE_BYTES`.
abbrev pub merge_bytes : ℕ
merge_bytes = 1024 * 1024

pub record SectorIo (T : Type 0) : Type 0 where
  pub inner : T
  pub sector : ℕ
  pub position : ℕ
  pub cache : Cache
  pub capacity : ℕ
  pub waiting : List ℕ
  pub waiting_at : ℕ

abbrev pub is_empty : List ℕ → Bool
is_empty [] = true
is_empty (b ∷ bs) = false

module _ {T : Type 0} where
  -- A call of the target underneath.
  abbrev pub on_inner : {A : Type 0} → Io T A → Io (SectorIo T) A
  on_inner m s = ((m s.inner).0, record s { inner = (m s.inner).1 })

  abbrev pub when : (SectorIo T → Bool) → Io (SectorIo T) (Unit {0}) → Io (SectorIo T) (Unit {0})
  when test m s = if test s then m s else (ok tt, s)

  abbrev pub wait_from : ℕ → List ℕ → SectorIo T → SectorIo T
  wait_from at bytes s = record s {
    waiting_at = if is_empty s.waiting then at else s.waiting_at;
    waiting = s.waiting ++ bytes;
  }

module _ {T : Type 0} (target : Target T) where
  unfoldable pub with_cache : T → ℕ → SectorIo T
  with_cache inner sectors = record {
    inner = inner;
    sector = target.logical_sector_size inner;
    position = 0;
    cache = [];
    capacity = max sectors 1;
    waiting = [];
    waiting_at = 0;
  }

  unfoldable pub new : T → SectorIo T
  unfolding with_cache
  new inner = with_cache inner default_cache_sectors

  -- A seek of the target underneath, and then `write_all` or `read_exact` there.
  unfoldable pub put_at : ℕ → List ℕ → Io (SectorIo T) (Unit {0})
  put_at at bytes = do _ ← on_inner (target.seek (start at)); on_inner (write_all target bytes)

  unfoldable pub get_at : ℕ → ℕ → Io (SectorIo T) (List ℕ)
  get_at at count = do _ ← on_inner (target.seek (start at)); on_inner (read_exact target count)

  unfoldable pub send_waiting : Io (SectorIo T) (Unit {0})
  send_waiting =
      when (λ s. not (is_empty s.waiting))
        (λ s. (do put_at s.waiting_at s.waiting; modify (λ z. record z { waiting = [] })) s)

  unfoldable pub send_run : ℕ → List ℕ → Io (SectorIo T) (Unit {0})
  send_run at bytes = do
    when (λ s. not (is_empty s.waiting) && not (at == s.waiting_at + length s.waiting)) send_waiting
    if leb merge_bytes (length bytes) then (do send_waiting; put_at at bytes) else do
      modify (wait_from at bytes)
      when (λ s. leb merge_bytes (length s.waiting)) send_waiting

  unfoldable pub send_waiting_under : ℕ → ℕ → Io (SectorIo T) (Unit {0})
  send_waiting_under at bytes =
      when (λ s. ltb at (s.waiting_at + length s.waiting) && ltb s.waiting_at (at + bytes))
        send_waiting

  -- One round of `write_back`: a run of sectors that follow one another, in one write.
  unfoldable pub write_run : ℕ → ℕ → Io (SectorIo T) (Unit {0})
  write_run first run s =
      (do
        put_at (first * s.sector) (run_bytes s.cache first run)
        modify (λ z. record z { cache = mark_clean first run z.cache }))
        s

  -- A round takes a key at least, so a round for each key is enough.
  unfoldable pub write_runs : ℕ → List ℕ → Io (SectorIo T) (Unit {0})
  write_runs fuel [] = pure tt
  write_runs zero (first ∷ rest) = raise (io write_zero)
  write_runs (suc fuel) (first ∷ rest) =
      let more = run_length (first + 1) rest in
      write_run first (suc more) >>= λ _. write_runs fuel (drop more rest)

  unfoldable pub write_back : Io (SectorIo T) (Unit {0})
  write_back s = let dirty = dirty_keys s.cache in write_runs (length dirty) dirty s

  -- The part of `load` for a full cache.
  unfoldable pub make_room : Io (SectorIo T) (Unit {0})
  make_room =
      when (λ s. leb s.capacity (length s.cache))
        (do write_back; modify (λ s. record s { cache = [] }))

  unfoldable pub load : ℕ → Io (SectorIo T) (Unit {0})
  load index =
      when (λ s. not (contains index s.cache))
        (do
          make_room
          sector ← gets (λ s. s.sector)
          send_waiting_under (index * sector) sector
          bytes ← get_at (index * sector) sector
          modify (λ s. record s {
            cache = insert index (record { bytes = bytes; dirty = false }) s.cache;
          }))
