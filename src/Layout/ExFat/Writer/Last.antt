-- ===== src/Layout/ExFat/Writer/Last.antt =====
-- The boot regions go last: what the first mebibyte of a volume holds after `write_exfat` of
-- crates/burnout-layout/src/exfat/write.rs, whether the call fails or not.
use native.Mathlib.Nat.{zero-mod}
use burnout.Prelude.{
  ℕ, ◌-◌, ◌*◌, ◌%◌, ◌≤◌, ◌<◌, ◌≡◌, refl, ap, ◌∙◌, sym, ◌⊎◌, inl, inr, Option, some, Option-cases,
  List, [], length, get_or, arith, String, mul_whole,
}
use burnout.Core.Error.{Error, Result, ok, err, bind-eq-ok, Result-cases}
use burnout.Core.Target.{Target}
use burnout.Core.Target.Device.{written, written_ext, written_in, written_away, IsDevice}
use burnout.Core.Tree.{Entry, FileSource}
use burnout.Layout.Plan.{align}
use burnout.Layout.WriteTable.Erased.{put-Stored}
use burnout.Layout.ExFat.Geometry.{Geometry, new as new_geometry}
use burnout.Layout.ExFat.Geometry.Parts.{new-InOrder}
use burnout.Layout.ExFat.Entries.{label_entry}
use burnout.Layout.ExFat.Place.{Placement, no_run, list_entries, new as place_tree}
use burnout.Layout.ExFat.Place.Allocated.{IsAllocated, allocate-IsAllocated}
use burnout.Layout.ExFat.Reader.Checked.{length-region}
use burnout.Layout.ExFat.Writer.{
  Copy, Manifest, Options, recommended, place, write_tree, write_regions, region_of, write_exfat,
}
use burnout.Layout.ExFat.Writer.Spans.{new-Spans}
use burnout.Layout.Stream.Bounded.{Bounded}
use burnout.Layout.ExFat.Writer.Tree.{write_tree-Keeps}

-- The geometry of a placement is that of the volume, and its runs are allocated.
record IsPlacement (volume_bytes sector : ℕ) (p : Placement) : Type 0 where
  geometry : new_geometry volume_bytes sector ≡ some p.geometry
  listed : Placement
  allocated : IsAllocated listed p

sector_facts : (s : ℕ) → (s ≡ 512) ⊎ (s ≡ 4096) → (512 ≤ s) × (s % 4 ≡ 0) × (24 * s ≤ align)
sector_facts s (inl e) = (omega (arith, e), omega (arith, e), omega (arith, e))
sector_facts s (inr e) = (omega (arith, e), omega (arith, e), omega (arith, e))

module _ (vb s : ℕ) (kind : (s ≡ 512) ⊎ (s ≡ 4096)) where
  place_tree-IsPlacement :
      (g : Geometry) (label : Option (List ℕ)) (entries : List Entry) (p : Placement)
      → new_geometry vb s ≡ some g
      → place_tree g label entries recommended ≡ ok p
      → IsPlacement vb s p
  unfolding place_tree
  place_tree-IsPlacement g label entries p h q =
      let (listed, came, placed) = bind-eq-ok (list_entries recommended entries _) q in
      let made : Placement = record {
        geometry = g;
        label = label;
        bitmap = no_run;
        upcase = no_run;
        root = no_run;
        root_children = listed.root_children;
        items = listed.items;
      } in
      let w = allocate-IsAllocated made p (new-Spans vb s g kind h).cluster_some placed in
      record { geometry = h ∙ ap some (sym w.geometry); listed = made; allocated = w }

  place-IsPlacement :
      (label : List ℕ) (entries : List Entry) (p : Placement)
      → place vb s label entries ≡ ok p
      → IsPlacement vb s p
  unfolding place
  place-IsPlacement label entries p q = elim (Option-cases (new_geometry vb s)) [
    | inl e ↦ cc (rw (place, e) at q)
    | inr (g, e) ↦ elim (Result-cases (place_tree g (label_entry label) [] recommended)) [
      | inr (x, small) ↦ cc (rw small at rw (place, e) at q)
      | inl (empty, fits) ↦
          place_tree-IsPlacement g (label_entry label) entries p e (rw fits at rw (place, e) at q)
    ]
  ]

-- Both boot regions hold `region`, and the rest of the first mebibyte is as before.
abbrev pub HasRegions : ℕ → List ℕ → (ℕ → ℕ) → (ℕ → ℕ) → Type 0
HasRegions sector region before after =
    (a : ℕ)
    → (a < 12 * sector → after a ≡ get_or region a 0)
      × (12 * sector ≤ a → a < 24 * sector → after a ≡ get_or region (a - 12 * sector) 0)
      × (24 * sector ≤ a → a < align → after a ≡ before a)

regions_lem :
    (f g h : ℕ → ℕ) (s : ℕ) (region : List ℕ)
    → length region ≡ 12 * s
    → ((a : ℕ) → a < align → g a ≡ f a)
    → ((a : ℕ) → h a ≡ written (written g (12 * s) region) 0 region a)
    → HasRegions s region f h
regions_lem f g h s region size kept bytes a = (
  λ q.
      bytes a
      ∙ written_in (written g (12 * s) region) 0 region a (omega arith) (omega (arith, q, size))
      ∙ ap (λ (n : ℕ). get_or region n 0) (omega arith),
  λ p q.
      bytes a
      ∙ written_away (written g (12 * s) region) 0 region a (inr (omega (arith, p, size)))
      ∙ written_in g (12 * s) region a p (omega (arith, q, size)),
  λ p q.
      bytes a
      ∙ written_away (written g (12 * s) region) 0 region a (inr (omega (arith, p, size)))
      ∙ written_away g (12 * s) region a (inr (omega (arith, p, size)))
      ∙ kept a q,
)

module _ {T R : Type 0} (volume : Target T) (Valid : T → Type 0) (byte : T → ℕ → ℕ) (at : T → ℕ)
    (device : IsDevice volume Valid byte at) (text_of : Error → String) (source : FileSource R)
    (bounded : Bounded source.read) where
  record RegionsWritten (s : ℕ) (region : List ℕ) (t : T) : Type 0 where
    next : T
    returns : write_regions volume text_of source s region t ≡ (ok tt, next)
    bytes : (a : ℕ) → byte next a ≡ written (written (byte t) (12 * s) region) 0 region a

  write_regions-Written :
      (s : ℕ) (region : List ℕ) (t : T)
      → Valid t
      → volume.logical_sector_size t ≡ s
      → length region ≡ 12 * s
      → 24 * s ≤ volume.size t
      → RegionsWritten s region t
  unfolding write_regions
  write_regions-Written s region t v e size room =
      let whole : 12 * s % s ≡ 0 = mul_whole 12 s in
      let x =
        put-Stored volume Valid byte at device (12 * s) region t v (rw e whole) (rw (e, size) whole)
          (omega (arith, size, room)) in
      let y =
        put-Stored volume Valid byte at device 0 region x.next x.same.valid
          (zero-mod (volume.logical_sector_size x.next)) (rw (x.same.sector, e, size) whole)
          (omega (arith, size, room, x.same.size)) in
      let f = device.flush_all y.next y.same.valid in
      record {
        next = f.next;
        returns = rw x.returns (rw y.returns f.returns);
        bytes = λ a.
            f.bytes a
            ∙ y.bytes_at a
            ∙ written_ext (byte x.next) (written (byte t) (12 * s) region) 0 region a
                (x.bytes_at a);
      }

  pub record Failed (c : Copy T) (r : Result Manifest × Copy T) : Type 0 where
    pub error : Error
    pub returns : r.0 ≡ err error
    pub kept : (a : ℕ) → a < align → byte r.1.volume a ≡ byte c.volume a

  pub record Answered (options : Options) (c : Copy T) (r : Result Manifest × Copy T) : Type 0 where
    pub manifest : Manifest
    pub returns : r.0 ≡ ok manifest
    pub entries : List Entry
    pub listed : source.entries ≡ ok entries
    pub placement : Placement
    pub placed :
        place (volume.size c.volume) (volume.logical_sector_size c.volume) options.label entries
        ≡ ok placement
    pub regions :
        HasRegions
          (volume.logical_sector_size c.volume)
          (region_of volume text_of source options placement)
          (byte c.volume)
          (byte r.1.volume)

  -- The tree and then the regions, once the tree is placed.
  placed-Outcome :
      (options : Options) (c : Copy T) (entries : List Entry) (p : Placement)
      → Valid c.volume
      → (volume.logical_sector_size c.volume ≡ 512) ⊎ (volume.logical_sector_size c.volume ≡ 4096)
      → source.entries ≡ ok entries
      → place (volume.size c.volume) (volume.logical_sector_size c.volume) options.label entries
        ≡ ok p
      → Failed c (write_exfat volume text_of source options c)
        ⊎ Answered options c (write_exfat volume text_of source options c)
  unfolding write_exfat
  placed-Outcome options c entries p v kind came placed =
      let s = volume.logical_sector_size c.volume in
      let size = volume.size c.volume in
      let w = place-IsPlacement size s kind options.label entries p placed in
      let spans = new-Spans size s p.geometry kind w.geometry in
      let ordered = new-InOrder size s p.geometry kind w.geometry in
      let (least, quarter, room) = sector_facts s kind in
      let k =
        write_tree-Keeps volume Valid byte at device text_of source bounded size p spans w.listed c
          (record { valid = v; sector = sym ordered.sector_size; size = refl }) ordered.some_cluster
          w.allocated in
      let tree = write_tree volume text_of source p c in
      elim (Result-cases tree.0) [
        | inr (x, failed) ↦ inl (record {
          error = x;
          returns = rw came (rw placed (rw failed refl));
          kept = rw came (rw placed (rw failed k.kept));
        })
        | inl (m, made) ↦
            let region = region_of volume text_of source options p in
            let long : length region ≡ 12 * s =
              length-region p.geometry _ (rw ordered.sector_size least)
                (rw ordered.sector_size quarter)
              ∙ ap (λ (n : ℕ). 12 * n) ordered.sector_size in
            let x =
              write_regions-Written s region tree.1.volume k.same.valid k.same.sector long
                (omega (arith, room, k.same.size, spans.fat_inside, spans.fat_at)) in
            inr (record {
              manifest = m;
              returns = rw came (rw placed (rw made (rw x.returns refl)));
              entries = entries;
              listed = came;
              placement = p;
              placed = placed;
              regions = rw came (
                  rw placed (
                    rw made (
                      rw x.returns (
                        regions_lem (byte c.volume) (byte tree.1.volume) (byte x.next) s region long
                          k.kept x.bytes))));
            })
      ]

  -- Over a device with sectors of 512 or 4096 bytes, and with files that give no more bytes than a read asks
  -- for, `write_exfat` has one of two ends. It answers with an error, and the first mebibyte of the volume,
  -- where the boot regions lie, is as it was. Or it answers with a manifest, the source lists its entries and
  -- they have a placement, the boot region made of it stands at the start of the volume and a second time
  -- behind itself, and the rest of the first mebibyte is as it was.
  pub write_exfat-BootLast :
      (options : Options) (c : Copy T)
      → Valid c.volume
      → (volume.logical_sector_size c.volume ≡ 512) ⊎ (volume.logical_sector_size c.volume ≡ 4096)
      → Failed c (write_exfat volume text_of source options c)
        ⊎ Answered options c (write_exfat volume text_of source options c)
  unfolding write_exfat
  write_exfat-BootLast options c v kind =
      let s = volume.logical_sector_size c.volume in
      elim (Result-cases source.entries) [
        | inr (x, failed) ↦
            inl (record { error = x; returns = rw failed refl; kept = λ a q. rw failed refl })
        | inl (entries, came) ↦
            elim (Result-cases (place (volume.size c.volume) s options.label entries)) [
              | inr (x, failed) ↦ inl (record {
                error = x;
                returns = rw came (rw failed refl);
                kept = λ a q. rw came (rw failed refl);
              })
              | inl (p, placed) ↦ placed-Outcome options c entries p v kind came placed
            ]
      ]
