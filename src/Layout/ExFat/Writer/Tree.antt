-- ===== src/Layout/ExFat/Writer/Tree.antt =====
-- Everything that crates/burnout-layout/src/exfat/write.rs writes before the boot regions leaves the first
-- mebibyte of the volume as it is, also where the source of the files fails.
use mathlib.Core.Path.{subst}
use burnout.Prelude.{
  ℕ, ◌+◌, ◌*◌, ◌%◌, ◌≤◌, ◌<◌, ◌≡◌, ap, sym, inl, inr, Bool-cases, leb→le, List, [], ◌∷◌, arith, leb,
  String,
}
use burnout.Core.Error.{Error, Result-cases}
use burnout.Core.Target.{Target, pure, ◌>>◌, ◌>>=◌}
use burnout.Core.Target.Device.{IsDevice}
use burnout.Core.Tree.{FileSource}
use burnout.Core.Sha256.{new}
use burnout.Layout.Plan.{align}
use burnout.Layout.ExFat.Geometry.{Geometry, first_cluster, cluster_bytes, cluster_offset}
use burnout.Layout.ExFat.UpCase.{recommended_bytes}
use burnout.Layout.ExFat.Entries.{Kind, dir_kind, file_kind}
use burnout.Layout.ExFat.Place.{
  Run, run_end, run_at, Item, Placement, directory, root_directory, used_clusters,
}
use burnout.Layout.ExFat.Place.Runs.{HasRoom, AllPlaced, AllPlaced-le}
use burnout.Layout.ExFat.Place.Allocated.{IsAllocated}
use burnout.Layout.ExFat.Write.{bitmap}
use burnout.Layout.ExFat.Writer.{
  Copy, Manifest, on_volume, write_run, seek_run, copy_in, write_file, write_item, write_items,
  write_tree,
}
use burnout.Layout.ExFat.Writer.Spans.{Spans}
use burnout.Layout.ExFat.Writer.Kept.{Keeps, Keeps-refl, Keeps-trans, Done}
use burnout.Layout.ExFat.Writer.Parts.{On, Keeps-On, write_run-Done, write_fat-Done}
use burnout.Layout.Stream.Bounded.{Bounded}
use burnout.Layout.ExFat.Writer.Pieces.{stream_file-Keeps}
use burnout.Layout.ExFat.Writer.Runs.{
  first-run_at, no_run_at, run_at-first, HasHeap, IsAllocated-HasRuns,
}

module _ {T R : Type 0} (volume : Target T) (Valid : T → Type 0) (byte : T → ℕ → ℕ) (at : T → ℕ)
    (device : IsDevice volume Valid byte at) (text_of : Error → String) (source : FileSource R)
    (bounded : Bounded source.read) (vb : ℕ) (g : Geometry) (spans : Spans vb g) where
  -- The clusters of an item, inside the heap.
  record InHeap (next : ℕ) (i : Item) : Type 0 where
    from : first_cluster ≤ next
    run : i.run ≡ run_at next i.run.clusters
    to : next + i.run.clusters ≤ first_cluster + g.cluster_count

  copy_in-Keeps :
      (base clusters : ℕ) (i : Item) (c : Copy T)
      → On volume Valid byte at device vb g spans c.volume
      → base % g.sector_bytes ≡ 0
      → align ≤ base
      → base + clusters * cluster_bytes g ≤ vb
      → i.data_length ≤ clusters * cluster_bytes g
      → (0 < i.data_length → at c.volume ≡ base)
      → Keeps volume Valid byte at device c.volume (copy_in volume text_of source g i c).1.volume
  unfolding copy_in
  copy_in-Keeps base clusters i c o whole past room fits here =
      elim (Result-cases (source.open_file i.path)) [
        | inr (e, failed) ↦ rw failed (Keeps-refl volume Valid byte at device c.volume o.valid)
        | inl (reader, opened) ↦ rw opened (
            stream_file-Keeps volume Valid byte at device vb g spans base clusters whole past room
              text_of source.read bounded i.path i.data_length fits
              (record { reader = reader; sink = c; hash = new }) o here)
      ]

  write_file-Keeps :
      (next : ℕ) (i : Item) (c : Copy T)
      → On volume Valid byte at device vb g spans c.volume
      → InHeap next i
      → i.data_length ≤ i.run.clusters * cluster_bytes g
      → Keeps volume Valid byte at device c.volume (write_file volume text_of source g i c).1.volume
  unfolding write_file seek_run
  write_file-Keeps next i c o h fits = elim (Bool-cases (leb first_cluster i.run.first)) [
    | inl placed ↦
        let first = leb→le first_cluster i.run.first placed in
        let k = device.seek_start (cluster_offset g i.run.first) c.volume o.valid in
        let keeps : Keeps volume Valid byte at device c.volume k.next = record {
          same = k.same;
          kept = λ a q. k.bytes a;
        } in
        let rest =
          copy_in-Keeps (cluster_offset g i.run.first) i.run.clusters i
            (record c { volume = k.next }) (Keeps-On volume Valid byte at device vb g spans o keeps)
            (spans.offset_whole i.run.first) (spans.offset_after i.run.first)
            (spans.run_room i.run.first i.run.clusters first
              (rw (run_at-first i.run next h.run first) h.to))
            fits (λ q. k.position) in
        rw placed (rw k.returns (Keeps-trans volume Valid byte at device keeps rest))
    | inr empty ↦
        let none : i.run.clusters ≡ 0 = no_run_at i.run next h.run h.from empty in
        let nothing : i.data_length ≤ 0 * cluster_bytes g = rw none at fits in
        rw empty (
          copy_in-Keeps (cluster_offset g first_cluster) 0 i c o (spans.offset_whole first_cluster)
            (spans.offset_after first_cluster)
            (spans.run_room first_cluster 0 (omega arith) (omega arith)) (omega (arith, nothing))
            (λ q. absurd (omega (arith, nothing, q))))
  ]

module _ {T R : Type 0} (volume : Target T) (Valid : T → Type 0) (byte : T → ℕ → ℕ) (at : T → ℕ)
    (device : IsDevice volume Valid byte at) (text_of : Error → String) (source : FileSource R)
    (bounded : Bounded source.read) (vb : ℕ) (p : Placement) (spans : Spans vb p.geometry) where
  abbrev Here : T → Type 0
  Here = On volume Valid byte at device vb p.geometry spans

  abbrev Same : T → T → Type 0
  Same = Keeps volume Valid byte at device

  -- A directory, or a file.
  write_item-Keeps :
      (k : Kind) (next : ℕ) (is : List Item) (i j : Item) (m : Manifest) (c : Copy T)
      → Here c.volume
      → InHeap volume Valid byte at device text_of source bounded vb p.geometry spans next j
      → HasRoom k p.geometry is i j
      → Same c.volume (write_item volume text_of source k p j m c).1.volume
  unfolding write_item
  write_item-Keeps dir_kind next is i j m c o h room =
      let first = first-run_at j.run next h.run room.1 in
      let d =
        write_run-Done volume Valid byte at device vb p.geometry spans j.run (directory p j)
          c.volume o (rw first h.from) (rw first h.to) in
      rw d.returns d.keeps
  write_item-Keeps file_kind next is i j m c o h room =
      let k =
        write_file-Keeps volume Valid byte at device text_of source bounded vb p.geometry spans next
          j c o h room.1 in
      elim (Result-cases (write_file volume text_of source p.geometry j c).0) [
        | inr (x, failed) ↦ rw failed k
        | inl (digest, came) ↦ rw came k
      ]

  write_items-Keeps :
      (all : List Item) (next e : ℕ) (is js : List Item) (m : Manifest) (c : Copy T)
      → Here c.volume
      → first_cluster ≤ next
      → e ≤ first_cluster + p.geometry.cluster_count
      → AllPlaced p.geometry all next is js e
      → Same c.volume (write_items volume text_of source p js m c).1.volume
  unfolding write_items
  write_items-Keeps all next e is [] m c o from to h =
      Keeps-refl volume Valid byte at device c.volume o.valid
  write_items-Keeps all next e [] (j ∷ js) m c o from to h = elim h [ ]
  write_items-Keeps all next e (i ∷ is) (j ∷ js) m c o from to (w, ws) =
      let ends = AllPlaced-le p.geometry all (next + j.run.clusters) is js e ws in
      let heap : InHeap volume Valid byte at device text_of source bounded vb p.geometry spans next
          j =
        record { from = from; run = w.run; to = omega (arith, ends, to) } in
      let kind : j.kind ≡ i.kind = ap (λ (x : Item). x.kind) w.same in
      let k =
        write_item-Keeps j.kind next all i j m c o heap
          (subst (λ x. HasRoom x p.geometry all i j) (sym kind) w.room) in
      let step = write_item volume text_of source j.kind p j m c in
      elim (Result-cases step.0) [
        | inr (x, failed) ↦ rw failed k
        | inl (m', came) ↦ rw came (
            Keeps-trans volume Valid byte at device k (
              write_items-Keeps all (next + j.run.clusters) e is js m' step.1
                (Keeps-On volume Valid byte at device vb p.geometry spans o k) (omega (arith, from))
                to ws))
      ]

  -- The items and the flush after them.
  items_flushed-Keeps :
      (listed : Placement) (c : Copy T)
      → Here c.volume
      → 0 < p.geometry.cluster_count
      → IsAllocated listed p
      → Same c.volume
          ((write_items volume text_of source p p.items (record { dirs = []; files = [] }) >>= λ m.
              (on_volume volume volume.flush >> pure m))
            c).1.volume
  unfolding run_end
  items_flushed-Keeps listed c o count w =
      let inside : used_clusters p ≤ p.geometry.cluster_count =
        subst (λ (x : Geometry). used_clusters p ≤ x.cluster_count) (sym w.geometry) w.inside in
      let from = (IsAllocated-HasRuns listed p count w).root.from in
      let k =
        write_items-Keeps listed.items (run_end p.root) (first_cluster + used_clusters p)
          listed.items p.items (record { dirs = []; files = [] }) c o (omega (arith, from))
          (omega (arith, inside))
          (subst
            (λ (x : Geometry).
              AllPlaced x listed.items (run_end p.root) listed.items p.items
                (first_cluster + used_clusters p))
            (sym w.geometry) w.items) in
      let items =
        write_items volume text_of source p p.items (record { dirs = []; files = [] }) c in
      elim (Result-cases items.0) [
        | inr (x, failed) ↦ rw failed k
        | inl (m, came) ↦
            let f = device.flush_all items.1.volume k.same.valid in
            rw came (
              rw f.returns (
                Keeps-trans volume Valid byte at device k
                  (record { same = f.same; kept = λ a q. f.bytes a })))
      ]

  -- The whole of it.
  pub write_tree-Keeps :
      (listed : Placement) (c : Copy T)
      → Here c.volume
      → 0 < p.geometry.cluster_count
      → IsAllocated listed p
      → Same c.volume (write_tree volume text_of source p c).1.volume
  unfolding write_tree run_end
  write_tree-Keeps listed c o count w =
      let runs = IsAllocated-HasRuns listed p count w in
      let trans : (s t : T) → Here s → Same s t → Here t =
        λ s t here k. Keeps-On volume Valid byte at device vb p.geometry spans here k in
      let run : (r : Run) (bytes : List ℕ) (t : T)
          → Here t
          → HasHeap p.geometry r
          → Done volume Valid byte at device t (write_run volume p.geometry r bytes t) =
        λ r bytes t here h.
          write_run-Done volume Valid byte at device vb p.geometry spans r bytes t here h.from
            h.to in
      let join : (r s t : T) → Same r s → Same s t → Same r t =
        λ r s t k l. Keeps-trans volume Valid byte at device k l in
      let d1 =
        write_fat-Done volume Valid byte at device vb p spans c.volume o
          (omega (arith, runs.root)) in
      let o1 = trans c.volume d1.next o d1.keeps in
      let d2 = run p.bitmap (bitmap p) d1.next o1 runs.bitmap in
      let o2 = trans d1.next d2.next o1 d2.keeps in
      let d3 = run p.upcase recommended_bytes d2.next o2 runs.upcase in
      let o3 = trans d2.next d3.next o2 d3.keeps in
      let d4 = run p.root (root_directory p) d3.next o3 runs.root in
      let o4 = trans d3.next d4.next o3 d4.keeps in
      let before =
        join c.volume d3.next d4.next
          (join c.volume d2.next d3.next (join c.volume d1.next d2.next d1.keeps d2.keeps) d3.keeps)
          d4.keeps in
      rw d1.returns (
        rw d2.returns (
          rw d3.returns (
            rw d4.returns (
              join c.volume d4.next _ before
                (items_flushed-Keeps listed (record c { volume = d4.next }) o4 count w)))))
