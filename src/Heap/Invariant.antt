-- ===== src/Heap/Invariant.antt =====
-- The invariant of the heap: what stands in memory is a row of blocks and holes, and the index has the holes.
use james_m.Base.{
  ℕ, ◌+◌, ◌-◌, ◌≤◌, ◌<◌, ◌≡◌, ◌≢◌, List, ◌∷◌, some, arith, ◌==◌, if◌then◌else◌, get_elem?, ap,
  subst, sym, [],
}
use james_m.Memory.Words.{IsBytes}
use james_m.SortedArray.{slot}
use james_m.SortedArray.Cells.{cells}
use james_m.Kernel.{Kernel, VmHeap}
use james_m.Heap.{vm_heap_header_cmp, hf_magic, ftr_magic}
use james_m.Heap.Segments.{Seg, IsSeg, hole, total, Tiled, Tiled-end, Tiled-after, holes, count}
use james_m.Heap.Holes.{count-erase_at, count-middle, HoleIn, holes-HoleIn}

-- The heap `h` of `k` is the row `ss` of blocks and holes, from its start to its end, and nothing else is in
-- its index than the holes, each once. The index stands below the heap, with two words between, in which
-- no footer can be.
pub record IsHeap (k : Kernel) (h : VmHeap) (ss : List Seg) : Type 0 where
  pub heap : k.kernel_heap ≡ some h
  pub bytes : IsBytes k.mem
  pub compares : h.h_index.sa_cmp ≡ some vm_heap_header_cmp
  pub capacity : h.h_index.sa_size ≤ h.h_index.sa_maxsize
  pub index_below : slot h.h_index.sa_array h.h_index.sa_maxsize + 8 ≤ h.h_addr_start
  pub limit : h.h_addr_end < 4294967296
  pub guard : hf_magic k.mem (h.h_addr_start - 8) ≢ ftr_magic
  pub tiled : Tiled k.mem h.h_addr_end h.h_addr_start ss h.h_addr_end
  pub entries :
      (x : ℕ)
      → count x (cells k.mem h.h_index.sa_array 0 h.h_index.sa_size)
        ≡ count x (holes h.h_addr_start ss)

module _ (k : Kernel) (h : VmHeap) (ss : List Seg) (r : IsHeap k h ss) where
  -- An entry of the index is a hole.
  pub entry-HoleIn :
      (i e : ℕ)
      → get_elem? (cells k.mem h.h_index.sa_array 0 h.h_index.sa_size) i ≡ some e
      → HoleIn h.h_addr_start e ss
  entry-HoleIn i e at = holes-HoleIn h.h_addr_start e ss (omega (arith, r.entries e, counted, here))
    where
      here : Path ℕ (if e == e then 1 else 0) 1
      here = ground arith

      counted :
          (if e == e then 1 else 0) ≤ count e (cells k.mem h.h_index.sa_array 0 h.h_index.sa_size)
      counted = omega (arith, count-erase_at e _ i e at)

  -- The hole stands at its address, and ends no later than the heap.
  pub HoleIn-IsSeg :
      {x : ℕ} (f : HoleIn h.h_addr_start x ss)
      → IsSeg k.mem h.h_addr_end x (hole f.size)
        × Tiled k.mem h.h_addr_end (x + f.size) f.after h.h_addr_end
  HoleIn-IsSeg {x} f =
      subst (λ a. Tiled k.mem h.h_addr_end a (hole f.size ∷ f.after) h.h_addr_end) (sym f.place)
        (Tiled-after k.mem h.h_addr_end h.h_addr_start f.before (hole f.size ∷ f.after) h.h_addr_end
          (subst (λ zs. Tiled k.mem h.h_addr_end h.h_addr_start zs h.h_addr_end) f.splits r.tiled))

  pub HoleIn-below : {x : ℕ} (f : HoleIn h.h_addr_start x ss) → x + f.size ≤ h.h_addr_end
  HoleIn-below {x} f =
      omega
        (arith, Tiled-end k.mem h.h_addr_end (x + f.size) f.after h.h_addr_end (HoleIn-IsSeg f).1)

  -- A hole is an entry of the index.
  pub HoleIn-entry :
      {x : ℕ}
      → HoleIn h.h_addr_start x ss
      → 0 < count x (cells k.mem h.h_index.sa_array 0 h.h_index.sa_size)
  HoleIn-entry {x} f =
      let listed = count-middle x h.h_addr_start f.before (hole f.size ∷ []) f.after in
      let here : Path ℕ (if x == h.h_addr_start + total f.before then 1 else 0) 1 =
        ground (arith, f.place) in
      omega
        (arith, r.entries x, ap (λ zs. count x (holes h.h_addr_start zs)) f.splits, listed, here)
