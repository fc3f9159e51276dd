-- ===== src/Heap/Replace.antt =====
-- The invariant of the heap once some of its pieces have been replaced by others in the same bytes.
use james_m.Base.{ℕ, ◌+◌, ◌-◌, ◌≤◌, ◌<◌, ◌≡◌, ◌⊎◌, List, ◌++◌, some, arith, ◌∙◌, ap, subst, sym}
use james_m.Memory.Words.{IsBytes}
use james_m.SortedArray.{slot}
use james_m.SortedArray.Cells.{cells}
use james_m.Kernel.{Kernel, VmHeap}
use james_m.Heap.Segments.{
  Seg, total, Tiled, Tiled-append, Tiled-before, Tiled-after, Tiled-Agree, load32-Agree, holes,
  count,
}
use james_m.Heap.Holes.{count-middle}
use james_m.Heap.Invariant.{IsHeap}

-- The heap with another size of its index.
abbrev pub resized : VmHeap → ℕ → VmHeap
resized h size = record h { h_index = record (h.h_index) { sa_size = size } }

-- Between `k` and `k'` nothing has changed but the index, which has now `size` entries, and the bytes from
-- `lo` up to `hi`.
pub record Changed (k : Kernel) (h : VmHeap) (lo hi size : ℕ) (k' : Kernel) : Type 0 where
  pub heap : k'.kernel_heap ≡ some (resized h size)
  pub capacity : size ≤ h.h_index.sa_maxsize
  pub still_bytes : IsBytes k'.mem
  pub elsewhere :
      (a : ℕ)
      → (a < h.h_index.sa_array) ⊎ (slot h.h_index.sa_array h.h_index.sa_maxsize ≤ a)
      → (a < lo) ⊎ (hi ≤ a)
      → k'.mem a ≡ k.mem a

module _ (k : Kernel) (h : VmHeap) (before old new after : List Seg)
    (r : IsHeap k h (before ++ (old ++ after))) (size : ℕ) (k' : Kernel) where
  abbrev pos : ℕ
  pos = h.h_addr_start + total before

  -- The pieces `old` have become the pieces `new`, and the index has changed as the holes have.
  pub IsHeap-replaced :
      Changed k h pos (pos + total old) size k'
      → Tiled k'.mem h.h_addr_end pos new (pos + total old)
      → total new ≡ total old
      → ((x : ℕ)
          → count x (cells k'.mem h.h_index.sa_array 0 size) + count x (holes pos old)
            ≡ count x (cells k.mem h.h_index.sa_array 0 h.h_index.sa_size)
              + count x (holes pos new))
      → IsHeap k' (resized h size) (before ++ (new ++ after))
  IsHeap-replaced c t same counts = record {
    heap = c.heap;
    bytes = c.still_bytes;
    compares = r.compares;
    capacity = c.capacity;
    index_below = r.index_below;
    limit = r.limit;
    guard = λ e. r.guard (
        sym (
          load32-Agree k.mem k'.mem (h.h_addr_start - 8) h.h_addr_start (h.h_addr_start - 8)
            (λ a lo hi. c.elsewhere a (omega (arith, r.index_below)) (omega arith)) (omega arith)
            (omega (arith, r.index_below)))
        ∙ e);
    tiled =
        Tiled-append k'.mem h.h_addr_end h.h_addr_start before (new ++ after) h.h_addr_end
          (Tiled-Agree k.mem k'.mem h.h_addr_end h.h_addr_start before pos
            (λ a lo hi. c.elsewhere a (omega (arith, r.index_below)) (omega arith))
            (Tiled-before k.mem h.h_addr_end h.h_addr_start before (old ++ after) h.h_addr_end
              r.tiled))
          (Tiled-append k'.mem h.h_addr_end pos new after h.h_addr_end
            (subst (λ a. Tiled k'.mem h.h_addr_end pos new a) (omega arith) t)
            (subst (λ a. Tiled k'.mem h.h_addr_end a after h.h_addr_end) (omega arith) behind));
    entries = λ x. omega (
      arith,
      counts x,
      r.entries x,
      count-middle x h.h_addr_start before old after,
      count-middle x h.h_addr_start before new after,
      ap (λ n. count x (holes (pos + n) after)) same,
    );
  }
    where
      rest : Tiled k.mem h.h_addr_end (pos + total old) after h.h_addr_end
      rest =
          Tiled-after k.mem h.h_addr_end pos old after h.h_addr_end (
            Tiled-after k.mem h.h_addr_end h.h_addr_start before (old ++ after) h.h_addr_end
              r.tiled)

      behind : Tiled k'.mem h.h_addr_end (pos + total old) after h.h_addr_end
      behind =
          Tiled-Agree k.mem k'.mem h.h_addr_end (pos + total old) after h.h_addr_end
            (λ a lo hi. c.elsewhere a (omega (arith, r.index_below)) (omega arith)) rest
