-- ===== src/Heap/Fill.antt =====
-- What the callers of alloc write into their blocks does not matter to the heap.
use james_m.Base.{ℕ, ◌+◌, ◌≤◌, inl, inr, refl, ap, List, [], ◌∷◌, ◌++◌, arith}
use james_m.Memory.{Mem}
use james_m.Memory.Words.{IsBytes}
use james_m.Memory.Regions.{SameOutside}
use james_m.Kernel.{Kernel, VmHeap}
use james_m.Heap.Layout.{cells-SameOutside, HeaderAt-SameOutside, FooterAt-SameOutside}
use james_m.Heap.Segments.{Seg, IsSeg, block, total, Tiled-after, count}
use james_m.Heap.Invariant.{IsHeap}
use james_m.Heap.Replace.{IsHeap-replaced}

module _ (k : Kernel) (h : VmHeap) (before after : List Seg) (c len : ℕ) (m' : Mem)
    (r : IsHeap k h (before ++ (block c ∷ after))) (fits : len + 20 ≤ c) (bytes : IsBytes m') where
  abbrev pos : ℕ
  pos = h.h_addr_start + total before

  here : IsSeg k.mem h.h_addr_end pos (block c)
  here =
      (Tiled-after k.mem h.h_addr_end h.h_addr_start before (block c ∷ after) h.h_addr_end
        r.tiled).0

  -- A block of the heap with room for `len` bytes between its header and its footer: whatever changes in those
  -- bytes, the invariant holds, with the same pieces.
  pub IsHeap-filled :
      SameOutside
        (h.h_addr_start + total before + 12)
        (h.h_addr_start + total before + 12 + len)
        k.mem
        m'
      → IsHeap (record k { mem = m' }) h (before ++ (block c ∷ after))
  IsHeap-filled same =
      IsHeap-replaced k h before (block c ∷ []) (block c ∷ []) after r h.h_index.sa_size
        (record k { mem = m' })
        (record {
          heap = r.heap;
          capacity = r.capacity;
          still_bytes = bytes;
          elsewhere = λ a out apart. same a (omega (arith, apart, fits));
        })
        (
          record {
            room = here.room;
            header =
                HeaderAt-SameOutside (pos + 12) (pos + 12 + len) k.mem m' same here.header
                  (omega arith);
            footer = elim here.footer [
              | inl f ↦ inl (
                  FooterAt-SameOutside (pos + 12) (pos + 12 + len) k.mem m' same f
                    (omega (arith, fits)))
              | inr last ↦ inr last
            ];
          },
          omega arith,
        )
        refl
        λ x. omega (
          arith,
          ap (count x) (
              cells-SameOutside (pos + 12) (pos + 12 + len) k.mem m' same h.h_index.sa_array 0
                h.h_index.sa_size (omega (arith, r.index_below, r.capacity))),
        )
