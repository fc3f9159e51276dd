-- ===== src/Heap/RowTests.antt =====
-- The theorems on the heap's invariant at a heap of five pieces, and at the kernel's new heap.
use james_m.Base.{
  ℕ, ◌+◌, ◌-◌, ◌≤◌, ◌<◌, ◌≡◌, ◌⊎◌, inl, refl, arith, List, [], ◌∷◌, some, ok, ap, sym,
}
use james_m.Memory.{Mem, load32, store32}
use james_m.Memory.Words.{IsBytes, store32-IsBytes, store32_elsewhere}
use james_m.SortedArray.Cells.{cells}
use james_m.Kernel.{Kernel, VmHeap}
use james_m.Heap.{store_header, store_footer, vm_heap_header_cmp, init_heap}
use james_m.Heap.Layout.{HeaderAt, FooterAt, store_header-IsBytes, store_footer-IsBytes}
use james_m.Heap.Segments.{Seg, IsSeg, block, hole, count}
use james_m.Heap.Holes.{HoleIn}
use james_m.Heap.Invariant.{IsHeap}
use james_m.Heap.Serve.{Served, alloc-Served}
use james_m.Heap.Recycle.{Released, free-Released}
use james_m.Heap.Create.{init_heap-IsHeap, created}
use james_m.Heap.Disjoint.{alloc-disjoint}
use james_m.Heap.Stale.{free-stale_footer}
use james_m.Heap.Cycle.{free-served}
use james_m.Heap.Alloc.{alloc}
use james_m.Heap.Free.{free}

-- A piece with its header and footer.
abbrev with_piece : Mem → (p is_hole n : ℕ) → Mem
with_piece m p is_hole n = store_footer (store_header m p is_hole n) (p + n - 8) p

-- The index stands at 0x1000, the pieces from 0x2000 on.
abbrev row_mem : Mem
row_mem =
    store32
      (store32
        (with_piece
          (with_piece
            (with_piece (with_piece (with_piece (λ _. 0) 0x2000 0 40) 0x2028 1 48) 0x2058 0 40)
            0x2080 0 32)
          0x20A0 1 352)
        0x1000 0x2028)
      0x1004 0x20A0

abbrev row : List Seg
row = block 40 ∷ hole 48 ∷ block 40 ∷ block 32 ∷ hole 352 ∷ []

abbrev row_heap : VmHeap
row_heap = record {
  h_index = record {
    sa_array = 0x1000;
    sa_size = 2;
    sa_maxsize = 8;
    sa_cmp = some vm_heap_header_cmp;
  };
  h_addr_start = 0x2000;
  h_addr_end = 0x2200;
  h_addr_max = 0x9000;
  h_su = 0;
  h_ro = 0;
}

abbrev row_kernel : Kernel
row_kernel = record {
  mem = row_mem;
  frames = 0x100;
  nframes = 64;
  kernel_directory = 0x4000;
  current_directory = 0x4000;
  placement_address = 0x8000;
  cr0 = 0;
  cr3 = 0;
  kernel_heap = some row_heap;
}

with_piece-IsBytes : (m : Mem) (p is_hole n : ℕ) → IsBytes m → IsBytes (with_piece m p is_hole n)
with_piece-IsBytes m p is_hole n h =
    store_footer-IsBytes _ (p + n - 8) p (store_header-IsBytes m p is_hole n h)

row-IsBytes : IsBytes row_mem
row-IsBytes = store32-IsBytes _ 0x1004 0x20A0 (
    store32-IsBytes _ 0x1000 0x2028 (
      with_piece-IsBytes _ 0x20A0 1 352 (
        with_piece-IsBytes _ 0x2080 0 32 (
          with_piece-IsBytes _ 0x2058 0 40 (
            with_piece-IsBytes _ 0x2028 1 48
              (with_piece-IsBytes (λ _. 0) 0x2000 0 40 (λ a. omega arith)))))))

row-cells : cells row_mem 0x1000 0 2 ≡ 0x2028 ∷ 0x20A0 ∷ []
unfolding cells load32 store32
row-cells = refl

first_piece : IsSeg row_mem 0x2200 0x2000 (block 40)
unfolding load32 store32
first_piece = record {
  room = omega arith;
  header = record { magic = refl; hole = refl; size_field = refl };
  footer = inl (record { magic = refl; names = refl });
}

second_piece : IsSeg row_mem 0x2200 0x2028 (hole 48)
unfolding load32 store32
second_piece = record {
  room = omega arith;
  header = record { magic = refl; hole = refl; size_field = refl };
  footer = inl (record { magic = refl; names = refl });
}

third_piece : IsSeg row_mem 0x2200 0x2058 (block 40)
unfolding load32 store32
third_piece = record {
  room = omega arith;
  header = record { magic = refl; hole = refl; size_field = refl };
  footer = inl (record { magic = refl; names = refl });
}

fourth_piece : IsSeg row_mem 0x2200 0x2080 (block 32)
unfolding load32 store32
fourth_piece = record {
  room = omega arith;
  header = record { magic = refl; hole = refl; size_field = refl };
  footer = inl (record { magic = refl; names = refl });
}

last_piece : IsSeg row_mem 0x2200 0x20A0 (hole 352)
unfolding load32 store32
last_piece = record {
  room = omega arith;
  header = record { magic = refl; hole = refl; size_field = refl };
  footer = inl (record { magic = refl; names = refl });
}

no_footer : load32 row_mem 0x1FF8 ≡ 0
unfolding load32 store32
no_footer = refl

row-IsHeap : IsHeap row_kernel row_heap row
row-IsHeap = record {
  heap = refl;
  bytes = row-IsBytes;
  compares = refl;
  capacity = omega arith;
  index_below = omega arith;
  limit = omega arith;
  guard = λ e. absurd (omega (arith, e, no_footer));
  tiled = (first_piece, (second_piece, (third_piece, (fourth_piece, (last_piece, refl)))));
  entries = λ x. ap (count x) row-cells;
}

-- The last hole.
abbrev last_hole : HoleIn 0x2000 0x20A0 row
last_hole = record {
  before = block 40 ∷ hole 48 ∷ block 40 ∷ block 32 ∷ [];
  size = 352;
  after = [];
  splits = refl;
  place = refl;
}

alloc-Served_example :
    (p : ℕ) × (k' : Kernel) × (alloc 1 20 0 row_kernel ≡ ok (p, k'))
    × Served row_kernel row_heap row 20 p k'
alloc-Served_example =
    alloc-Served row_kernel row_heap 20 row row-IsHeap 0 0x20A0 last_hole (omega arith)

-- The third piece is freed, and the hole before it takes it in.
free-Released_example :
    Released row_kernel row_heap 0x2064 (block 40 ∷ hole 88 ∷ block 32 ∷ hole 352 ∷ [])
free-Released_example =
    free-Released row_kernel row_heap 40 32 (hole 352 ∷ []) (omega arith) (block 40 ∷ hole 48 ∷ [])
      row-IsHeap

free-stale_footer_example :
    (k' : Kernel) × (free 0x200C row_kernel ≡ ok k')
    × HeaderAt k'.mem 0x2000 1 88
    × FooterAt k'.mem 0x2050 0x2028
    × HeaderAt k'.mem 0x2028 1 48
free-stale_footer_example =
    free-stale_footer row_kernel row_heap 40 48 40 (block 32 ∷ hole 352 ∷ []) row-IsHeap

-- The heap before its first piece was given to a caller.
abbrev earlier : Kernel
earlier = record row_kernel { mem = store32 row_mem 0x2004 1 }

abbrev first_served :
    Served earlier row_heap
      (hole 40 ∷ hole 48 ∷ block 40 ∷ block 32 ∷ hole 352 ∷ [])
      20
      0x200C
      row_kernel
first_served = record {
  before = [];
  n = 40;
  after = hole 48 ∷ block 40 ∷ block 32 ∷ hole 352 ∷ [];
  entries = 2;
  split = refl;
  fit = omega arith;
  address = refl;
  is_heap = row-IsHeap;
  elsewhere = λ a lo out. sym (store32_elsewhere row_mem 0x2004 1 a (omega arith));
}

alloc-disjoint_example :
    (q : ℕ) × (k2 : Kernel) × (alloc 1 24 0 row_kernel ≡ ok (q, k2))
    × Served row_kernel row_heap row 24 q k2
    × ((0x200C + 20 ≤ q) ⊎ (q + 24 ≤ 0x200C))
    × ((a : ℕ) → 0x200C ≤ a → a < 0x2020 → k2.mem a ≡ row_mem a)
alloc-disjoint_example =
    alloc-disjoint earlier row_heap (hole 40 ∷ hole 48 ∷ block 40 ∷ block 32 ∷ hole 352 ∷ []) 20
      0x200C row_kernel first_served 0 24 0x20A0 last_hole (omega arith)

-- The kernel's heap as init_paging makes it, on pages of zeros.
abbrev zero_kernel : Kernel
zero_kernel = record row_kernel { mem = λ _. 0 }

abbrev kernel_heap : VmHeap
kernel_heap =
    created zero_kernel 0xC0000000 0xC0100000 0xCFFFF000 0 0 (λ a. omega arith) refl refl
      (omega arith) (omega arith)

zero_word : load32 (λ _. 0) 0xC0080FF8 ≡ 0
unfolding load32
zero_word = refl

init_heap-IsHeap_example :
    (m' : Mem) × (init_heap 0xC0000000 0xC0100000 0xCFFFF000 0 0 (λ _. 0) ≡ ok (kernel_heap, m'))
    × IsHeap
        (record zero_kernel { mem = m'; kernel_heap = some kernel_heap })
        kernel_heap
        (hole 0x7F000 ∷ [])
init_heap-IsHeap_example =
    init_heap-IsHeap zero_kernel 0xC0000000 0xC0100000 0xCFFFF000 0 0 (λ a. omega arith) refl refl
      (omega arith) (omega arith) (λ e. absurd (omega (arith, e, zero_word)))

-- The heap before its third piece was given to a caller.
abbrev unserved : Kernel
unserved = record row_kernel { mem = store32 row_mem 0x205C 1 }

abbrev third_served :
    Served unserved row_heap
      (block 40 ∷ hole 48 ∷ hole 40 ∷ block 32 ∷ hole 352 ∷ [])
      20
      0x2064
      row_kernel
third_served = record {
  before = block 40 ∷ hole 48 ∷ [];
  n = 40;
  after = block 32 ∷ hole 352 ∷ [];
  entries = 2;
  split = refl;
  fit = omega arith;
  address = refl;
  is_heap = row-IsHeap;
  elsewhere = λ a lo out. sym (store32_elsewhere row_mem 0x205C 1 a (omega arith));
}

-- Of its 20 bytes the caller writes four.
free-served_example :
    (Path
      (List Seg)
      (block 40 ∷ hole 48 ∷ hole 40 ∷ block 32 ∷ hole 352 ∷ [])
      (block 40 ∷ hole 48 ∷ hole 40 ∷ block 32 ∷ hole 352 ∷ []))
    × Released
        (record row_kernel { mem = store32 row_mem 0x2064 5 })
        row_heap
        0x2064
        (block 40 ∷ hole 88 ∷ block 32 ∷ hole 352 ∷ [])
free-served_example =
    free-served unserved row_heap (block 40 ∷ hole 48 ∷ hole 40 ∷ block 32 ∷ hole 352 ∷ []) 20
      0x2064 row_kernel third_served 32 (hole 352 ∷ []) (store32 row_mem 0x2064 5) (omega arith)
      refl (omega arith) (store32-IsBytes row_mem 0x2064 5 row-IsBytes)
      (λ a out. store32_elsewhere row_mem 0x2064 5 a (omega arith))
