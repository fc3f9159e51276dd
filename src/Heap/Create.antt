-- ===== src/Heap/Create.antt =====
-- init_heap makes a heap that has the invariant: a single hole.
use james_m.Base.{
  ℕ, ◌+◌, ◌-◌, ◌*◌, ◌%◌, ◌≤◌, ◌<◌, ◌≡◌, ◌≢◌, inr, refl, [], ◌∷◌, some, ok, arith, ◌∙◌, ap, sym,
  true, add32, sub32, ◌==◌,
}
use james_m.Memory.{Mem, bzero}
use james_m.Memory.Words.{IsBytes}
use james_m.Memory.Regions.{SameOutside, load32-SameOutside}
use james_m.Memory.Blocks.{bzero-IsBytes, load32-bzero_ne}
use james_m.SortedArray.{SortedArray, place_sorted_array, insert_sorted_array}
use james_m.SortedArray.Cells.{cells, cells-zero}
use james_m.SortedArray.Insert.{Inserted, insert_sorted_array-Inserted, insert_by, comes_before}
use james_m.Kernel.{Kernel, VmHeap}
use james_m.Heap.{
  store_header, vm_heap_header_cmp, vm_heap_index_size, round_up, init_heap, hf_magic, ftr_magic,
}
use james_m.Heap.Layout.{
  HeaderAt, store_header-HeaderAt, store_header-IsBytes, SameOutside-store_header,
  HeaderAt-SameOutside,
}
use james_m.Heap.Align.{round_up_lem}
use james_m.Heap.Segments.{hole, count}
use james_m.Heap.Invariant.{IsHeap}

module _ (k : Kernel) (start end max su ro : ℕ) (bytes : IsBytes k.mem) (low : start % 4096 ≡ 0)
    (high : end % 4096 ≡ 0) (room : start + 0x81000 + 20 ≤ end) (limit : end < 4294967296) where
  -- The heap begins one page behind the index.
  abbrev pub from : ℕ
  from = start + 0x81000

  abbrev empty : SortedArray
  empty = record {
    sa_array = start;
    sa_size = 0;
    sa_maxsize = vm_heap_index_size;
    sa_cmp = some vm_heap_header_cmp;
  }

  cleared : Mem
  cleared = bzero k.mem start (0x20000 * 4)

  with_hole : Mem
  with_hole = store_header cleared from 1 (end - from)

  with_hole-IsBytes : IsBytes with_hole
  unfolding with_hole cleared
  with_hole-IsBytes =
      store_header-IsBytes _ from 1 (end - from) (bzero-IsBytes k.mem start (0x20000 * 4) bytes)

  with_hole-SameOutside : SameOutside from (from + 12) cleared with_hole
  unfolding with_hole
  with_hole-SameOutside =
      SameOutside-store_header cleared from from (from + 12) cleared 1 (end - from) (omega arith)
        (omega arith) (λ a out. refl)

  inserted :
      Inserted with_hole with_hole-IsBytes empty from
        (omega (arith, room, limit))
        vm_heap_header_cmp
        (insert_sorted_array with_hole empty from)
  inserted =
      insert_sorted_array-Inserted with_hole with_hole-IsBytes empty from
        (omega (arith, room, limit)) vm_heap_header_cmp refl (omega arith)

  index-SameOutside : SameOutside start (start + 4) with_hole inserted.m'
  index-SameOutside a out = inserted.elsewhere a (omega (arith, out))

  -- The new heap.
  abbrev pub created : VmHeap
  created = record {
    h_index = record empty { sa_size = 1 };
    h_addr_start = from;
    h_addr_end = end;
    h_addr_max = max;
    h_su = su;
    h_ro = ro;
  }

  init_heap-created : init_heap start end max su ro k.mem ≡ ok (created, inserted.m')
  unfolding init_heap place_sorted_array with_hole cleared
  init_heap-created =
      let first : (start % 4096 == 0) ≡ true = ground (arith, low) in
      let last : (end % 4096 == 0) ≡ true = ground (arith, high) in
      let place : round_up (add32 start (4 * vm_heap_index_size)) ≡ from =
        round_up_lem (add32 start (4 * vm_heap_index_size)) (omega arith)
        ∙ ground (arith, low, room, limit) in
      let size : sub32 end from ≡ end - from = omega (arith, room, limit) in
      rw (first, last, place, size, inserted.returns)

  header : HeaderAt inserted.m' from 1 (end - from)
  header =
      HeaderAt-SameOutside start (start + 4) with_hole inserted.m' index-SameOutside
        (unfold with_hole in
          store_header-HeaderAt cleared from 1 (end - from) (omega arith) (omega (arith, limit)))
        (omega arith)

  guard : hf_magic inserted.m' (from - 8) ≡ hf_magic k.mem (from - 8)
  unfolding cleared
  guard =
      load32-SameOutside start (start + 4) with_hole inserted.m' (from - 8) index-SameOutside
        (omega arith)
      ∙ load32-SameOutside from (from + 12) cleared with_hole (from - 8) with_hole-SameOutside
          (omega arith)
      ∙ load32-bzero_ne k.mem start (0x20000 * 4) (from - 8) (omega arith)

  only_entry : cells inserted.m' start 0 1 ≡ from ∷ []
  only_entry =
      inserted.entries
      ∙ ap (insert_by (comes_before with_hole vm_heap_header_cmp from) from)
          (cells-zero with_hole start 0)

  -- On pages of their own, with room for the index, a page and a hole, and no footer's magic number by chance
  -- in the word that free would take for a footer: init_heap returns a heap with the invariant, all of it one
  -- hole, which begins 0x81000 bytes behind the start and has no footer.
  pub init_heap-IsHeap :
      hf_magic k.mem (from - 8) ≢ ftr_magic
      → (m' : Mem) × (init_heap start end max su ro k.mem ≡ ok (created, m'))
        × IsHeap
            (record k { mem = m'; kernel_heap = some created })
            created
            (hole (end - from) ∷ [])
  init_heap-IsHeap clean = (
    inserted.m',
    init_heap-created,
    record {
      heap = refl;
      bytes = inserted.still_bytes;
      compares = refl;
      capacity = omega arith;
      index_below = omega arith;
      limit = limit;
      guard = λ e. clean (sym guard ∙ e);
      tiled = (
        record {
          room = omega (arith, room);
          header = header;
          footer = inr (refl, omega (arith, room));
        },
        omega (arith, room),
      );
      entries = λ x. ap (count x) only_entry;
    },
  )
