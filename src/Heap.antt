-- ===== src/Heap.antt =====
-- src/heap.c: the kernel's heap.
--
-- Blocks and holes stand in memory between `h_addr_start` and `h_addr_end`, each with a header (magic,
-- is_hole, size; 12 bytes) before it and a footer (magic, header; 8 bytes) at its end. Every call of
-- the source names the one heap of the kernel, so the heap is the field `kernel_heap` of the state.
pub mod Resize
pub mod Find
pub mod Layout
pub mod Alloc
pub mod Free
pub mod Carve
pub mod Split
pub mod Align
pub mod Bounds
pub mod Segments
pub mod Holes
pub mod Taken
pub mod Invariant
pub mod Replace
pub mod Serve
pub mod Unify
pub mod Release
pub mod Join
pub mod Recycle
pub mod Cycle
pub mod Create
pub mod Disjoint
pub mod Stale
pub mod Fill
pub mod Source
mod Tests
mod RowTests
use james_m.Base.{
  ℕ, zero, suc, ◌+◌, ◌-◌, ◌*◌, ◌/◌, ◌%◌, Bool, true, false, Option, none, some, Run, ok, panic,
  fault, out_of_fuel, ◌>>=◌, ◌>>◌, kassert, ◌==◌, ltb, leb, if◌then◌else◌, bit_and, add32, sub32,
  signed_key, ◌&&◌, not,
}
use james_m.Memory.{Mem, load32, store32}
use james_m.SortedArray.{
  SortedArray, Cmp, place_sorted_array, insert_sorted_array, lookup_sorted_array,
  remove_sorted_array,
}
use james_m.Kernel.{Kernel, VmHeap}

abbrev pub vm_heap_index_size : ℕ
vm_heap_index_size = 0x20000

abbrev pub hdr_magic : ℕ
hdr_magic = 0x123890AB

abbrev pub ftr_magic : ℕ
ftr_magic = 0xBA098321

abbrev pub vm_heap_min_size : ℕ
vm_heap_min_size = 0x70000

-- The fields of a header and of a footer.
abbrev pub hh_magic : Mem → ℕ → ℕ
hh_magic m p = load32 m p

abbrev pub hh_is_hole : Mem → ℕ → ℕ
hh_is_hole m p = load32 m (p + 4)

abbrev pub hh_size : Mem → ℕ → ℕ
hh_size m p = load32 m (p + 8)

abbrev pub hf_magic : Mem → ℕ → ℕ
hf_magic m p = load32 m p

abbrev pub hf_header : Mem → ℕ → ℕ
hf_header m p = load32 m (p + 4)

abbrev pub store_header : Mem → (p is_hole size : ℕ) → Mem
store_header m p is_hole size =
    store32 (store32 (store32 m p hdr_magic) (p + 4) is_hole) (p + 8) size

abbrev pub store_footer : Mem → (p header : ℕ) → Mem
store_footer m p header = store32 (store32 m p ftr_magic) (p + 4) header

unfoldable pub vm_heap_header_cmp : Cmp
vm_heap_header_cmp m a b = sub32 (hh_size m a) (hh_size m b)

-- An access to the heap faults while `kernel_heap` is NULL.
unfoldable pub the_heap : Kernel → Run VmHeap
the_heap k = elim k.kernel_heap [ none ↦ fault | some h ↦ ok h ]

-- Calls of the index, on the state.
abbrev pub insert_index : Kernel → ℕ → Run Kernel
insert_index k el = do
  h ← the_heap k
  (m, a) ← insert_sorted_array k.mem h.h_index el
  ok (record k { mem = m; kernel_heap = some (record h { h_index = a }) })

abbrev pub remove_index : Kernel → ℕ → Run Kernel
remove_index k i = do
  h ← the_heap k
  (m, a) ← remove_sorted_array k.mem h.h_index i
  ok (record k { mem = m; kernel_heap = some (record h { h_index = a }) })

-- The test of the loop of find_smallest_hole. The offset is taken off and the sizes compared as ints.
unfoldable pub fits : Mem → (size page_align hdr : ℕ) → Bool
fits m size page_align hdr =
    if page_align == 0
    then leb size (hh_size m hdr)
    else (let location = hdr in
        let offset =
          if bit_and (add32 location 12) 0xFFFFF000 == 0
          then 0
          else 4096 - add32 location 12 % 4096 in
        leb (signed_key size) (signed_key (sub32 (hh_size m hdr) offset)))

-- The loop from index `i` on, with `left` entries to go; `none` stands for -1.
unfoldable pub find_hole_from : Mem → SortedArray → (size page_align left i : ℕ) → Run (Option ℕ)
find_hole_from m a size page_align zero i = ok none
find_hole_from m a size page_align (suc left) i =
    let rest = find_hole_from m a size page_align left (i + 1) in
    lookup_sorted_array m a i >>= λ hdr. if fits m size page_align hdr then ok (some i) else rest

unfoldable pub find_smallest_hole : Mem → VmHeap → (size page_align : ℕ) → Run (Option ℕ)
find_smallest_hole m h size page_align =
    find_hole_from m h.h_index size page_align h.h_index.sa_size 0

-- `if (x & 0xFFFFF000) { x &= 0xFFFFF000; x += 0x1000; }`, in init_heap and expand.
unfoldable pub round_up : ℕ → ℕ
round_up x = if bit_and x 0xFFFFF000 == 0 then x else add32 (bit_and x 0xFFFFF000) 4096

-- `heap` itself is the result; its index and its first hole are written into memory.
unfoldable pub init_heap : (start end max su ro : ℕ) → Mem → Run (VmHeap × Mem)
init_heap start end max su ro m = do
  kassert (start % 4096 == 0)
  kassert (end % 4096 == 0)
  let placed = place_sorted_array m start vm_heap_index_size (some vm_heap_header_cmp)
  let from = round_up (add32 start (4 * vm_heap_index_size))
  (m', index) ← insert_sorted_array (store_header placed.0 from 1 (sub32 end from)) placed.1 from
  ok (
    record {
      h_index = index;
      h_addr_start = from;
      h_addr_end = end;
      h_addr_max = max;
      h_su = su;
      h_ro = ro;
    },
    m',
  )
