-- ===== src/Heap/Alloc.antt =====
-- alloc of src/heap.c.
use james_m.Base.{
  ℕ, zero, suc, ◌+◌, Option, none, some, Run, ok, out_of_fuel, ◌>>=◌, ◌==◌, ltb, if◌then◌else◌,
  bit_and, add32, sub32, ◌&&◌, not,
}
use james_m.Memory.{Mem, store32}
use james_m.SortedArray.{SortedArray, lookup_sorted_array}
use james_m.Kernel.{Kernel, VmHeap}
use james_m.Heap.{
  hh_size, store_header, store_footer, the_heap, insert_index, remove_index, find_smallest_hole,
}
use james_m.Kmalloc.{Alloc, kmalloc0_ap}
use james_m.Heap.Resize.{expand}

-- The search for the header at the highest address. `best` is the pair of `idx` and `value`; `none`
-- stands for the `idx` of -1.
unfoldable pub endmost_from :
    Mem → SortedArray → (left i : ℕ) → (best : Option ℕ) → (value : ℕ) → Run (Option ℕ)
endmost_from m a zero i best value = ok best
endmost_from m a (suc left) i best value = lookup_sorted_array m a i >>= λ tmp.
    endmost_from m a left (i + 1) (if ltb value tmp then some i else best)
      (if ltb value tmp then tmp else value)

unfoldable pub endmost : Mem → VmHeap → Run (Option ℕ)
endmost m h = endmost_from m h.h_index h.h_index.sa_size 0 none 0

-- A new hole in the `added` bytes at the old end of the heap.
unfoldable pub add_hole : (old_end added : ℕ) → Kernel → Run Kernel
add_hole old_end added k =
    let m1 = store_header k.mem old_end 1 added in
    let footer = sub32 (add32 old_end (hh_size m1 old_end)) 8 in
    insert_index (record k { mem = store_footer m1 footer old_end }) old_end

-- The `added` bytes go to the endmost hole, whose footer is written anew.
unfoldable pub extend_hole : (header added : ℕ) → Kernel → Kernel
extend_hole header added k =
    let m1 = store32 k.mem (header + 8) (add32 (hh_size k.mem header) added) in
    let footer = sub32 (add32 header (hh_size m1 header)) 8 in
    record k { mem = store_footer m1 footer header }

-- The part of alloc for the case that no hole is large enough, up to its call of itself.
unfoldable pub grow : (Kernel → Run (ℕ × ℕ × Kernel)) → (new_size : ℕ) → Kernel → Run Kernel
grow make_table new_size k = do
  h ← the_heap k
  let old_length = sub32 h.h_addr_end h.h_addr_start
  k' ← expand make_table (add32 old_length new_size) k
  h' ← the_heap k'
  let added = sub32 (sub32 h'.h_addr_end h'.h_addr_start) old_length
  idx ← endmost k'.mem h'
  elim idx [
    | none ↦ add_hole h.h_addr_end added k'
    | some i ↦
        lookup_sorted_array k'.mem h'.h_index i >>= λ header. ok (extend_hole header added k')
  ]

-- The hole that alloc works on after it has made room for the alignment: position and size.
pub record Site : Type 0 where
  pub pos : ℕ
  pub hole_size : ℕ
  pub state : Kernel

-- With `page_align` a hole stays in front of the block, else the hole's entry is removed.
unfoldable pub align_site : (page_align i pos hole_size : ℕ) → Kernel → Run Site
align_site page_align i pos hole_size k =
    if not (page_align == 0) && not (bit_and pos 0xFFFFF000 == 0)
    then (let new_location = sub32 (sub32 (add32 pos 4096) (bit_and pos 0xFFF)) 12 in
        let m1 = store_header k.mem pos 1 (sub32 (sub32 4096 (bit_and pos 0xFFF)) 12) in
        let m2 = store_footer m1 (sub32 new_location 8) pos in
        ok (record {
          pos = new_location;
          hole_size = sub32 hole_size (hh_size m2 pos);
          state = record k { mem = m2 };
        }))
    else (remove_index k i >>= λ k'. ok (record { pos = pos; hole_size = hole_size; state = k' }))

-- The hole that is left behind the block, of `rest` bytes at `hole`.
unfoldable pub split_rest : (hole rest : ℕ) → Kernel → Run Kernel
split_rest hole rest k = do
  h ← the_heap k
  let m1 = store_header k.mem hole 1 rest
  let footer = sub32 (add32 hole rest) 8
  insert_index
      (record k { mem = if ltb footer h.h_addr_end then store_footer m1 footer hole else m1 }) hole

-- The block's header and footer, and the hole behind it if there is room left. `size` is what the
-- caller can use, `new_size` that and the overhead.
unfoldable pub write_block : (size new_size : ℕ) → Site → Run (ℕ × Kernel)
write_block size new_size s = do
  let m1 = store_header s.state.mem s.pos 0 new_size
  let footer = add32 (add32 s.pos 12) size
  let k1 = record (s.state) { mem = store_footer m1 footer s.pos }
  let rest = sub32 s.hole_size new_size
  k2 ← (if rest == 0 then ok k1 else split_rest (add32 footer 8) rest k1)
  ok (add32 s.pos 12, k2)

-- The part of alloc that takes the hole at index `i`. A hole that is too small to be split is given
-- whole.
unfoldable pub take_hole : (size page_align i : ℕ) → Kernel → Run (ℕ × Kernel)
take_hole size page_align i k = do
  h ← the_heap k
  let new_size = add32 size 20
  pos ← lookup_sorted_array k.mem h.h_index i
  let hole_size = hh_size k.mem pos
  let whole = ltb (sub32 hole_size new_size) 20
  site ← align_site page_align i pos hole_size k
  write_block (if whole then add32 size (sub32 hole_size new_size) else size)
      (if whole then hole_size else new_size) site

-- alloc calls itself after it has grown the heap, and through kmalloc0_ap while it grows it.
unfoldable pub alloc : (fuel : ℕ) → Alloc
alloc zero size page_align k = out_of_fuel
alloc (suc fuel) size page_align k = the_heap k >>= λ h.
    find_smallest_hole k.mem h (add32 size 20) page_align >>= λ found. elim found [
      | none ↦ grow (kmalloc0_ap (alloc fuel) 4096) (add32 size 20) k >>= alloc fuel size page_align
      | some i ↦ take_hole size page_align i k
    ]
