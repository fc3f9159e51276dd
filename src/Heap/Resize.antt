-- ===== src/Heap/Resize.antt =====
-- expand and contract of src/heap.c.
use james_m.Base.{
  ℕ, zero, suc, ◌+◌, ◌-◌, ◌/◌, Run, ok, fault, out_of_fuel, some, ◌>>=◌, ◌>>◌, kassert, ◌==◌, ltb,
  leb, if◌then◌else◌, bit_and, add32, sub32,
}
use james_m.Kernel.{Kernel, VmHeap}
use james_m.Paging.{get_page, alloc_frame, free_frame}
use james_m.Heap.{the_heap, round_up, vm_heap_min_size}

abbrev pub with_end : Kernel → VmHeap → ℕ → Kernel
with_end k h end = record k { kernel_heap = some (record h { h_addr_end = end }) }

-- `get_page(heap->h_addr_start + i, 1, kernel_directory)` and alloc_frame on what it returns.
-- `make_table` is the call of kmalloc0_ap inside get_page.
unfoldable pub map_page : (Kernel → Run (ℕ × ℕ × Kernel)) → (i : ℕ) → Kernel → Run Kernel
map_page make_table i k = do
  h ← the_heap k
  (page, k') ← get_page make_table (add32 h.h_addr_start i) 1 k.kernel_directory k
  alloc_frame k' page h.h_su h.h_ro

-- `while (i < new_size)`
unfoldable pub expand_loop :
    (Kernel → Run (ℕ × ℕ × Kernel)) → (fuel i new_size : ℕ) → Kernel → Run Kernel
expand_loop make_table zero i new_size k = out_of_fuel
expand_loop make_table (suc fuel) i new_size k =
    let round = map_page make_table i k >>= expand_loop make_table fuel (add32 i 4096) new_size in
    if ltb i new_size then round else ok k

-- The loop makes one round for each page, and the fuel is one more.
unfoldable pub expand : (Kernel → Run (ℕ × ℕ × Kernel)) → (new_size : ℕ) → Kernel → Run Kernel
expand make_table new_size k = do
  h ← the_heap k
  let old_size = sub32 h.h_addr_end h.h_addr_start
  kassert (ltb old_size new_size)
  let size = round_up new_size
  kassert (leb (add32 h.h_addr_start size) h.h_addr_max)
  k' ← expand_loop make_table ((size - old_size + 4095) / 4096 + 1) old_size size k
  h' ← the_heap k'
  ok (with_end k' h' (add32 h'.h_addr_start size))

-- `if (new_size & 0x1000) { new_size &= 0x1000; new_size += 0x1000; }` and the lower limit.
unfoldable pub contract_size : ℕ → ℕ
contract_size new_size =
    let rounded =
      if bit_and new_size 4096 == 0 then new_size else add32 (bit_and new_size 4096) 4096 in
    if ltb rounded vm_heap_min_size then vm_heap_min_size else rounded

-- get_page does not create a table here, and free_frame reads through what it returns.
unfoldable pub unmap_page : (i : ℕ) → Kernel → Run Kernel
unmap_page i k = do
  h ← the_heap k
  (page, k') ← get_page (λ _. fault) (add32 h.h_addr_start i) 0 k.kernel_directory k
  if page == 0 then fault else ok (free_frame k' page)

-- `while (new_size < i)`
unfoldable pub contract_loop : (fuel i new_size : ℕ) → Kernel → Run Kernel
contract_loop zero i new_size k = out_of_fuel
contract_loop (suc fuel) i new_size k =
    let round = unmap_page i k >>= contract_loop fuel (sub32 i 4096) new_size in
    if ltb new_size i then round else ok k

-- The size that the heap has afterwards, and the state.
unfoldable pub contract : (new_size : ℕ) → Kernel → Run (ℕ × Kernel)
contract new_size k = do
  h ← the_heap k
  let old_size = sub32 h.h_addr_end h.h_addr_start
  kassert (ltb new_size old_size)
  let size = contract_size new_size
  let i = sub32 old_size 4096
  k' ← contract_loop (i / 4096 + 1) i size k
  h' ← the_heap k'
  ok (size, with_end k' h' (add32 h'.h_addr_start size))
