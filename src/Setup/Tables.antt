-- ===== src/Setup/Tables.antt =====
-- make_tables, the first loop of init_paging: the page table of the kernel's heap.
use james_m.Base.{
  ℕ, zero, suc, true, ◌+◌, ◌*◌, ◌/◌, ◌<◌, ◌≤◌, ◌≡◌, refl, ◌∙◌, arith, none, ok, add32, bit_or,
}
use james_m.Memory.{load32, store32}
use james_m.Memory.Words.{load32-store32_ne}
use james_m.Memory.Blocks.{load32-bzero}
use james_m.Kernel.{Kernel}
use james_m.Paging.{table_slot, tblphys_slot}
use james_m.Paging.Tables.{
  table_of, entry_of, with_table, get_page-found, get_page-made, load32-with_table,
}
use james_m.Kmalloc.{Alloc, kmalloc0_ap}
use james_m.Kmalloc.Placement.{placed_at, after_placing, _kmalloc-placed}
use james_m.Setup.{make_tables, page_of, vm_kern_heap_start, sizeof_page_table}

-- The pages of a table that is there are passed over.
make_tables-found :
    (alloc : Alloc) (left i t : ℕ) (k : Kernel)
    → t < 1023
    → t * 4194304 ≤ i
    → i + 4096 * left ≤ (t + 1) * 4194304
    → 0 < load32 k.mem (table_slot k.kernel_directory t)
    → make_tables alloc left i k ≡ ok k
unfolding make_tables
make_tables-found alloc zero i t k small low high there = refl
make_tables-found alloc (suc left) i t k small low high there =
    let same : table_of i ≡ t = omega arith in
    let next : add32 i 4096 ≡ i + 4096 = omega arith in
    let found =
      get_page-found (kmalloc0_ap alloc sizeof_page_table) i 1 k.kernel_directory k
        (rw same there) in
    rw (found, next)
      (make_tables-found alloc left (i + 4096) t k small (omega arith) (omega arith) there)

abbrev pub next_page : (placement : ℕ) → ℕ
next_page placement = (placement / 4096 + 1) * 4096

make_table-placed :
    (alloc : Alloc) (k : Kernel)
    → k.kernel_heap ≡ none
    → 4096 ≤ k.placement_address
    → k.placement_address < 4294950000
    → kmalloc0_ap alloc sizeof_page_table k
      ≡ ok (
        next_page k.placement_address,
        next_page k.placement_address,
        after_placing sizeof_page_table 3 (next_page k.placement_address) k,
      )
unfolding kmalloc0_ap
make_table-placed alloc k no_heap low high =
    let at : placed_at 3 k.placement_address ≡ next_page k.placement_address = ground arith in
    _kmalloc-placed alloc sizeof_page_table true 3 k no_heap (omega arith) (omega (arith, at))
    ∙ rw at

-- Before the heap is there, with the directory below the placement address and no table for the pages of
-- the heap, make_tables over the 256 pages takes exactly one block, at the next page border: the
-- placement address ends behind it. Then get_page without create gives each of these pages, one after
-- the other in that block, and each is still empty.
pub make_tables-heap_pages :
    (alloc : Alloc) (k : Kernel)
    → k.kernel_heap ≡ none
    → k.kernel_directory + 8196 ≤ k.placement_address
    → k.placement_address < 4294950000
    → load32 k.mem (table_slot k.kernel_directory (table_of vm_kern_heap_start)) ≡ 0
    → (k'' : Kernel) × (make_tables alloc 256 vm_kern_heap_start k ≡ ok k'')
      × (k''.placement_address ≡ next_page k.placement_address + 4096)
      × ((n : ℕ)
          → n < 256
          → (page_of alloc (vm_kern_heap_start + 4096 * n) 0 k''
              ≡ ok (next_page k.placement_address + 4 * n, k''))
            × (load32 k''.mem (next_page k.placement_address + 4 * n) ≡ 0))
unfolding make_tables
make_tables-heap_pages alloc k no_heap below high missing =
    let table = next_page k.placement_address in
    let k' = after_placing sizeof_page_table 3 table k in
    let k'' = with_table k.kernel_directory 768 table table k' in
    let made =
      get_page-made (kmalloc0_ap alloc sizeof_page_table) vm_kern_heap_start k.kernel_directory
        table table k k' missing (make_table-placed alloc k no_heap (omega arith) high) in
    let there : load32 k''.mem (table_slot k.kernel_directory 768) ≡ table =
      load32-with_table k.kernel_directory 768 table table k' (omega arith) (omega arith) in
    (
      k'',
      rw made (
          make_tables-found alloc 255 (vm_kern_heap_start + 4096) 768 k'' (omega arith)
            (omega arith) (omega arith) (omega (arith, there))),
      refl,
      λ n small. (
        (let same : table_of (vm_kern_heap_start + 4096 * n) ≡ 768 = omega arith in
            let entry : entry_of (vm_kern_heap_start + 4096 * n) ≡ n = omega arith in
            rw (
              get_page-found (kmalloc0_ap alloc sizeof_page_table) (vm_kern_heap_start + 4096 * n) 0
                  k.kernel_directory k'' (rw same (omega (arith, there))),
              same,
              entry,
              there,
            )),
        rw (
          load32-store32_ne (store32 k'.mem (table_slot k.kernel_directory 768) table)
              (tblphys_slot k.kernel_directory 768) (table + 4 * n) (bit_or table 7) (ground arith),
          load32-store32_ne k'.mem (table_slot k.kernel_directory 768) (table + 4 * n) table
              (ground arith),
          load32-bzero k.mem table 4096 (table + 4 * n) (omega arith) (omega arith),
        ),
      ),
    )
