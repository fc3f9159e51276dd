-- ===== src/Heap/Free.antt =====
-- free of src/heap.c.
use james_m.Base.{
  ℕ, zero, suc, ◌+◌, Bool, true, false, none, some, Run, ok, ◌>>=◌, ◌>>◌, kassert, ◌==◌, ltb,
  if◌then◌else◌, add32, sub32, ◌&&◌, not,
}
use james_m.Memory.{Mem, store32}
use james_m.SortedArray.{SortedArray, lookup_sorted_array}
use james_m.Kernel.{Kernel}
use james_m.Heap.{
  hh_magic, hh_is_hole, hh_size, hf_magic, hf_header, store_footer, hdr_magic, ftr_magic, the_heap,
  insert_index, remove_index,
}
use james_m.Heap.Resize.{contract}

-- The local variables of free that its steps hand on.
pub record Freed : Type 0 where
  pub header : ℕ
  pub footer : ℕ
  pub do_add : Bool
  pub state : Kernel

-- If a hole ends where the block begins, the block joins it.
unfoldable pub unify_left : (header footer : ℕ) → Kernel → Freed
unify_left header footer k =
    let m = k.mem in
    let test_footer = sub32 header 8 in
    let left = hf_header m test_footer in
    if (hf_magic m test_footer == ftr_magic) && (hh_is_hole m left == 1)
    then (let cache_size = hh_size m header in
        let m1 = store32 m (footer + 4) left in
        let m2 = store32 m1 (left + 8) (add32 (hh_size m1 left) cache_size) in
        record { header = left; footer = footer; do_add = false; state = record k { mem = m2 } })
    else record { header = header; footer = footer; do_add = true; state = k }

-- `while (i < sa_size && lookup_sorted_array(&heap->h_index, i) != el) i++;`, with `left` to go.
unfoldable pub index_of_from : Mem → SortedArray → (el left i : ℕ) → Run ℕ
index_of_from m a el zero i = ok i
index_of_from m a el (suc left) i =
    let rest = index_of_from m a el left (i + 1) in
    lookup_sorted_array m a i >>= λ x. if x == el then ok i else rest

unfoldable pub index_of : Mem → SortedArray → ℕ → Run ℕ
index_of m a el = index_of_from m a el a.sa_size 0

-- If a hole begins where the block ends, it joins the block and leaves the index. The header that was
-- looked at is `test_header`.
unfoldable pub unify_right : (test_header : ℕ) → Freed → Run Freed
unify_right test_header s =
    let m = s.state.mem in
    if (hh_magic m test_header == hdr_magic) && not (hh_is_hole m test_header == 0)
    then (do
      let m1 = store32 m (s.header + 8) (add32 (hh_size m s.header) (hh_size m test_header))
      let test_footer = sub32 (add32 test_header (hh_size m1 test_header)) 8
      h ← the_heap s.state
      i ← index_of m1 h.h_index test_header
      kassert (ltb i h.h_index.sa_size)
      k' ← remove_index (record (s.state) { mem = m1 }) i
      ok (record s { footer = test_footer; state = k' }))
    else ok s

-- `if (i < sa_size) remove_sorted_array(&heap->h_index, i);` after the search for `test_header`.
unfoldable pub remove_found : (test_header : ℕ) → Kernel → Run Kernel
remove_found test_header k = do
  h ← the_heap k
  i ← index_of k.mem h.h_index test_header
  if ltb i h.h_index.sa_size then remove_index k i else ok k

-- A hole at the end of the heap is given back as far as contract goes.
unfoldable pub trim : (test_header : ℕ) → Freed → Run Freed
trim test_header s = do
  h ← the_heap s.state
  if add32 s.footer 8 == h.h_addr_end
      then (do
        let old_length = sub32 h.h_addr_end h.h_addr_start
        (new_length, k1) ← contract (sub32 s.header h.h_addr_start) s.state
        let less = sub32 old_length new_length
        let size = sub32 (hh_size k1.mem s.header) less
        if size == 0
            then (do k2 ← remove_found test_header k1; ok (record s { state = k2 }))
            else (let m1 = store32 k1.mem (s.header + 8) size in
                let footer = sub32 (add32 s.header size) 8 in
                ok (record s {
                  footer = footer;
                  state = record k1 { mem = store_footer m1 footer s.header };
                })))
      else ok s

-- The part of free that follows its two early returns.
unfoldable pub free_block : (p : ℕ) → Kernel → Run Kernel
free_block p k = do
  let header = sub32 p 12
  let footer = sub32 (add32 header (hh_size k.mem header)) 8
  kassert (hh_magic k.mem header == hdr_magic)
  kassert (hf_magic k.mem footer == ftr_magic)
  let s1 = unify_left header footer (record k { mem = store32 k.mem (header + 4) 1 })
  let test_header = add32 s1.footer 8
  s2 ← unify_right test_header s1
  s3 ← trim test_header s2
  if s3.do_add then insert_index s3.state s3.header else ok s3.state

unfoldable pub free : (p : ℕ) → Kernel → Run Kernel
free p k = if p == 0 then ok k else elim k.kernel_heap [ none ↦ ok k | some _ ↦ free_block p k ]

-- kfree of src/kmalloc.c.
unfoldable pub kfree : (ptr : ℕ) → Kernel → Run Kernel
kfree ptr k = free ptr k
