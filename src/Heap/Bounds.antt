-- ===== src/Heap/Bounds.antt =====
-- The size that contract chooses, and the ends of its loop and of free.
use james_m.Base.{
  ℕ, zero, suc, ◌+◌, ◌*◌, ◌/◌, ◌%◌, ◌≤◌, ◌<◌, ◌≡◌, arith, Run, ok, fault, ◌==◌, ltb, if◌then◌else◌,
  add32, sub32, Halts, Halts->>=, Halts-if, Halts-option, Halts-kassert, halts_ok, halts_fault,
  ◌||◌, Bool-cases, inl, inr,
}
use james_m.Bits.{bit, bit_and_one_bit}
use james_m.Memory.{Mem, store32}
use james_m.SortedArray.{SortedArray}
use james_m.SortedArray.Ends.{
  insert_sorted_array-Halts, lookup_sorted_array-Halts, remove_sorted_array-Halts,
}
use james_m.Kernel.{Kernel}
use james_m.Paging.{get_page}
use james_m.Heap.{
  the_heap, insert_index, remove_index, hh_magic, hh_size, hf_magic, hdr_magic, ftr_magic,
}
use james_m.Heap.Resize.{contract_size, unmap_page, contract_loop, contract}
use james_m.Heap.Free.{
  Freed, index_of_from, index_of, unify_right, remove_found, trim, unify_left, free_block, free,
}

-- `if (new_size & 0x1000) { new_size &= 0x1000; …}` keeps only bit 12 of the size. So contract goes to
-- the lower limit of 0x70000 bytes whenever bit 12 of the wanted size is set, whatever that size is,
-- and otherwise to the wanted size, without rounding it to pages, but not below the limit.
pub contract_size_lem :
    (n : ℕ) → contract_size n ≡ (if (n / 4096 % 2 == 1) || ltb n 0x70000 then 0x70000 else n)
unfolding contract_size bit
contract_size_lem n = ground (arith, bit_and_one_bit 12 n)

contract_size-le : (n : ℕ) → 0x70000 ≤ contract_size n
contract_size-le n = ground (arith, contract_size_lem n)

the_heap-Halts : (k : Kernel) → Halts (the_heap k)
unfolding the_heap
the_heap-Halts k = Halts-option k.kernel_heap fault ok halts_fault (λ h. halts_ok)

get_page-Halts :
    (make_table : Kernel → Run (ℕ × ℕ × Kernel)) (address create dir : ℕ) (k : Kernel)
    → ((k : Kernel) → Halts (make_table k))
    → Halts (get_page make_table address create dir k)
unfolding get_page
get_page-Halts make_table address create dir k h =
    Halts-if _ (Halts-if _ halts_ok (Halts->>= (h k) (λ r. halts_ok))) halts_ok

unmap_page-Halts : (i : ℕ) (k : Kernel) → Halts (unmap_page i k)
unfolding unmap_page
unmap_page-Halts i k = Halts->>= (the_heap-Halts k) λ h.
    Halts->>= (get_page-Halts (λ _. fault) _ 0 _ k (λ k. halts_fault))
      λ r. Halts-if _ halts_fault halts_ok

contract_loop-Halts :
    (fuel i new_size : ℕ) (k : Kernel)
    → i < 4096 * fuel
    → i < 4294967296
    → 4096 ≤ new_size
    → Halts (contract_loop fuel i new_size k)
unfolding contract_loop
contract_loop-Halts zero i new_size k enough w le = absurd (omega arith)
contract_loop-Halts (suc fuel) i new_size k enough w le = elim (Bool-cases (ltb new_size i)) [
  | inl more ↦ rw more (
      Halts->>= (unmap_page-Halts i k)
        λ k'. contract_loop-Halts fuel (sub32 i 4096) new_size k' (ground arith) (omega arith) le)
  | inr done ↦ rw done halts_ok
]

contract-Halts : (n : ℕ) (k : Kernel) → Halts (contract n k)
unfolding contract
contract-Halts n k = Halts->>= (the_heap-Halts k) λ h. Halts->>= (Halts-kassert _) λ _.
    Halts->>=
      (contract_loop-Halts _ _ (contract_size n) k (omega arith) (omega arith)
        (omega (arith, contract_size-le n)))
      λ k'. Halts->>= (the_heap-Halts k') λ h'. halts_ok

insert_index-Halts : (k : Kernel) (el : ℕ) → Halts (insert_index k el)
insert_index-Halts k el =
    Halts->>= (the_heap-Halts k)
      λ h. Halts->>= (insert_sorted_array-Halts k.mem h.h_index el) λ r. halts_ok

remove_index-Halts : (k : Kernel) (i : ℕ) → Halts (remove_index k i)
remove_index-Halts k i =
    Halts->>= (the_heap-Halts k)
      λ h. Halts->>= (remove_sorted_array-Halts k.mem h.h_index i) λ r. halts_ok

index_of_from-Halts :
    (m : Mem) (a : SortedArray) (el left i : ℕ) → Halts (index_of_from m a el left i)
unfolding index_of_from
index_of_from-Halts m a el zero i = halts_ok
index_of_from-Halts m a el (suc left) i =
    Halts->>= (lookup_sorted_array-Halts m a i)
      λ x. Halts-if (x == el) halts_ok (index_of_from-Halts m a el left (i + 1))

index_of-Halts : (m : Mem) (a : SortedArray) (el : ℕ) → Halts (index_of m a el)
unfolding index_of
index_of-Halts m a el = index_of_from-Halts m a el a.sa_size 0

remove_found-Halts : (test_header : ℕ) (k : Kernel) → Halts (remove_found test_header k)
unfolding remove_found
remove_found-Halts test_header k = Halts->>= (the_heap-Halts k) λ h.
    Halts->>= (index_of-Halts k.mem h.h_index test_header)
      λ i. Halts-if _ (remove_index-Halts k i) halts_ok

unify_right-Halts : (test_header : ℕ) (s : Freed) → Halts (unify_right test_header s)
unfolding unify_right
unify_right-Halts test_header s =
    Halts-if _
      (Halts->>= (the_heap-Halts s.state) λ h.
        Halts->>= (index_of-Halts _ h.h_index test_header)
          λ i. Halts->>= (Halts-kassert _) λ _. Halts->>= (remove_index-Halts _ i) λ k'. halts_ok)
      halts_ok

trim-Halts : (test_header : ℕ) (s : Freed) → Halts (trim test_header s)
unfolding trim
trim-Halts test_header s = Halts->>= (the_heap-Halts s.state) λ h.
    Halts-if _
      (Halts->>= (contract-Halts _ s.state)
        λ r. Halts-if _ (Halts->>= (remove_found-Halts test_header r.1) λ k2. halts_ok) halts_ok)
      halts_ok

free_block-Halts : (p : ℕ) (k : Kernel) → Halts (free_block p k)
unfolding free_block
free_block-Halts p k =
    let header = sub32 p 12 in
    let footer = sub32 (add32 header (hh_size k.mem header)) 8 in
    let s1 = unify_left header footer (record k { mem = store32 k.mem (header + 4) 1 }) in
    let test_header = add32 s1.footer 8 in
    Halts->>= (Halts-kassert (hh_magic k.mem header == hdr_magic)) λ _.
      Halts->>= (Halts-kassert (hf_magic k.mem footer == ftr_magic)) λ _.
        Halts->>= (unify_right-Halts test_header s1) λ s2.
          Halts->>= (trim-Halts test_header s2)
            λ s3. Halts-if s3.do_add (insert_index-Halts s3.state s3.header) halts_ok

-- Every call of free returns, panics at an assertion or faults: the loop of contract ends within its
-- fuel in every state.
pub free-Halts : (p : ℕ) (k : Kernel) → Halts (free p k)
unfolding free
free-Halts p k =
    Halts-if (p == 0) halts_ok
      (Halts-option k.kernel_heap (ok k) (λ _. free_block p k) halts_ok λ h. free_block-Halts p k)
