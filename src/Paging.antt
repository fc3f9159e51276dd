-- ===== src/Paging.antt =====
-- src/paging.c: the bitset of physical frames, the frame of a page, and the page directory.
--
-- A `struct vm_page` is one word of bit fields, the lowest bits first; a page is named by its
-- address, and `NULL` is 0.
pub mod Page
pub mod Frames
pub mod Search
pub mod Alloc
pub mod Tables
pub mod Grants
mod Tests
use james_m.Base.{
  ℕ, zero, suc, ◌+◌, ◌-◌, ◌*◌, ◌/◌, ◌%◌, ◌^◌, Bool, true, false, Option, none, some, Run, ok, panic,
  ◌==◌, ltb, if◌then◌else◌, bit_and, bit_or, u32, ◌>>=◌,
}
use james_m.Memory.{Mem, load32, store32}
use james_m.Kernel.{Kernel}

-- `struct vm_page` of src/include/paging.h.
pub record VmPage : Type 0 where
  pub p_present : ℕ
  pub p_rw : ℕ
  pub p_user : ℕ
  pub p_accessed : ℕ
  pub p_dirty : ℕ
  pub p_unused : ℕ
  pub p_frame : ℕ

-- The word of a page, and the page of a word.
unfoldable pub page_word : VmPage → ℕ
page_word p =
    p.p_present % 2
    + 2 * (p.p_rw % 2)
    + 4 * (p.p_user % 2)
    + 8 * (p.p_accessed % 2)
    + 16 * (p.p_dirty % 2)
    + 32 * (p.p_unused % 128)
    + 4096 * (p.p_frame % 1048576)

unfoldable pub word_page : ℕ → VmPage
word_page w = record {
  p_present = w % 2;
  p_rw = w / 2 % 2;
  p_user = w / 4 % 2;
  p_accessed = w / 8 % 2;
  p_dirty = w / 16 % 2;
  p_unused = w / 32 % 128;
  p_frame = w / 4096 % 1048576;
}

abbrev pub load_page : Kernel → ℕ → VmPage
load_page k p = word_page (load32 k.mem p)

abbrev pub store_page : Kernel → ℕ → VmPage → Kernel
store_page k p page = record k { mem = store32 k.mem p (page_word page) }

-- INDEX_FROM_BIT and OFFSET_FROM_BIT.
abbrev pub index_from_bit : ℕ → ℕ
index_from_bit a = a / 32

abbrev pub offset_from_bit : ℕ → ℕ
offset_from_bit a = a % 32

-- The address of `frames[idx]`.
abbrev pub frame_word : Kernel → ℕ → ℕ
frame_word k idx = k.frames + 4 * idx

unfoldable pub set_frame : Kernel → ℕ → Kernel
set_frame k frame_addr =
    let frame = frame_addr / 4096 in
    let idx = index_from_bit frame in
    let off = offset_from_bit frame in
    record k {
      mem = store32 k.mem (frame_word k idx) (bit_or (load32 k.mem (frame_word k idx)) (2 ^ off));
    }

-- `~(0x1 << off)` is `2 ^ 32 - 1 - 2 ^ off`.
unfoldable pub clear_frame : Kernel → ℕ → Kernel
clear_frame k frame_addr =
    let frame = frame_addr / 4096 in
    let idx = index_from_bit frame in
    let off = offset_from_bit frame in
    record k {
      mem =
          store32 k.mem (frame_word k idx)
            (bit_and (load32 k.mem (frame_word k idx)) (2 ^ 32 - 1 - 2 ^ off));
    }

unfoldable pub test_frame : Kernel → ℕ → ℕ
test_frame k frame_addr =
    let frame = frame_addr / 4096 in
    let idx = index_from_bit frame in
    let off = offset_from_bit frame in bit_and (load32 k.mem (frame_word k idx)) (2 ^ off)

-- `for (j = 0; j < 32; j++)`, with `left` rounds to go.
unfoldable pub first_bit : ℕ → (left j : ℕ) → Option ℕ
first_bit w zero j = none
first_bit w (suc left) j =
    let rest = first_bit w left (j + 1) in if bit_and w (2 ^ j) == 0 then some j else rest

-- What a word of the bitset adds to the outer loop of `first_frame`: the early `continue` on a full
-- word, or the loop over its bits.
unfoldable pub free_bit : ℕ → Option ℕ
free_bit w = if w == 0xFFFFFFFF then none else first_bit w 32 0

-- `for (i = 0; i < INDEX_FROM_BIT(nframes); i++)`, with `left` rounds to go; `none` is the end.
unfoldable pub first_word : Kernel → (left i : ℕ) → Option ℕ
first_word k zero i = none
first_word k (suc left) i = elim (free_bit (load32 k.mem (frame_word k i))) [
  | none ↦ first_word k left (i + 1)
  | some j ↦ some (i * 4 * 8 + j)
]

-- -1 as a uint32_t when no frame is free.
unfoldable pub first_frame : Kernel → ℕ
first_frame k = elim (first_word k (index_from_bit k.nframes) 0) [ none ↦ 0xFFFFFFFF | some f ↦ f ]

abbrev pub flag : ℕ → ℕ
flag b = if b == 0 then 0 else 1

unfoldable pub alloc_frame : Kernel → ℕ → (is_kernel is_writeable : ℕ) → Run Kernel
alloc_frame k p is_kernel is_writeable =
    if (load_page k p).p_frame == 0
    then (let idx = first_frame k in
        if idx == 0xFFFFFFFF
        then panic
        else (let k' = set_frame k (u32 (idx * 4096)) in
            ok (
              store_page k' p (record (load_page k' p) {
                p_present = 1;
                p_frame = idx;
                p_rw = flag is_writeable;
                p_user = if is_kernel == 0 then 1 else 0;
              }))))
    else ok k

unfoldable pub free_frame : Kernel → ℕ → Kernel
free_frame k p =
    if (load_page k p).p_frame == 0
    then k
    else (let k' = clear_frame k (load_page k p).p_frame in
        store_page k' p (record (load_page k' p) { p_frame = 0 }))

-- Offsets in `struct vm_page_directory`: the pointers to the page tables, and their physical addresses.
abbrev pub table_slot : ℕ → ℕ → ℕ
table_slot dir idx = dir + 4 * idx

abbrev pub tblphys_slot : ℕ → ℕ → ℕ
tblphys_slot dir idx = dir + 4096 + 4 * idx

-- `make_table` is the call `kmalloc0_ap(sizeof(struct vm_page_table), &tmp)`: an address and `tmp`. It
-- is made only if `create` is not 0 and the table is missing. The result is 0 for NULL.
unfoldable pub get_page :
    (Kernel → Run (ℕ × ℕ × Kernel)) → (address create dir : ℕ) → Kernel → Run (ℕ × Kernel)
get_page make_table address create dir k =
    let page = address / 4096 in
    let idx = page / 1024 in
    let table = load32 k.mem (table_slot dir idx) in
    if table == 0
    then (if create == 0
        then ok (0, k)
        else (make_table k >>= λ (made, tmp, k').
            let m1 = store32 k'.mem (table_slot dir idx) made in
            let m2 = store32 m1 (tblphys_slot dir idx) (bit_or tmp 7) in
            ok (made + 4 * (page % 1024), record k' { mem = m2 })))
    else ok (table + 4 * (page % 1024), k)

unfoldable pub switch_page_directory : ℕ → Kernel → Kernel
switch_page_directory dir k = record k {
  current_directory = dir;
  cr3 = tblphys_slot dir 0;
  cr0 = bit_or k.cr0 0x80000000;
}
