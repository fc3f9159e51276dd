-- ===== src/Paging/Tests.antt =====
-- Runs of the frame allocator, and its theorems at a bitset of 64 frames.
use james_m.Base.{
  [], ◌∷◌, panic, fault, out_of_fuel, ℕ, zero, suc, ◌<◌, ◌≤◌, ◌≡◌, ◌⊎◌, refl, arith, ok, none, some,
  inr, ◌+◌, ◌*◌, Run, u32, bit_or, if◌then◌else◌, ◌==◌, ◌/◌,
}
use james_m.Bits.{bit}
use james_m.Memory.{Mem, store32, load32}
use james_m.Memory.Words.{IsBytes, store32-IsBytes}
use james_m.Kernel.{Kernel}
use james_m.Paging.{
  set_frame, page_word, first_frame, first_word, free_bit, first_bit, alloc_frame, free_frame,
  load_page, word_page, get_page, table_slot, tblphys_slot,
}
use james_m.Paging.Frames.{used}
use james_m.Paging.Search.{FirstZero, found, searched, first_frame_lem}
use james_m.Paging.Tables.{table_of, entry_of, get_page-get_page}
use james_m.Paging.Grants.{Grants, start, grant, Granted, Grants-Granted}
use james_m.Paging.Alloc.{Apart, mapped, alloc_frame-first, free_frame-leaks}

abbrev zeros : Mem
zeros _ = 0

-- Frames 0 and 1 are used; the page at 0x2000 has no frame, the page at 0x2004 has frame 1.
abbrev small : Kernel
small = record {
  mem = store32 (store32 zeros 0x1000 3) 0x2004 0x1007;
  frames = 0x1000;
  nframes = 64;
  kernel_directory = 0x4000;
  current_directory = 0;
  placement_address = 0x8000;
  cr0 = 0;
  cr3 = 0;
  kernel_heap = none;
}

small-IsBytes : IsBytes small.mem
small-IsBytes = store32-IsBytes _ 0x2004 0x1007 (store32-IsBytes _ 0x1000 3 (λ a. omega arith))

first_frame-small : first_frame small ≡ 2
unfolding first_frame first_word free_bit first_bit load32 store32
first_frame-small = refl

used-small : (used small 0 ≡ 1) × (used small 1 ≡ 1) × (used small 2 ≡ 0)
unfolding used bit load32 store32
used-small = (refl, refl, refl)

below_two : (i : ℕ) → 0 ≤ i → i < 2 → used small i ≡ 1
below_two zero p q = used-small.0
below_two (suc zero) p q = used-small.1
below_two (suc (suc i)) p q = absurd (omega arith)

first_small : FirstZero (used small) 0 (searched small) (some 2)
first_small = found (omega arith) (omega arith) used-small.2 below_two

unmapped : (load_page small 0x2000).p_frame ≡ 0
unfolding load32 store32 word_page
unmapped = refl

first_frame_lem_example :
    (FirstZero (used small) 0 (searched small) (some (first_frame small)))
    ⊎ ((first_frame small ≡ 0xFFFFFFFF) × FirstZero (used small) 0 (searched small) none)
first_frame_lem_example = first_frame_lem small

alloc_frame-first_example :
    (k' : Kernel) × (alloc_frame small 0x2000 1 0 ≡ ok k')
    × (load_page k' 0x2000 ≡ mapped (load_page small 0x2000) 2 1 0)
    × ((g : ℕ) → g < searched small → used k' g ≡ (if 2 == g then 1 else used small g))
alloc_frame-first_example =
    alloc_frame-first small 0x2000 small-IsBytes (inr (omega arith)) 1 0 2 (omega arith) unmapped
      first_small

has_frame_one : (load_page small 0x2004).p_frame ≡ 1
unfolding load32 store32 word_page
has_frame_one = refl

free_frame-leaks_example :
    ((load_page (free_frame small 0x2004) 0x2004).p_frame ≡ 0)
    × ((g : ℕ)
        → g < searched small
        → used (free_frame small 0x2004) g
          ≡ (if (load_page small 0x2004).p_frame / 4096 == g then 0 else used small g))
    × (used (free_frame small 0x2004) (load_page small 0x2004).p_frame
        ≡ used small (load_page small 0x2004).p_frame)
free_frame-leaks_example =
    free_frame-leaks small 0x2004 small-IsBytes (inr (omega arith)) (omega (arith, has_frame_one))
      (omega (arith, has_frame_one))

-- A page table is always made at 0x8000.
abbrev at_8000 : Kernel → Run (ℕ × ℕ × Kernel)
at_8000 k = ok (0x8000, 0x8000, k)

no_table : load32 small.mem (table_slot 0x4000 (table_of 0x5000)) ≡ 0
unfolding load32 store32
no_table = refl

get_page-get_page_example :
    (k'' : Kernel) × (get_page at_8000 0x5000 1 0x4000 small
      ≡ ok (0x8000 + 4 * entry_of 0x5000, k''))
    × (load32 k''.mem (tblphys_slot 0x4000 (table_of 0x5000)) ≡ u32 (bit_or 0x8000 7))
    × ((other create : ℕ)
        → table_of other ≡ table_of 0x5000
        → get_page at_8000 other create 0x4000 k'' ≡ ok (0x8000 + 4 * entry_of other, k''))
    × ((other create : ℕ)
        → other < 4294967296
        → ¬ (table_of other ≡ table_of 0x5000)
        → 0 < load32 small.mem (table_slot 0x4000 (table_of other))
        → get_page at_8000 other create 0x4000 k''
          ≡ ok (load32 small.mem (table_slot 0x4000 (table_of other)) + 4 * entry_of other, k''))
get_page-get_page_example =
    get_page-get_page at_8000 0x5000 0x4000 0x8000 0x8000 small small (omega arith) no_table refl
      (omega arith) (omega arith)

abbrev with_frame : (p : ℕ) → Kernel → Kernel
with_frame p k = elim (alloc_frame k p 1 0) [ ok k' ↦ k' | panic ↦ k | fault ↦ k | out_of_fuel ↦ k ]

abbrev once : Kernel
once = with_frame 0x2000 small

abbrev twice : Kernel
twice = with_frame 0x2008 once

first_granted : alloc_frame small 0x2000 1 0 ≡ ok once
unfolding alloc_frame first_frame first_word free_bit first_bit load32 store32 word_page
first_granted = refl

second_granted : alloc_frame once 0x2008 1 0 ≡ ok twice
unfolding alloc_frame first_frame first_word free_bit first_bit set_frame load32 store32 word_page
    page_word
second_granted = refl

second_unmapped : (load_page once 0x2008).p_frame ≡ 0
unfolding alloc_frame first_frame first_word free_bit first_bit set_frame load32 store32 word_page
    page_word
second_unmapped = refl

once-Apart : Apart once 0x2008
unfolding alloc_frame first_frame first_word free_bit first_bit set_frame load32 store32 word_page
    page_word
once-Apart = inr (omega arith)

twice-Grants :
    Grants small ((load_page twice 0x2008).p_frame ∷ (load_page once 0x2000).p_frame ∷ []) twice
twice-Grants =
    grant twice 0x2008 1 0 (grant once 0x2000 1 0 start (inr (omega arith)) unmapped first_granted)
      once-Apart second_unmapped second_granted

Grants-Granted_example :
    Granted small twice ((load_page twice 0x2008).p_frame ∷ (load_page once 0x2000).p_frame ∷ [])
Grants-Granted_example = Grants-Granted small _ twice small-IsBytes (omega arith) twice-Grants
