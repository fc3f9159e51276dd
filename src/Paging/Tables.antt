-- ===== src/Paging/Tables.antt =====
-- get_page: the table that it makes, and the pages that it finds in it afterwards.
use james_m.Base.{ℕ, ◌+◌, ◌*◌, ◌/◌, ◌%◌, ◌<◌, ◌≡◌, arith, Run, ok, bit_or, u32}
use james_m.Memory.{load32, store32}
use james_m.Memory.Words.{load32-store32, load32-store32_wrapped, load32-store32_ne}
use james_m.Kernel.{Kernel}
use james_m.Paging.{table_slot, tblphys_slot, get_page}

-- The index of the table of an address in the directory, and of its page in the table.
abbrev pub table_of : (address : ℕ) → ℕ
table_of address = address / 4096 / 1024

abbrev pub entry_of : (address : ℕ) → ℕ
entry_of address = address / 4096 % 1024

-- The directory with a table at `made`, of the physical address `tmp`.
abbrev pub with_table : (dir idx made tmp : ℕ) → Kernel → Kernel
with_table dir idx made tmp k = record k {
  mem = store32 (store32 k.mem (table_slot dir idx) made) (tblphys_slot dir idx) (bit_or tmp 7);
}

pub get_page-found :
    (make_table : Kernel → Run (ℕ × ℕ × Kernel)) (address create dir : ℕ) (k : Kernel)
    → 0 < load32 k.mem (table_slot dir (table_of address))
    → get_page make_table address create dir k
      ≡ ok (load32 k.mem (table_slot dir (table_of address)) + 4 * entry_of address, k)
unfolding get_page
get_page-found make_table address create dir k there = ground arith

pub get_page-made :
    (make_table : Kernel → Run (ℕ × ℕ × Kernel)) (address dir made tmp : ℕ) (k k' : Kernel)
    → load32 k.mem (table_slot dir (table_of address)) ≡ 0
    → make_table k ≡ ok (made, tmp, k')
    → get_page make_table address 1 dir k
      ≡ ok (made + 4 * entry_of address, with_table dir (table_of address) made tmp k')
unfolding get_page
get_page-made make_table address dir made tmp k k' missing call = rw (missing, call)

pub load32-with_table :
    (dir idx made tmp : ℕ) (k : Kernel)
    → idx < 1024
    → made < 4294967296
    → load32 (with_table dir idx made tmp k).mem (table_slot dir idx) ≡ made
load32-with_table dir idx made tmp k small word = rw (
  load32-store32_ne (store32 k.mem (table_slot dir idx) made) (tblphys_slot dir idx)
      (table_slot dir idx) (bit_or tmp 7) (ground arith),
  load32-store32 k.mem (table_slot dir idx) made word,
)

pub load32-with_table_ne :
    (dir idx made tmp : ℕ) (k : Kernel) (j : ℕ)
    → idx < 1024
    → j < 1024
    → ¬ (j ≡ idx)
    → load32 (with_table dir idx made tmp k).mem (table_slot dir j)
      ≡ load32 k.mem (table_slot dir j)
load32-with_table_ne dir idx made tmp k j small small' apart = rw (
  load32-store32_ne (store32 k.mem (table_slot dir idx) made) (tblphys_slot dir idx)
      (table_slot dir j) (bit_or tmp 7) (ground arith),
  load32-store32_ne k.mem (table_slot dir idx) (table_slot dir j) made (ground arith),
)

-- Where the table of a 32-bit address is missing and make_table gives a block at `made`, not 0 and of
-- 32 bits, get_page with create returns the place of the page in that block, and the directory holds
-- the physical address of the table with the three lowest bits set. From then on get_page finds every
-- page of that table there, with create and without, and changes nothing; and it finds the pages of
-- the other tables that are there after make_table where they were.
pub get_page-get_page :
    (make_table : Kernel → Run (ℕ × ℕ × Kernel)) (address dir made tmp : ℕ) (k k' : Kernel)
    → address < 4294967296
    → load32 k.mem (table_slot dir (table_of address)) ≡ 0
    → make_table k ≡ ok (made, tmp, k')
    → 0 < made
    → made < 4294967296
    → (k'' : Kernel) × (get_page make_table address 1 dir k ≡ ok (made + 4 * entry_of address, k''))
      × (load32 k''.mem (tblphys_slot dir (table_of address)) ≡ u32 (bit_or tmp 7))
      × ((other create : ℕ)
          → table_of other ≡ table_of address
          → get_page make_table other create dir k'' ≡ ok (made + 4 * entry_of other, k''))
      × ((other create : ℕ)
          → other < 4294967296
          → ¬ (table_of other ≡ table_of address)
          → 0 < load32 k'.mem (table_slot dir (table_of other))
          → get_page make_table other create dir k''
            ≡ ok (load32 k'.mem (table_slot dir (table_of other)) + 4 * entry_of other, k''))
get_page-get_page make_table address dir made tmp k k' word missing call present small =
    let k'' = with_table dir (table_of address) made tmp k' in
    (
      k'',
      get_page-made make_table address dir made tmp k k' missing call,
      load32-store32_wrapped _ _ (bit_or tmp 7),
      (λ other create same.
          let there : load32 k''.mem (table_slot dir (table_of other)) ≡ made =
            rw same (load32-with_table dir (table_of address) made tmp k' (omega arith) small) in
          rw (get_page-found make_table other create dir k'' (omega arith), there)),
      λ other create word' apart there'.
          let there : load32 k''.mem (table_slot dir (table_of other))
              ≡ load32 k'.mem (table_slot dir (table_of other)) =
            load32-with_table_ne dir (table_of address) made tmp k' (table_of other) (omega arith)
              (omega arith) apart in
          rw (get_page-found make_table other create dir k'' (omega arith), there),
    )
