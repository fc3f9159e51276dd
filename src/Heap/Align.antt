-- ===== src/Heap/Align.antt =====
-- What alloc and the heap's page arithmetic do with addresses that are to be aligned.
use james_m.Base.{ℕ, ◌+◌, ◌-◌, ◌*◌, ◌/◌, ◌%◌, ◌≤◌, ◌<◌, ◌≡◌, ◌≢◌, arith, if◌then◌else◌, leb}
use james_m.Bits.{bit_and_page}
use james_m.Kernel.{Kernel}
use james_m.Heap.{round_up}

-- `if (x & 0xFFFFF000)` asks whether x lies above the first page, not whether it is aligned. So
-- round_up leaves a number below 4096, aligned or not; every other number goes to the start of the
-- next page, also one that is aligned; and the last page wraps to 0.
pub round_up_lem :
    (x : ℕ)
    → x < 4294967296
    → round_up x ≡ (if leb 4096 x then (x / 4096 + 1) * 4096 % 4294967296 else x)
unfolding round_up
round_up_lem x h = rw (bit_and_page x h) (ground arith)

module _ (page_align i pos total : ℕ) (k : Kernel) (wanted : page_align ≢ 0) (above : 4096 ≤ pos)
    (small : pos + 4096 < 4294967296) where
  -- Where the block will begin.
  abbrev site_pos : ℕ
  site_pos = pos + 4096 - pos % 4096 - 12

  aligned : (site_pos + 12) % 4096 ≡ 0
  aligned = omega arith
