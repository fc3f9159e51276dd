-- ===== src/Memory/Regions.antt =====
-- Memories that agree outside a region.
use james_m.Base.{ℕ, ◌+◌, ◌≤◌, ◌<◌, ◌≡◌, ◌⊎◌, ◌∙◌, arith}
use james_m.Memory.{Mem, load32, store32}
use james_m.Memory.Words.{store32_elsewhere}

-- `m'` is `m` but for bytes at `lo`, …, `hi - 1`.
abbrev pub SameOutside : (lo hi : ℕ) → Mem → Mem → Type 0
SameOutside lo hi m m' = (a : ℕ) → (a < lo) ⊎ (hi ≤ a) → m' a ≡ m a

pub load32-SameOutside :
    (lo hi : ℕ) (m m' : Mem) (p : ℕ)
    → SameOutside lo hi m m'
    → (p + 4 ≤ lo) ⊎ (hi ≤ p)
    → load32 m' p ≡ load32 m p
unfolding load32
load32-SameOutside lo hi m m' p same h = omega (
  arith,
  same p (omega arith),
  same (p + 1) (omega arith),
  same (p + 2) (omega arith),
  same (p + 3) (omega arith),
)

pub SameOutside-store32 :
    (lo hi : ℕ) (m m' : Mem) (p v : ℕ)
    → lo ≤ p
    → p + 4 ≤ hi
    → SameOutside lo hi m m'
    → SameOutside lo hi m (store32 m' p v)
SameOutside-store32 lo hi m m' p v h k same a out =
    store32_elsewhere m' p v a (omega arith) ∙ same a out

pub SameOutside-trans :
    (lo hi : ℕ) (m m' m'' : Mem)
    → SameOutside lo hi m m'
    → SameOutside lo hi m' m''
    → SameOutside lo hi m m''
SameOutside-trans lo hi m m' m'' p q a out = q a out ∙ p a out

pub load32_ext :
    (m m' : Mem) (p : ℕ) → ((a : ℕ) → p ≤ a → a < p + 4 → m' a ≡ m a) → load32 m' p ≡ load32 m p
unfolding load32
load32_ext m m' p same = omega (
  arith,
  same p (omega arith) (omega arith),
  same (p + 1) (omega arith) (omega arith),
  same (p + 2) (omega arith) (omega arith),
  same (p + 3) (omega arith) (omega arith),
)

-- Memories that agree below `limit`.
abbrev pub SameBelow : (limit : ℕ) → Mem → Mem → Type 0
SameBelow limit m m' = (a : ℕ) → a < limit → m' a ≡ m a
